-- ===== src/Queue/Fifo.antt =====
-- Each ring against the order in which pointers are stored and taken, over runs of the system.
use mathlib.Core.Path.{subst}
use ape_cpp_server.Base.{
  ◌==◌, if◌then◌else◌, Bool-cases, Option-cases, get_elem?, ℕ, ◌+◌, ◌-◌, ◌<◌, ◌≡◌, refl, sym, ap,
  ◌∙◌, inl, inr, false, some, List, [], ◌∷◌, ◌++◌, append-nil, append_assoc, arith,
}
use ape_cpp_server.Queue.{
  Priority, high, medium, low, MsgQueue, is_full, is_empty, MsgQueuePrio, queue_at, with_queue,
  store, fetch, notify_put, add_putter, drop_putter, choose, Putter, System, Event, put_q,
  put_wakes, put_times_out, get_q, get_wakes, get_times_out, enter_put, enter_get, leave_put,
  leave_get, step, run, start,
}
use ape_cpp_server.Queue.Ring.{items, IsRing, store-IsRing, items-store, fetch-IsRing, items-fetch}
use ape_cpp_server.Queue.Counters.{
  same, queue_at-with_queue, same-eq, queue_at-getters, queue_at-notify_get, get_turn_waits,
  get_turn_takes,
}

-- the pointers of a log that went through the ring of that priority
abbrev pub of_prio : Priority → List (Priority × ℕ) → List ℕ
of_prio r [] = []
of_prio r ((p, v) ∷ l) = if same r p then v ∷ of_prio r l else of_prio r l

of_prio-append :
    (r p : Priority) (v : ℕ) (l : List (Priority × ℕ))
    → of_prio r (l ++ ((p, v) ∷ [])) ≡ of_prio r l ++ (if same r p then v ∷ [] else [])
of_prio-append r p v [] = ground arith
of_prio-append r p v ((q, w) ∷ l) = ground (arith, of_prio-append r p v l)

-- what one ring holds, against the two logs
pub record IsFifo (r : Priority) (s : System) : Type 0 where
  pub ring : IsRing (queue_at r s.queue)
  pub order : of_prio r s.put_log ≡ of_prio r s.got_log ++ items (queue_at r s.queue)

pub not_full-room : (q : MsgQueue) → IsRing q → is_full q ≡ false → q.datasize < q.capacity
not_full-room q r h = ground (arith, r.size_in)

same-IsRing : (q q' : MsgQueue) → q' ≡ q → IsRing q → IsRing q'
same-IsRing q q' e r = rw e r

items-with_queue :
    (r p : Priority) (q : MsgQueue) (s : MsgQueuePrio)
    → items (queue_at r (with_queue p q s)) ≡ (if same r p then items q else items (queue_at r s))
items-with_queue r p q s = elim (Bool-cases (same r p)) [
  | inl e ↦ rw (queue_at-with_queue r p q s, e)
  | inr e ↦ rw (queue_at-with_queue r p q s, e)
]

IsRing-with_queue :
    (r p : Priority) (q : MsgQueue) (s : MsgQueuePrio)
    → IsRing (queue_at r s)
    → (r ≡ p → IsRing q)
    → IsRing (queue_at r (with_queue p q s))
IsRing-with_queue r p q s h k = elim (Bool-cases (same r p)) [
  | inl e ↦ rw (queue_at-with_queue r p q s, e) (k (same-eq r p e))
  | inr e ↦ rw (queue_at-with_queue r p q s, e) h
]

-- A change of a ring that leaves its pointers where they are.
keep-IsFifo :
    (r p : Priority) (q : MsgQueue) (s : System)
    → IsFifo r s
    → (IsRing (queue_at p s.queue) → IsRing q)
    → items q ≡ items (queue_at p s.queue)
    → IsFifo r (record s { queue = with_queue p q s.queue })
keep-IsFifo r p q s f hr hi = record {
  ring =
      IsRing-with_queue r p q s.queue f.ring
        (λ e. hr (subst (λ x. IsRing (queue_at x s.queue)) e f.ring));
  order = f.order ∙ ap (◌++◌ (of_prio r s.got_log)) (sym same_items);
}
  where
    same_items : items (queue_at r (with_queue p q s.queue)) ≡ items (queue_at r s.queue)
    same_items = elim (Bool-cases (same r p)) [
      | inl e ↦ cc (items-with_queue r p q s.queue, same-eq r p e, hi, e)
      | inr e ↦ cc (items-with_queue r p q s.queue, e)
    ]

store-IsFifo :
    (r p : Priority) (v : ℕ) (s : System)
    → is_full (queue_at p s.queue) ≡ false
    → IsFifo r s
    → IsFifo r (record s {
      queue = with_queue p (store v (queue_at p s.queue)) s.queue;
      put_log = s.put_log ++ ((p, v) ∷ []);
    })
store-IsFifo r p v s h f = record {
  ring = IsRing-with_queue r p (store v (queue_at p s.queue)) s.queue f.ring (λ e.
      store-IsRing v (queue_at p s.queue) (ring_p e)
        (not_full-room (queue_at p s.queue) (ring_p e) h));
  order = elim (Bool-cases (same r p)) [
    | inl e ↦ cc (
      e,
      same-eq r p e,
      f.order,
      of_prio-append r p v s.put_log,
      items-with_queue r p (store v (queue_at p s.queue)) s.queue,
      stored (same-eq r p e),
      append_assoc (of_prio r s.got_log) (items (queue_at p s.queue)) (v ∷ []),
    )
    | inr e ↦ cc (
      e,
      f.order,
      of_prio-append r p v s.put_log,
      items-with_queue r p (store v (queue_at p s.queue)) s.queue,
      append-nil (of_prio r s.put_log),
    )
  ];
}
  where
    ring_p : r ≡ p → IsRing (queue_at p s.queue)
    ring_p e = subst (λ x. IsRing (queue_at x s.queue)) e f.ring

    stored : r ≡ p → items (store v (queue_at p s.queue)) ≡ items (queue_at p s.queue) ++ (v ∷ [])
    stored e =
        items-store v (queue_at p s.queue) (ring_p e)
          (not_full-room (queue_at p s.queue) (ring_p e) h)

notify_put-IsRing : (q : MsgQueue) → IsRing q → IsRing (notify_put q)
notify_put-IsRing q r = ground arith

items-notify_put : (q : MsgQueue) → items (notify_put q) ≡ items q
items-notify_put q = refl

fetch-IsFifo :
    (r p : Priority) (s : System)
    → is_empty (queue_at p s.queue) ≡ false
    → IsFifo r s
    → IsFifo r (record s {
      queue = with_queue p (notify_put (fetch (queue_at p s.queue)).1) s.queue;
      got_log = s.got_log ++ ((p, (fetch (queue_at p s.queue)).0) ∷ []);
    })
fetch-IsFifo r p s h f = record {
  ring = IsRing-with_queue r p (notify_put (fetch (queue_at p s.queue)).1) s.queue f.ring (λ e.
      notify_put-IsRing (fetch (queue_at p s.queue)).1 (
        fetch-IsRing (queue_at p s.queue) (subst (λ x. IsRing (queue_at x s.queue)) e f.ring)
          some_item));
  order = elim (Bool-cases (same r p)) [
    | inl e ↦ cc (
      e,
      same-eq r p e,
      f.order,
      of_prio-append r p (fetch (queue_at p s.queue)).0 s.got_log,
      items-with_queue r p (notify_put (fetch (queue_at p s.queue)).1) s.queue,
      items-fetch (queue_at p s.queue) some_item,
      items-notify_put (fetch (queue_at p s.queue)).1,
      append_assoc (of_prio r s.got_log) ((fetch (queue_at p s.queue)).0 ∷ [])
          (items (fetch (queue_at p s.queue)).1),
    )
    | inr e ↦ cc (
      e,
      f.order,
      of_prio-append r p (fetch (queue_at p s.queue)).0 s.got_log,
      items-with_queue r p (notify_put (fetch (queue_at p s.queue)).1) s.queue,
      append-nil (of_prio r s.got_log),
    )
  ];
}
  where
    some_item : 0 < (queue_at p s.queue).datasize
    some_item = ground (arith, h)

pub choose-not_empty :
    (s : MsgQueuePrio) (p : Priority) → choose s ≡ some p → is_empty (queue_at p s) ≡ false
unfolding choose
choose-not_empty s high e = ground (arith, e)
choose-not_empty s medium e = ground (arith, e)
choose-not_empty s low e = ground (arith, e)

add_putter-IsRing : (q : MsgQueue) → IsRing q → IsRing (add_putter q)
add_putter-IsRing q r = ground arith

drop_putter-IsRing : (q : MsgQueue) → IsRing q → IsRing (drop_putter q)
drop_putter-IsRing q r = ground arith

getters-IsFifo :
    (r : Priority) (n : ℕ) (s : System)
    → IsFifo r s
    → IsFifo r (record s { queue = record s.queue { waitinggetthreadnum = n } })
getters-IsFifo r n s f = record {
  ring = rw (queue_at-getters r n s.queue) f.ring;
  order = f.order ∙ ap (λ q. of_prio r s.got_log ++ items q) (sym (queue_at-getters r n s.queue));
}

enter_put-IsFifo : (r : Priority) (p : Putter) (s : System) → IsFifo r s → IsFifo r (enter_put p s)
unfolding enter_put
enter_put-IsFifo r p s f = elim (Bool-cases (is_full (queue_at p.prio s.queue))) [
  | inl e ↦
      let k =
        keep-IsFifo r p.prio (add_putter (queue_at p.prio s.queue)) s f
          (add_putter-IsRing (queue_at p.prio s.queue)) refl in
      rw (e, enter_put) (record { ring = k.ring; order = k.order })
  | inr e ↦
      let k = store-IsFifo r p.prio p.pdata s e f in
      let q = with_queue p.prio (store p.pdata (queue_at p.prio s.queue)) s.queue in
      rw (e, enter_put)
        (record {
          ring = rw (queue_at-notify_get r q) k.ring;
          order =
              k.order ∙ ap (λ x. of_prio r s.got_log ++ items x) (sym (queue_at-notify_get r q));
        })
]

enter_get-IsFifo : (r : Priority) (n : ℕ) (s : System) → IsFifo r s → IsFifo r (enter_get n s)
unfolding enter_get
enter_get-IsFifo r n s f = elim (Option-cases (choose s.queue)) [
  | inl e ↦
      let k = getters-IsFifo r (s.queue.waitinggetthreadnum + 1) s f in
      rw (get_turn_waits s.queue e, enter_get) (record { ring = k.ring; order = k.order })
  | inr (p, e) ↦
      let k = fetch-IsFifo r p s (choose-not_empty s.queue p e) f in
      rw (get_turn_takes s.queue p e, enter_get) (record { ring = k.ring; order = k.order })
]

leave_put-IsFifo :
    (r : Priority) (i : ℕ) (p : Putter) (s : System) → IsFifo r s → IsFifo r (leave_put i p s)
unfolding leave_put
leave_put-IsFifo r i p s f =
    let k =
      keep-IsFifo r p.prio (drop_putter (queue_at p.prio s.queue)) s f
        (drop_putter-IsRing (queue_at p.prio s.queue)) refl in
    record { ring = k.ring; order = k.order }

leave_get-IsFifo : (r : Priority) (i : ℕ) (s : System) → IsFifo r s → IsFifo r (leave_get i s)
unfolding leave_get
leave_get-IsFifo r i s f =
    let k = getters-IsFifo r (s.queue.waitinggetthreadnum - 1) s f in
    record { ring = k.ring; order = k.order }

step-IsFifo : (r : Priority) (s : System) (e : Event) → IsFifo r s → IsFifo r (step s e)
unfolding step
step-IsFifo r s (put_q p) f = enter_put-IsFifo r p s f
step-IsFifo r s (put_wakes i) f = elim (Option-cases (get_elem? s.putters i)) [
  | inl e ↦ rw (e, step) f
  | inr (p, e) ↦ rw (e, step) (enter_put-IsFifo r p _ (leave_put-IsFifo r i p s f))
]
step-IsFifo r s (put_times_out i) f = elim (Option-cases (get_elem? s.putters i)) [
  | inl e ↦ rw (e, step) f
  | inr (p, e) ↦ elim (Bool-cases (p.num_seconds == 0)) [
    | inl z ↦ rw (e, step, z) f
    | inr z ↦ rw (e, step, z) (leave_put-IsFifo r i p s f)
  ]
]
step-IsFifo r s (get_q n) f = enter_get-IsFifo r n s f
step-IsFifo r s (get_wakes i) f = elim (Option-cases (get_elem? s.getters i)) [
  | inl e ↦ rw (e, step) f
  | inr (n, e) ↦ rw (e, step) (enter_get-IsFifo r n _ (leave_get-IsFifo r i s f))
]
step-IsFifo r s (get_times_out i) f = elim (Option-cases (get_elem? s.getters i)) [
  | inl e ↦ rw (e, step) f
  | inr (n, e) ↦ elim (Bool-cases (n == 0)) [
    | inl z ↦ rw (e, step, z) f
    | inr z ↦ rw (e, step, z) (leave_get-IsFifo r i s f)
  ]
]

run-IsFifo : (r : Priority) (s : System) (es : List Event) → IsFifo r s → IsFifo r (run s es)
unfolding run
run-IsFifo r s [] f = f
run-IsFifo r s (e ∷ es) f = run-IsFifo r (step s e) es (step-IsFifo r s e f)

-- From a queue whose ring of that priority is well formed and empty, whatever calls, wakeups and
-- time limits follow in whatever order: the ring stays well formed (its indices stay in range and it
-- never holds more than its capacity), and the pointers stored in it are, in the order in which they
-- were stored, those taken out of it in the order in which they were taken, followed by those that
-- it still holds.
pub run-start_fifo :
    (r : Priority) (q : MsgQueuePrio) (es : List Event)
    → IsRing (queue_at r q)
    → items (queue_at r q) ≡ []
    → let s = run (start q) es in
      IsRing (queue_at r s.queue)
      × (of_prio r s.put_log ≡ of_prio r s.got_log ++ items (queue_at r s.queue))
unfolding start
run-start_fifo r q es h e =
    let f = run-IsFifo r (start q) es (record { ring = h; order = sym e }) in (f.ring, f.order)
