-- ===== src/Queue/Counters.antt =====
-- The counters of waiting threads, by which `PutQ` and `GetQ` decide whether to notify.
use ape_cpp_server.Base.{
  ◌==◌, if◌then◌else◌, Bool-cases, Option-cases, length, get_elem?, length-append, ℕ, zero, suc,
  ◌+◌, ◌≡◌, refl, ap, ◌∙◌, inl, inr, Bool, true, false, none, some, List, [], ◌∷◌, ◌++◌, arith,
}
use ape_cpp_server.Queue.{
  Priority, high, medium, low, MsgQueue, MsgQueuePrio, queue_at, with_queue, store, fetch,
  notify_put, notify_get, add_putter, drop_putter, choose, get_turn, Putter, System, Event, put_q,
  put_wakes, put_times_out, get_q, get_wakes, get_times_out, remove_at, enter_put, enter_get,
  leave_put, leave_get, step, run,
}

abbrev pub same : Priority → Priority → Bool
same high high = true
same medium medium = true
same low low = true
same _ _ = false

pub queue_at-with_queue :
    (p r : Priority) (q : MsgQueue) (s : MsgQueuePrio)
    → queue_at p (with_queue r q s) ≡ (if same p r then q else queue_at p s)
queue_at-with_queue high high q s = refl
queue_at-with_queue high medium q s = refl
queue_at-with_queue high low q s = refl
queue_at-with_queue medium high q s = refl
queue_at-with_queue medium medium q s = refl
queue_at-with_queue medium low q s = refl
queue_at-with_queue low high q s = refl
queue_at-with_queue low medium q s = refl
queue_at-with_queue low low q s = refl

pub same-eq : (p r : Priority) → same p r ≡ true → p ≡ r
same-eq high high h = refl
same-eq high medium h = cc
same-eq high low h = cc
same-eq medium high h = cc
same-eq medium medium h = refl
same-eq medium low h = cc
same-eq low high h = cc
same-eq low medium h = cc
same-eq low low h = refl

pub getters-with_queue :
    (r : Priority) (q : MsgQueue) (s : MsgQueuePrio)
    → (with_queue r q s).waitinggetthreadnum ≡ s.waitinggetthreadnum
getters-with_queue high q s = refl
getters-with_queue medium q s = refl
getters-with_queue low q s = refl

pub queue_at-notify_get :
    (r : Priority) (s : MsgQueuePrio) → queue_at r (notify_get s) ≡ queue_at r s
queue_at-notify_get high s = refl
queue_at-notify_get medium s = refl
queue_at-notify_get low s = refl

pub queue_at-getters :
    (r : Priority) (n : ℕ) (s : MsgQueuePrio)
    → queue_at r (record s { waitinggetthreadnum = n }) ≡ queue_at r s
queue_at-getters high n s = refl
queue_at-getters medium n s = refl
queue_at-getters low n s = refl

abbrev waiting : MsgQueue → ℕ
waiting q = q.waitingputthreadnum

-- how many of the waiting threads wait for room in that ring
abbrev pub count_prio : Priority → List Putter → ℕ
count_prio r [] = 0
count_prio r (p ∷ ps) = (if same r p.prio then 1 else 0) + count_prio r ps

count_prio-append :
    (r : Priority) (ps qs : List Putter)
    → count_prio r (ps ++ qs) ≡ count_prio r ps + count_prio r qs
count_prio-append r [] qs = omega arith
count_prio-append r (p ∷ ps) qs = omega (arith, count_prio-append r ps qs)

count_prio-remove_at :
    (r : Priority) (ps : List Putter) (i : ℕ) (p : Putter)
    → get_elem? ps i ≡ some p
    → (if same r p.prio then 1 else 0) + count_prio r (remove_at i ps) ≡ count_prio r ps
count_prio-remove_at r [] i p e = cc
count_prio-remove_at r (x ∷ ps) zero p e = ground arith
count_prio-remove_at r (x ∷ ps) (suc i) p e = omega (arith, count_prio-remove_at r ps i p e)

length-remove_at :
    (xs : List ℕ) (i x : ℕ) → get_elem? xs i ≡ some x → suc (length (remove_at i xs)) ≡ length xs
length-remove_at [] i x e = cc
length-remove_at (y ∷ xs) zero x e = refl
length-remove_at (y ∷ xs) (suc i) x e = ap suc (length-remove_at xs i x e)

pub record Counted (s : System) : Type 0 where
  pub puts : (r : Priority) → (queue_at r s.queue).waitingputthreadnum ≡ count_prio r s.putters
  pub gets : s.queue.waitinggetthreadnum ≡ length s.getters

enter_put-Counted : (p : Putter) (s : System) → Counted s → Counted (enter_put p s)
unfolding enter_put store
enter_put-Counted p s c = record {
  puts = λ r. ground (
    arith,
    c.puts r,
    same-eq r p.prio,
    queue_at-with_queue r p.prio (queue_at p.prio s.queue) s.queue,
    queue_at-notify_get r (with_queue p.prio (store p.pdata (queue_at p.prio s.queue)) s.queue),
    count_prio-append r s.putters (p ∷ []),
  );
  gets = ground (
    arith,
    c.gets,
    getters-with_queue p.prio (store p.pdata (queue_at p.prio s.queue)) s.queue,
    getters-with_queue p.prio (add_putter (queue_at p.prio s.queue)) s.queue,
  );
}

leave_put-Counted :
    (i : ℕ) (p : Putter) (s : System)
    → get_elem? s.putters i ≡ some p
    → Counted s
    → Counted (leave_put i p s)
unfolding leave_put
leave_put-Counted i p s e c = record {
  puts = λ r. ground (
    arith,
    c.puts r,
    same-eq r p.prio,
    queue_at-with_queue r p.prio (drop_putter (queue_at p.prio s.queue)) s.queue,
    count_prio-remove_at r s.putters i p e,
  );
  gets = getters-with_queue p.prio (drop_putter (queue_at p.prio s.queue)) s.queue ∙ c.gets;
}

waiting-fetch : (q : MsgQueue) → (fetch q).1.waitingputthreadnum ≡ q.waitingputthreadnum
unfolding fetch
waiting-fetch q = refl

puts_after_fetch :
    (p r : Priority) (s : MsgQueuePrio)
    → (queue_at r (with_queue p (notify_put (fetch (queue_at p s)).1) s)).waitingputthreadnum
      ≡ (queue_at r s).waitingputthreadnum
puts_after_fetch p r s = ground (
  arith,
  same-eq r p,
  queue_at-with_queue r p (notify_put (fetch (queue_at p s)).1) s,
  waiting-fetch (queue_at p s),
)

pub get_turn_waits :
    (s : MsgQueuePrio)
    → choose s ≡ none
    → get_turn s ≡ (record s { waitinggetthreadnum = s.waitinggetthreadnum + 1 }, none)
unfolding get_turn
get_turn_waits s e = rw (e, get_turn)

pub get_turn_takes :
    (s : MsgQueuePrio) (p : Priority)
    → choose s ≡ some p
    → get_turn s
      ≡ (with_queue p (notify_put (fetch (queue_at p s)).1) s, some (p, (fetch (queue_at p s)).0))
unfolding get_turn
get_turn_takes s p e = rw (e, get_turn)

enter_get-Counted : (n : ℕ) (s : System) → Counted s → Counted (enter_get n s)
unfolding enter_get
enter_get-Counted n s c = elim (Option-cases (choose s.queue)) [
  | inl e ↦
      rw (get_turn_waits s.queue e, enter_get)
        (record {
          puts = λ r. ap waiting (queue_at-getters r _ s.queue) ∙ c.puts r;
          gets = omega (arith, c.gets, length-append s.getters (n ∷ []));
        })
  | inr (p, e) ↦
      rw (get_turn_takes s.queue p e, enter_get)
        (record {
          puts = λ r. puts_after_fetch p r s.queue ∙ c.puts r;
          gets = getters-with_queue p (notify_put (fetch (queue_at p s.queue)).1) s.queue ∙ c.gets;
        })
]

leave_get-Counted :
    (i n : ℕ) (s : System) → get_elem? s.getters i ≡ some n → Counted s → Counted (leave_get i s)
unfolding leave_get
leave_get-Counted i n s e c = record {
  puts = λ r. ap waiting (queue_at-getters r _ s.queue) ∙ c.puts r;
  gets = omega (arith, c.gets, length-remove_at s.getters i n e);
}

step-Counted : (s : System) (e : Event) → Counted s → Counted (step s e)
unfolding step
step-Counted s (put_q p) c = enter_put-Counted p s c
step-Counted s (put_wakes i) c = elim (Option-cases (get_elem? s.putters i)) [
  | inl e ↦ rw (e, step) c
  | inr (p, e) ↦ rw (e, step) (enter_put-Counted p _ (leave_put-Counted i p s e c))
]
step-Counted s (put_times_out i) c = elim (Option-cases (get_elem? s.putters i)) [
  | inl e ↦ rw (e, step) c
  | inr (p, e) ↦ elim (Bool-cases (p.num_seconds == 0)) [
    | inl z ↦ rw (e, step, z) c
    | inr z ↦ rw (e, step, z) (leave_put-Counted i p s e c)
  ]
]
step-Counted s (get_q n) c = enter_get-Counted n s c
step-Counted s (get_wakes i) c = elim (Option-cases (get_elem? s.getters i)) [
  | inl e ↦ rw (e, step) c
  | inr (n, e) ↦ rw (e, step) (enter_get-Counted n _ (leave_get-Counted i n s e c))
]
step-Counted s (get_times_out i) c = elim (Option-cases (get_elem? s.getters i)) [
  | inl e ↦ rw (e, step) c
  | inr (n, e) ↦ elim (Bool-cases (n == 0)) [
    | inl z ↦ rw (e, step, z) c
    | inr z ↦ rw (e, step, z) (leave_get-Counted i n s e c)
  ]
]

-- The counters stay exact.
pub run-Counted : (s : System) (es : List Event) → Counted s → Counted (run s es)
unfolding run
run-Counted s [] c = c
run-Counted s (e ∷ es) c = run-Counted (step s e) es (step-Counted s e c)
