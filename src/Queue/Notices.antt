-- ===== src/Queue/Notices.antt =====
-- The calls of `notify_one` in `PutQ` and `GetQ`.
use mathlib.Core.Option.{some-injective}
use mathlib.Core.Path.{subst}
use ape_cpp_server.Base.{
  if◌then◌else◌, ◌==◌, Option-cases, length, ℕ, ◌+◌, ◌≡◌, refl, sym, ap, ◌∙◌, inl, inr, false, some,
  List,
}
use ape_cpp_server.Queue.{
  Priority, high, medium, low, MsgQueue, is_full, MsgQueuePrio, queue_at, with_queue, store, fetch,
  notice, notify_put, put_turn, choose, get_turn, System, Event, run,
}
use ape_cpp_server.Queue.Counters.{
  getters-with_queue, count_prio, Counted, get_turn_waits, get_turn_takes, run-Counted,
}
use ape_cpp_server.Queue.Order.{queue_at-with_queue_same}

notices-with_queue :
    (r : Priority) (q : MsgQueue) (s : MsgQueuePrio)
    → (with_queue r q s).get_notices ≡ s.get_notices
notices-with_queue high q s = refl
notices-with_queue medium q s = refl
notices-with_queue low q s = refl

put_turn-notices :
    (v : ℕ) (r : Priority) (s : MsgQueuePrio)
    → is_full (queue_at r s) ≡ false
    → (put_turn v r s).0.get_notices ≡ s.get_notices + notice s.waitinggetthreadnum
unfolding put_turn
put_turn-notices v r s h =
    let q = store v (queue_at r s) in
    rw (put_turn, h)
      (ap (λ n. n + notice (with_queue r q s).waitinggetthreadnum) (notices-with_queue r q s)
        ∙ ap (λ n. s.get_notices + notice n) (getters-with_queue r q s))

taken-notices :
    (r : Priority) (s : MsgQueuePrio)
    → (queue_at r (with_queue r (notify_put (fetch (queue_at r s)).1) s)).put_notices
      ≡ (queue_at r s).put_notices + notice (queue_at r s).waitingputthreadnum
unfolding fetch
taken-notices r s =
    ap (λ q. q.put_notices) (queue_at-with_queue_same r (notify_put (fetch (queue_at r s)).1) s)

get_turn-notices :
    (r : Priority) (x : ℕ) (s : MsgQueuePrio)
    → (get_turn s).1 ≡ some (r, x)
    → (queue_at r (get_turn s).0).put_notices
      ≡ (queue_at r s).put_notices + notice (queue_at r s).waitingputthreadnum
get_turn-notices r x s h = elim (Option-cases (choose s)) [
  | inl e ↦ absurd (cc (h, get_turn_waits s e))
  | inr (p, e) ↦
      let same : p ≡ r =
        ap (λ y. y.0) (some-injective _ _ (sym (ap (λ y. y.1) (get_turn_takes s p e)) ∙ h)) in
      ap (λ t. (queue_at r (t.0)).put_notices) (get_turn_takes s p e)
      ∙ subst
          (λ k.
            (queue_at k (with_queue p (notify_put (fetch (queue_at p s)).1) s)).put_notices
            ≡ (queue_at k s).put_notices + notice (queue_at k s).waitingputthreadnum)
          same (taken-notices p s)
]

-- Whatever the threads do, in any order, if the counters are exact at first: each counter of the queue
-- is the number of threads that wait, `waitingputthreadnum` of each ring of those that wait for room in
-- it, `waitinggetthreadnum` of those that wait for a pointer; `PutQ`, where it stores a pointer, calls
-- `notify_one` once if a thread waits for a pointer, and not otherwise; and `GetQ`, where it takes one,
-- calls that of the ring once if a thread waits for room in the ring, and not otherwise.
pub run-notices :
    (s : System) (es : List Event)
    → Counted s
    → let t = run s es in
      Counted t
      × ((v : ℕ) (r : Priority)
          → is_full (queue_at r t.queue) ≡ false
          → (put_turn v r t.queue).0.get_notices
            ≡ t.queue.get_notices + (if length t.getters == 0 then 0 else 1))
      × ((r : Priority) (x : ℕ)
          → (get_turn t.queue).1 ≡ some (r, x)
          → (queue_at r (get_turn t.queue).0).put_notices
            ≡ (queue_at r t.queue).put_notices + (if count_prio r t.putters == 0 then 0 else 1))
run-notices s es c =
    let t = run s es in
    let d = run-Counted s es c in
    (
      d,
      (λ v r h. put_turn-notices v r t.queue h ∙ ap (λ n. t.queue.get_notices + notice n) d.gets),
      λ r x h.
          get_turn-notices r x t.queue h
          ∙ ap (λ n. (queue_at r t.queue).put_notices + notice n) (d.puts r),
    )
