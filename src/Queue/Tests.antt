-- ===== src/Queue/Tests.antt =====
-- The queue's theorems at concrete inputs, and runs of the code.
use ape_cpp_server.Base.{
  if◌then◌else◌, ◌==◌, length, ◌+◌, ℕ, ◌≡◌, refl, ◌⊎◌, true, false, none, some, List, [], ◌∷◌, ◌++◌,
  arith,
}
use ape_cpp_server.Queue.{
  Priority, high, medium, low, MsgQueue, new_queue, is_full, is_empty, MsgQueuePrio, new_queues,
  queue_at, put_turn, get_turn, queue_is_empty, Event, put_q, put_wakes, get_q, run, start,
}
use ape_cpp_server.Queue.Ring.{items, IsRing, new_queue-IsRing}
use ape_cpp_server.Queue.Counters.{same, Counted, count_prio}
use ape_cpp_server.Queue.Notices.{run-notices}
use ape_cpp_server.Queue.Fifo.{of_prio, run-start_fifo}
use ape_cpp_server.Queue.Order.{above, get_turn_order}

abbrev ring_of_two : MsgQueue
unfolding new_queue
ring_of_two = new_queue 2 (0 ∷ 0 ∷ [])

abbrev small_queue : MsgQueuePrio
unfolding new_queue new_queues
small_queue = new_queues ring_of_two ring_of_two ring_of_two

abbrev put_medium : ℕ → Event
put_medium v = put_q (record { prio = medium; pdata = v; num_seconds = 1 })

-- Three puts into a ring of two, of which the third waits; a get; and the third put goes on.
abbrev busy : List Event
busy = put_medium 11 ∷ put_medium 12 ∷ put_medium 13 ∷ get_q 1 ∷ put_wakes 0 ∷ []

busy_got : (run (start small_queue) busy).got_log ≡ (medium, 11) ∷ []
unfolding run start new_queue new_queues
busy_got = refl

busy_holds : items (run (start small_queue) busy).queue.medium_queue ≡ 12 ∷ 13 ∷ []
unfolding run start new_queue new_queues
busy_holds = refl

small-IsRing : IsRing (queue_at medium small_queue)
unfolding new_queue new_queues
small-IsRing = new_queue-IsRing 2 (0 ∷ 0 ∷ []) (omega arith) (omega arith)

run-start_fifo_example :
    let s = run (start small_queue) busy in
    IsRing (queue_at medium s.queue)
    × (of_prio medium s.put_log ≡ of_prio medium s.got_log ++ items (queue_at medium s.queue))
unfolding new_queue new_queues
run-start_fifo_example = run-start_fifo medium small_queue busy small-IsRing refl

start-Counted : Counted (start small_queue)
unfolding new_queue new_queues start
start-Counted = record { puts = elim [ high ↦ refl | medium ↦ refl | low ↦ refl ]; gets = refl }

run-notices_example :
    let t = run (start small_queue) busy in
    Counted t
    × ((v : ℕ) (r : Priority)
        → is_full (queue_at r t.queue) ≡ false
        → (put_turn v r t.queue).0.get_notices
          ≡ t.queue.get_notices + (if length t.getters == 0 then 0 else 1))
    × ((r : Priority) (x : ℕ)
        → (get_turn t.queue).1 ≡ some (r, x)
        → (queue_at r (get_turn t.queue).0).put_notices
          ≡ (queue_at r t.queue).put_notices + (if count_prio r t.putters == 0 then 0 else 1))
run-notices_example = run-notices (start small_queue) busy start-Counted

get_turn_order_example :
    let s = small_queue in
    ((queue_is_empty s ≡ true) × ((get_turn s).1 ≡ none))
    ⊎ ((p : Priority) × (v : ℕ) × (queue_is_empty s ≡ false)
        × ((get_turn s).1 ≡ some (p, v))
        × (items (queue_at p s) ≡ v ∷ items (queue_at p (get_turn s).0))
        × ((r : Priority) → same r p ≡ false → queue_at r (get_turn s).0 ≡ queue_at r s)
        × ((r : Priority) → above r p ≡ true → is_empty (queue_at r s) ≡ true))
get_turn_order_example = get_turn_order small_queue
