-- ===== src/ThreadTimer/Tests.antt =====
-- Runs of thread timers, and their theorem on one of these.
use ape_cpp_server.Base.{◌≡◌, refl, some, get_elem?, ℕ, ◌≤◌, true, false, List, [], ◌∷◌}
use ape_cpp_server.Timer.{new_manager}
use ape_cpp_server.Timer.Place.{total}
use ape_cpp_server.ThreadTimer.{
  ThreadTimer, Clockwork, new_timer, Use, starts, stops, detects, use_all, timer_of,
}
use ape_cpp_server.ThreadTimer.Change.{holders}
use ape_cpp_server.ThreadTimer.Nodes.{use_all_lem}

-- A timer that goes round every 20 ms, and one that is called back once, after 50 ms.
abbrev two_timers : List ThreadTimer
two_timers = new_timer 20 true ∷ new_timer 50 false ∷ []

abbrev at_first : Clockwork
at_first = record { manager = new_manager 1000; next_node = 1; owners = [] }

-- The second is stopped before its time.
abbrev uses : List Use
uses =
    starts 1000 0
    ∷ starts 1000 1
    ∷ detects 1040 (λ _. 1040) 1040
    ∷ stops 1
    ∷ detects 1100 (λ _. 1100) 1100
    ∷ []

abbrev calls : List ThreadTimer → List ℕ
calls [] = []
calls (t ∷ ts) = t.callbacks ∷ calls ts

called : calls (use_all uses (two_timers, at_first)).0 ≡ 2 ∷ 0 ∷ []
unfolding use_all new_manager
called = refl

use_all_lem_example :
    let s' = use_all uses (two_timers, at_first) in
    (total 4 s'.1.manager ≡ holders 4 s'.0)
    × (holders 4 s'.0 ≤ 1)
    × ((k : ℕ) (t : ThreadTimer)
        → get_elem? s'.0 k ≡ some t
        → t.timernode ≡ some 4
        → timer_of 4 s'.1.owners ≡ some k)
use_all_lem_example = use_all_lem uses two_timers 1000 1 4 (refl, (refl, tt))
