-- ===== src/IoThread/Tests.antt =====
-- Runs of a thread that is asked, and its theorems at concrete inputs.
use ape_cpp_server.Base.{◌≡◌, refl, ◌+◌, true, false, List, [], ◌∷◌}
use ape_cpp_server.IoThread.{
  IoThread, new_io_thread, start_thread, start_in_thread, ThreadEvent, rings, asked, thread_events,
}
use ape_cpp_server.IoThread.SelfCheck.{thread_events-asked}

abbrev busy : IoThread
busy = start_in_thread (start_thread new_io_thread)

-- A thread that is not asked goes on.
goes_on : (thread_events busy (rings false ∷ rings true ∷ rings false ∷ [])).detects ≡ 3
unfolding thread_events
goes_on = refl

abbrev rung : List ThreadEvent
rung = rings true ∷ rings true ∷ []

thread_events-asked_example :
    let t' = thread_events busy (asked ∷ rings false ∷ rung) in
    (t'.armed ≡ false) × (t'.detects ≡ 0 + 1)
thread_events-asked_example = thread_events-asked busy rung refl
