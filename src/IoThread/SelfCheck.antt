-- ===== src/IoThread/SelfCheck.antt =====
-- What `GetSelfCheck` does to a thread's timers.
use ape_cpp_server.Base.{
  if◌then◌else◌, length, ℕ, ◌+◌, ◌≡◌, refl, true, false, List, [], ◌∷◌, arith,
}
use ape_cpp_server.IoThread.{
  IoThread, detect, do_timer, get_self_check, get_thread_status, ThreadEvent, rings, asked,
  starts_in_thread, stops, stops_in_thread, thread_event, thread_events,
}

-- A thread whose timer is not waited for.
IsSilent : IoThread → ℕ → Type 0
IsSilent t n = (t.armed ≡ false) × (t.detects ≡ n)

event-IsSilent :
    (e : ThreadEvent) (t : IoThread) (n : ℕ) → IsSilent t n → IsSilent (thread_event t e) n
unfolding thread_event IsSilent get_self_check
event-IsSilent (rings fires) t n (a, d) = rw (thread_event, a) (refl, d)
event-IsSilent asked t n s = s
event-IsSilent starts_in_thread t n s = s
event-IsSilent stops t n s = s
event-IsSilent stops_in_thread t n s = s

events-IsSilent :
    (es : List ThreadEvent) (t : IoThread) (n : ℕ) → IsSilent t n → IsSilent (thread_events t es) n
unfolding thread_events
events-IsSilent [] t n s = s
events-IsSilent (e ∷ es) t n s = events-IsSilent es (thread_event t e) n (event-IsSilent e t n s)

-- If a thread whose timer is waited for is asked whether it is alive, and at the next ring of the timer
-- the self check is not due, then the timer is never waited for again: whatever happens to the
-- thread, `DetectTimerList` runs no more.
pub thread_events-asked :
    (t : IoThread) (es : List ThreadEvent)
    → t.armed ≡ true
    → let t' = thread_events t (asked ∷ rings false ∷ es) in
      (t'.armed ≡ false) × (t'.detects ≡ t.detects + 1)
unfolding thread_events thread_event IsSilent get_self_check do_timer detect
thread_events-asked t es a =
    rw (thread_events, thread_event, a) (events-IsSilent es _ (t.detects + 1) (refl, refl))

-- how many threads are not alive
abbrev pub dead_threads : List IoThread → ℕ
dead_threads [] = 0
dead_threads (t ∷ ts) = (if t.isalive then 0 else 1) + dead_threads ts

-- `GetThreadStatus` adds the number of the threads that are not alive; and if it is called again before
-- a self check, it adds the number of all threads.
get_thread_status_lem :
    (ts : List IoThread) (dead dead' : ℕ)
    → let r = get_thread_status ts dead in
      (r.0 ≡ dead + dead_threads ts) × ((get_thread_status r.1 dead').0 ≡ dead' + length ts)
unfolding get_thread_status get_self_check
get_thread_status_lem [] dead dead' = (omega arith, omega arith)
get_thread_status_lem (t ∷ ts) dead dead' =
    let r = get_thread_status_lem ts (if t.isalive then dead else dead + 1) (dead' + 1) in
    (ground (arith, r.0), omega (arith, r.1))
