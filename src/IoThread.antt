-- ===== src/IoThread.antt =====
-- frame/net/ioservicethread.cc, with `CNetThreadHolder::GetThreadStatus` (frame/net/netthreadholder.cc):
-- the flag by which a thread is known to be alive, and the timer that runs `DetectTimerList`. Whether a
-- run of that calls `DoSelfCheck` back is part of the event.
pub mod SelfCheck
mod Tests
use ape_cpp_server.Base.{if◌then◌else◌, ◌&&◌, ℕ, zero, suc, ◌+◌, Bool, true, false, List, [], ◌∷◌}

-- `armed` is whether `dealline_timer_` is waited for, `self_check` whether `tm_selfcheck_` is started;
-- `detects` counts the runs of `DetectTimerList`.
pub record IoThread : Type 0 where
  pub isalive : Bool
  pub armed : Bool
  pub self_check : Bool
  pub detects : ℕ

abbrev pub new_io_thread : IoThread
new_io_thread = record { isalive = false; armed = false; self_check = false; detects = 0 }

-- `Start`
abbrev pub start_thread : IoThread → IoThread
start_thread t = record t { isalive = true; armed = true }

-- `StartInThread`
abbrev pub start_in_thread : IoThread → IoThread
start_in_thread t = record t { isalive = true; self_check = true }

-- `StopInThread`
abbrev pub stop_in_thread : IoThread → IoThread
stop_in_thread t = record t { self_check = false }

-- `Stop`, but for what it does with the thread
abbrev pub stop_thread : IoThread → IoThread
stop_thread t = record t { isalive = false }

-- `DoSelfCheck`
abbrev pub do_self_check : IoThread → IoThread
do_self_check t = record t { isalive = true }

-- `DetectTimerList`, which calls `DoSelfCheck` back or not
pub detect : Bool → IoThread → IoThread
detect fires t =
    let d : IoThread = record t { detects = t.detects + 1 } in
    if fires && t.self_check then do_self_check d else d

-- `DoTimer`
pub do_timer : Bool → IoThread → IoThread
unfolding detect
do_timer fires t = let d = detect fires t in record d { armed = d.isalive }

-- `GetSelfCheck`
pub get_self_check : IoThread → Bool × IoThread
get_self_check t = (t.isalive, record t { isalive = false })

-- the loop of `GetThreadStatus`, which adds to the number of dead threads
pub get_thread_status : List IoThread → ℕ → ℕ × List IoThread
unfolding get_self_check
get_thread_status [] dead = (dead, [])
get_thread_status (t ∷ ts) dead =
    let (alive, t') = get_self_check t in
    let (dead', ts') = get_thread_status ts (if alive then dead else dead + 1) in (dead', t' ∷ ts')

-- What happens to a thread that was started: its timer rings, only if it is waited for, and the other
-- calls.
pub data ThreadEvent : Type 0 where
  rings : Bool → ThreadEvent
  asked starts_in_thread stops stops_in_thread : ThreadEvent

pub thread_event : IoThread → ThreadEvent → IoThread
unfolding do_timer get_self_check
thread_event t (rings fires) = if t.armed then do_timer fires t else t
thread_event t asked = (get_self_check t).1
thread_event t starts_in_thread = start_in_thread t
thread_event t stops = stop_thread t
thread_event t stops_in_thread = stop_in_thread t

unfoldable pub thread_events : IoThread → List ThreadEvent → IoThread
unfolding thread_event
thread_events t [] = t
thread_events t (e ∷ es) = thread_events (thread_event t e) es
