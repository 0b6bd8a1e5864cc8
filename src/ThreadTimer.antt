-- ===== src/ThreadTimer.antt =====
-- frame/common/threadtimer.cc and threadtimer.h: `CThreadTimer` over its `CTimerManager`. A node is
-- known by a number that is not given to a second node. Other timers' callbacks, and what the callback
-- itself does with the timers, come after the run of `DetectTimerList`.
use ape_cpp_server.Base.{
  ◌==◌, if◌then◌else◌, get_elem?, set, ℕ, zero, suc, ◌+◌, Bool, true, false, Option, none, some,
  List, [], ◌∷◌, ◌++◌,
}
use mathlib.Core.Option
pub mod Change
pub mod Nodes
mod Tests
use ape_cpp_server.Timer.{TimerNode, TimerManager, add_timer, remove_timer, detect_timer_list}

-- `EStatus`
pub data TimerStatus : Type 0 where
  waiting time_out user_cancle : TimerStatus

-- `circle` is whether the type is `TIMER_CIRCLE`; `callbacks` counts the calls of `callback_`.
pub record ThreadTimer : Type 0 where
  pub interval : ℕ
  pub circle : Bool
  pub status : TimerStatus
  pub timernode : Option ℕ
  pub callbacks : ℕ

-- the constructor
abbrev pub new_timer : ℕ → Bool → ThreadTimer
new_timer interval circle = record {
  interval = interval;
  circle = circle;
  status = waiting;
  timernode = none;
  callbacks = 0;
}

-- The manager, the number that the next node gets, and what `AddTimer` stored in the nodes' `timer`: for
-- the number of a node the place of its timer, the newest first.
pub record Clockwork : Type 0 where
  pub manager : TimerManager
  pub next_node : ℕ
  pub owners : List (ℕ × ℕ)

abbrev pub remove_node : Option ℕ → Clockwork → Clockwork
unfolding remove_timer
remove_node none c = c
remove_node (some id) c = record c { manager = remove_timer id c.manager }

-- `Stop`
pub stop : ThreadTimer → Clockwork → ThreadTimer × Clockwork
unfolding remove_node
stop t c = (record t { status = user_cancle; timernode = none }, remove_node t.timernode c)

-- `Start` of the timer at a place, at the time `now`
pub start : ℕ → ℕ → ThreadTimer → Clockwork → ThreadTimer × Clockwork
unfolding stop add_timer
start now this t c =
    let (t', c') = stop t c in
    (
      record t' { status = time_out; timernode = some c'.next_node },
      record {
        manager = add_timer now t'.interval c'.next_node c'.manager;
        next_node = c'.next_node + 1;
        owners = (c'.next_node, this) ∷ c'.owners;
      },
    )

abbrev pub call : ThreadTimer × Clockwork → ThreadTimer × Clockwork
call (t, c) = (record t { callbacks = t.callbacks + 1 }, c)

-- `Callback`
pub callback : ℕ → ℕ → ThreadTimer → Clockwork → ThreadTimer × Clockwork
unfolding start
callback now this t c =
    let t' = record t { timernode = none } in
    call (if t'.circle then start now this t' c else (t', c))

-- the timer of a node, `node->timer`
pub timer_of : ℕ → List (ℕ × ℕ) → Option ℕ
timer_of id [] = none
timer_of id ((n, k) ∷ owners) = let rest = timer_of id owners in if n == id then some k else rest

-- a call of a method of the timer at a place
pub use_timer :
    (ThreadTimer → Clockwork → ThreadTimer × Clockwork)
    → ℕ
    → List ThreadTimer × Clockwork
    → List ThreadTimer × Clockwork
use_timer f k (ts, c) = elim (get_elem? ts k) [
  | none ↦ (ts, c)
  | some t ↦ let (t', c') = f t c in (set ts k t', c')
]

-- The calls of `Callback` in `DoTimeOutCallBack`.
pub call_back : ℕ → List TimerNode → List ThreadTimer × Clockwork → List ThreadTimer × Clockwork
unfolding use_timer callback timer_of
call_back now [] s = s
call_back now (node ∷ nodes) (ts, c) = call_back now nodes (elim (timer_of node.id c.owners) [
  | none ↦ (ts, c)
  | some k ↦ use_timer (callback now k) k (ts, c)
])

-- What the threads' code does with its timers: `Start` and `Stop` of one, and `DetectTimerList`.
pub data Use : Type 0 where
  starts : ℕ → ℕ → Use
  stops : ℕ → Use
  detects : ℕ → (ℕ → ℕ) → ℕ → Use

abbrev pub forget : TimerManager → TimerManager
forget m = record m { fired = [] }

pub use_timers : Use → List ThreadTimer × Clockwork → List ThreadTimer × Clockwork
unfolding use_timer start stop detect_timer_list call_back
use_timers (starts now k) s = use_timer (start now k) k s
use_timers (stops k) s = use_timer stop k s
use_timers (detects time now later) (ts, c) =
    let m = detect_timer_list time now (forget c.manager) in
    call_back later m.fired (ts, record c { manager = forget m })

unfoldable pub use_all : List Use → List ThreadTimer × Clockwork → List ThreadTimer × Clockwork
unfolding use_timers
use_all [] s = s
use_all (u ∷ us) s = use_all us (use_timers u s)
