-- ===== src/Timer.antt =====
-- frame/common/timermanager.cc: `CTimerManager`, timers on five wheels. A spoke's circle of nodes is
-- the list of its nodes, and `GetCurrentMillisec` is an argument, for `Cascade` one that depends on
-- the wheel. `Callback` is an entry of a log; the timers that it starts are started after it.
pub mod Place
pub mod Kept
pub mod Removed
mod Tests
use ape_cpp_server.Base.{
  ltb, leb, ◌==◌, if◌then◌else◌, get_or, set, replicate, add32, ℕ, zero, suc, ◌+◌, ◌-◌, ◌*◌, ◌/◌,
  ◌%◌, ◌^◌, List, [], ◌∷◌, ◌++◌, map,
}

pub record TimerNode : Type 0 where
  pub id : ℕ
  pub dead_time : ℕ

pub record Wheel : Type 0 where
  pub spokes : List (List TimerNode)
  pub size : ℕ
  pub spokeindex : ℕ

-- `fired` logs the timers called back.
pub record TimerManager : Type 0 where
  pub wheels : List Wheel
  pub checktime : ℕ
  pub readynodes : List TimerNode
  pub fired : List TimerNode

abbrev pub granularity : ℕ
granularity = 10

abbrev pub wheel_size1 : ℕ
wheel_size1 = 256

abbrev pub wheel_size2 : ℕ
wheel_size2 = 64

pub new_wheel : ℕ → Wheel
new_wheel n = record { spokes = replicate n []; size = n; spokeindex = 0 }

unfoldable pub new_manager : ℕ → TimerManager
unfolding new_wheel
new_manager now = record {
  wheels =
      new_wheel wheel_size1
      ∷ new_wheel wheel_size2
      ∷ new_wheel wheel_size2
      ∷ new_wheel wheel_size2
      ∷ new_wheel wheel_size2
      ∷ [];
  checktime = now;
  readynodes = [];
  fired = [];
}

-- no wheel
abbrev pub no_wheel : Wheel
no_wheel = record { spokes = []; size = 0; spokeindex = 0 }

abbrev pub wheel_at : ℕ → TimerManager → Wheel
wheel_at i m = get_or m.wheels i no_wheel

abbrev pub with_wheel : ℕ → Wheel → TimerManager → TimerManager
with_wheel i w m = record m { wheels = set m.wheels i w }

-- The spoke of a wheel of 64 for an interval from `threshold` on.
pub spoke_index : ℕ → ℕ → ℕ → ℕ
spoke_index interval threshold at =
    add32 (interval - threshold) (at * threshold % 2 ^ 32) / threshold % wheel_size2

-- The wheel and the spoke that `AddTimerNode` chooses.
pub place_of : ℕ → TimerManager → ℕ × ℕ
unfolding spoke_index
place_of interval m =
    if ltb interval (2 ^ 8)
    then (0, add32 interval (wheel_at 0 m).spokeindex % wheel_size1)
    else if ltb interval (2 ^ 14)
    then (1, spoke_index interval (2 ^ 8) (wheel_at 1 m).spokeindex)
    else if ltb interval (2 ^ 20)
    then (2, spoke_index interval (2 ^ 14) (wheel_at 2 m).spokeindex)
    else if ltb interval (2 ^ 26)
    then (3, spoke_index interval (2 ^ 20) (wheel_at 3 m).spokeindex)
    else (4, spoke_index interval (2 ^ 26) (wheel_at 4 m).spokeindex)

abbrev pub push_spoke : ℕ → TimerNode → Wheel → Wheel
push_spoke j node w = record w { spokes = set w.spokes j (get_or w.spokes j [] ++ (node ∷ [])) }

pub push_at : ℕ × ℕ → TimerNode → TimerManager → TimerManager
push_at (i, j) node m = with_wheel i (push_spoke j node (wheel_at i m)) m

-- `AddTimerNode`
pub add_timer_node : ℕ → TimerNode → TimerManager → TimerManager
unfolding place_of push_at
add_timer_node milseconds node m = push_at (place_of (milseconds / granularity) m) node m

-- `AddTimer`, with the node's address as its `id`
unfoldable pub add_timer : ℕ → ℕ → ℕ → TimerManager → TimerManager
unfolding add_timer_node
add_timer now milseconds id m =
    add_timer_node milseconds (record { id = id; dead_time = now + milseconds }) m

-- `AddToReadyNode`
abbrev pub add_to_ready : List TimerNode → TimerManager → TimerManager
add_to_ready nodes m = record m { readynodes = m.readynodes ++ nodes }

-- The loop of `Cascade` over the nodes of the spoke.
pub move_nodes : ℕ → List TimerNode → TimerManager → TimerManager
unfolding add_timer_node
move_nodes now [] m = m
move_nodes now (node ∷ nodes) m = move_nodes now nodes (
    if leb node.dead_time now
    then add_to_ready (node ∷ []) m
    else add_timer_node ((node.dead_time - now) % 2 ^ 32) node m)

-- The spoke at the index is emptied, and the index moves on.
abbrev pub take_spoke : Wheel → Wheel
take_spoke w = record w { spokes = set w.spokes w.spokeindex []; spokeindex = w.spokeindex + 1 }

abbrev pub spoke_nodes : Wheel → List TimerNode
spoke_nodes w = get_or w.spokes w.spokeindex []

abbrev pub rewind : Wheel → Wheel
rewind w = record w { spokeindex = 0 }

-- One call of `Cascade` up to its test of the index.
pub cascade_spoke : (ℕ → ℕ) → ℕ → TimerManager → TimerManager
unfolding move_nodes
cascade_spoke now i m =
    move_nodes (now i) (spoke_nodes (wheel_at i m)) (with_wheel i (take_spoke (wheel_at i m)) m)

-- `Cascade (i)`, on the number of wheels from `i` on
pub cascade : (ℕ → ℕ) → ℕ → ℕ → TimerManager → TimerManager
unfolding cascade_spoke
cascade now zero i m = m
cascade now (suc n) i m =
    let m' = cascade_spoke now i m in
    if leb (wheel_at i m').size (wheel_at i m').spokeindex
    then cascade now n (i + 1) (with_wheel i (rewind (wheel_at i m')) m')
    else m'

-- One turn of the loop of `DetectTimerList`.
pub tick : (ℕ → ℕ) → TimerManager → TimerManager
unfolding cascade
tick now m =
    let w = take_spoke (wheel_at 0 m) in
    let m' = add_to_ready (spoke_nodes (wheel_at 0 m)) (with_wheel 0 w m) in
    let m'' =
      if leb w.size w.spokeindex then cascade now 4 1 (with_wheel 0 (rewind w) m') else m' in
    record m'' { checktime = m''.checktime + granularity }

pub ticks : (ℕ → ℕ) → ℕ → TimerManager → TimerManager
unfolding tick
ticks now zero m = m
ticks now (suc n) m = ticks now n (tick now m)

-- `DoTimeOutCallBack`
pub do_time_out : TimerManager → TimerManager
do_time_out m = record m { fired = m.fired ++ m.readynodes; readynodes = [] }

-- `DetectTimerList` at the time `time`, with `now` for the later readings of the clock
unfoldable pub detect_timer_list : ℕ → (ℕ → ℕ) → TimerManager → TimerManager
unfolding ticks do_time_out
detect_timer_list time now m =
    let loopnum = if ltb m.checktime time then (time - m.checktime) / granularity % 2 ^ 32 else 0 in
    do_time_out (ticks now loopnum m)

abbrev pub without : ℕ → List TimerNode → List TimerNode
without id [] = []
without id (node ∷ nodes) = if node.id == id then without id nodes else node ∷ without id nodes

abbrev pub drop_from_wheel : ℕ → Wheel → Wheel
drop_from_wheel id w = record w { spokes = map (without id) w.spokes }

-- `RemoveTimer`: the node leaves the circle that it is in.
unfoldable pub remove_timer : ℕ → TimerManager → TimerManager
remove_timer id m = record m {
  wheels = map (drop_from_wheel id) m.wheels;
  readynodes = without id m.readynodes;
}
