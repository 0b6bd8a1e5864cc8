-- ===== src/Queue.antt =====
-- frame/common/msgqueueprio.h and msgqueueprio.cc: a message queue of three priorities, each a ring
-- of `void *` slots, shared by threads under one mutex. A pointer is a number, and NULL is 0.
-- Between two points where a thread gives up the mutex, `PutQ` and `GetQ` are one step each; which
-- thread runs next, and whether a wait ends by a wakeup or by its time limit, is a list of events.
pub mod Ring
pub mod Counters
pub mod Fifo
pub mod Order
pub mod Notices
mod Tests
use ape_cpp_server.Base.{
  ℕ, zero, suc, ◌+◌, ◌-◌, Bool, true, false, ◌&&◌, not, List, [], ◌∷◌, ◌++◌, Option, none, some,
  ◌==◌, leb, if◌then◌else◌, get_elem?, get_or, set,
}

-- `MsgQueuePrio::EMsgPriority`
pub data Priority : Type 0 where
  high medium low : Priority

-- `MsgQueuePrio::MsgQueue`; `put_notices` counts the calls of `cond_put.notify_one`.
pub record MsgQueue : Type 0 where
  pub ppbuf : List ℕ
  pub capacity : ℕ
  pub datasize : ℕ
  pub putloc : ℕ
  pub getloc : ℕ
  pub waitingputthreadnum : ℕ
  pub put_notices : ℕ

-- The constructor; `slots` is what `new void *[size]` hands out.
pub new_queue : ℕ → List ℕ → MsgQueue
new_queue size slots = record {
  ppbuf = slots;
  capacity = size;
  datasize = 0;
  putloc = 0;
  getloc = 0;
  waitingputthreadnum = 0;
  put_notices = 0;
}

abbrev pub is_full : MsgQueue → Bool
is_full q = q.capacity == q.datasize

abbrev pub is_empty : MsgQueue → Bool
is_empty q = leb q.datasize 0

-- `MsgQueuePrio`; `get_notices` counts the calls of `cond_get_.notify_one`.
pub record MsgQueuePrio : Type 0 where
  pub high_queue : MsgQueue
  pub medium_queue : MsgQueue
  pub low_queue : MsgQueue
  pub waitinggetthreadnum : ℕ
  pub get_notices : ℕ

pub new_queues : MsgQueue → MsgQueue → MsgQueue → MsgQueuePrio
new_queues h m l = record {
  high_queue = h;
  medium_queue = m;
  low_queue = l;
  waitinggetthreadnum = 0;
  get_notices = 0;
}

-- `queue_[en_prio]`, read and written back
abbrev pub queue_at : Priority → MsgQueuePrio → MsgQueue
queue_at high s = s.high_queue
queue_at medium s = s.medium_queue
queue_at low s = s.low_queue

abbrev pub with_queue : Priority → MsgQueue → MsgQueuePrio → MsgQueuePrio
with_queue high q s = record s { high_queue = q }
with_queue medium q s = record s { medium_queue = q }
with_queue low q s = record s { low_queue = q }

-- an index after `++`, reset at the end of the ring
abbrev pub next_loc : ℕ → ℕ → ℕ
next_loc cap loc = if loc + 1 == cap then 0 else loc + 1

-- The lines of `PutQ` that store the pointer.
pub store : ℕ → MsgQueue → MsgQueue
store pdata q = record q {
  ppbuf = set q.ppbuf q.putloc pdata;
  datasize = q.datasize + 1;
  putloc = next_loc q.capacity q.putloc;
}

-- The lines of `GetQ` that take a pointer out.
pub fetch : MsgQueue → ℕ × MsgQueue
fetch q = (
  get_or q.ppbuf q.getloc 0,
  record q { datasize = q.datasize - 1; getloc = next_loc q.capacity q.getloc },
)

abbrev pub add_putter : MsgQueue → MsgQueue
add_putter q = record q { waitingputthreadnum = q.waitingputthreadnum + 1 }

abbrev pub drop_putter : MsgQueue → MsgQueue
drop_putter q = record q { waitingputthreadnum = q.waitingputthreadnum - 1 }

-- A call of `notify_one` if the counter of waiting threads is not 0.
abbrev pub notice : ℕ → ℕ
notice threads = if threads == 0 then 0 else 1

abbrev pub notify_get : MsgQueuePrio → MsgQueuePrio
notify_get s = record s { get_notices = s.get_notices + notice s.waitinggetthreadnum }

abbrev pub notify_put : MsgQueue → MsgQueue
notify_put q = record q { put_notices = q.put_notices + notice q.waitingputthreadnum }

-- One turn of the loop of `PutQ`: the queue, and whether the pointer was stored. If it was not, the
-- thread is waiting on `cond_put`.
pub put_turn : ℕ → Priority → MsgQueuePrio → MsgQueuePrio × Bool
unfolding store
put_turn pdata prio s =
    let q = queue_at prio s in
    if is_full q
    then (with_queue prio (add_putter q) s, false)
    else (notify_get (with_queue prio (store pdata q) s), true)

-- The queue that `GetQ` takes from: the first that is not empty, high before medium before low.
pub choose : MsgQueuePrio → Option Priority
choose s =
    if not (is_empty s.high_queue)
    then some high
    else if not (is_empty s.medium_queue)
    then some medium
    else if not (is_empty s.low_queue)
    then some low
    else none

-- One turn of the loop of `GetQ`: the queue, and the pointer taken with its priority. With `none`
-- the thread is waiting on `cond_get_`.
pub get_turn : MsgQueuePrio → MsgQueuePrio × Option (Priority × ℕ)
unfolding choose fetch
get_turn s = elim (choose s) [
  | none ↦ (record s { waitinggetthreadnum = s.waitinggetthreadnum + 1 }, none)
  | some prio ↦
      let (pdata, q) = fetch (queue_at prio s) in
      (with_queue prio (notify_put q) s, some (prio, pdata))
]

abbrev pub drop_getter : MsgQueuePrio → MsgQueuePrio
drop_getter s = record s { waitinggetthreadnum = s.waitinggetthreadnum - 1 }

pub queue_is_empty : MsgQueuePrio → Bool
queue_is_empty s = is_empty s.high_queue && (is_empty s.medium_queue && is_empty s.low_queue)

pub get_capacity : MsgQueuePrio → Priority → ℕ
get_capacity s prio = (queue_at prio s).capacity

pub get_used : MsgQueuePrio → Priority → ℕ
get_used s prio = (queue_at prio s).datasize

-- A thread that waits in `PutQ`, with its arguments.
pub record Putter : Type 0 where
  pub prio : Priority
  pub pdata : ℕ
  pub num_seconds : ℕ

-- The queue, the threads that wait in it, and the calls that have stored or taken a pointer.
pub record System : Type 0 where
  pub queue : MsgQueuePrio
  pub putters : List Putter
  pub getters : List ℕ
  pub put_log : List (Priority × ℕ)
  pub got_log : List (Priority × ℕ)

-- A call, a wakeup of the waiting thread of that index (a notification or a spurious one), or the
-- end of its `timed_wait`.
pub data Event : Type 0 where
  put_q : Putter → Event
  put_wakes put_times_out : ℕ → Event
  get_q : ℕ → Event
  get_wakes get_times_out : ℕ → Event

abbrev pub remove_at {ℓ} : {A : Type ℓ} → ℕ → List A → List A
remove_at i [] = []
remove_at zero (x ∷ xs) = xs
remove_at (suc i) (x ∷ xs) = x ∷ remove_at i xs

pub enter_put : Putter → System → System
unfolding put_turn
enter_put p s =
    let (q, stored) = put_turn p.pdata p.prio s.queue in
    if stored
    then record s { queue = q; put_log = s.put_log ++ ((p.prio, p.pdata) ∷ []) }
    else record s { queue = q; putters = s.putters ++ (p ∷ []) }

pub log_got : Option (Priority × ℕ) → ℕ → System → System
log_got none num_seconds s = record s { getters = s.getters ++ (num_seconds ∷ []) }
log_got (some item) num_seconds s = record s { got_log = s.got_log ++ (item ∷ []) }

pub enter_get : ℕ → System → System
unfolding get_turn log_got
enter_get num_seconds s =
    let (q, item) = get_turn s.queue in log_got item num_seconds (record s { queue = q })

-- `waitingputthreadnum--` after a wait of the thread of index `i`
pub leave_put : ℕ → Putter → System → System
leave_put i p s = record s {
  queue = with_queue p.prio (drop_putter (queue_at p.prio s.queue)) s.queue;
  putters = remove_at i s.putters;
}

pub leave_get : ℕ → System → System
leave_get i s = record s { queue = drop_getter s.queue; getters = remove_at i s.getters }

-- A wait without a time limit does not time out, and no thread has an index out of range.
pub step : System → Event → System
unfolding enter_put enter_get leave_put leave_get
step s (put_q p) = enter_put p s
step s (put_wakes i) = elim (get_elem? s.putters i) [
  | none ↦ s
  | some p ↦ enter_put p (leave_put i p s)
]
step s (put_times_out i) = elim (get_elem? s.putters i) [
  | none ↦ s
  | some p ↦ if p.num_seconds == 0 then s else leave_put i p s
]
step s (get_q num_seconds) = enter_get num_seconds s
step s (get_wakes i) = elim (get_elem? s.getters i) [
  | none ↦ s
  | some num_seconds ↦ enter_get num_seconds (leave_get i s)
]
step s (get_times_out i) = elim (get_elem? s.getters i) [
  | none ↦ s
  | some num_seconds ↦ if num_seconds == 0 then s else leave_get i s
]

pub run : System → List Event → System
unfolding step
run s [] = s
run s (e ∷ es) = run (step s e) es

pub start : MsgQueuePrio → System
start q = record { queue = q; putters = []; getters = []; put_log = []; got_log = [] }
