-- ===== src/Connecting.antt =====
-- frame/net/connection.cc: `CConnection` until it is connected. The resolver's endpoints are numbers;
-- what asio does with a request (`async_resolve`, `async_connect`, the timer) comes back as an event,
-- and the end of its list of endpoints is the empty list.
pub mod Tries
pub mod TimeOut
mod Tests
use ape_cpp_server.Base.{
  ◌==◌, if◌then◌else◌, ℤ, pos, negsuc, ℕ, ◌+◌, Bool, true, false, Option, none, some, List, [], ◌∷◌,
  ◌++◌,
}

-- `pending` is what is left of the list behind the endpoint that `async_connect` was last called with,
-- until it answers. `tries` are the endpoints of those calls, `results` the arguments of the calls of
-- `session_->ConnectResult`; `resolves`, `reads` and `socket_closes` count the calls of `async_resolve`,
-- `AsyncReadInner` and `socket_.close`.
pub record Connecting : Type 0 where
  pub connected : Bool
  pub has_session : Bool
  pub timer_on : Bool
  pub resolves : ℕ
  pub pending : Option (List ℕ)
  pub tries : List ℕ
  pub results : List ℤ
  pub reads : ℕ
  pub socket_closes : ℕ

-- the constructor
abbrev pub new_connecting : Bool → Connecting
new_connecting has_session = record {
  connected = false;
  has_session = has_session;
  timer_on = false;
  resolves = 0;
  pending = none;
  tries = [];
  results = [];
  reads = 0;
  socket_closes = 0;
}

-- the call of `async_connect` with an endpoint, and the rest of the list for its handler
abbrev pub async_connect : ℕ → List ℕ → Connecting → Connecting
async_connect endpoint rest c = record c { pending = some rest; tries = c.tries ++ (endpoint ∷ []) }

abbrev pub close_socket : Connecting → Connecting
close_socket c = record c { socket_closes = c.socket_closes + 1 }

abbrev pub is_zero : ℤ → Bool
is_zero (pos n) = n == 0
is_zero (negsuc n) = false

-- `ConnectFinish`
pub connect_finish : ℤ → Connecting → Connecting
connect_finish result c =
    let c' = record c { timer_on = false } in
    let d = if is_zero result then record c' { connected = true; reads = c'.reads + 1 } else c' in
    if d.has_session then record d { results = d.results ++ (result ∷ []) } else d

-- `AsyncConnect`
pub async_connect_to : Connecting → Connecting
unfolding connect_finish
async_connect_to c =
    if c.connected
    then connect_finish (pos 0) c
    else record c { resolves = c.resolves + 1; timer_on = true }

-- `HandleResolve` with an error, or with a list of endpoints, which is not empty
pub handle_resolve : Option (ℕ × List ℕ) → Connecting → Connecting
unfolding connect_finish
handle_resolve none c = connect_finish (negsuc 1) c
handle_resolve (some (endpoint, rest)) c = async_connect endpoint rest c

-- `HandleConnected`
pub handle_connected : Bool → List ℕ → Connecting → Connecting
unfolding connect_finish
handle_connected false rest c = connect_finish (pos 0) c
handle_connected true [] c = connect_finish (negsuc 2) c
handle_connected true (endpoint ∷ rest) c = async_connect endpoint rest (close_socket c)

-- `HandleConnectTimeout`; the error is `operation_aborted` or not.
pub handle_connect_timeout : Bool → Connecting → Connecting
unfolding connect_finish
handle_connect_timeout true c = c
handle_connect_timeout false c = connect_finish (negsuc 2) (close_socket c)

-- What asio calls: the handlers, that of `async_connect` only while one is on its way.
pub data Event : Type 0 where
  resolved : Option (ℕ × List ℕ) → Event
  answers : Bool → Event
  timer : Bool → Event

pub answer : Bool → Option (List ℕ) → Connecting → Connecting
unfolding handle_connected
answer err none c = c
answer err (some rest) c = handle_connected err rest (record c { pending = none })

pub step : Connecting → Event → Connecting
unfolding handle_resolve answer handle_connect_timeout
step c (resolved r) = handle_resolve r c
step c (answers err) = answer err c.pending c
step c (timer aborted) = handle_connect_timeout aborted c

pub run : Connecting → List Event → Connecting
unfolding step
run c [] = c
run c (e ∷ es) = run (step c e) es
