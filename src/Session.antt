-- ===== src/Session.antt =====
-- frame/session/session.h and session.cc: `CSession`, one connection's requests, with the flags of
-- `CConnection` (frame/net/connection.cc) that it depends on. Every call on the outside (the owner,
-- the socket, `delete`, a timer) is an entry of the log, in order. The owner's handler runs after the
-- call that it is told by; it calls the session back through another event only.
pub mod Ledger
pub mod Close
pub mod Reconnect
pub mod Timeout
mod Tests
use ape_cpp_server.Base.{
  ltb, ◌==◌, if◌then◌else◌, ℤ, pos, negsuc, ℕ, Bool, true, false, ◌&&◌, ◌||◌, Option, none, some,
  List, [], ◌∷◌, ◌++◌,
}
use ape_cpp_server.Message.{
  Direction, request, response, NetMessage, set_reply, is_reply, error_time_out, error_peer_close,
}

-- `CSession::EStatus`
pub data Status : Type 0 where
  waiting connected timed_out connecting closed : Status

-- A message that is passed on by its pointer: `uid` stands for the pointer, `seqid` is what
-- `GetSequenceId` returns, and `ok_code` the code for which `IsOk` holds.
pub record Msg : Type 0 where
  pub uid : ℕ
  pub seqid : ℕ
  pub ok_code : ℤ
  pub net : NetMessage

abbrev pub same_int : ℤ → ℤ → Bool
same_int (pos a) (pos b) = a == b
same_int (negsuc a) (negsuc b) = a == b
same_int _ _ = false

abbrev pub is_ok : Msg → Bool
is_ok m = same_int m.net.code m.ok_code

abbrev pub reply_with : ℤ → Msg → Msg
reply_with code m = record m { net = set_reply code m.net }

-- What the session does to the outside.
pub data Effect : Type 0 where
  -- `owner_->OnRead`, `delete`, and a write of the connection with its argument `close`
  deliver discard : Msg → Effect
  write : Msg → Bool → Effect
  tell_accept tell_connected tell_peer_close : Effect
  -- `async_resolve`, the next read, and `socket_.close`
  start_connect start_read close_socket : Effect
  start_timer : ℕ → ℕ → Effect
  stop_timer : ℕ → Effect
  -- a call through NULL
  fault : Effect

-- An element of `request_history_`: the request's timer is running as long as it is there.
pub record Entry : Type 0 where
  pub seqid : ℕ
  pub msg : Msg

pub record Session : Type 0 where
  pub status : Status
  pub has_owner : Bool
  pub autoreconnect : Bool
  pub heartbeatinterval : ℕ
  -- whether the timer exists, and if so whether it runs
  pub timer_reconn : Option Bool
  pub timer_heartbeat : Option Bool
  pub history : List Entry
  pub waitinglist : List (Msg × ℕ)
  -- `connected_` of the connection, and `session_ != NULL` there
  pub link_up : Bool
  pub attached : Bool
  pub log : List Effect

-- The constructor and `Init`.
unfoldable pub new_session : Bool → Bool → ℕ → Session
new_session has_owner autoreconnect heartbeat = record {
  status = waiting;
  has_owner = has_owner;
  autoreconnect = autoreconnect;
  heartbeatinterval = heartbeat;
  timer_reconn = none;
  timer_heartbeat = none;
  history = [];
  waitinglist = [];
  link_up = false;
  attached = true;
  log = [];
}

abbrev pub emit : Effect → Session → Session
emit e s = record s { log = s.log ++ (e ∷ []) }

abbrev pub is_status : Status → Status → Bool
is_status waiting waiting = true
is_status connected connected = true
is_status timed_out timed_out = true
is_status connecting connecting = true
is_status closed closed = true
is_status _ _ = false

-- `request_history_`, a multimap: by key, and in the order of insertion for one key
abbrev pub insert_entry : Entry → List Entry → List Entry
insert_entry e [] = e ∷ []
insert_entry e (x ∷ xs) = if ltb e.seqid x.seqid then e ∷ (x ∷ xs) else x ∷ insert_entry e xs

-- `find`, and `erase` of what it found
abbrev pub find_entry : ℕ → List Entry → Option Entry
find_entry k [] = none
find_entry k (x ∷ xs) = if x.seqid == k then some x else find_entry k xs

abbrev pub erase_entry : ℕ → List Entry → List Entry
erase_entry k [] = []
erase_entry k (x ∷ xs) = if x.seqid == k then xs else x ∷ erase_entry k xs

-- `CConnection::AsyncWrite`
abbrev pub async_write : Msg → Bool → Session → Session
async_write m close s = if s.link_up then emit (write m close) s else s

-- `owner_ != NULL ? owner_->OnRead (this, msg) : delete msg`
abbrev pub hand_over : Msg → Session → Session
hand_over m s = if s.has_owner then emit (deliver m) s else emit (discard m) s

-- `owner_->OnRead (this, msg)`
abbrev pub deliver_to_owner : Msg → Session → Session
deliver_to_owner m s = if s.has_owner then emit (deliver m) s else emit fault s

-- The loops of `CleanRequestAndCallBack`.
unfoldable pub clean_history : List Entry → Session → Session
clean_history [] s = record s { history = [] }
clean_history (e ∷ es) s = clean_history es (
    hand_over (reply_with error_peer_close e.msg)
      (emit (stop_timer e.msg.uid) (record s { history = es })))

unfoldable pub clean_waiting : List (Msg × ℕ) → Session → Session
clean_waiting [] s = record s { waitinglist = [] }
clean_waiting ((m, t) ∷ ps) s =
    clean_waiting ps (hand_over (reply_with error_peer_close m) (record s { waitinglist = ps }))

unfoldable pub clean_requests : Session → Session
unfolding clean_history clean_waiting
clean_requests s = let s' = clean_history s.history s in clean_waiting s'.waitinglist s'

-- `DoSendRequest`
unfoldable pub do_send_request : Msg → ℕ → Session → Session
do_send_request m timeout s =
    if is_status s.status connected
    then async_write m false (record (emit (start_timer m.uid timeout) s) {
      history = insert_entry (record { seqid = m.seqid; msg = m }) s.history;
    })
    else deliver_to_owner (reply_with error_peer_close m) s

-- `DoSendTo`, without the note of the connection's id in the message
unfoldable pub do_send_to : Msg → ℕ → Session → Session
unfolding do_send_request
do_send_to m timeout s =
    if is_status s.status connecting || is_status s.status waiting
    then record s { waitinglist = s.waitinglist ++ ((m, timeout) ∷ []) }
    else elim m.net.direction [
      | request ↦ do_send_request m timeout s
      | _ ↦ emit (discard m) (async_write m false s)
    ]

-- The loop of `DealWaitingList`.
unfoldable pub deal : List (Msg × ℕ) → Session → Session
unfolding do_send_to
deal [] s = record s { waitinglist = [] }
deal ((m, t) ∷ ps) s =
    let s' = record s { waitinglist = ps } in
    deal ps (
      if is_status s.status connected
      then do_send_to m t s'
      else hand_over (reply_with error_peer_close m) s')

unfoldable pub deal_waiting_list : Session → Session
unfolding deal
deal_waiting_list s = deal s.waitinglist s

abbrev pub on_connected : Session → Session
on_connected s = if s.has_owner then emit tell_connected s else s

-- The timer that calls `DoConnect` after three seconds, made when it is first needed.
abbrev pub start_reconn : Session → Session
start_reconn s = record s { timer_reconn = some true }

abbrev pub stop_reconn : Session → Session
stop_reconn s = record s {
  timer_reconn = elim s.timer_reconn [ none ↦ none | some _ ↦ some false ];
}

abbrev pub start_heartbeat : Session → Session
start_heartbeat s =
    if ltb 0 s.heartbeatinterval
    then record s {
      timer_heartbeat = elim s.timer_heartbeat [ none ↦ some true | some r ↦ some r ];
    }
    else s

-- What `ConnectResult` does to the status and the timers, for a result of 0 and for any other.
unfoldable pub note_result : Bool → Session → Session
note_result true s = stop_reconn (start_heartbeat (record s { status = connected }))
note_result false s = if s.autoreconnect then start_reconn s else s

unfoldable pub connect_result : Bool → Session → Session
unfolding note_result deal_waiting_list
connect_result success s = deal_waiting_list (on_connected (note_result success s))

-- `CConnection::ConnectFinish`
unfoldable pub connect_finish : Bool → Session → Session
unfolding connect_result
connect_finish success s =
    let s' = if success then emit start_read (record s { link_up = true }) else s in
    if s'.attached then connect_result success s' else s'

-- `DoConnect`, with `CConnection::AsyncConnect`
unfoldable pub do_connect : Session → Session
unfolding connect_finish
do_connect s =
    let s' = record s { attached = true } in
    if is_status s.status connected || is_status s.status connecting
    then s'
    else let t = record s' { status = connecting } in
      if t.link_up then connect_finish true t else emit start_connect t

abbrev pub on_accept : Session → Session
on_accept s =
    let s' = record s { status = connected } in if s'.has_owner then emit tell_accept s' else s'

-- `OnPeerClose`
unfoldable pub on_peer_close : Session → Session
unfolding clean_requests
on_peer_close s =
    let s' = clean_requests (record s { status = closed }) in
    if s'.autoreconnect
    then start_reconn (record s' { status = waiting })
    else if s'.has_owner
    then emit tell_peer_close s'
    else s'

-- `CConnection::OnPeerClose`
unfoldable pub connection_closed : Session → Session
unfolding on_peer_close
connection_closed s =
    let s' = if s.link_up && s.attached then record (on_peer_close s) { attached = false } else s in
    if s'.link_up then record (emit close_socket s') { link_up = false } else s'

-- `Close`
unfoldable pub close : Session → Session
unfolding clean_requests connection_closed
close s =
    let s' = record s { attached = false; has_owner = false } in
    if is_status s.status closed
    then s'
    else connection_closed (clean_requests (record s' { status = closed }))

-- `DoSendBack`
unfoldable pub do_send_back : Msg → Bool → Session → Session
do_send_back m close s = emit (discard m) (async_write m close s)

-- The answer to a request of which no more is known than its sequence id.
abbrev pub take_answer : Msg → Entry → Session → Session
take_answer m e s = record (emit (stop_timer e.msg.uid) (emit (discard e.msg) s)) {
  history = erase_entry m.seqid s.history;
}

abbrev pub pass_on : Msg → Session → Session
pass_on m s =
    if s.has_owner then emit (deliver m) (record s { status = connected }) else emit (discard m) s

pub read_response : Msg → Session → Session
read_response m s =
    let s' = if is_ok m then record s { status = connected } else s in
    elim (find_entry m.seqid s'.history) [
      | none ↦ emit (discard m) s'
      | some e ↦
          pass_on (record m { net = record m.net { ctx = e.msg.net.ctx } }) (take_answer m e s')
    ]

-- `OnRead`. The heartbeat message is made by the parser, from the direction.
abbrev pub answer_heartbeat : (Direction → Msg) → Direction → Session → Session
answer_heartbeat heartbeat request s =
    emit (discard (heartbeat response)) (async_write (heartbeat response) false s)
answer_heartbeat heartbeat _ s = s

pub read_heartbeat : (Direction → Msg) → Msg → Session → Session
read_heartbeat heartbeat m s =
    emit (discard m) (answer_heartbeat heartbeat m.net.direction (record s { status = connected }))

pub on_read : (Direction → Msg) → Msg → Session → Session
unfolding read_heartbeat read_response
on_read heartbeat m s =
    if m.net.isheartbeat
    then read_heartbeat heartbeat m s
    else if is_reply m.net
    then read_response m s
    else pass_on m s

-- `DoHeartBeat`
pub do_heartbeat : (Direction → Msg) → Session → Session
do_heartbeat heartbeat s =
    if is_status s.status connected || is_status s.status timed_out
    then emit (discard (heartbeat request)) (async_write (heartbeat request) false s)
    else s

-- `DoRequestTimeOut`. The timer of an element of the history has the status `TIME_OUT` from its
-- start on.
pub do_request_time_out : Msg → Session → Session
do_request_time_out m s = elim (find_entry m.seqid s.history) [
  | none ↦ s
  | some e ↦
      let s' =
        if s.has_owner
        then emit (deliver (reply_with error_time_out m)) s
        else emit (discard m) s in
      record s' { history = erase_entry m.seqid s.history }
]

-- What can happen to a session: a call of the manager above it or of the handler, a message or the
-- end of the connection, the result of a connection attempt, and its three kinds of timer.
pub data Event : Type 0 where
  sends : Msg → ℕ → Event
  sends_back : Msg → Bool → Event
  reads : Msg → Event
  connects : Bool → Event
  starts_connect loses_link closes accepts beats : Event
  times_out : Msg → Event

pub step : (Direction → Msg) → Session → Event → Session
unfolding do_send_to do_send_back on_read connect_finish do_connect connection_closed close
    do_heartbeat do_request_time_out
step heartbeat s (sends m timeout) = do_send_to m timeout s
step heartbeat s (sends_back m close) = do_send_back m close s
step heartbeat s (reads m) = on_read heartbeat m s
step heartbeat s (connects success) = connect_finish success s
step heartbeat s starts_connect = do_connect s
step heartbeat s loses_link = connection_closed s
step heartbeat s closes = close s
step heartbeat s accepts = on_accept s
step heartbeat s beats = do_heartbeat heartbeat s
step heartbeat s (times_out m) = do_request_time_out m s
