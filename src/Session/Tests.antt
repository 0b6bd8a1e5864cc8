-- ===== src/Session/Tests.antt =====
-- The session's theorems at concrete inputs, and runs of the code.
use ape_cpp_server.Base.{pos, ℕ, ◌+◌, ◌≡◌, refl, true, false, none, some, [], ◌∷◌, ◌++◌, arith}
use ape_cpp_server.Message.{Direction, response, new_message}
use ape_cpp_server.Session.{
  connected, connecting, closed, Msg, deliver, discard, write, tell_connected, tell_peer_close,
  start_connect, start_read, close_socket, start_timer, stop_timer, Session, new_session,
  do_send_to, connect_finish, do_connect, connection_closed, do_request_time_out, sends, reads,
  connects, starts_connect, step,
}
use ape_cpp_server.Session.Ledger.{held, held-step}
use ape_cpp_server.Session.Close.{given_back, connection_closed_lem}
use ape_cpp_server.Session.Reconnect.{do_connect-connection_closed, do_connect_stuck}
use ape_cpp_server.Session.Timeout.{do_request_time_out_loses}

abbrev call : ℕ → ℕ → Msg
call uid seqid = record { uid = uid; seqid = seqid; ok_code = pos 0; net = new_message }

abbrev beat : Direction → Msg
beat d = record (call 99 0) { net = record new_message { direction = d; isheartbeat = true } }

-- A session that is connected, with two requests on their way.
abbrev busy : Session
busy = record {
  status = connected;
  has_owner = true;
  autoreconnect = false;
  heartbeatinterval = 0;
  timer_reconn = none;
  timer_heartbeat = none;
  history = record { seqid = 4; msg = call 1 4 } ∷ (record { seqid = 4; msg = call 2 4 } ∷ []);
  waitinglist = [];
  link_up = true;
  attached = true;
  log = [];
}

abbrev answer : Msg
answer = record (call 8 4) { net = record new_message { direction = response; code = pos 0 } }

-- A request that was waiting is sent once the connection is there.
sent_when_connected :
    (step beat
      (step beat (step beat (new_session true false 0) starts_connect) (sends (call 1 4) 5))
      (connects true)).log
    ≡ start_connect
      ∷ (start_read ∷ (tell_connected ∷ (start_timer 1 5 ∷ (write (call 1 4) false ∷ []))))
unfolding step new_session
sent_when_connected = refl

-- An answer goes to the owner, and the request that it answers is deleted.
answered_once :
    (step beat busy (reads answer)).log
    ≡ discard (call 1 4) ∷ (stop_timer 1 ∷ (deliver answer ∷ []))
unfolding step
answered_once = refl

held-step_example : held 1 (step beat busy (reads answer)) ≡ held 1 busy + 0
held-step_example = held-step 1 beat busy (reads answer) tt

connection_closed_lem_example :
    let t = connection_closed busy in
    (t.history ≡ [])
    × (t.waitinglist ≡ [])
    × (t.log ≡ (busy.log ++ given_back busy) ++ ((tell_peer_close ∷ []) ++ (close_socket ∷ [])))
    × (t.status ≡ closed)
    × (t.timer_reconn ≡ none)
    × (t.link_up ≡ false)
    × (t.attached ≡ false)
connection_closed_lem_example = connection_closed_lem busy refl refl

abbrev stubborn : Session
stubborn = record busy { autoreconnect = true }

do_connect-connection_closed_example :
    let t = connection_closed stubborn in
    (t.timer_reconn ≡ some true)
    × ((do_connect t).log ≡ t.log ++ (start_connect ∷ []))
    × ((do_connect t).status ≡ connecting)
do_connect-connection_closed_example = do_connect-connection_closed stubborn refl refl refl

abbrev trying : Session
trying = record stubborn { status = connecting; link_up = false; history = [] }

do_connect_stuck_example :
    let t = connect_finish false trying in
    (t.timer_reconn ≡ some true)
    × (do_connect t ≡ record t { attached = true })
    × ((m : Msg) (n : ℕ)
        → do_send_to m n t ≡ record t { waitinglist = t.waitinglist ++ ((m, n) ∷ []) })
do_connect_stuck_example = do_connect_stuck trying refl refl refl

-- The second request times out, and the first is lost.
do_request_time_out_loses_example :
    (held 1 (do_request_time_out (call 2 4) busy) + 1 ≡ held 1 busy)
    × (held 2 (do_request_time_out (call 2 4) busy) ≡ held 2 busy + 1)
do_request_time_out_loses_example =
    do_request_time_out_loses (call 2 4) (record { seqid = 4; msg = call 1 4 }) busy refl refl
      (omega arith)
