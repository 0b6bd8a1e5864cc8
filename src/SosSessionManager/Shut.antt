-- ===== src/SosSessionManager/Shut.antt =====
-- What is sent to a session after `DoClose`.
use ape_cpp_server.Base.{
  ◌==◌, Bool-cases, ℕ, ◌*◌, ◌≡◌, refl, ap, ◌∙◌, inl, inr, true, false, some, List, [], ◌∷◌, ◌++◌,
  arith,
}
use ape_cpp_server.Message.{request}
use ape_cpp_server.Session.{
  connected, timed_out, connecting, waiting, closed, Msg, Effect, deliver, discard, write,
  tell_accept, tell_connected, tell_peer_close, start_connect, start_read, close_socket,
  start_timer, stop_timer, fault, Session, is_status, clean_requests, connection_closed,
  do_send_request,
}
use ape_cpp_server.Session
use ape_cpp_server.Session.Close.{clean_requests-Cleaned}
use ape_cpp_server.SessionManager.{find_session}
use ape_cpp_server.SosSessionManager.{
  Member, SosManager, find_member, replace_member, delete_session, tell, tell_all, call,
  with_session, choose_session, send_through, do_send_to, session_to_close, do_close,
}
use ape_cpp_server.SosSessionManager.Sent.{find-has_id}
use ape_cpp_server.SosSessionManager.Tables.{has_id, noted, with_session-IsSame, tell_all-IsTold}

-- a session after `Close`
record IsShut (s : Session) : Type 0 where
  no_owner : s.has_owner ≡ false
  is_closed : s.status ≡ closed

closed_status : (s : Session) → is_status s.status closed ≡ true → s.status ≡ closed
closed_status s h = ground arith

close-IsShut : (s : Session) → IsShut (Session.close s)
unfolding Session.close connection_closed
close-IsShut s = elim (Bool-cases (is_status s.status closed)) [
  | inl h ↦ rw (Session.close, h) (record { no_owner = refl; is_closed = closed_status s h })
  | inr h ↦
      let t = record s { attached = false; has_owner = false; status = closed } in
      let c = (clean_requests-Cleaned t).0 in
      record {
        no_owner = ground (arith, h, c.owner_eq, c.attached_eq);
        is_closed = ground (arith, h, c.status_eq, c.attached_eq);
      }
]

-- A request is answered through the owner, which is NULL.
log-do_send_to :
    (m : Msg) (t : ℕ) (s : Session)
    → IsShut s
    → m.net.direction ≡ request
    → (Session.do_send_to m t (record s { log = [] })).log ≡ fault ∷ []
unfolding Session.do_send_to do_send_request
log-do_send_to m t s h d = ground (arith, h.no_owner, h.is_closed, d)

pub find-replace_member :
    (id : ℕ) (s : Session) (m : Member) (ms : List Member)
    → find_member id ms ≡ some m
    → find_member id (replace_member id s ms) ≡ some (record m { state = s })
find-replace_member id s m [] e = absurd (cc)
find-replace_member id s m (x ∷ ms) e = elim (Bool-cases (x.id == id)) [
  | inl h ↦ ground (arith, h, e)
  | inr h ↦ ground (arith, h, e, find-replace_member id s m ms)
]

tell-IsShut :
    (id : ℕ) (e : Effect) (s : Session) (w : SosManager) → IsShut s → IsShut (tell id e s w).0
unfolding tell delete_session
tell-IsShut id tell_peer_close s w h = ground (arith, h.no_owner, h.is_closed)
tell-IsShut id tell_connected s w h = h
tell-IsShut id (deliver m) s w h = h
tell-IsShut id _ s w h = h

tell_all-IsShut :
    (id : ℕ) (es : List Effect) (s : Session) (w : SosManager)
    → IsShut s
    → IsShut (tell_all id es s w).0
unfolding tell_all
tell_all-IsShut id [] s w h = h
tell_all-IsShut id (e ∷ es) s w h =
    let w' = (tell id e s w).1 in
    tell_all-IsShut id es (tell id e s w).0 (record w' { effects = w'.effects ++ ((id, e) ∷ []) })
      (tell-IsShut id e s w h)

-- The session is found again, and is shut.
close-found :
    (id : ℕ) (m : Member) (w : SosManager)
    → find_member id w.members ≡ some m
    → (m' : Member) × (find_member id (with_session id Session.close w).members ≡ some m')
      × IsShut m'.state
unfolding with_session call
close-found id m w e =
    let s = Session.close (record m.state { log = [] }) in
    let t = tell_all id s.log s w in
    let told = tell_all-IsTold id s.log s w in
    (
      record m { state = t.0 },
      rw (with_session, e)
          (find-replace_member id t.0 m t.1.members (ap (find_member id) told.members_eq ∙ e)),
      tell_all-IsShut id s.log s w (close-IsShut (record m.state { log = [] })),
    )

send-shut :
    (id timeout : ℕ) (m : Msg) (x : Member) (w : SosManager)
    → find_member id w.members ≡ some x
    → IsShut x.state
    → m.net.direction ≡ request
    → (with_session id (λ s. Session.do_send_to m timeout s) w).effects
      ≡ w.effects ++ ((id, fault) ∷ [])
unfolding with_session call
send-shut id timeout m x w e h d =
    let s = Session.do_send_to m timeout (record x.state { log = [] }) in
    rw (with_session, e)
      ((tell_all-IsTold id s.log s w).effects_eq
        ∙ ap (λ l. w.effects ++ noted id l) (log-do_send_to m timeout x.state h d))

-- Right after `DoClose` of a name that has a session among the short ones, a request that is sent to
-- the name ends in a call through NULL.
pub do_send_to-do_close :
    (name id timeout : ℕ) (m : Msg) (w : SosManager)
    → find_session name w.short_sessions ≡ some id
    → has_id id w.members ≡ true
    → m.net.direction ≡ request
    → let w' = do_close name w in
      (do_send_to name m timeout w').effects ≡ w'.effects ++ ((id, fault) ∷ [])
unfolding do_send_to do_close session_to_close choose_session send_through
do_send_to-do_close name id timeout m w hs hi d =
    let x = find-has_id id w.members hi in
    let w' = with_session id Session.close w in
    let c = close-found id x.0 w x.1 in
    let closing : do_close name w ≡ w' = rw (do_close, session_to_close, hs) refl in
    rw
      (
        closing,
        do_send_to,
        ap (find_session name) (with_session-IsSame id Session.close w).0.short_eq ∙ hs,
      )
      (send-shut id (timeout * 1000) m c.0 w' c.1 c.2 d)
