-- ===== src/Session/Reconnect.antt =====
-- Connecting again by itself.
use ape_cpp_server.Base.{
  if◌then◌else◌, ℕ, ◌≡◌, refl, ap, ◌∙◌, true, false, some, List, [], ◌∷◌, ◌++◌, arith,
}
use ape_cpp_server.Message.{error_peer_close}
use ape_cpp_server.Session.{
  connected, connecting, Msg, reply_with, start_connect, Session, is_status, hand_over,
  clean_waiting, do_send_to, deal, deal_waiting_list, on_connected, start_reconn, note_result,
  connect_result, connect_finish, do_connect, connection_closed,
}
use ape_cpp_server.Session.Close.{clean_waiting-Cleaned, connection_closed_lem}

-- After the peer has closed an attached connection, the timer of a session that reconnects by itself
-- starts a new attempt.
pub do_connect-connection_closed :
    (s : Session)
    → s.link_up ≡ true
    → s.attached ≡ true
    → s.autoreconnect ≡ true
    → let t = connection_closed s in
      (t.timer_reconn ≡ some true)
      × ((do_connect t).log ≡ t.log ++ (start_connect ∷ []))
      × ((do_connect t).status ≡ connecting)
unfolding do_connect
do_connect-connection_closed s up at re = ground (arith, connection_closed_lem s up at, re)

-- Of a session that is not connected the waiting list is given back.
deal-clean_waiting :
    (ps : List (Msg × ℕ)) (s : Session)
    → is_status s.status connected ≡ false
    → deal ps s ≡ clean_waiting ps s
unfolding deal clean_waiting
deal-clean_waiting [] s h = refl
deal-clean_waiting ((m, t) ∷ ps) s h =
    ap
      (λ b. deal ps (
        if b
        then do_send_to m t (record s { waitinglist = ps })
        else hand_over (reply_with error_peer_close m) (record s { waitinglist = ps })))
      h
    ∙ deal-clean_waiting ps
        (hand_over (reply_with error_peer_close m) (record s { waitinglist = ps }))
        (ground (arith, h))

-- The session after an attempt that failed.
failed_attempt : Session → Session
failed_attempt s = on_connected (start_reconn s)

connect_finish-failed :
    (s : Session)
    → s.status ≡ connecting
    → s.attached ≡ true
    → s.autoreconnect ≡ true
    → connect_finish false s ≡ clean_waiting s.waitinglist (failed_attempt s)
unfolding connect_finish connect_result note_result deal_waiting_list failed_attempt
connect_finish-failed s c at re =
    ground (arith, at, re, c, deal-clean_waiting s.waitinglist (on_connected (start_reconn s)))

-- An attempt that fails, in a session that is connecting, is attached and reconnects by itself, leaves
-- the reconnect timer started, but with a status in which the timer's `DoConnect` begins no attempt. A
-- request that is sent then is put on the waiting list, and nothing else changes.
pub do_connect_stuck :
    (s : Session)
    → s.status ≡ connecting
    → s.attached ≡ true
    → s.autoreconnect ≡ true
    → let t = connect_finish false s in
      (t.timer_reconn ≡ some true)
      × (do_connect t ≡ record t { attached = true })
      × ((m : Msg) (n : ℕ)
          → do_send_to m n t ≡ record t { waitinglist = t.waitinglist ++ ((m, n) ∷ []) })
unfolding do_connect do_send_to failed_attempt
do_connect_stuck s c at re =
    let w = clean_waiting-Cleaned s.waitinglist (failed_attempt s) in
    let e = connect_finish-failed s c at re in
    rw e (
      w.0.timer_eq ∙ ground (arith, c),
      ground (arith, c, w.0.status_eq),
      λ m n. ground (arith, c, w.0.status_eq),
    )
