-- ===== src/SosSessionManager/Aging/Quiet.antt =====
-- Whom `DoCheckSession` tells of the sessions that it closes.
use mathlib.Core.Path.{subst}
use ape_cpp_server.Base.{
  Bool-cases, Option-cases, ℕ, ◌≡◌, refl, sym, ap, ◌∙◌, inl, inr, Bool, true, false, none, List, [],
  ◌∷◌, ◌++◌, All,
}
use ape_cpp_server.Session.{
  Msg, Entry, timed_out, closed, Effect, deliver, discard, write, tell_accept, tell_connected,
  tell_peer_close, start_connect, start_read, close_socket, start_timer, stop_timer, fault, Session,
  clean_requests, connection_closed, is_status,
}
use ape_cpp_server.Session
use ape_cpp_server.Session.Close.{give_history, give_waiting, clean_requests-Cleaned}
use ape_cpp_server.SessionManager.{Fate, stays, ages, goes}
use ape_cpp_server.SosSessionManager.{SosManager, find_member, tell, tell_all, call, with_session}
use ape_cpp_server.SosSessionManager.Sent.{total}
use ape_cpp_server.SosSessionManager.Aging.Kept.{do_check_session-total}
use ape_cpp_server.SosSessionManager.Aging.{
  destroy, delete_member, check_member, fate_of, check_entries, do_check_session,
}

-- an effect that is not a call of the owner
abbrev quiet : Effect → Bool
quiet (deliver m) = false
quiet tell_accept = false
quiet tell_connected = false
quiet tell_peer_close = false
quiet _ = true

abbrev IsQuiet : List Effect → Type 0
IsQuiet es = All (λ e. quiet e ≡ true) es

IsQuiet-append : (l k : List Effect) → IsQuiet l → IsQuiet k → IsQuiet (l ++ k)
IsQuiet-append [] k h i = i
IsQuiet-append (e ∷ l) k h i = (h.0, IsQuiet-append l k h.1 i)

history-IsQuiet : (es : List Entry) → IsQuiet (give_history false es)
history-IsQuiet [] = tt
history-IsQuiet (e ∷ es) = (refl, (refl, history-IsQuiet es))

waiting-IsQuiet : (ps : List (Msg × ℕ)) → IsQuiet (give_waiting false ps)
waiting-IsQuiet [] = tt
waiting-IsQuiet ((m, t) ∷ ps) = (refl, waiting-IsQuiet ps)

-- Without an owner the requests are deleted.
cleaned-IsQuiet : (s : Session) → s.log ≡ [] → s.has_owner ≡ false → IsQuiet (clean_requests s).log
cleaned-IsQuiet s l o =
    let c = (clean_requests-Cleaned s).0 in
    subst IsQuiet (sym (c.log_eq ∙ rw (l, o) refl)) (
      IsQuiet-append (give_history false s.history) (give_waiting false s.waitinglist)
        (history-IsQuiet s.history) (waiting-IsQuiet s.waitinglist))

destroy-IsQuiet : (s : Session) → s.log ≡ [] → IsQuiet (destroy s).log
unfolding destroy
destroy-IsQuiet s l =
    cleaned-IsQuiet (record s { timer_heartbeat = none; timer_reconn = none; has_owner = false }) l
      refl

unattached-IsQuiet :
    (c : Session) → c.attached ≡ false → IsQuiet c.log → IsQuiet (connection_closed c).log
unfolding connection_closed
unattached-IsQuiet c a q = elim (Bool-cases c.link_up) [
  | inl e ↦ rw (connection_closed, e, a) (IsQuiet-append c.log (close_socket ∷ []) q (refl, tt))
  | inr e ↦ rw (connection_closed, e) q
]

close-IsQuiet : (s : Session) → s.log ≡ [] → IsQuiet (Session.close s).log
unfolding Session.close
close-IsQuiet s l = elim (Bool-cases (is_status s.status closed)) [
  | inl h ↦ rw (Session.close, h, l) tt
  | inr h ↦
      let t = record s { attached = false; has_owner = false; status = closed } in
      let c = clean_requests t in
      let q : IsQuiet c.log = cleaned-IsQuiet t l refl in
      rw (Session.close, h) (unattached-IsQuiet c (clean_requests-Cleaned t).0.attached_eq q)
]

tell-quiet :
    (id : ℕ) (e : Effect) (s : Session) (w : SosManager) → quiet e ≡ true → (tell id e s w).1 ≡ w
unfolding tell
tell-quiet id (deliver m) s w h = absurd (cc)
tell-quiet id tell_accept s w h = refl
tell-quiet id tell_connected s w h = absurd (cc)
tell-quiet id tell_peer_close s w h = absurd (cc)
tell-quiet id _ s w h = refl

tell_all-quiet :
    (id : ℕ) (es : List Effect) (s : Session) (w : SosManager)
    → IsQuiet es
    → (tell_all id es s w).1.notices ≡ w.notices
unfolding tell_all
tell_all-quiet id [] s w h = refl
tell_all-quiet id (e ∷ es) s w h =
    let w' = (tell id e s w).1 in
    tell_all-quiet id es (tell id e s w).0 (record w' { effects = w'.effects ++ ((id, e) ∷ []) })
      h.1
    ∙ ap (λ (v : SosManager). v.notices) (tell-quiet id e s w h.0)

with_session-quiet :
    (id : ℕ) (f : Session → Session) (w : SosManager)
    → ((s : Session) → s.log ≡ [] → IsQuiet (f s).log)
    → (with_session id f w).notices ≡ w.notices
unfolding with_session call
with_session-quiet id f w h = elim (Option-cases (find_member id w.members)) [
  | inl n ↦ rw (with_session, n, call) refl
  | inr m ↦
      let s = f (record m.0.state { log = [] }) in
      rw (with_session, m.1, call)
        (tell_all-quiet id s.log s w (h (record m.0.state { log = [] }) refl))
]

check_member-quiet :
    (f : Fate) (id : ℕ) (w : SosManager) → (check_member f id w).notices ≡ w.notices
unfolding check_member delete_member
check_member-quiet stays id w = refl
check_member-quiet ages id w =
    with_session-quiet id (λ s. record s { status = timed_out }) w (λ s h. subst IsQuiet (sym h) tt)
check_member-quiet goes id w =
    with_session-quiet id destroy (with_session id Session.close w) destroy-IsQuiet
    ∙ with_session-quiet id Session.close w close-IsQuiet

check_entries-quiet :
    (t : List (ℕ × ℕ)) (w : SosManager) → (check_entries t w).1.notices ≡ w.notices
unfolding check_entries
check_entries-quiet [] w = refl
check_entries-quiet ((name, id) ∷ t) w =
    let f = fate_of (find_member id w.members) in
    check_entries-quiet t (check_member f id w) ∙ check_member-quiet f id w

do_check_session-notices : (w : SosManager) → (do_check_session w).notices ≡ w.notices
unfolding do_check_session
do_check_session-notices w = check_entries-quiet w.short_sessions w

-- Whatever sessions there are, `DoCheckSession` tells the handler of none that it closes, and gives it
-- no message; and no message that a session kept is lost or given up twice. So the requests of the
-- closed sessions are deleted without an answer.
pub do_check_session_lem :
    (u : ℕ) (w : SosManager)
    → ((do_check_session w).notices ≡ w.notices) × (total u (do_check_session w) ≡ total u w)
do_check_session_lem u w = (do_check_session-notices w, do_check_session-total u w)
