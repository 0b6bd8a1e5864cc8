-- ===== src/SosSessionManager/Aging/Kept.antt =====
-- What `DoCheckSession` does with the messages of the sessions.
use ape_cpp_server.Base.{
  ◌==◌, Bool-cases, Option-cases, ℕ, ◌+◌, ◌≡◌, refl, sym, ap, ◌∙◌, inl, inr, false, none, some,
  List, [], ◌∷◌, arith,
}
use ape_cpp_server.Session.{
  timed_out, closed, Effect, deliver, discard, write, tell_accept, tell_connected, tell_peer_close,
  start_connect, start_read, close_socket, start_timer, stop_timer, fault, Session, clean_requests,
  connection_closed, is_status,
}
use ape_cpp_server.Session
use ape_cpp_server.Session.Close.{clean_requests-Cleaned}
use ape_cpp_server.Session.Ledger.{
  count_history, count_waiting, held, held-close, held-clean_requests,
}
use ape_cpp_server.SessionManager.{Fate, stays, ages, goes}
use ape_cpp_server.SosSessionManager.{Member, SosManager, find_member, tell_all, call, with_session}
use ape_cpp_server.SosSessionManager.Sent.{kept, kept_all, total, total-call, tell_all-kept}
use ape_cpp_server.SosSessionManager.Shut.{find-replace_member}
use ape_cpp_server.SosSessionManager.Tables.{tell_all-IsTold}
use ape_cpp_server.SosSessionManager.Aging.{
  destroy, without_member, delete_member, check_member, fate_of, check_entries, do_check_session,
}

total-with :
    (u id : ℕ) (f : Session → Session) (w : SosManager)
    → ((s : Session) → held u (f s) ≡ held u s)
    → total u (with_session id f w) ≡ total u w
unfolding with_session
total-with u id f w h = elim (Option-cases (find_member id w.members)) [
  | inl n ↦ rw (with_session, n, call) refl
  | inr m ↦
      rw (with_session, m.1)
        (omega (arith, total-call u id f m.0 w m.1, h (record m.0.state { log = [] })))
]

kept-without_member :
    (u id : ℕ) (m : Member) (ms : List Member)
    → find_member id ms ≡ some m
    → kept_all u (without_member id ms) + kept u m.state ≡ kept_all u ms
kept-without_member u id m [] e = absurd (cc)
kept-without_member u id m (x ∷ ms) e = elim (Bool-cases (x.id == id)) [
  | inl h ↦ ground (arith, h, e)
  | inr h ↦ ground (arith, h, e, kept-without_member u id m ms)
]

without-none : (id : ℕ) (ms : List Member) → find_member id ms ≡ none → without_member id ms ≡ ms
without-none id [] e = refl
without-none id (x ∷ ms) e = elim (Bool-cases (x.id == id)) [
  | inl h ↦ absurd (ground (arith, h, e))
  | inr h ↦ ground (arith, h, e, without-none id ms)
]

pub held-destroy : (u : ℕ) (s : Session) → held u (destroy s) ≡ held u s
unfolding destroy
held-destroy u s =
    held-clean_requests u
      (record s { timer_heartbeat = none; timer_reconn = none; has_owner = false })

-- A destroyed session keeps nothing.
pub kept-destroy : (u : ℕ) (s : Session) → kept u (destroy s) ≡ 0
unfolding destroy
kept-destroy u s =
    let c =
      clean_requests-Cleaned
        (record s { timer_heartbeat = none; timer_reconn = none; has_owner = false }) in
    omega (arith, ap (count_history u) c.1, ap (count_waiting u) c.2)

-- The session that is deleted keeps nothing by then.
total-delete_member : (u id : ℕ) (w : SosManager) → total u (delete_member id w) ≡ total u w
unfolding delete_member with_session call
total-delete_member u id w = elim (Option-cases (find_member id w.members)) [
  | inl n ↦
      rw (delete_member, with_session, n, call)
        (omega (arith, ap (kept_all u) (without-none id w.members n)))
  | inr m ↦
      let s = destroy (record m.0.state { log = [] }) in
      let t = tell_all id s.log s w in
      let told = tell_all-IsTold id s.log s w in
      let v = call id destroy (some m.0) w in
      let found : find_member id v.members ≡ some (record m.0 { state = t.0 }) =
        find-replace_member id t.0 m.0 t.1.members (ap (find_member id) told.members_eq ∙ m.1) in
      let called : with_session id destroy w ≡ v = rw (with_session, m.1) refl in
      let same : total u v ≡ total u w =
        sym (ap (total u) called) ∙ total-with u id destroy w (held-destroy u) in
      rw (delete_member, with_session, m.1)
        (omega (
          arith,
          same,
          kept-without_member u id (record m.0 { state = t.0 }) v.members found,
          (tell_all-kept u id s.log s w).0,
          kept-destroy u (record m.0.state { log = [] }),
        ))
]

total-check_member :
    (u id : ℕ) (f : Fate) (w : SosManager) → total u (check_member f id w) ≡ total u w
unfolding check_member
total-check_member u id stays w = refl
total-check_member u id ages w =
    total-with u id (λ s. record s { status = timed_out }) w (λ s. refl)
total-check_member u id goes w =
    total-delete_member u id (with_session id Session.close w)
    ∙ total-with u id Session.close w (held-close u)

total-check_entries :
    (u : ℕ) (t : List (ℕ × ℕ)) (w : SosManager) → total u (check_entries t w).1 ≡ total u w
unfolding check_entries
total-check_entries u [] w = refl
total-check_entries u ((name, id) ∷ t) w =
    let f = fate_of (find_member id w.members) in
    total-check_entries u t (check_member f id w) ∙ total-check_member u id f w

-- No check loses a message that a session keeps, and none gives one up twice: what the closed sessions
-- kept is given to the handler or deleted.
pub do_check_session-total : (u : ℕ) (w : SosManager) → total u (do_check_session w) ≡ total u w
unfolding do_check_session
do_check_session-total u w = total-check_entries u w.short_sessions w
