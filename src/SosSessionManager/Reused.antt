-- ===== src/SosSessionManager/Reused.antt =====
-- Two names with one address.
use ape_cpp_server.Base.{pos, negsuc, ℕ, ◌≡◌, refl, ap, ◌∙◌, Bool, true, false, none, some, List}
use ape_cpp_server.Session.{Msg, reply_with, Session}
use ape_cpp_server.Session
use ape_cpp_server.SessionManager.{find_session}
use ape_cpp_server.SosSessionManager.{
  message, notify, SosManager, find_group, with_session, persistent_session, choose_session,
  send_through, do_send_to, returns, is_empty, known_session, do_connect,
}
use ape_cpp_server.SosSessionManager.Tables.{with_session-IsSame}

-- `DoConnect` with a name that has no sessions yet, not empty, and an address that already has one
-- which is to be shared, returns 0 but does not give the name that session: whatever is sent to the
-- name is given back to the handler with the code -1.
pub do_send_to-do_connect :
    (text : ℕ → List ℕ) (name addr id : ℕ) (autoreconnect : Bool) (heartbeat : ℕ) (w : SosManager)
    → is_empty (text name) ≡ false
    → find_session name w.short_sessions ≡ none
    → find_group name w.session_groups ≡ none
    → find_session addr w.addr_sessions ≡ some id
    → (w' : SosManager) × (do_connect text name addr autoreconnect heartbeat true w
        ≡ returns (pos 0) w')
      × ((m : Msg) (timeout : ℕ)
          → do_send_to name m timeout w' ≡ notify (message none (reply_with (negsuc 0) m)) w')
unfolding do_connect known_session do_send_to choose_session persistent_session send_through
do_send_to-do_connect text name addr id autoreconnect heartbeat w he hs hg ha =
    let f = λ (s : Session). Session.do_connect (record s { has_owner = true }) in
    let w' = with_session id f w in
    let t = (with_session-IsSame id f w).0 in
    (
      w',
      rw (do_connect, he, known_session, ha) refl,
      λ m timeout.
          rw
            (
              do_send_to,
              ap (find_session name) t.short_eq ∙ hs,
              choose_session,
              ap (find_group name) t.groups_eq ∙ hg,
            )
            refl,
    )
