-- ===== src/SosSessionManager/Aging.antt =====
-- frame/net/sossessionmanager.cc: `CSosSessionManager::DoCheckSession` on the live sessions, with the
-- destructor of frame/session/session.cc. That of the persistent sessions does nothing.
pub mod Kept
pub mod Quiet
use ape_cpp_server.Base.{
  ◌==◌, if◌then◌else◌, ℕ, Bool, true, false, Option, none, some, List, [], ◌∷◌,
}
use ape_cpp_server.Session.{timed_out, Session, clean_requests}
use ape_cpp_server.Session
use ape_cpp_server.SessionManager.{Fate, stays, ages, goes, short_fate}
use ape_cpp_server.SosSessionManager.{Member, SosManager, find_member, with_session}

-- `~CSession`; its timers are gone with it.
unfoldable pub destroy : Session → Session
unfolding clean_requests
destroy s =
    clean_requests (record s { timer_heartbeat = none; timer_reconn = none; has_owner = false })

abbrev pub without_member : ℕ → List Member → List Member
without_member id [] = []
without_member id (m ∷ ms) = if m.id == id then ms else m ∷ without_member id ms

-- `delete p`
pub delete_member : ℕ → SosManager → SosManager
unfolding destroy with_session
delete_member id w =
    let w' = with_session id destroy w in record w' { members = without_member id w'.members }

-- What `CheckSession` does with a session.
pub check_member : Fate → ℕ → SosManager → SosManager
unfolding delete_member with_session Session.close
check_member stays id w = w
check_member ages id w = with_session id (λ s. record s { status = timed_out }) w
check_member goes id w = delete_member id (with_session id Session.close w)

abbrev pub keep_entry : Fate → ℕ × ℕ → List (ℕ × ℕ) → List (ℕ × ℕ)
keep_entry stays e t = e ∷ t
keep_entry ages e t = e ∷ t
keep_entry goes e t = t

abbrev pub fate_of : Option Member → Fate
unfolding short_fate
fate_of none = stays
fate_of (some m) = short_fate m.state.status

-- The loop of `CheckSession`: what is left of the table, and the manager.
pub check_entries : List (ℕ × ℕ) → SosManager → List (ℕ × ℕ) × SosManager
unfolding check_member fate_of
check_entries [] w = ([], w)
check_entries ((name, id) ∷ table) w =
    let fate = fate_of (find_member id w.members) in
    let (kept, w') = check_entries table (check_member fate id w) in
    (keep_entry fate (name, id) kept, w')

-- `DoCheckSession`
unfoldable pub do_check_session : SosManager → SosManager
unfolding check_entries
do_check_session w =
    let (kept, w') = check_entries w.short_sessions w in record w' { short_sessions = kept }
