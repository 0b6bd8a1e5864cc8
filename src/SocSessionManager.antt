-- ===== src/SocSessionManager.antt =====
-- frame/net/socsessionmanager.cc: `CSocSessionManager` of servers whose sessions are all plain, as those
-- of thrift are: each is a `CSession` and no `CHttpSession`, which has a `DoSendBack` of its own. A
-- session is in the table by its number; what the sessions do is noted in one log, and a call that
-- tells the manager of a closed peer leaves the status that the session has already.
pub mod Kept
mod Tests
use ape_cpp_server.Base.{
  ◌==◌, if◌then◌else◌, ℕ, Bool, true, false, Option, none, some, List, [], ◌∷◌, ◌++◌,
}
use ape_cpp_server.Session.{timed_out, Msg, Effect, Session, connection_closed}
use ape_cpp_server.Session
use ape_cpp_server.SessionManager.{Fate, stays, ages, goes, soc_fate}
use ape_cpp_server.SosSessionManager.Aging.{destroy}

pub record SocManager : Type 0 where
  pub sessions : List (ℕ × Session)
  pub log : List Effect

abbrev pub new_soc_manager : SocManager
new_soc_manager = record { sessions = []; log = [] }

abbrev pub find_live : ℕ → List (ℕ × Session) → Option Session
find_live id [] = none
find_live id ((i, s) ∷ table) = if i == id then some s else find_live id table

-- a call of a method of a session, with an empty log, and what it noted
abbrev pub call_session : (Session → Session) → Session → Session
call_session f s = f (record s { log = [] })

abbrev pub change_live : ℕ → (Session → Session) → List (ℕ × Session) → List (ℕ × Session)
change_live id f [] = []
change_live id f ((i, s) ∷ table) =
    if i == id then (i, call_session f s) ∷ table else (i, s) ∷ change_live id f table

abbrev pub noted_by : (Session → Session) → Option Session → List Effect
noted_by f none = []
noted_by f (some s) = (call_session f s).log

pub call_live : ℕ → (Session → Session) → SocManager → SocManager
call_live id f w = record {
  sessions = change_live id f w.sessions;
  log = w.log ++ noted_by f (find_live id w.sessions);
}

-- `OnAccept` of a session, whose owner, if it has one, enters it in the table, where it is new
pub accept_session : ℕ → Session → SocManager → SocManager
accept_session id s w =
    let s' = call_session Session.on_accept s in
    record w {
      sessions = if s.has_owner then (id, s') ∷ w.sessions else w.sessions;
      log = w.log ++ s'.log;
    }

-- `DoSendBack` of a manager of plain sessions; where there is no session the message is only written
-- to the log of the program.
pub do_send_back : ℕ → Msg → SocManager → SocManager
unfolding call_live Session.do_send_back
do_send_back id m w = call_live id (Session.do_send_back m false) w

-- The connection of a session is closed by its peer, whereby the session calls `OnPeerClose`.
pub lose_peer : ℕ → SocManager → SocManager
unfolding call_live connection_closed
lose_peer id w = call_live id connection_closed w

-- What `DoCheckSession` does with one session: what is left of it, and what is noted.
pub check_live : Fate → ℕ × Session → List (ℕ × Session) × List Effect
unfolding Session.close destroy
check_live stays (id, s) = ((id, s) ∷ [], [])
check_live ages (id, s) = ((id, record s { status = timed_out }) ∷ [], [])
check_live goes (id, s) =
    let s' = call_session Session.close s in
    let s'' = call_session destroy s' in ([], s'.log ++ s''.log)

pub check_lives : List (ℕ × Session) → List (ℕ × Session) × List Effect
unfolding check_live soc_fate
check_lives [] = ([], [])
check_lives ((id, s) ∷ table) =
    let (kept, noted) = check_live (soc_fate s.status) (id, s) in
    let (kept', noted') = check_lives table in (kept ++ kept', noted ++ noted')

-- `DoCheckSession`
pub check_sessions : SocManager → SocManager
unfolding check_lives
check_sessions w =
    let (kept, noted) = check_lives w.sessions in record { sessions = kept; log = w.log ++ noted }

-- `~CSocSessionManager`
pub delete_sessions : List (ℕ × Session) → List Effect
unfolding destroy
delete_sessions [] = []
delete_sessions ((id, s) ∷ table) = (call_session destroy s).log ++ delete_sessions table
