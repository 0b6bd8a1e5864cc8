-- ===== src/SosSessionManager.antt =====
-- frame/net/sossessionmanager.cc and sessionmanager.cc: `CSosSessionManager` over the sessions that it
-- makes, with `CSessionManager::OnRead` and `OnPeerClose`. A session is its number; a name or an address
-- is a number whose text is a parameter. What a session calls its owner with is passed on after the
-- session's call, and every effect of a session is noted with its number.
pub mod Tables
pub mod Registered
pub mod Sent
pub mod Shut
pub mod Reused
pub mod Aging
mod Tests
use ape_cpp_server.Base.{
  ◌==◌, if◌then◌else◌, ℤ, pos, negsuc, ℕ, ◌+◌, ◌*◌, Bool, true, false, Option, none, some, List, [],
  ◌∷◌, ◌++◌,
}
use ape_cpp_server.Session.{
  Status, closed, Msg, reply_with, Effect, deliver, tell_accept, tell_connected, tell_peer_close,
  Session, new_session,
}
use ape_cpp_server.Session
use ape_cpp_server.SessionManager.{
  find_session, SessionGroup, get_session, first_session, add_session, add_short_session,
}
use ape_cpp_server.Address.{
  Protocol, protocol_no, Address, malformed, unknown, overrun, address, parse_addr, SessionKind,
  create_parser, create_session, or_plain,
}

-- What `handle_->OnEvent` gets: a message with its session, if any, or the news of a connection.
pub data Notice : Type 0 where
  message : Option ℕ → Msg → Notice
  connected_event peer_close_event : ℕ → Notice

pub record Member : Type 0 where
  pub id : ℕ
  pub kind : SessionKind
  pub name : ℕ
  pub addr : ℕ
  pub state : Session

-- `next_id` is what the connections' counter gives next; `short_sessions` goes from names to sessions
-- (`CShortSessionContainer`), `addr_sessions` from addresses, and `session_groups` from names to the
-- addresses of each (`CPersistentSessionContainer`).
pub record SosManager : Type 0 where
  pub members : List Member
  pub next_id : ℕ
  pub short_sessions : List (ℕ × ℕ)
  pub addr_sessions : List (ℕ × ℕ)
  pub session_groups : List (ℕ × SessionGroup)
  pub notices : List Notice
  pub effects : List (ℕ × Effect)

abbrev pub new_sos_manager : SosManager
new_sos_manager = record {
  members = [];
  next_id = 1;
  short_sessions = [];
  addr_sessions = [];
  session_groups = [];
  notices = [];
  effects = [];
}

abbrev pub find_member : ℕ → List Member → Option Member
find_member id [] = none
find_member id (m ∷ ms) = if m.id == id then some m else find_member id ms

abbrev pub replace_member : ℕ → Session → List Member → List Member
replace_member id s [] = []
replace_member id s (m ∷ ms) =
    if m.id == id then (record m { state = s }) ∷ ms else m ∷ replace_member id s ms

abbrev pub notify : Notice → SosManager → SosManager
notify n w = record w { notices = w.notices ++ (n ∷ []) }

-- whether a table has a session, as the loops of `DeleteSession` look for it
abbrev pub has_value : ℕ → List (ℕ × ℕ) → Bool
has_value id [] = false
has_value id ((k, i) ∷ table) = if i == id then true else has_value id table

-- `DeleteSession` of the short sessions, or else of the others
pub delete_session : ℕ → Session → SosManager → Session
delete_session id s w =
    if has_value id w.short_sessions
    then record s { status = closed }
    else if has_value id w.addr_sessions
    then record s { status = closed }
    else s

-- One call of the owner by the session: what becomes of the session, and of the manager.
pub tell : ℕ → Effect → Session → SosManager → Session × SosManager
unfolding delete_session
tell id (deliver m) s w = (s, notify (message (some id) m) w)
tell id tell_connected s w = (s, notify (connected_event id) w)
tell id tell_peer_close s w = (delete_session id s w, notify (peer_close_event id) w)
tell id _ s w = (s, w)

pub tell_all : ℕ → List Effect → Session → SosManager → Session × SosManager
unfolding tell
tell_all id [] s w = (s, w)
tell_all id (e ∷ es) s w =
    let (s', w') = tell id e s w in
    tell_all id es s' (record w' { effects = w'.effects ++ ((id, e) ∷ []) })

abbrev pub put_back : ℕ → Session × SosManager → SosManager
put_back id (s, w) = record w { members = replace_member id s w.members }

-- A call of a method of a session, whose log begins with it.
pub call : ℕ → (Session → Session) → Option Member → SosManager → SosManager
unfolding tell_all
call id f none w = w
call id f (some m) w =
    let s = f (record m.state { log = [] }) in put_back id (tell_all id s.log s w)

pub with_session : ℕ → (Session → Session) → SosManager → SosManager
unfolding call
with_session id f w = call id f (find_member id w.members) w

abbrev pub find_group : ℕ → List (ℕ × SessionGroup) → Option SessionGroup
find_group name [] = none
find_group name ((n, g) ∷ groups) = if n == name then some g else find_group name groups

abbrev pub set_group : ℕ → SessionGroup → List (ℕ × SessionGroup) → List (ℕ × SessionGroup)
set_group name group [] = (name, group) ∷ []
set_group name group ((n, g) ∷ groups) =
    if n == name then (name, group) ∷ groups else (n, g) ∷ set_group name group groups

abbrev pub or_new : Option SessionGroup → SessionGroup
or_new none = record { addrs = []; current = 0 }
or_new (some g) = g

-- `GetSession (name)` of the persistent sessions, which moves the group's turn on.
pub persistent_session : ℕ → Option SessionGroup → SosManager → Option ℕ × SosManager
unfolding get_session
persistent_session name none w = (none, w)
persistent_session name (some g) w =
    let (found, g') = get_session w.addr_sessions g in
    (found, record w { session_groups = set_group name g' w.session_groups })

-- `GetSession (name)` of the short sessions, or else of the others
pub choose_session : ℕ → Option ℕ → SosManager → Option ℕ × SosManager
unfolding persistent_session
choose_session name (some id) w = (some id, w)
choose_session name none w = persistent_session name (find_group name w.session_groups) w

pub send_through : Msg → ℕ → Option ℕ × SosManager → SosManager
unfolding with_session
send_through m timeout (none, w) = notify (message none (reply_with (negsuc 0) m)) w
send_through m timeout (some id, w) =
    with_session id (λ s. Session.do_send_to m (timeout * 1000) s) w

-- `DoSendTo`
pub do_send_to : ℕ → Msg → ℕ → SosManager → SosManager
unfolding send_through choose_session find_session
do_send_to name m timeout w =
    send_through m timeout (choose_session name (find_session name w.short_sessions) w)

abbrev pub first_of : List (ℕ × ℕ) → Option SessionGroup → Option ℕ
unfolding first_session
first_of sessions none = none
first_of sessions (some g) = first_session sessions g.addrs

-- `GetSession (name, connid)`
pub session_to_close : ℕ → SosManager → Option ℕ
unfolding find_session first_session
session_to_close name w = elim (find_session name w.short_sessions) [
  | some id ↦ some id
  | none ↦ first_of w.addr_sessions (find_group name w.session_groups)
]

abbrev pub close_found : Option ℕ → SosManager → SosManager
unfolding with_session
close_found none w = w
close_found (some id) w = with_session id Session.close w

-- `DoClose`
pub do_close : ℕ → SosManager → SosManager
unfolding session_to_close with_session
do_close name w = close_found (session_to_close name w) w

-- How `DoConnect` ends: the process exits in the constructor of a connection without a parser, the
-- text of the host is too long for `ip`, or it returns.
pub data Connected : Type 0 where
  exits overruns : Connected
  returns : ℤ → SosManager → Connected

-- `AddSession` of the container, for a name that `GetSession` has not found just before: so the name has
-- no session in the container of short sessions, and none is deleted.
pub register_session : Bool → ℕ → ℕ → ℕ → SosManager → SosManager
unfolding add_session add_short_session
register_session true name addr id w =
    let (sessions, group) =
      add_session addr id (w.addr_sessions, or_new (find_group name w.session_groups)) in
    record w { addr_sessions = sessions; session_groups = set_group name group w.session_groups }
register_session false name addr id w = record w {
  short_sessions = (add_short_session name id w.short_sessions).0;
}

-- The new session, which starts to connect before it is put into its container.
abbrev pub new_member : ℕ → ℕ → SessionKind → Bool → ℕ → SosManager → SosManager
unfolding new_session
new_member name addr kind autoreconnect heartbeat w = record w {
  members =
      record {
        id = w.next_id;
        kind = kind;
        name = name;
        addr = addr;
        state = new_session true autoreconnect heartbeat;
      }
      ∷ w.members;
  next_id = w.next_id + 1;
}

pub open_session : Bool → ℕ → ℕ → Bool → ℕ → Protocol → SosManager → Connected
unfolding create_parser create_session with_session register_session
open_session addr_reuse name addr autoreconnect heartbeat p w =
    elim (create_parser (protocol_no p)) [
      | none ↦ exits
      | some _ ↦
          let kind = or_plain (create_session (protocol_no p)) in
          let w' =
            with_session w.next_id Session.do_connect
              (new_member name addr kind autoreconnect heartbeat w) in
          returns (pos 0) (register_session addr_reuse name addr w.next_id w')
    ]

pub connect_new : Bool → ℕ → ℕ → Bool → ℕ → Address → SosManager → Connected
unfolding open_session
connect_new addr_reuse name addr autoreconnect heartbeat malformed w = returns (negsuc 0) w
connect_new addr_reuse name addr autoreconnect heartbeat unknown w = returns (negsuc 0) w
connect_new addr_reuse name addr autoreconnect heartbeat overrun w = overruns
connect_new addr_reuse name addr autoreconnect heartbeat (address p ip port) w =
    open_session addr_reuse name addr autoreconnect heartbeat p w

abbrev pub is_empty : List ℕ → Bool
is_empty [] = true
is_empty (c ∷ s) = false

-- `GetSession (name, addr)` of the container
pub known_session : Bool → ℕ → ℕ → SosManager → Option ℕ
unfolding find_session
known_session true name addr w = find_session addr w.addr_sessions
known_session false name addr w = find_session name w.short_sessions

module _ (text : ℕ → List ℕ) where
  -- `DoConnect`
  pub do_connect : ℕ → ℕ → Bool → ℕ → Bool → SosManager → Connected
  unfolding connect_new known_session parse_addr with_session
  do_connect name addr autoreconnect heartbeat addr_reuse w =
      if is_empty (text name)
      then returns (negsuc 0) w
      else elim (known_session addr_reuse name addr w) [
        | some id ↦
            returns (pos 0)
              (with_session id (λ s. Session.do_connect (record s { has_owner = true })) w)
        | none ↦ connect_new addr_reuse name addr autoreconnect heartbeat (parse_addr (text addr)) w
      ]
