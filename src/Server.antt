-- ===== src/Server.antt =====
-- frame/net/netthreadholder.cc and tcpsocketserver.cc: the threads' turns and the servers that accept
-- connections, which share the holder of the threads. A thread is its number, and a session that
-- waits to be accepted the number of its thread; what the acceptor's calls come to is an argument,
-- and what it does with a request comes back as an event.
pub mod Load
pub mod Rounds
mod Tests
use ape_cpp_server.Base.{
  not, if◌then◌else◌, leb, ℤ, pos, negsuc, ℕ, ◌+◌, ◌-◌, ◌%◌, add32, Bool, true, false, Option, none,
  some, List, [], ◌∷◌, ◌++◌, get_elem?, set, zero, suc,
}
use ape_cpp_server.Address.{
  Protocol, protocol_no, Parser, Address, malformed, unknown, overrun, address, parse_addr,
  create_parser,
}

-- `CNetThreadHolder`, without its threads and servers; `given` are the threads that
-- `GetSessionCallBack` has returned, in the order of its calls.
pub record ThreadHolder : Type 0 where
  pub threadnum : ℕ
  pub index : ℕ
  pub given : List ℕ

-- the constructor with `Start`
abbrev pub start_threads : ℕ → ThreadHolder
start_threads threadnum = record { threadnum = threadnum + 1; index = 0; given = [] }

-- the thread of `GetAcceptIoService`
abbrev pub accept_thread : ThreadHolder → ℕ
accept_thread h = h.threadnum - 1

-- `GetSessionCallBack`
pub get_session_callback : ThreadHolder → ℕ × ThreadHolder
get_session_callback h =
    if leb h.threadnum 1 then (0, record h { given = h.given ++ (0 ∷ []) }) else (
      h.index % (h.threadnum - 1),
      record h { index = add32 h.index 1; given = h.given ++ ((h.index % (h.threadnum - 1)) ∷ []) },
    )

-- `CTcpSocketServer`, without the holder, which the servers share. `accepting` is the session that
-- `async_accept` was last called with, until it answers, and `accepted` are the sessions whose
-- `OnAccept` was posted. `is_open` is the acceptor's state.
pub record TcpServer : Type 0 where
  pub proto : Option Protocol
  pub running : Bool
  pub is_open : Bool
  pub accepting : Option ℕ
  pub accepted : List ℕ

abbrev pub new_server : TcpServer
new_server = record {
  proto = none;
  running = false;
  is_open = false;
  accepting = none;
  accepted = [];
}

-- `StartAccept` with a protocol that has a parser
unfoldable pub accept_next : TcpServer → ThreadHolder → TcpServer × ThreadHolder
unfolding get_session_callback
accept_next s h =
    let (thread, h') = get_session_callback h in (record s { accepting = some thread }, h')

-- What the calls `open`, `bind` and `listen` of the acceptor come to, and whether `from_string` takes the
-- host for an address, where it throws if it does not.
pub record Acceptor : Type 0 where
  pub opens : Bool
  pub host_is_address : Bool
  pub binds : Bool
  pub listens : Bool

-- How `StartServer` ends: the process exits in the constructor of a connection without a parser, the
-- text of the host is too long for `ip`, it is no address, or it returns.
pub data Started : Type 0 where
  exits overruns throws : Started
  returns : ℤ → TcpServer × ThreadHolder → Started

abbrev pub start_accept : Option Parser → TcpServer → ThreadHolder → Started
unfolding accept_next
start_accept none s h = exits
start_accept (some _) s h = returns (pos 0) (accept_next s h)

-- `StartServer` behind `ParseAddr`
pub listen_at : Acceptor → Protocol → TcpServer → ThreadHolder → Started
unfolding start_accept create_parser
listen_at a p s h =
    let failed : TcpServer = record s { proto = some p; is_open = false } in
    let ready : TcpServer = record s { proto = some p; is_open = true; running = true } in
    if not a.opens
    then returns (negsuc 0) (failed, h)
    else if not a.host_is_address
    then throws
    else if not a.binds
    then returns (negsuc 0) (failed, h)
    else if not a.listens
    then returns (negsuc 2) (failed, h)
    else start_accept (create_parser (protocol_no p)) ready h

abbrev pub with_address : Acceptor → Address → TcpServer → ThreadHolder → Started
unfolding listen_at
with_address a malformed s h = returns (negsuc 0) (s, h)
with_address a unknown s h = returns (negsuc 0) (s, h)
with_address a overrun s h = overruns
with_address a (address p ip port) s h = listen_at a p s h

-- `StartServer`
unfoldable pub start_server : Acceptor → List ℕ → TcpServer → ThreadHolder → Started
unfolding parse_addr with_address
start_server a addr s h = with_address a (parse_addr addr) s h

-- `HandleStop`
pub handle_stop : TcpServer → TcpServer
handle_stop s = record s { is_open = false; running = false }

-- `HandleAccept` of a session, with an error or without
pub handle_accept : Bool → ℕ → TcpServer → ThreadHolder → TcpServer × ThreadHolder
unfolding accept_next
handle_accept false session s h =
    accept_next (record s { accepted = s.accepted ++ (session ∷ []) }) h
handle_accept true session s h = (if s.running then record s { accepting = some session } else s, h)

-- What asio calls: the handler of `async_accept` only while one is on its way.
pub data ServerEvent : Type 0 where
  accepts : Bool → ServerEvent
  halts : ServerEvent

pub answer_accept : Bool → Option ℕ → TcpServer → ThreadHolder → TcpServer × ThreadHolder
unfolding handle_accept
answer_accept err none s h = (s, h)
answer_accept err (some session) s h = handle_accept err session (record s { accepting = none }) h

pub serve_event : ServerEvent → TcpServer → ThreadHolder → TcpServer × ThreadHolder
unfolding answer_accept handle_stop
serve_event (accepts err) s h = answer_accept err s.accepting s h
serve_event halts s h = (handle_stop s, h)

-- The holder with its servers.
pub record NetHolder : Type 0 where
  pub holder : ThreadHolder
  pub servers : List TcpServer

abbrev pub add_server : NetHolder → TcpServer × ThreadHolder → NetHolder
add_server n (s, h) = record { holder = h; servers = n.servers ++ (s ∷ []) }

-- How `StartServer` of the holder ends, as that of a server does.
pub data AllStarted : Type 0 where
  process_exits host_overruns host_throws : AllStarted
  all_return : ℤ → NetHolder → AllStarted

-- `CNetThreadHolder::StartServer`, with what the acceptor of each address comes to
unfoldable pub start_servers : List (Acceptor × List ℕ) → NetHolder → AllStarted
unfolding start_server
start_servers [] n = all_return (pos 0) n
start_servers ((a, addr) ∷ addrs) n = elim (start_server a addr new_server n.holder) [
  | exits ↦ process_exits
  | overruns ↦ host_overruns
  | throws ↦ host_throws
  | returns (pos zero) r ↦ start_servers addrs (add_server n r)
  | returns (pos (suc _)) r ↦ all_return (negsuc 0) (add_server n r)
  | returns (negsuc _) r ↦ all_return (negsuc 0) (add_server n r)
]

-- An event at the server of an index.
pub serve_at : ℕ → ServerEvent → NetHolder → NetHolder
unfolding serve_event
serve_at k e n = elim (get_elem? n.servers k) [
  | none ↦ n
  | some s ↦
      let (s', h) = serve_event e s n.holder in record { holder = h; servers = set n.servers k s' }
]

unfoldable pub serve_events : List (ℕ × ServerEvent) → NetHolder → NetHolder
unfolding serve_at
serve_events [] n = n
serve_events ((k, e) ∷ es) n = serve_events es (serve_at k e n)
