-- ===== src/Server/Tests.antt =====
-- A server that is started and stopped, and the theorem on its run.
use ape_cpp_server.Base.{
  All, codes, ◌≡◌, refl, ◌≤◌, pos, ℕ, true, false, some, List, [], ◌∷◌, arith,
}
use ape_cpp_server.Address.{http, parse_addr}
use ape_cpp_server.Server.{
  start_threads, TcpServer, accept_next, Acceptor, start_server, ServerEvent, accepts, halts,
  NetHolder, all_return, start_servers, serve_events,
}
use ape_cpp_server.Server.Load.{turns, count, Waits}
use ape_cpp_server.Server.Rounds.{loads, serve_events-start_servers}

abbrev fine : Acceptor
fine = record { opens = true; host_is_address = true; binds = true; listens = true }

-- two addresses, and what their servers and the holder come to
abbrev addresses : List (Acceptor × List ℕ)
addresses = (fine, codes "http://0.0.0.0:80") ∷ (fine, codes "http://0.0.0.0:81") ∷ []

abbrev no_servers : NetHolder
no_servers = record { holder = start_threads 2; servers = [] }

abbrev listening : ℕ → TcpServer
listening t = record {
  proto = some http;
  running = true;
  is_open = true;
  accepting = some t;
  accepted = [];
}

abbrev started : NetHolder
started = record {
  holder = record { threadnum = 3; index = 2; given = 0 ∷ 1 ∷ [] };
  servers = listening 0 ∷ listening 1 ∷ [];
}

start : start_servers addresses no_servers ≡ all_return (pos 0) started
unfolding start_servers start_server parse_addr accept_next
start = refl

abbrev events : List (ℕ × ServerEvent)
events =
    (0, accepts false)
    ∷ (1, accepts true)
    ∷ (0, accepts false)
    ∷ (1, accepts false)
    ∷ (0, halts)
    ∷ (0, accepts true)
    ∷ []

-- Two servers take turns with the two threads for sessions.
taken : (serve_events events started).holder.given ≡ 0 ∷ 1 ∷ 0 ∷ 1 ∷ 0 ∷ []
unfolding serve_events accept_next
taken = refl

serve_events-start_servers_example :
    let n' = serve_events events started in
    ((k : ℕ) × (n'.holder.given ≡ turns (start_threads 2) k))
    × All Waits n'.servers
    × ((x : ℕ) → loads x n'.servers ≤ count x n'.holder.given)
serve_events-start_servers_example =
    serve_events-start_servers (start_threads 2) addresses (pos 0) started events (omega arith)
      (omega arith) refl start
