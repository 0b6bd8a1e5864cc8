-- ===== src/Server/Load.antt =====
-- What one operation of a server does with the threads of the shared holder.
use ape_cpp_server.Base.{
  leb, ◌==◌, if◌then◌else◌, not, ℕ, zero, suc, ◌+◌, ◌-◌, ◌%◌, ◌^◌, ◌≤◌, ◌≡◌, refl, ap, Bool, true,
  false, Option, none, some, List, [], ◌∷◌, ◌++◌, arith,
}
use ape_cpp_server.Address.{
  protocol_no, Parser, Address, malformed, unknown, overrun, address, parse_addr, create_parser,
}
use ape_cpp_server.Server.{
  ThreadHolder, get_session_callback, TcpServer, new_server, accept_next, Acceptor, Started, exits,
  overruns, throws, returns, start_accept, listen_at, with_address, start_server, handle_stop,
  handle_accept, ServerEvent, accepts, halts, answer_accept, serve_event,
}

-- the thread of the `k`-th call from now on, and the threads of the first `k`
abbrev pub turn : ThreadHolder → ℕ → ℕ
turn h k = (h.index + k) % 2 ^ 32 % (h.threadnum - 1)

abbrev pub turns : ThreadHolder → ℕ → List ℕ
turns h zero = []
turns h (suc k) = turns h k ++ (turn h k ∷ [])

-- how often a thread is in a list, and in what a server has of sessions
abbrev pub one : ℕ → ℕ → ℕ
one x t = if t == x then 1 else 0

abbrev pub count : ℕ → List ℕ → ℕ
count x [] = 0
count x (t ∷ l) = one x t + count x l

abbrev pub held : ℕ → Option ℕ → ℕ
held x none = 0
held x (some t) = one x t

abbrev pub load : ℕ → TcpServer → ℕ
load x s = count x s.accepted + held x s.accepting

-- While the server runs, a session waits to be accepted.
abbrev pub Waits : TcpServer → Type 0
Waits s = s.running ≡ true → (t : ℕ) × (s.accepting ≡ some t)

pub count-append : (x : ℕ) (l k : List ℕ) → count x (l ++ k) ≡ count x l + count x k
count-append x [] k = omega arith
count-append x (t ∷ l) k = omega (arith, count-append x l k)

-- `n` threads were given since the holder was `h`.
pub record IsDealt (h : ThreadHolder) (n : ℕ) (g : ThreadHolder) : Type 0 where
  pub threads_eq : g.threadnum ≡ h.threadnum
  pub index_eq : g.index ≡ (h.index + n) % 2 ^ 32
  pub given_eq : g.given ≡ turns h n

-- An operation that makes of a server `s` and the holder `g` those of `r`: a server has no session
-- whose thread was not given to it.
pub record IsStep (s : TcpServer) (g : ThreadHolder) (r : TcpServer × ThreadHolder) : Type 0 where
  pub dealt :
      (h : ThreadHolder) (n : ℕ) → 2 ≤ h.threadnum → IsDealt h n g → (m : ℕ) × IsDealt h m r.1
  pub loads : (x : ℕ) → load x r.0 + count x g.given ≤ load x s + count x r.1.given
  pub waits : Waits s → Waits r.0

same-IsStep :
    (s s' : TcpServer) (g : ThreadHolder)
    → ((x : ℕ) → load x s' ≤ load x s)
    → (Waits s → Waits s')
    → IsStep s g (s', g)
same-IsStep s s' g l w = record {
  dealt = λ h n m d. (n, d);
  loads = λ x. omega (arith, l x);
  waits = w;
}

callback-IsDealt :
    (h g : ThreadHolder) (n : ℕ)
    → 2 ≤ h.threadnum
    → IsDealt h n g
    → IsDealt h (suc n) (get_session_callback g).1
unfolding get_session_callback
callback-IsDealt h g n m d =
    let many : leb g.threadnum 1 ≡ false = ground (arith, m, d.threads_eq) in
    rw (get_session_callback, many)
      record {
        threads_eq = d.threads_eq;
        index_eq = omega (arith, d.index_eq);
        given_eq = rw (d.given_eq, d.index_eq, d.threads_eq) refl;
      }

callback-given :
    (g : ThreadHolder)
    → (get_session_callback g).1.given ≡ g.given ++ ((get_session_callback g).0 ∷ [])
unfolding get_session_callback
callback-given g = ground arith

-- `StartAccept` after a change of the server
next-IsStep :
    (s s' : TcpServer) (g : ThreadHolder)
    → ((x : ℕ) → count x s'.accepted ≤ load x s)
    → IsStep s g (accept_next s' g)
unfolding accept_next
next-IsStep s s' g l = record {
  dealt = λ h n m d. (suc n, callback-IsDealt h g n m d);
  loads = λ x. omega (
    arith,
    l x,
    ap (count x) (callback-given g),
    count-append x g.given ((get_session_callback g).0 ∷ []),
  );
  waits = λ w r. ((get_session_callback g).0, refl);
}

accept-IsStep :
    (err : Bool) (t : ℕ) (s : TcpServer) (g : ThreadHolder)
    → s.accepting ≡ some t
    → IsStep s g (handle_accept err t (record s { accepting = none }) g)
unfolding handle_accept
accept-IsStep false t s g e =
    next-IsStep s (record s { accepting = none; accepted = s.accepted ++ (t ∷ []) }) g
      (λ x. omega (arith, count-append x s.accepted (t ∷ []), ap (held x) e))
accept-IsStep true t s g e = again s.running refl
  where
    again :
        (r : Bool)
        → s.running ≡ r
        → IsStep s g
            (if r then record s { accepting = some t } else record s { accepting = none }, g)
    again true q =
        same-IsStep s (record s { accepting = some t }) g (λ x. omega (arith, ap (held x) e))
          (λ w z. (t, refl))
    again false q =
        same-IsStep s (record s { accepting = none }) g (λ x. omega arith) (λ w z. absurd (cc))

answer-IsStep :
    (err : Bool) (o : Option ℕ) (s : TcpServer) (g : ThreadHolder)
    → s.accepting ≡ o
    → IsStep s g (answer_accept err o s g)
unfolding answer_accept
answer-IsStep err none s g e = same-IsStep s s g (λ x. omega arith) (λ w. w)
answer-IsStep err (some t) s g e = accept-IsStep err t s g e

pub serve_event-IsStep :
    (v : ServerEvent) (s : TcpServer) (g : ThreadHolder) → IsStep s g (serve_event v s g)
unfolding serve_event handle_stop
serve_event-IsStep (accepts err) s g = answer-IsStep err s.accepting s g refl
serve_event-IsStep halts s g =
    same-IsStep s (handle_stop s) g (λ x. omega arith) (λ w q. absurd (cc))

-- What `StartServer` of a server leaves if it returns.
abbrev pub IsStarted : ThreadHolder → Started → Type 0
IsStarted g exits = Unit
IsStarted g overruns = Unit
IsStarted g throws = Unit
IsStarted g (returns _ r) = IsStep new_server g r

start_accept-IsStarted :
    (g : ThreadHolder) (o : Option Parser) (s : TcpServer)
    → s.accepted ≡ []
    → IsStarted g (start_accept o s g)
unfolding start_accept
start_accept-IsStarted g none s e = tt
start_accept-IsStarted g (some q) s e =
    next-IsStep new_server s g (λ x. omega (arith, ap (count x) e))

if-IsStarted :
    (g : ThreadHolder) (c : Bool) (r r' : Started)
    → IsStarted g r
    → IsStarted g r'
    → IsStarted g (if c then r else r')
if-IsStarted g true r r' i j = i
if-IsStarted g false r r' i j = j

with_address-IsStarted :
    (g : ThreadHolder) (a : Acceptor) (addr : Address)
    → IsStarted g (with_address a addr new_server g)
unfolding listen_at
with_address-IsStarted g a malformed =
    same-IsStep new_server new_server g (λ x. omega arith) (λ w. w)
with_address-IsStarted g a unknown = same-IsStep new_server new_server g (λ x. omega arith) (λ w. w)
with_address-IsStarted g a overrun = tt
with_address-IsStarted g a (address p ip port) =
    let failed : TcpServer = record new_server { proto = some p; is_open = false } in
    let i = same-IsStep new_server failed g (λ x. omega arith) (λ w. w) in
    if-IsStarted g (not a.opens) _ _ i (
      if-IsStarted g (not a.host_is_address) _ _ tt (
        if-IsStarted g (not a.binds) _ _ i (
          if-IsStarted g (not a.listens) _ _ i
            (start_accept-IsStarted g (create_parser (protocol_no p)) _ refl))))

pub start_server-IsStarted :
    (g : ThreadHolder) (a : Acceptor) (addr : List ℕ)
    → IsStarted g (start_server a addr new_server g)
unfolding start_server
start_server-IsStarted g a addr = with_address-IsStarted g a (parse_addr addr)
