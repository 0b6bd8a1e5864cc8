-- ===== src/Server/Rounds.antt =====
-- The servers' sessions go to the threads in turn.
use mathlib.Core.Option.{some-injective}
use mathlib.Core.Path.{subst}
use ape_cpp_server.Base.{
  All, Option-cases, get_elem?, set, ℤ, pos, negsuc, ℕ, zero, suc, ◌+◌, ◌^◌, ◌≤◌, ◌<◌, ◌≡◌, refl,
  ap, inl, inr, some, List, [], ◌∷◌, ◌++◌, arith,
}
use ape_cpp_server.Server.{
  ThreadHolder, TcpServer, new_server, Acceptor, Started, exits, overruns, throws, returns,
  start_server, ServerEvent, serve_event, NetHolder, add_server, AllStarted, process_exits,
  host_overruns, host_throws, all_return, start_servers, serve_at, serve_events,
}
use ape_cpp_server.Server.Load.{
  turns, count, load, Waits, IsDealt, IsStep, serve_event-IsStep, IsStarted, start_server-IsStarted,
}

-- how often the servers have a session of a thread
abbrev pub loads : ℕ → List TcpServer → ℕ
loads x [] = 0
loads x (s ∷ ss) = load x s + loads x ss

loads-append :
    (x : ℕ) (ss : List TcpServer) (s : TcpServer) → loads x (ss ++ (s ∷ [])) ≡ loads x ss + load x s
loads-append x [] s = omega arith
loads-append x (r ∷ ss) s = omega (arith, loads-append x ss s)

loads-set :
    (x k : ℕ) (ss : List TcpServer) (s s' : TcpServer)
    → get_elem? ss k ≡ some s
    → loads x (set ss k s') + load x s ≡ loads x ss + load x s'
loads-set x k [] s s' h = absurd (cc)
loads-set x zero (r ∷ ss) s s' h = omega (arith, ap (load x) (some-injective _ _ h))
loads-set x (suc k) (r ∷ ss) s s' h = omega (arith, loads-set x k ss s s' h)

Waits-append :
    (ss : List TcpServer) (s : TcpServer) → All Waits ss → Waits s → All Waits (ss ++ (s ∷ []))
Waits-append [] s a w = (w, tt)
Waits-append (r ∷ ss) s a w = (a.0, Waits-append ss s a.1 w)

Waits-at :
    (k : ℕ) (ss : List TcpServer) (s : TcpServer) → get_elem? ss k ≡ some s → All Waits ss → Waits s
Waits-at k [] s h a = absurd (cc)
Waits-at zero (r ∷ ss) s h a = subst Waits (some-injective _ _ h) a.0
Waits-at (suc k) (r ∷ ss) s h a = Waits-at k ss s h a.1

Waits-set :
    (k : ℕ) (ss : List TcpServer) (s' : TcpServer)
    → All Waits ss
    → Waits s'
    → All Waits (set ss k s')
Waits-set k [] s' a w = a
Waits-set zero (r ∷ ss) s' a w = (w, a.1)
Waits-set (suc k) (r ∷ ss) s' a w = (a.0, Waits-set k ss s' a.1 w)

-- The threads since the holder was `h`, and the servers' sessions.
pub record IsServed (h : ThreadHolder) (n : NetHolder) : Type 0 where
  pub calls : ℕ
  pub dealt : IsDealt h calls n.holder
  pub waits : All Waits n.servers
  pub given : (x : ℕ) → loads x n.servers ≤ count x n.holder.given

module _ (h : ThreadHolder) (many : 2 ≤ h.threadnum) where
  add-IsServed :
      (n : NetHolder) (r : TcpServer × ThreadHolder)
      → IsServed h n
      → IsStep new_server n.holder r
      → IsServed h (add_server n r)
  add-IsServed n r i j =
      let d = j.dealt h i.calls many i.dealt in
      record {
        calls = d.0;
        dealt = d.1;
        waits = Waits-append n.servers r.0 i.waits (j.waits (λ q. absurd (cc)));
        given = λ x. omega (arith, i.given x, j.loads x, loads-append x n.servers r.0);
      }

  abbrev AllServed : AllStarted → Type 0
  AllServed process_exits = Unit
  AllServed host_overruns = Unit
  AllServed host_throws = Unit
  AllServed (all_return _ n) = IsServed h n

  start-AllServed :
      (addrs : List (Acceptor × List ℕ)) (n : NetHolder)
      → IsServed h n
      → AllServed (start_servers addrs n)
  unfolding start_servers
  start-AllServed [] n i = i
  start-AllServed ((a, addr) ∷ addrs) n i =
      next (start_server a addr new_server n.holder) (start_server-IsStarted n.holder a addr)
        (λ r j. start-AllServed addrs (add_server n r) (add-IsServed n r i j))
    where
      next :
          (r : Started)
          → IsStarted n.holder r
          → ((q : TcpServer × ThreadHolder)
              → IsStep new_server n.holder q
              → AllServed (start_servers addrs (add_server n q)))
          → AllServed (elim r [
            | exits ↦ process_exits
            | overruns ↦ host_overruns
            | throws ↦ host_throws
            | returns (pos zero) q ↦ start_servers addrs (add_server n q)
            | returns (pos (suc _)) q ↦ all_return (negsuc 0) (add_server n q)
            | returns (negsuc _) q ↦ all_return (negsuc 0) (add_server n q)
          ])
      next exits j ih = tt
      next overruns j ih = tt
      next throws j ih = tt
      next (returns (pos zero) q) j ih = ih q j
      next (returns (pos (suc _)) q) j ih = add-IsServed n q i j
      next (returns (negsuc _) q) j ih = add-IsServed n q i j

  serve_at-IsServed :
      (k : ℕ) (v : ServerEvent) (n : NetHolder) → IsServed h n → IsServed h (serve_at k v n)
  unfolding serve_at
  serve_at-IsServed k v n i = elim (Option-cases (get_elem? n.servers k)) [
    | inl e ↦ rw (serve_at, e) i
    | inr s ↦
        let r = serve_event v s.0 n.holder in
        let j = serve_event-IsStep v s.0 n.holder in
        let d = j.dealt h i.calls many i.dealt in
        rw (serve_at, s.1)
          record {
            calls = d.0;
            dealt = d.1;
            waits =
                Waits-set k n.servers r.0 i.waits (j.waits (Waits-at k n.servers s.0 s.1 i.waits));
            given = λ x. omega (arith, i.given x, j.loads x, loads-set x k n.servers s.0 r.0 s.1);
          }
  ]

  serve_events-IsServed :
      (es : List (ℕ × ServerEvent)) (n : NetHolder) → IsServed h n → IsServed h (serve_events es n)
  unfolding serve_events
  serve_events-IsServed [] n i = i
  serve_events-IsServed ((k, v) ∷ es) n i =
      serve_events-IsServed es (serve_at k v n) (serve_at-IsServed k v n i)

-- If `StartServer` of a holder with at least two threads, no servers, no thread given before and an
-- index of 32 bits returns, with 0 or with -1:
-- whatever the acceptors answer and whenever servers are stopped, the calls of `GetSessionCallBack`, of
-- all servers together, were given the threads but the last in turn, the index wrapping around at
-- 2 ^ 32; each server has a session waiting to be accepted while it runs; and no thread has more
-- sessions, accepted or waiting, than it was given.
pub serve_events-start_servers :
    (h : ThreadHolder) (addrs : List (Acceptor × List ℕ)) (code : ℤ) (n : NetHolder)
    (es : List (ℕ × ServerEvent))
    → 2 ≤ h.threadnum
    → h.index < 2 ^ 32
    → h.given ≡ []
    → start_servers addrs (record { holder = h; servers = [] }) ≡ all_return code n
    → let n' = serve_events es n in
      ((k : ℕ) × (n'.holder.given ≡ turns h k))
      × All Waits n'.servers
      × ((x : ℕ) → loads x n'.servers ≤ count x n'.holder.given)
serve_events-start_servers h addrs code n es many small e started =
    let first : IsServed h (record { holder = h; servers = [] }) = record {
      calls = 0;
      dealt = record { threads_eq = refl; index_eq = omega (arith, small); given_eq = e };
      waits = tt;
      given = λ x. omega arith;
    } in
    let i =
      serve_events-IsServed h many es n
        (subst (AllServed h many) started (start-AllServed h many addrs _ first)) in
    ((i.calls, i.dealt.given_eq), i.waits, i.given)
