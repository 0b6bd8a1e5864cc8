-- ===== src/SosSessionManager/Registered.antt =====
-- `DoConnect`, `DoSendTo` and `DoClose` keep the tables in step with the sessions.
use mathlib.Core.Path.{subst}
use mathlib.Core.Option.{some-injective}
use ape_cpp_server.Base.{
  ◌==◌, if◌then◌else◌, Bool-cases, Option-cases, ◌>>=◌, pos, ℕ, ◌*◌, ◌≡◌, refl, sym, ap, ◌∙◌, inl,
  inr, Bool, true, false, ◌||◌, Option, none, some, List, [], ◌∷◌, arith,
}
use ape_cpp_server.Session.{Msg, reply_with, Session}
use ape_cpp_server.Session
use ape_cpp_server.SessionManager.{find_session, SessionGroup, add_session, add_short_session}
use ape_cpp_server.Address.{
  Protocol, Parser, protocol_no, Address, malformed, unknown, overrun, address, parse_addr,
  SessionKind, create_parser, create_session, or_plain,
}
use ape_cpp_server.SosSessionManager.{
  SosManager, new_sos_manager, find_group, with_session, has_value, persistent_session,
  choose_session, send_through, do_send_to, session_to_close, close_found, do_close, Connected,
  exits, overruns, returns, register_session, new_member, open_session, connect_new, is_empty,
  known_session, do_connect,
}
use ape_cpp_server.SosSessionManager.Tables.{has_id, with_session-IsSame}

-- A session exists exactly if it is in one of the tables.
abbrev pub IsRegistered : SosManager → Type 0
IsRegistered w =
    (x : ℕ) → has_id x w.members ≡ (has_value x w.short_sessions || has_value x w.addr_sessions)

with_session-IsRegistered :
    (id : ℕ) (f : Session → Session) (w : SosManager)
    → IsRegistered w
    → IsRegistered (with_session id f w)
with_session-IsRegistered id f w r x =
    let t = with_session-IsSame id f w in cc (t.1 x, t.0.short_eq, t.0.addr_eq, r x)

persistent_session-IsRegistered :
    (name : ℕ) (o : Option SessionGroup) (w : SosManager)
    → IsRegistered w
    → IsRegistered (persistent_session name o w).1
unfolding persistent_session
persistent_session-IsRegistered name none w r = r
persistent_session-IsRegistered name (some g) w r = r

choose_session-IsRegistered :
    (name : ℕ) (o : Option ℕ) (w : SosManager)
    → IsRegistered w
    → IsRegistered (choose_session name o w).1
unfolding choose_session
choose_session-IsRegistered name none w r =
    persistent_session-IsRegistered name (find_group name w.session_groups) w r
choose_session-IsRegistered name (some id) w r = r

send_through-IsRegistered :
    (m : Msg) (timeout : ℕ) (o : Option ℕ) (w : SosManager)
    → IsRegistered w
    → IsRegistered (send_through m timeout (o, w))
unfolding send_through
send_through-IsRegistered m timeout none w r = r
send_through-IsRegistered m timeout (some id) w r =
    with_session-IsRegistered id (λ s. Session.do_send_to m (timeout * 1000) s) w r

do_send_to-IsRegistered :
    (name : ℕ) (m : Msg) (timeout : ℕ) (w : SosManager)
    → IsRegistered w
    → IsRegistered (do_send_to name m timeout w)
unfolding do_send_to
do_send_to-IsRegistered name m timeout w r =
    let c = choose_session name (find_session name w.short_sessions) w in
    send_through-IsRegistered m timeout c.0 c.1
      (choose_session-IsRegistered name (find_session name w.short_sessions) w r)

close_found-IsRegistered :
    (o : Option ℕ) (w : SosManager) → IsRegistered w → IsRegistered (close_found o w)
unfolding close_found
close_found-IsRegistered none w r = r
close_found-IsRegistered (some id) w r = with_session-IsRegistered id Session.close w r

do_close-IsRegistered :
    (name : ℕ) (w : SosManager) → IsRegistered w → IsRegistered (do_close name w)
unfolding do_close
do_close-IsRegistered name w r = close_found-IsRegistered (session_to_close name w) w r

-- A new session is put into the table in which it was not found.
register_session-IsRegistered :
    (addr_reuse : Bool) (name addr id : ℕ) (w w' : SosManager)
    → IsRegistered w
    → known_session addr_reuse name addr w ≡ none
    → w'.short_sessions ≡ w.short_sessions
    → w'.addr_sessions ≡ w.addr_sessions
    → ((x : ℕ) → has_id x w'.members ≡ (if id == x then true else has_id x w.members))
    → IsRegistered (register_session addr_reuse name addr id w')
unfolding register_session known_session add_session add_short_session
register_session-IsRegistered true name addr id w w' r k es ea h x =
    ground (arith, h x, r x, es, ea, ap (find_session addr) ea, k)
register_session-IsRegistered false name addr id w w' r k es ea h x =
    ground (arith, h x, r x, es, ea, ap (find_session name) es, k)

new_member-IsRegistered :
    (addr_reuse : Bool) (name addr : ℕ) (autoreconnect : Bool) (heartbeat : ℕ) (kind : SessionKind)
    (w : SosManager)
    → IsRegistered w
    → known_session addr_reuse name addr w ≡ none
    → IsRegistered (
        register_session addr_reuse name addr w.next_id (
          with_session w.next_id Session.do_connect
            (new_member name addr kind autoreconnect heartbeat w)))
unfolding new_member
new_member-IsRegistered addr_reuse name addr autoreconnect heartbeat kind w r k =
    let v = new_member name addr kind autoreconnect heartbeat w in
    let t = with_session-IsSame w.next_id Session.do_connect v in
    register_session-IsRegistered addr_reuse name addr w.next_id w
      (with_session w.next_id Session.do_connect v) r k t.0.short_eq t.0.addr_eq t.1

-- the manager that `DoConnect` leaves, if it returns
abbrev KeepsTables : Connected → Type 0
KeepsTables exits = Unit
KeepsTables overruns = Unit
KeepsTables (returns n w) = IsRegistered w

open_session-Keeps :
    (addr_reuse : Bool) (name addr : ℕ) (autoreconnect : Bool) (heartbeat : ℕ) (p : Protocol)
    (w : SosManager)
    → IsRegistered w
    → known_session addr_reuse name addr w ≡ none
    → KeepsTables (open_session addr_reuse name addr autoreconnect heartbeat p w)
unfolding open_session
open_session-Keeps addr_reuse name addr autoreconnect heartbeat p w r k =
    go (create_parser (protocol_no p))
  where
    go :
        (o : Option Parser)
        → KeepsTables (elim o [
          | none ↦ exits
          | some _ ↦
              let kind = or_plain (create_session (protocol_no p)) in
              let w' =
                with_session w.next_id Session.do_connect
                  (new_member name addr kind autoreconnect heartbeat w) in
              returns (pos 0) (register_session addr_reuse name addr w.next_id w')
        ])
    go none = tt
    go (some q) =
        new_member-IsRegistered addr_reuse name addr autoreconnect heartbeat
          (or_plain (create_session (protocol_no p))) w r k

connect_new-Keeps :
    (addr_reuse : Bool) (name addr : ℕ) (autoreconnect : Bool) (heartbeat : ℕ) (a : Address)
    (w : SosManager)
    → IsRegistered w
    → known_session addr_reuse name addr w ≡ none
    → KeepsTables (connect_new addr_reuse name addr autoreconnect heartbeat a w)
unfolding connect_new
connect_new-Keeps addr_reuse name addr autoreconnect heartbeat malformed w r k = r
connect_new-Keeps addr_reuse name addr autoreconnect heartbeat unknown w r k = r
connect_new-Keeps addr_reuse name addr autoreconnect heartbeat overrun w r k = tt
connect_new-Keeps addr_reuse name addr autoreconnect heartbeat (address p ip port) w r k =
    open_session-Keeps addr_reuse name addr autoreconnect heartbeat p w r k

-- What the handler asks of the manager.
pub data Request : Type 0 where
  connects : ℕ → ℕ → Bool → ℕ → Bool → Request
  sends : ℕ → Msg → ℕ → Request
  closes : ℕ → Request

abbrev pub manager_of : Connected → Option SosManager
manager_of exits = none
manager_of overruns = none
manager_of (returns n w) = some w

module _ (text : ℕ → List ℕ) where
  do_connect-Keeps :
      (name addr : ℕ) (autoreconnect : Bool) (heartbeat : ℕ) (addr_reuse : Bool) (w : SosManager)
      → IsRegistered w
      → KeepsTables (do_connect text name addr autoreconnect heartbeat addr_reuse w)
  unfolding do_connect
  do_connect-Keeps name addr autoreconnect heartbeat addr_reuse w r =
      elim (Bool-cases (is_empty (text name))) [
        | inl e ↦ rw (do_connect, e) r
        | inr e ↦ elim (Option-cases (known_session addr_reuse name addr w)) [
          | inl k ↦
              rw (do_connect, e, k)
                (connect_new-Keeps addr_reuse name addr autoreconnect heartbeat
                  (parse_addr (text addr)) w r k)
          | inr k ↦
              rw (do_connect, e, k.1)
                (with_session-IsRegistered k.0
                  (λ s. Session.do_connect (record s { has_owner = true })) w r)
        ]
      ]

  of_kept :
      (c : Connected) (w' : SosManager) → KeepsTables c → manager_of c ≡ some w' → IsRegistered w'
  of_kept exits w' k e = absurd (cc)
  of_kept overruns w' k e = absurd (cc)
  of_kept (returns n w) w' k e = subst IsRegistered (some-injective _ _ e) k

  -- `none` is the end of the process, or a write outside of the memory.
  unfoldable pub serve : Request → SosManager → Option SosManager
  unfolding do_connect do_send_to do_close
  serve (connects name addr autoreconnect heartbeat addr_reuse) w =
      manager_of (do_connect text name addr autoreconnect heartbeat addr_reuse w)
  serve (sends name m timeout) w = some (do_send_to name m timeout w)
  serve (closes name) w = some (do_close name w)

  unfoldable pub serve_all : List Request → SosManager → Option SosManager
  unfolding serve
  serve_all [] w = some w
  serve_all (q ∷ qs) w = serve q w >>= (λ w'. serve_all qs w')

  serve-IsRegistered :
      (q : Request) (w w' : SosManager) → IsRegistered w → serve q w ≡ some w' → IsRegistered w'
  unfolding serve
  serve-IsRegistered (connects name addr autoreconnect heartbeat addr_reuse) w w' r e =
      of_kept (do_connect text name addr autoreconnect heartbeat addr_reuse w) w'
        (do_connect-Keeps name addr autoreconnect heartbeat addr_reuse w r) e
  serve-IsRegistered (sends name m timeout) w w' r e =
      subst IsRegistered (some-injective _ _ e) (do_send_to-IsRegistered name m timeout w r)
  serve-IsRegistered (closes name) w w' r e =
      subst IsRegistered (some-injective _ _ e) (do_close-IsRegistered name w r)

  serve_all-IsRegistered :
      (qs : List Request) (w w' : SosManager)
      → IsRegistered w
      → serve_all qs w ≡ some w'
      → IsRegistered w'
  unfolding serve_all
  serve_all-IsRegistered [] w w' r e = subst IsRegistered (some-injective _ _ e) r
  serve_all-IsRegistered (q ∷ qs) w w' r e = elim (Option-cases (serve q w)) [
    | inl n ↦ absurd (cc)
    | inr t ↦
        serve_all-IsRegistered qs t.0 w' (serve-IsRegistered q w t.0 r t.1)
          (sym (ap (λ o. o >>= (λ v. serve_all qs v)) t.1) ∙ e)
  ]

  -- Whatever a handler asks of a new manager, in any order, as long as the process does not end in
  -- `DoConnect`: a session exists exactly if it is in one of the two tables, so none is lost from
  -- both, and no table has one that was never made.
  pub serve_all-new :
      (qs : List Request) (w : SosManager)
      → serve_all qs new_sos_manager ≡ some w
      → (x : ℕ) → has_id x w.members ≡ (has_value x w.short_sessions || has_value x w.addr_sessions)
  serve_all-new qs w e x = serve_all-IsRegistered qs new_sos_manager w (λ y. refl) e x
