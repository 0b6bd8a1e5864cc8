-- ===== src/SosSessionManager/Sent.antt =====
-- `DoSendTo`: what becomes of a message.
use mathlib.Core.Path.{subst}
use mathlib.Core.Option.{some-injective}
use ape_cpp_server.Base.{
  ◌==◌, Bool-cases, Option-cases, length, get_or, negsuc, ℕ, zero, suc, ◌+◌, ◌*◌, ◌≡◌, refl, sym,
  ap, ◌∙◌, ◌⊎◌, inl, inr, true, ◌||◌, Option, none, some, List, [], ◌∷◌, ◌++◌, All, arith,
}
use ape_cpp_server.Session.{
  connected, Msg, reply_with, Effect, deliver, discard, write, tell_accept, tell_connected,
  tell_peer_close, start_connect, start_read, close_socket, start_timer, stop_timer, fault, Session,
  is_status,
}
use ape_cpp_server.Session
use ape_cpp_server.Session.Ledger.{
  one, count_history, count_waiting, count_effect, count_log, held, held-do_send_to,
}
use ape_cpp_server.SessionManager.{find_session, SessionGroup, next_session, get_session}
use ape_cpp_server.SosSessionManager.{
  Notice, message, connected_event, peer_close_event, Member, SosManager, find_member,
  replace_member, delete_session, find_group, tell, tell_all, call, with_session, has_value,
  persistent_session, choose_session, send_through, do_send_to,
}
use ape_cpp_server.SessionManager.Turns.{turn_of}
use ape_cpp_server.SosSessionManager.Tables.{has_id, noted, tell_all-IsTold}
use ape_cpp_server.SosSessionManager.Registered.{IsRegistered}

-- what the sessions keep of a message
abbrev pub kept : ℕ → Session → ℕ
kept u s = count_history u s.history + count_waiting u s.waitinglist

abbrev pub kept_all : ℕ → List Member → ℕ
kept_all u [] = 0
kept_all u (m ∷ ms) = kept u m.state + kept_all u ms

abbrev pub count_effects : ℕ → List (ℕ × Effect) → ℕ
count_effects u [] = 0
count_effects u ((id, e) ∷ es) = count_effect u e + count_effects u es

-- messages that the manager gives to the handler itself
abbrev pub count_direct : ℕ → List Notice → ℕ
count_direct u [] = 0
count_direct u (message none m ∷ ns) = one u m + count_direct u ns
count_direct u (message (some id) m ∷ ns) = count_direct u ns
count_direct u (connected_event id ∷ ns) = count_direct u ns
count_direct u (peer_close_event id ∷ ns) = count_direct u ns

-- how often a message is kept by a session, or was given to the handler or deleted
abbrev pub total : ℕ → SosManager → ℕ
total u w = kept_all u w.members + count_effects u w.effects + count_direct u w.notices

count_effects-append :
    (u id : ℕ) (l : List (ℕ × Effect)) (es : List Effect)
    → count_effects u (l ++ noted id es) ≡ count_effects u l + count_log u es
count_effects-append u id [] [] = refl
count_effects-append u id [] (e ∷ es) = omega (arith, count_effects-append u id [] es)
count_effects-append u id ((i, e) ∷ l) es = omega (arith, count_effects-append u id l es)

count_direct-append :
    (u : ℕ) (ns : List Notice) (n : Notice)
    → count_direct u (ns ++ (n ∷ [])) ≡ count_direct u ns + count_direct u (n ∷ [])
count_direct-append u [] n = omega arith
count_direct-append u (message none m ∷ ns) n = omega (arith, count_direct-append u ns n)
count_direct-append u (message (some id) m ∷ ns) n = count_direct-append u ns n
count_direct-append u (connected_event id ∷ ns) n = count_direct-append u ns n
count_direct-append u (peer_close_event id ∷ ns) n = count_direct-append u ns n

kept-replace_member :
    (u id : ℕ) (s : Session) (m : Member) (ms : List Member)
    → find_member id ms ≡ some m
    → kept_all u (replace_member id s ms) + kept u m.state ≡ kept_all u ms + kept u s
kept-replace_member u id s m [] e = absurd (cc)
kept-replace_member u id s m (x ∷ ms) e = elim (Bool-cases (x.id == id)) [
  | inl h ↦ ground (arith, h, e)
  | inr h ↦ ground (arith, h, e, kept-replace_member u id s m ms)
]

kept-delete_session :
    (u id : ℕ) (s : Session) (w : SosManager) → kept u (delete_session id s w) ≡ kept u s
unfolding delete_session
kept-delete_session u id s w = ground arith

-- What the manager is told changes neither what the session keeps nor what the manager gave itself.
tell-kept :
    (u id : ℕ) (e : Effect) (s : Session) (w : SosManager)
    → (kept u (tell id e s w).0 ≡ kept u s)
      × (count_direct u (tell id e s w).1.notices ≡ count_direct u w.notices)
unfolding tell
tell-kept u id (deliver m) s w =
    (refl, omega (arith, count_direct-append u w.notices (message (some id) m)))
tell-kept u id tell_connected s w =
    (refl, omega (arith, count_direct-append u w.notices (connected_event id)))
tell-kept u id tell_peer_close s w = (
  kept-delete_session u id s w,
  omega (arith, count_direct-append u w.notices (peer_close_event id)),
)
tell-kept u id _ s w = (refl, refl)

pub tell_all-kept :
    (u id : ℕ) (es : List Effect) (s : Session) (w : SosManager)
    → (kept u (tell_all id es s w).0 ≡ kept u s)
      × (count_direct u (tell_all id es s w).1.notices ≡ count_direct u w.notices)
unfolding tell_all
tell_all-kept u id [] s w = (refl, refl)
tell_all-kept u id (e ∷ es) s w =
    let t = tell-kept u id e s w in
    let w' = (tell id e s w).1 in
    let r =
      tell_all-kept u id es (tell id e s w).0
        (record w' { effects = w'.effects ++ ((id, e) ∷ []) }) in
    (r.0 ∙ t.0, r.1 ∙ t.1)

pub total-call :
    (u id : ℕ) (f : Session → Session) (m : Member) (w : SosManager)
    → find_member id w.members ≡ some m
    → total u (call id f (some m) w) + kept u m.state
      ≡ total u w + held u (f (record m.state { log = [] }))
unfolding call
total-call u id f m w e =
    let s = f (record m.state { log = [] }) in
    let t = tell_all id s.log s w in
    let told = tell_all-IsTold id s.log s w in
    let k = tell_all-kept u id s.log s w in
    omega (
      arith,
      kept-replace_member u id t.0 m t.1.members (ap (find_member id) told.members_eq ∙ e),
      ap (kept_all u) told.members_eq,
      k.0,
      k.1,
      ap (count_effects u) told.effects_eq,
      count_effects-append u id w.effects s.log,
    )

-- what a session needs to take a message without a call through NULL
abbrev pub CanSend : Session → Type 0
CanSend s = (s.has_owner ≡ true) ⊎ (is_status s.status connected ≡ true)

find-All :
    (id : ℕ) (m : Member) (ms : List Member)
    → All (λ x. CanSend x.state) ms
    → find_member id ms ≡ some m
    → CanSend m.state
find-All id m [] a e = absurd (cc)
find-All id m (x ∷ ms) (h, a) e = elim (Bool-cases (x.id == id)) [
  | inl t ↦ subst (λ y. CanSend y.state) (some-injective x m (sym (rw t refl) ∙ e)) h
  | inr t ↦ find-All id m ms a (sym (rw t refl) ∙ e)
]

pub find-has_id :
    (id : ℕ) (ms : List Member) → has_id id ms ≡ true → (m : Member) × (find_member id ms ≡ some m)
find-has_id id [] h = absurd (cc)
find-has_id id (x ∷ ms) h = elim (Bool-cases (x.id == id)) [
  | inl t ↦ (x, rw t refl)
  | inr t ↦ rw t (find-has_id id ms (sym (rw t refl) ∙ h))
]

total-with_session :
    (u id timeout : ℕ) (m : Msg) (w : SosManager)
    → has_id id w.members ≡ true
    → All (λ x. CanSend x.state) w.members
    → total u (with_session id (λ s. Session.do_send_to m timeout s) w) ≡ total u w + one u m
unfolding with_session
total-with_session u id timeout m w h a =
    let x = find-has_id id w.members h in
    rw (with_session, x.1)
      (omega (
        arith,
        total-call u id (λ s. Session.do_send_to m timeout s) x.0 w x.1,
        held-do_send_to u m timeout (record x.0.state { log = [] })
            (find-All id x.0 w.members a x.1),
      ))

find_session-has_value :
    (key id : ℕ) (t : List (ℕ × ℕ)) → find_session key t ≡ some id → has_value id t ≡ true
unfolding find_session
find_session-has_value key id [] e = absurd (cc)
find_session-has_value key id ((k, i) ∷ t) e = elim (Bool-cases (key == k)) [
  | inl h ↦ ground (arith, some-injective i id (sym (rw h refl) ∙ e))
  | inr h ↦ ground (arith, find_session-has_value key id t (sym (rw h refl) ∙ e))
]

-- the address whose turn it is
abbrev turn_addr : SessionGroup → ℕ
turn_addr g = get_or g.addrs (turn_of g) 0

next_session-has_value :
    (t : List (ℕ × ℕ)) (n : ℕ) (g : SessionGroup) (id : ℕ)
    → (next_session t n g).0 ≡ some id
    → has_value id t ≡ true
unfolding next_session
next_session-has_value t zero g id e = absurd (cc)
next_session-has_value t (suc n) g id e = elim (Option-cases (find_session (turn_addr g) t)) [
  | inl h ↦
      next_session-has_value t n (record g { current = turn_of g }) id
        (sym (rw (next_session, h) refl) ∙ e)
  | inr h ↦ find_session-has_value (turn_addr g) id t (h.1 ∙ sym (rw (next_session, h.1) refl) ∙ e)
]

-- The session that `DoSendTo` chooses is in a table.
choose_session-has_value :
    (name id : ℕ) (o : Option ℕ) (w : SosManager)
    → find_session name w.short_sessions ≡ o
    → (choose_session name o w).0 ≡ some id
    → (has_value id w.short_sessions || has_value id w.addr_sessions) ≡ true
unfolding choose_session persistent_session get_session
choose_session-has_value name id (some i) w h e =
    ground (arith, find_session-has_value name id w.short_sessions (h ∙ e))
choose_session-has_value name id none w h e = go (find_group name w.session_groups) e
  where
    go :
        (g : Option SessionGroup)
        → (persistent_session name g w).0 ≡ some id
        → (has_value id w.short_sessions || has_value id w.addr_sessions) ≡ true
    go none e = absurd (cc)
    go (some g) e = ground (arith, next_session-has_value w.addr_sessions (length g.addrs) g id e)

total-choose_session :
    (u name : ℕ) (o : Option ℕ) (w : SosManager)
    → let w' = (choose_session name o w).1 in (total u w' ≡ total u w) × (w'.members ≡ w.members)
unfolding choose_session persistent_session
total-choose_session u name (some id) w = (refl, refl)
total-choose_session u name none w = go (find_group name w.session_groups)
  where
    go :
        (g : Option SessionGroup)
        → let w' = (persistent_session name g w).1 in
          (total u w' ≡ total u w) × (w'.members ≡ w.members)
    go none = (refl, refl)
    go (some g) = (refl, refl)

-- Whatever name a message is sent to: if each session has an owner or is connected, then the message
-- is accounted for once more, and no other. A session keeps it, or it was deleted, or it was given to
-- the handler, by a session or, where none is found, by the manager itself.
pub do_send_to-total :
    (u name : ℕ) (m : Msg) (timeout : ℕ) (w : SosManager)
    → IsRegistered w
    → All (λ x. CanSend x.state) w.members
    → total u (do_send_to name m timeout w) ≡ total u w + one u m
unfolding do_send_to send_through
do_send_to-total u name m timeout w r a =
    go (choose_session name (find_session name w.short_sessions) w)
      (total-choose_session u name (find_session name w.short_sessions) w)
      (λ id. choose_session-has_value name id (find_session name w.short_sessions) w refl)
  where
    go :
        (c : Option ℕ × SosManager)
        → (total u c.1 ≡ total u w) × (c.1.members ≡ w.members)
        → ((id : ℕ)
            → c.0 ≡ some id
            → (has_value id w.short_sessions || has_value id w.addr_sessions) ≡ true)
        → total u (send_through m timeout c) ≡ total u w + one u m
    go (none, v) e h =
        omega (arith, count_direct-append u v.notices (message none (reply_with (negsuc 0) m)), e.0)
    go (some id, v) e h =
        let known : has_id id v.members ≡ true = ap (has_id id) e.1 ∙ r id ∙ h id refl in
        total-with_session u id (timeout * 1000) m v known
          (subst (All (λ x. CanSend x.state)) (sym e.1) a)
        ∙ ap (λ k. k + one u m) e.0
