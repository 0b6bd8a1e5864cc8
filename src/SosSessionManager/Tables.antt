-- ===== src/SosSessionManager/Tables.antt =====
-- The tables of `CSosSessionManager` and the sessions that there are.
use ape_cpp_server.Base.{
  ◌==◌, if◌then◌else◌, ℕ, ◌≡◌, refl, sym, ap, ◌∙◌, Bool, true, false, Option, none, some, List, [],
  ◌∷◌, ◌++◌, append-nil, append_assoc, arith,
}
use ape_cpp_server.Session.{
  Effect, deliver, discard, write, tell_accept, tell_connected, tell_peer_close, start_connect,
  start_read, close_socket, start_timer, stop_timer, fault, Session,
}
use ape_cpp_server.SosSessionManager.{
  Notice, message, connected_event, peer_close_event, notify, Member, SosManager, find_member,
  replace_member, tell, tell_all, call, with_session,
}

abbrev pub has_id : ℕ → List Member → Bool
has_id id [] = false
has_id id (m ∷ ms) = if m.id == id then true else has_id id ms

-- What a call of a session leaves of the manager.
pub record IsSame (w w' : SosManager) : Type 0 where
  pub next_eq : w'.next_id ≡ w.next_id
  pub short_eq : w'.short_sessions ≡ w.short_sessions
  pub addr_eq : w'.addr_sessions ≡ w.addr_sessions
  pub groups_eq : w'.session_groups ≡ w.session_groups

pub IsSame-trans : (a b c : SosManager) → IsSame a b → IsSame b c → IsSame a c
IsSame-trans a b c p q = record {
  next_eq = q.next_eq ∙ p.next_eq;
  short_eq = q.short_eq ∙ p.short_eq;
  addr_eq = q.addr_eq ∙ p.addr_eq;
  groups_eq = q.groups_eq ∙ p.groups_eq;
}

pub IsSame-refl : (w : SosManager) → IsSame w w
IsSame-refl w = record { next_eq = refl; short_eq = refl; addr_eq = refl; groups_eq = refl }

pub IsSame-notify : (n : Notice) (w : SosManager) → IsSame w (notify n w)
IsSame-notify n w = record { next_eq = refl; short_eq = refl; addr_eq = refl; groups_eq = refl }

tell-IsSame :
    (id : ℕ) (e : Effect) (s : Session) (w : SosManager)
    → IsSame w (tell id e s w).1
      × ((tell id e s w).1.members ≡ w.members)
      × ((tell id e s w).1.effects ≡ w.effects)
unfolding tell
tell-IsSame id (deliver m) s w = (IsSame-notify (message (some id) m) w, refl, refl)
tell-IsSame id (discard m) s w = (IsSame-refl w, refl, refl)
tell-IsSame id (write m b) s w = (IsSame-refl w, refl, refl)
tell-IsSame id tell_accept s w = (IsSame-refl w, refl, refl)
tell-IsSame id tell_connected s w = (IsSame-notify (connected_event id) w, refl, refl)
tell-IsSame id tell_peer_close s w = (IsSame-notify (peer_close_event id) w, refl, refl)
tell-IsSame id start_connect s w = (IsSame-refl w, refl, refl)
tell-IsSame id start_read s w = (IsSame-refl w, refl, refl)
tell-IsSame id close_socket s w = (IsSame-refl w, refl, refl)
tell-IsSame id (start_timer u t) s w = (IsSame-refl w, refl, refl)
tell-IsSame id (stop_timer u) s w = (IsSame-refl w, refl, refl)
tell-IsSame id fault s w = (IsSame-refl w, refl, refl)

-- how the effects are noted
abbrev pub noted : ℕ → List Effect → List (ℕ × Effect)
noted id [] = []
noted id (e ∷ es) = (id, e) ∷ noted id es

pub record IsTold (id : ℕ) (es : List Effect) (w w' : SosManager) : Type 0 where
  pub same : IsSame w w'
  pub members_eq : w'.members ≡ w.members
  pub effects_eq : w'.effects ≡ w.effects ++ noted id es

pub tell_all-IsTold :
    (id : ℕ) (es : List Effect) (s : Session) (w : SosManager)
    → IsTold id es w (tell_all id es s w).1
unfolding tell_all
tell_all-IsTold id [] s w = record {
  same = IsSame-refl w;
  members_eq = refl;
  effects_eq = sym (append-nil w.effects);
}
tell_all-IsTold id (e ∷ es) s w =
    let t = tell-IsSame id e s w in
    let w' = (tell id e s w).1 in
    let r =
      tell_all-IsTold id es (tell id e s w).0
        (record w' { effects = w'.effects ++ ((id, e) ∷ []) }) in
    record {
      same = IsSame-trans w _ _ t.0 (record {
        next_eq = r.same.next_eq;
        short_eq = r.same.short_eq;
        addr_eq = r.same.addr_eq;
        groups_eq = r.same.groups_eq;
      });
      members_eq = r.members_eq ∙ t.1;
      effects_eq = cc (r.effects_eq, t.2, append_assoc w.effects ((id, e) ∷ []) (noted id es));
    }

has_id-replace_member :
    (x id : ℕ) (s : Session) (ms : List Member) → has_id x (replace_member id s ms) ≡ has_id x ms
has_id-replace_member x id s [] = refl
has_id-replace_member x id s (m ∷ ms) = ground (arith, has_id-replace_member x id s ms)

pub with_session-IsSame :
    (id : ℕ) (f : Session → Session) (w : SosManager)
    → IsSame w (with_session id f w)
      × ((x : ℕ) → has_id x (with_session id f w).members ≡ has_id x w.members)
unfolding with_session call
with_session-IsSame id f w = go (find_member id w.members)
  where
    go :
        (o : Option Member)
        → IsSame w (call id f o w)
          × ((x : ℕ) → has_id x (call id f o w).members ≡ has_id x w.members)
    go none = (IsSame-refl w, λ x. refl)
    go (some m) =
        let s = f (record m.state { log = [] }) in
        let r = tell_all-IsTold id s.log s w in
        (
          record {
            next_eq = r.same.next_eq;
            short_eq = r.same.short_eq;
            addr_eq = r.same.addr_eq;
            groups_eq = r.same.groups_eq;
          },
          λ x.
              has_id-replace_member x id (tell_all id s.log s w).0 (tell_all id s.log s w).1.members
              ∙ ap (has_id x) r.members_eq,
        )
