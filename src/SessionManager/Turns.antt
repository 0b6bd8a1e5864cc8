-- ===== src/SessionManager/Turns.antt =====
-- `CPersistentSessionContainer::GetSession`: the addresses of a name take turns.
use ape_cpp_server.Base.{
  leb, ◌==◌, if◌then◌else◌, length, get_or, ℕ, ◌+◌, ◌<◌, ◌≡◌, refl, some, List, [], ◌∷◌, arith,
}
use ape_cpp_server.SessionManager.{find_session, SessionGroup, next_session, get_session}

-- the place in the group that is asked next
abbrev pub turn_of : SessionGroup → ℕ
turn_of group = if leb (length group.addrs) group.current then 0 else group.current

wraps : (n t : ℕ) → t < n → (if leb n (t + 1) then 0 else t + 1) ≡ (if t + 1 == n then 0 else t + 1)
wraps n t h = ground arith

turn_of-lt : (group : SessionGroup) → 0 < length group.addrs → turn_of group < length group.addrs
turn_of-lt group h = ground arith

module _ (sessions : List (ℕ × ℕ)) (current session : ℕ) where
  abbrev pub group_of : List ℕ → SessionGroup
  group_of addrs = record { addrs = addrs; current = current }

  -- If the address whose turn it is has a session, `GetSession` returns it, and the next address has
  -- the next turn, after the last address the first.
  get_session_lem :
      (addrs : List ℕ)
      → 0 < length addrs
      → find_session (get_or addrs (turn_of (group_of addrs)) 0) sessions ≡ some session
      → let r = get_session sessions (group_of addrs) in
        let turn = turn_of (group_of addrs) in
        (r.0 ≡ some session) × (turn_of r.1 ≡ (if turn + 1 == length addrs then 0 else turn + 1))
  unfolding get_session next_session
  get_session_lem [] h e = elim h [ ]
  get_session_lem (a ∷ addrs) h e =
      rw (get_session, next_session, e)
        (
          refl,
          wraps (length (a ∷ addrs)) (turn_of (group_of (a ∷ addrs)))
              (turn_of-lt (group_of (a ∷ addrs)) h),
        )
