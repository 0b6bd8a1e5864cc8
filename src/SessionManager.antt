-- ===== src/SessionManager.antt =====
-- frame/net/socsessionmanager.cc and sossessionmanager.cc: the tables of sessions. A session is its
-- number with its status, and a name or an address a number, in the order of the texts. The close of
-- a session is an entry of a log.
pub mod Check
pub mod Turns
mod Tests
use ape_cpp_server.Base.{
  ltb, leb, ◌==◌, if◌then◌else◌, length, get_or, ℕ, zero, suc, ◌+◌, Bool, true, false, Option, none,
  some, List, [], ◌∷◌,
}
use ape_cpp_server.Session.{Status, waiting, connected, timed_out, connecting, closed}

-- What `DoCheckSession` or `CheckSession` does with a session of a status: nothing, to note that it
-- was seen, or to close, erase and delete it.
pub data Fate : Type 0 where
  stays : Fate
  ages : Fate
  goes : Fate

-- `CSocSessionManager::DoCheckSession`
unfoldable pub soc_fate : Status → Fate
soc_fate connected = ages
soc_fate timed_out = goes
soc_fate closed = goes
soc_fate _ = stays

-- `CShortSessionContainer::CheckSession`
unfoldable pub short_fate : Status → Fate
short_fate connected = ages
short_fate waiting = ages
short_fate connecting = ages
short_fate _ = goes

-- The loop over a table: the table after it, and the sessions closed.
pub check_session : (Status → Fate) → List (ℕ × Status) → List (ℕ × Status) × List ℕ
check_session fate [] = ([], [])
check_session fate ((id, status) ∷ sessions) =
    let (kept, gone) = check_session fate sessions in
    elim (fate status) [
      | stays ↦ ((id, status) ∷ kept, gone)
      | ages ↦ ((id, timed_out) ∷ kept, gone)
      | goes ↦ (kept, id ∷ gone)
    ]

-- `sessions_[p->Id ()] = p`
pub on_accept : ℕ → Status → List (ℕ × Status) → List (ℕ × Status)
on_accept id status [] = (id, status) ∷ []
on_accept id status ((i, s) ∷ sessions) =
    let rest = on_accept id status sessions in
    if id == i then (id, status) ∷ sessions else (i, s) ∷ rest

-- `CSocSessionManager::OnPeerClose`: whether the session was found, and the table.
pub on_peer_close : ℕ → List (ℕ × Status) → Bool × List (ℕ × Status)
on_peer_close id [] = (false, [])
on_peer_close id ((i, s) ∷ sessions) =
    let (found, rest) = on_peer_close id sessions in
    if id == i then (true, (i, closed) ∷ sessions) else (found, (i, s) ∷ rest)

-- A table from keys to sessions.
unfoldable pub find_session : ℕ → List (ℕ × ℕ) → Option ℕ
find_session key [] = none
find_session key ((k, session) ∷ sessions) =
    let rest = find_session key sessions in if key == k then some session else rest

pub record SessionGroup : Type 0 where
  pub addrs : List ℕ
  pub current : ℕ

-- The loop of `CPersistentSessionContainer::GetSession (name)`, on the turns that are left.
unfoldable pub next_session : List (ℕ × ℕ) → ℕ → SessionGroup → Option ℕ × SessionGroup
unfolding find_session
next_session sessions zero group = (none, group)
next_session sessions (suc n) group =
    let at = if leb (length group.addrs) group.current then 0 else group.current in
    elim (find_session (get_or group.addrs at 0) sessions) [
      | none ↦ next_session sessions n (record group { current = at })
      | some session ↦ (some session, record group { current = at + 1 })
    ]

-- `GetSession (name)` on the group of that name
unfoldable pub get_session : List (ℕ × ℕ) → SessionGroup → Option ℕ × SessionGroup
unfolding next_session
get_session sessions group = next_session sessions (length group.addrs) group

-- The loop of `GetSession (name, connid)`.
unfoldable pub first_session : List (ℕ × ℕ) → List ℕ → Option ℕ
unfolding find_session
first_session sessions [] = none
first_session sessions (addr ∷ addrs) = elim (find_session addr sessions) [
  | none ↦ first_session sessions addrs
  | some session ↦ some session
]

-- `push_back` and `sort`, unless `binary_search` finds the address
unfoldable pub insert_addr : ℕ → List ℕ → List ℕ
insert_addr addr [] = addr ∷ []
insert_addr addr (a ∷ addrs) =
    let rest = insert_addr addr addrs in
    if addr == a then a ∷ addrs else if ltb addr a then addr ∷ a ∷ addrs else a ∷ rest

-- `CPersistentSessionContainer::AddSession` on the table of the addresses and the name's group
unfoldable pub add_session : ℕ → ℕ → List (ℕ × ℕ) × SessionGroup → List (ℕ × ℕ) × SessionGroup
unfolding find_session insert_addr
add_session addr session (sessions, group) = (
  elim (find_session addr sessions) [ none ↦ (addr, session) ∷ sessions | some _ ↦ sessions ],
  record group { addrs = insert_addr addr group.addrs },
)

-- `CShortSessionContainer::AddSession`: the table, and whether the session was deleted.
unfoldable pub add_short_session : ℕ → ℕ → List (ℕ × ℕ) → List (ℕ × ℕ) × Bool
unfolding find_session
add_short_session name session sessions = elim (find_session name sessions) [
  | none ↦ ((name, session) ∷ sessions, false)
  | some _ ↦ (sessions, true)
]
