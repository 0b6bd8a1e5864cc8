-- ===== src/SessionManager/Check.antt =====
-- The check for dead sessions.
use ape_cpp_server.Base.{◌==◌, if◌then◌else◌, ℕ, ◌+◌, ◌≡◌, refl, ap, List, [], ◌∷◌, arith}
use ape_cpp_server.Session.{Status, waiting, connected, timed_out, connecting, closed}
use ape_cpp_server.SessionManager.{Fate, stays, ages, goes, short_fate, check_session}

abbrev pub count : ℕ → List ℕ → ℕ
count x [] = 0
count x (y ∷ ys) = (if y == x then 1 else 0) + count x ys

abbrev pub count_table : ℕ → List (ℕ × Status) → ℕ
count_table x [] = 0
count_table x ((id, status) ∷ sessions) = (if id == x then 1 else 0) + count_table x sessions

-- One check neither loses a session nor closes one twice, whatever it does with each status.
count-check_session :
    (x : ℕ) (fate : Status → Fate) (l : List (ℕ × Status))
    → let r = check_session fate l in count_table x r.0 + count x r.1 ≡ count_table x l
unfolding check_session
count-check_session x fate [] = refl
count-check_session x fate ((id, status) ∷ l) = next (fate status) (count-check_session x fate l)
  where
    next :
        (f : Fate)
        → count_table x (check_session fate l).0 + count x (check_session fate l).1
          ≡ count_table x l
        → let r : List (ℕ × Status) × List ℕ = elim f [
          | stays ↦ ((id, status) ∷ (check_session fate l).0, (check_session fate l).1)
          | ages ↦ ((id, timed_out) ∷ (check_session fate l).0, (check_session fate l).1)
          | goes ↦ ((check_session fate l).0, id ∷ (check_session fate l).1)
        ] in
          count_table x r.0 + count x r.1 ≡ (if id == x then 1 else 0) + count_table x l
    next stays h = omega (arith, h)
    next ages h = omega (arith, h)
    next goes h = omega (arith, h)

twice_empty :
    (l : List (ℕ × Status)) → (check_session short_fate (check_session short_fate l).0).0 ≡ []
unfolding check_session short_fate
twice_empty [] = refl
twice_empty ((id, connected) ∷ l) = twice_empty l
twice_empty ((id, connecting) ∷ l) = twice_empty l
twice_empty ((id, waiting) ∷ l) = twice_empty l
twice_empty ((id, timed_out) ∷ l) = twice_empty l
twice_empty ((id, closed) ∷ l) = twice_empty l

-- Two checks of the short sessions, with nothing between them that changes a status, leave none, and
-- together close each session exactly as often as it was in the table.
check_session_twice :
    (x : ℕ) (l : List (ℕ × Status))
    → let r = check_session short_fate l in
      let r' = check_session short_fate r.0 in
      (r'.0 ≡ []) × (count x r.1 + count x r'.1 ≡ count_table x l)
check_session_twice x l =
    let r : List (ℕ × Status) × List ℕ = check_session short_fate l in
    (
      twice_empty l,
      omega (
        arith,
        count-check_session x short_fate l,
        count-check_session x short_fate r.0,
        ap (count_table x) (twice_empty l),
      ),
    )
