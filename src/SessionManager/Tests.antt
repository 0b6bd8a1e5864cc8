-- ===== src/SessionManager/Tests.antt =====
-- Runs of the code on session tables.
use ape_cpp_server.Base.{ℕ, ◌≡◌, refl, List, [], ◌∷◌}
use ape_cpp_server.Session.{Status, connected, timed_out, connecting}
use ape_cpp_server.SessionManager.{soc_fate, check_session}

abbrev table : List (ℕ × Status)
table = (1, connected) ∷ (2, timed_out) ∷ (3, connecting) ∷ []

first_check : check_session soc_fate table ≡ ((1, timed_out) ∷ (3, connecting) ∷ [], 2 ∷ [])
unfolding check_session soc_fate
first_check = refl
