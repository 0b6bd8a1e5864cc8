-- ===== src/Config/Tests.antt =====
-- Runs of `GetParameter` on a small document, and its theorem on it.
use ape_cpp_server.Base.{
  ◌==◌, if◌then◌else◌, codes, ◌≡◌, refl, ℕ, zero, suc, Option, none, some, List, [], ◌∷◌, pos,
}
use ape_cpp_server.Config.{ConfigParser, get_parameter, get_number}
use ape_cpp_server.Config.Keys.{get_parameter_lem}

-- The root has a child `a` and that a child `b`, whose text is `80`.
abbrev tree : ℕ → List ℕ → Option ℕ
tree e [] = none
tree zero (c ∷ s) = if c == b'a' then some 1 else none
tree (suc zero) (c ∷ s) = if c == b'b' then some 2 else none
tree (suc (suc n)) (c ∷ s) = none

abbrev text : ℕ → List ℕ
text zero = []
text (suc zero) = []
text (suc (suc n)) = codes "80"

abbrev document : ConfigParser ℕ
document = record { root = some 0; error = codes "" }

found : get_number tree text (codes "a/b") (pos 7) document ≡ pos 80
unfolding get_number
found = refl

-- A slash at the end asks for an empty key.
slash_at_end : get_number tree text (codes "a/b/") (pos 7) document ≡ pos 7
unfolding get_number
slash_at_end = refl

get_parameter_lem_example : get_parameter tree text (codes "a/b") document ≡ codes "80"
unfolding get_parameter
get_parameter_lem_example = get_parameter_lem tree text (codes "a/b") document
