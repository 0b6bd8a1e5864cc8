-- ===== src/Buffer/Tests.antt =====
-- The theorem on `append` at a concrete input, and runs of the code.
use ape_cpp_server.Base.{length, replicate, ℕ, zero, suc, ◌≡◌, refl, ap, some, List, [], ◌∷◌, arith}
use ape_cpp_server.Buffer.{Buffer, append}
use ape_cpp_server.Buffer.Append.{Appended, append_lem}

abbrev ones : ℕ → List ℕ
ones n = replicate n 1

length-ones : (n : ℕ) → length (ones n) ≡ n
length-ones zero = refl
length-ones (suc n) = ap suc (length-ones n)

abbrev two_of_three : Buffer
two_of_three = record { base = 5 ∷ 6 ∷ 0 ∷ []; capacity = 3; loc = 2 }

grows :
    append ones (7 ∷ 8 ∷ []) two_of_three
    ≡ some
        (record { base = 5 ∷ 6 ∷ 7 ∷ 8 ∷ 1 ∷ 1 ∷ 1 ∷ 1 ∷ 1 ∷ 1 ∷ 1 ∷ []; capacity = 11; loc = 4 })
unfolding append
grows = refl

append_lem_example :
    (b' : Buffer) × (append ones (7 ∷ 8 ∷ []) two_of_three ≡ some b')
    × Appended (7 ∷ 8 ∷ []) two_of_three b'
append_lem_example =
    append_lem ones (7 ∷ 8 ∷ []) two_of_three length-ones (omega arith) (omega arith)
