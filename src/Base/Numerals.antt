-- ===== src/Base/Numerals.antt =====
-- Numbers as texts: `%d` and `%x` of `printf`, by digits on fuel, of which a number's own size is
-- enough.
use Prim.Native.Nat.{ℕ, zero, suc, ◌+◌, ◌/◌, ◌%◌}
use mathlib.Core.Bool.{true, false}
use mathlib.Core.List.{List, [], ◌∷◌}
use ape_cpp_server.Base.Tests.{ltb, if◌then◌else◌}

-- a digit up to 15, in lower case
abbrev pub digit : ℕ → ℕ
digit d = if ltb d 10 then 48 + d else 87 + d

unfoldable pub digits : ℕ → ℕ → ℕ → List ℕ → List ℕ
digits base zero n out = out
digits base (suc fuel) n out =
    let out' = digit (n % base) ∷ out in
    elim (ltb n base) [ true ↦ out' | false ↦ digits base fuel (n / base) out' ]

-- `%d` of a number that is not negative, and `%x`
unfoldable pub decimal : ℕ → List ℕ
unfolding digits
decimal n = digits 10 (suc n) n []

unfoldable pub hexadecimal : ℕ → List ℕ
unfolding digits
hexadecimal n = digits 16 (suc n) n []
