-- ===== src/Base/Bytes.antt =====
-- Unsigned 32-bit arithmetic, the bytes of a word in both orders, and byte strings.
use Prim.Native.Nat.{ℕ, ◌+◌, ◌-◌, ◌*◌, ◌/◌, ◌%◌, ◌^◌, ◌<◌}
use Prim.Native.Char.{code}
use Prim.Native.String.{String}
use mathlib.Core.Path.{◌≡◌}
use mathlib.Core.Bool.{Bool, true, false, ◌&&◌}
use mathlib.Core.Option.{Option, none, some}
use mathlib.Core.List.{List, [], ◌∷◌}
use native.Mathlib.Omega.{arith}
use ape_cpp_server.Base.Tests.{leb, ◌==◌, if◌then◌else◌}
use ape_cpp_server.Base.Lists.{length, take, drop}

-- the sum of two `unsigned int`, and their difference
abbrev pub add32 : ℕ → ℕ → ℕ
add32 a b = (a + b) % 2 ^ 32

abbrev pub sub32 : ℕ → ℕ → ℕ
sub32 a b = (a + 2 ^ 32 - b) % 2 ^ 32

-- what `htonl` and `htons` leave in memory
abbrev pub be32 : ℕ → List ℕ
be32 x = x / 16777216 % 256 ∷ x / 65536 % 256 ∷ x / 256 % 256 ∷ x % 256 ∷ []

abbrev pub be16 : ℕ → List ℕ
be16 x = x / 256 % 256 ∷ x % 256 ∷ []

-- `ntohl` of a word in memory
abbrev pub be32_of : ℕ → ℕ → ℕ → ℕ → ℕ
be32_of a b c d = a * 16777216 + b * 65536 + c * 256 + d

-- a word in memory as a little-endian machine reads it
abbrev pub le32_of : ℕ → ℕ → ℕ → ℕ → ℕ
le32_of a b c d = be32_of d c b a

-- the word with its bytes in the other order
abbrev pub swap32 : ℕ → ℕ
swap32 x = le32_of (x / 16777216 % 256) (x / 65536 % 256) (x / 256 % 256) (x % 256)

pub swap32-swap32 : (x : ℕ) → x < 2 ^ 32 → swap32 (swap32 x) ≡ x
swap32-swap32 x h = omega arith

-- The code points of a text: its bytes, as it is ASCII.
abbrev pub codes : String → List ℕ
codes String.[] = []
codes (String.◌∷◌ c s) = code c ∷ codes s

-- `tolower` in the C locale
abbrev pub lower : ℕ → ℕ
lower c = if leb b'A' c && leb c b'Z' then c + 32 else c

-- `strncasecmp (s, w, length w) == 0`, for a text `w` without NUL and an `s` that ends in NUL or is
-- at least that long
abbrev pub starts_nocase : List ℕ → List ℕ → Bool
starts_nocase [] s = true
starts_nocase (c ∷ w) [] = false
starts_nocase (c ∷ w) (d ∷ s) = lower d == lower c && starts_nocase w s

-- `n` bytes of memory from a place on; `none` for a read out of range
abbrev pub read_bytes : ℕ → ℕ → List ℕ → Option (List ℕ)
read_bytes at n mem = if leb (at + n) (length mem) then some (take n (drop at mem)) else none
