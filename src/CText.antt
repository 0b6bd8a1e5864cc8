-- ===== src/CText.antt =====
-- What frame/protocol/httpparser.cc uses of the C library's functions on texts. A text is memory from
-- a place on; a function that finds neither its end, NUL, nor what it looks for reads outside of the
-- memory.
use Prim.Native.Nat.{min}
use ape_cpp_server.Base.{
  ltb, leb, ◌==◌, if◌then◌else◌, drop, codes, lower, starts_nocase, ℤ, pos, negsuc, ℕ, suc, ◌+◌,
  ◌-◌, ◌*◌, ◌%◌, ◌^◌, Bool, true, false, ◌&&◌, ◌||◌, Option, none, some, List, [], ◌∷◌,
}

-- What a search comes to: a read outside of the memory, NULL, or a place.
pub data Found : Type 0 where
  outside missing : Found
  found : ℕ → Found

abbrev pub one_on : Found → Found
one_on outside = outside
one_on missing = missing
one_on (found k) = found (suc k)

unfoldable pub strchr : ℕ → List ℕ → Found
strchr c [] = outside
strchr c (d ∷ s) =
    let rest = one_on (strchr c s) in if d == c then found 0 else if d == 0 then missing else rest

-- whether the text begins with `w`, which has no NUL
abbrev pub starts : List ℕ → List ℕ → Bool
starts [] s = true
starts (c ∷ w) [] = false
starts (c ∷ w) (d ∷ s) = d == c && starts w s

unfoldable pub strstr : List ℕ → List ℕ → Found
strstr w [] = outside
strstr w (d ∷ s) =
    let rest = one_on (strstr w s) in
    if starts w (d ∷ s) then found 0 else if d == 0 then missing else rest

-- the bytes before NUL, which `c_str ()` of a string shows
abbrev pub c_text : List ℕ → List ℕ
c_text [] = []
c_text (c ∷ s) = if c == 0 then [] else c ∷ c_text s

abbrev pub is_space : ℕ → Bool
is_space c = c == 32 || (leb 9 c && leb c 13)

abbrev pub is_digit : ℕ → Bool
is_digit c = leb 48 c && leb c 57

-- `isxdigit`, and the digit's value
abbrev pub is_hex : ℕ → Bool
is_hex c = is_digit c || (leb 97 (lower c) && leb (lower c) 102)

abbrev pub hex_value : ℕ → ℕ
hex_value c = if is_digit c then c - 48 else lower c - 87

unfoldable pub skip_space : List ℕ → List ℕ
skip_space [] = []
skip_space (c ∷ s) = let rest = skip_space s in if is_space c then rest else c ∷ s

-- The digits from a place on, after the number read before.
unfoldable pub read_decimal : ℕ → List ℕ → ℕ
read_decimal n [] = n
read_decimal n (c ∷ s) =
    let more = read_decimal (n * 10 + (c - 48)) s in if is_digit c then more else n

unfoldable pub read_hex : ℕ → List ℕ → ℕ
read_hex n [] = n
read_hex n (c ∷ s) = let more = read_hex (n * 16 + hex_value c) s in if is_hex c then more else n

-- a number's value as an `int`
unfoldable pub to_int : ℕ → ℤ
to_int n = let m = n % 2 ^ 32 in if ltb m (2 ^ 31) then pos m else negsuc (2 ^ 32 - 1 - m)

-- `atoi` behind the white space: a sign, and the digits, which stop at the limits of `long`.
unfoldable pub signed_value : List ℕ → ℤ
unfolding read_decimal to_int
signed_value [] = pos 0
signed_value (c ∷ s) =
    if c == b'-'
    then to_int (2 ^ 64 - min (2 ^ 63) (read_decimal 0 s))
    else to_int (min (2 ^ 63 - 1) (read_decimal 0 (if c == b'+' then s else c ∷ s)))

unfoldable pub atoi : List ℕ → ℤ
unfolding skip_space signed_value
atoi s = signed_value (skip_space s)

-- `sscanf` of "%X": the number as an `unsigned long`, behind the white space, a sign and "0x".
abbrev pub hex_here : List ℕ → Option ℕ
hex_here [] = none
hex_here (c ∷ s) = if is_hex c then some (min (2 ^ 64 - 1) (read_hex 0 (c ∷ s))) else none

abbrev pub unsigned_hex : List ℕ → Option ℕ
unsigned_hex s = hex_here (if starts_nocase (codes "0x") s then drop 2 s else s)

abbrev pub as_int : Bool → Option ℕ → Option ℤ
as_int minus none = none
as_int minus (some n) = some (to_int (if minus then 2 ^ 64 - n else n))

unfoldable pub signed_hex : List ℕ → Option ℤ
unfolding read_hex to_int
signed_hex [] = none
signed_hex (c ∷ s) =
    if c == b'-'
    then as_int true (unsigned_hex s)
    else as_int false (unsigned_hex (if c == b'+' then s else c ∷ s))

unfoldable pub scan_hex : List ℕ → Option ℤ
unfolding skip_space signed_hex
scan_hex s = signed_hex (skip_space s)
