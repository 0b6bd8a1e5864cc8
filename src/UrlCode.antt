-- ===== src/UrlCode.antt =====
-- frame/interface/urlcode.h: `UrlEncoder` and `URLDecoder`. The decoder reads memory, of which `len`
-- bytes are the text; a read outside of the memory is `none`.
pub mod Roundtrip
mod Tests
use ape_cpp_server.Base.{
  ltb, leb, ◌==◌, if◌then◌else◌, lower, digit, ℕ, zero, suc, ◌+◌, ◌-◌, ◌*◌, ◌/◌, ◌%◌, Bool, ◌&&◌,
  ◌||◌, Option, none, some, List, [], ◌∷◌, ◌++◌,
}

-- `isOrdinaryChar`
pub is_ordinary_char : ℕ → Bool
is_ordinary_char c =
    (leb b'a' (lower c) && leb (lower c) b'z') || (leb b'0' (lower c) && leb (lower c) b'9')

-- One turn of the loop of `UrlEncoder::encode`: `sprintf` of "%%%x" writes one digit below 16.
pub encode_char : ℕ → List ℕ
unfolding is_ordinary_char
encode_char c =
    if is_ordinary_char c
    then c ∷ []
    else if c == b' '
    then b'+' ∷ []
    else b'%' ∷ (if ltb c 16 then digit c ∷ [] else digit (c / 16) ∷ digit (c % 16) ∷ [])

unfoldable pub encode : List ℕ → List ℕ
unfolding encode_char
encode [] = []
encode (c ∷ s) = encode_char c ++ encode s

-- `atoi` of the text that `getAsDec` leaves of one character: it takes `g` for 16.
pub get_as_dec : ℕ → ℕ
get_as_dec c =
    if leb b'a' (lower c) && leb (lower c) b'g'
    then lower c - 87
    else if leb b'0' c && leb c b'9'
    then c - 48
    else 0

-- `convertToDec` of two characters and NUL: a NUL among them ends the text.
pub convert_to_dec : ℕ → ℕ → ℕ
unfolding get_as_dec
convert_to_dec a b =
    if a == 0 then 0 else if b == 0 then get_as_dec a else 16 * get_as_dec a + get_as_dec b

-- `append` of a C string of one character, which is empty if that is NUL
abbrev pub append_char : ℕ → List ℕ → List ℕ
append_char c s = if c == 0 then s else c ∷ s

abbrev pub prepend : (List ℕ → List ℕ) → Option (List ℕ) → Option (List ℕ)
prepend f none = none
prepend f (some s) = some (f s)

abbrev pub plain_char : ℕ → ℕ
plain_char c = if c == b'+' then b' ' else c

-- `URLDecoder::decode` on the number of characters that are left: behind a `%` it takes two more,
-- also if the text ends before.
pub decode : ℕ → List ℕ → Option (List ℕ)
unfolding convert_to_dec
decode zero mem = some []
decode (suc n) [] = none
decode (suc n) (c ∷ []) =
    let plain = prepend (◌∷◌ (plain_char c)) (decode n []) in if c == b'%' then none else plain
decode (suc n) (c ∷ a ∷ []) =
    let plain = prepend (◌∷◌ (plain_char c)) (decode n (a ∷ [])) in
    if c == b'%' then none else plain
decode (suc n) (c ∷ a ∷ b ∷ mem) =
    let plain = prepend (◌∷◌ (plain_char c)) (decode n (a ∷ b ∷ mem)) in
    let escaped = prepend (append_char (convert_to_dec a b % 256)) (decode (n - 2) mem) in
    if c == b'%' then escaped else plain
