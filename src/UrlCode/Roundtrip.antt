-- ===== src/UrlCode/Roundtrip.antt =====
-- Which texts come back from `UrlEncoder` and `URLDecoder`.
use ape_cpp_server.Base.{
  ◌==◌, le→not_ltb, ==_iff, Bool-cases, length, All, length-append, digit, ℕ, suc, ◌+◌, ◌*◌, ◌/◌,
  ◌%◌, ◌≤◌, ◌<◌, ◌≡◌, refl, ap, ◌∙◌, ◌≢◌, inl, inr, true, some, List, [], ◌∷◌, ◌++◌, append_assoc,
  arith,
}
use ape_cpp_server.UrlCode.{
  is_ordinary_char, encode_char, encode, get_as_dec, convert_to_dec, append_char, prepend,
  plain_char, decode,
}

decode_plain :
    (n c : ℕ) (mem : List ℕ)
    → c ≢ b'%'
    → decode (suc n) (c ∷ mem) ≡ prepend (◌∷◌ (plain_char c)) (decode n mem)
unfolding decode
decode_plain n c [] h = ground arith
decode_plain n c (a ∷ []) h = ground arith
decode_plain n c (a ∷ b ∷ mem) h = ground arith

decode_escaped :
    (n a b : ℕ) (mem : List ℕ)
    → decode (suc (suc (suc n))) (b'%' ∷ a ∷ b ∷ mem)
      ≡ prepend (append_char (convert_to_dec a b % 256)) (decode n mem)
unfolding decode
decode_escaped n a b mem =
    ap (λ k. prepend (append_char (convert_to_dec a b % 256)) (decode k mem)) (omega arith)

-- the characters that come back
abbrev pub IsEncodable : ℕ → Type 0
IsEncodable c = (16 ≤ c) × (c < 256)

get_as_dec-digit : (d : ℕ) → d < 16 → get_as_dec (digit d) ≡ d
unfolding get_as_dec
get_as_dec-digit d h = ground arith

digit_pos : (d : ℕ) → 0 < digit d
digit_pos d = ground arith

convert_to_dec-digit : (c : ℕ) → c < 256 → convert_to_dec (digit (c / 16)) (digit (c % 16)) ≡ c
unfolding convert_to_dec
convert_to_dec-digit c h = ground (
  arith,
  digit_pos (c / 16),
  digit_pos (c % 16),
  get_as_dec-digit (c / 16) (omega arith),
  get_as_dec-digit (c % 16) (omega arith),
)

ordinary : (c : ℕ) → is_ordinary_char c ≡ true → (c ≢ b'%') × (plain_char c ≡ c)
unfolding is_ordinary_char
ordinary c h = (ground arith, ground arith)

decode-encode_char :
    (m n c : ℕ) (mem : List ℕ)
    → IsEncodable c
    → m ≡ length (encode_char c) + n
    → decode m (encode_char c ++ mem) ≡ prepend (◌∷◌ c) (decode n mem)
unfolding encode_char
decode-encode_char m n c mem (lo, hi) e = elim (Bool-cases (is_ordinary_char c)) [
  | inl o ↦
      let em : m ≡ suc n = rw o at e ∙ omega arith in
      rw (o, em) (decode_plain n c mem (ordinary c o).0 ∙ rw ((ordinary c o).1) refl)
  | inr o ↦ elim (Bool-cases (c == b' ')) [
    | inl s ↦
        let em : m ≡ suc n = rw (o, s) at e ∙ omega arith in
        rw (o, s, em) (decode_plain n b'+' mem (omega arith) ∙ rw ((==_iff c b' ').0 s) refl)
    | inr s ↦
        let em : m ≡ suc (suc (suc n)) = rw (o, s, le→not_ltb c 16 lo) at e ∙ omega arith in
        rw (o, s, le→not_ltb c 16 lo, em)
          (decode_escaped n (digit (c / 16)) (digit (c % 16)) mem
            ∙ rw (convert_to_dec-digit c hi) (ground arith))
  ]
]

-- A text of characters from 16 to 255, encoded and then decoded with any memory behind it, comes
-- back.
pub decode-encode :
    (s mem : List ℕ) → All IsEncodable s → decode (length (encode s)) (encode s ++ mem) ≡ some s
unfolding encode decode
decode-encode [] mem h = refl
decode-encode (c ∷ s) mem (hc, hs) =
    ap (decode (length (encode_char c ++ encode s))) (append_assoc (encode_char c) (encode s) mem)
    ∙ decode-encode_char (length (encode_char c ++ encode s)) (length (encode s)) c
        (encode s ++ mem) hc (length-append (encode_char c) (encode s))
    ∙ ap (prepend (◌∷◌ c)) (decode-encode s mem hs)

low_char : (c : ℕ) → 0 < c → c < 16 → encode_char c ≡ b'%' ∷ digit c ∷ []
unfolding encode_char is_ordinary_char
low_char c h0 h1 = ground arith

ordinary_char : (d : ℕ) → is_ordinary_char d ≡ true → encode_char d ≡ d ∷ []
unfolding encode_char
ordinary_char d h = rw h refl

convert_to_dec_low :
    (c d : ℕ)
    → 0 < c
    → c < 16
    → is_ordinary_char d ≡ true
    → convert_to_dec (digit c) d ≡ 16 * c + get_as_dec d
unfolding convert_to_dec is_ordinary_char
convert_to_dec_low c d h0 h1 hd = ground (arith, digit_pos c, get_as_dec-digit c h1)

-- A character from 1 to 15 is encoded by one digit only, so that the decoder takes the letter or
-- digit behind it for the second one: for the two it returns one character, which has 16 times the
-- first one's code and the value that it finds in the other, or none if that is 256.
decode-encode_low :
    (c d : ℕ) (s mem : List ℕ)
    → 0 < c
    → c < 16
    → is_ordinary_char d ≡ true
    → All IsEncodable s
    → decode (length (encode (c ∷ d ∷ s))) (encode (c ∷ d ∷ s) ++ mem)
      ≡ some (append_char ((16 * c + get_as_dec d) % 256) s)
unfolding encode
decode-encode_low c d s mem h0 h1 hd hs =
    rw (low_char c h0 h1, ordinary_char d hd)
      (decode_escaped (length (encode s)) (digit c) d (encode s ++ mem)
        ∙ rw (convert_to_dec_low c d h0 h1 hd, decode-encode s mem hs) refl)
