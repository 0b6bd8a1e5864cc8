-- ===== src/HttpParser/Plain.antt =====
-- Tests of what `CHttpParser::Decode` asks of a first line and of the lines of a head.
use ape_cpp_server.Base.{
  ◌==◌, Bool-cases, All, ℕ, ◌≡◌, ◌≢◌, inl, inr, Bool, true, not, ◌&&◌, List, [], ◌∷◌, arith,
}
use ape_cpp_server.HttpParser.Head.{Header, IsHeader}

-- whether a text has neither of two characters
abbrev pub plain : ℕ → ℕ → List ℕ → Bool
plain a b [] = true
plain a b (c ∷ s) = not (c == a) && (not (c == b) && plain a b s)

pub plain-All : (a b : ℕ) (s : List ℕ) → plain a b s ≡ true → All (λ c. (c ≢ a) × (c ≢ b)) s
plain-All a b [] h = tt
plain-All a b (c ∷ s) h = elim (Bool-cases (c == a)) [
  | inl e ↦ absurd (cc)
  | inr e ↦ elim (Bool-cases (c == b)) [
    | inl f ↦ absurd (cc)
    | inr f ↦ ((ground arith, ground arith), plain-All a b s (ground arith))
  ]
]

abbrev pub plain_header : Header → Bool
plain_header h = plain 0 13 h.key && (plain b':' b':' h.key && plain 0 13 h.value)

All-first : (a b : ℕ) (s : List ℕ) → All (λ c. (c ≢ a) × (c ≢ b)) s → All (λ c. c ≢ a) s
All-first a b [] p = tt
All-first a b (c ∷ s) ((h, _), p) = (h, All-first a b s p)

plain_header-IsHeader : (h : Header) → plain_header h ≡ true → IsHeader h
plain_header-IsHeader h e = record {
  key_text = plain-All 0 13 h.key (ground arith);
  key_colon = All-first b':' b':' h.key (plain-All b':' b':' h.key (ground arith));
  value_text = plain-All 0 13 h.value (ground arith);
}

abbrev pub plain_headers : List Header → Bool
plain_headers [] = true
plain_headers (h ∷ hs) = plain_header h && plain_headers hs

pub plain_headers-IsHeader : (hs : List Header) → plain_headers hs ≡ true → All IsHeader hs
plain_headers-IsHeader [] e = tt
plain_headers-IsHeader (h ∷ hs) e =
    (plain_header-IsHeader h (ground arith), plain_headers-IsHeader hs (ground arith))
