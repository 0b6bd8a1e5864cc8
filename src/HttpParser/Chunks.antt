-- ===== src/HttpParser/Chunks.antt =====
-- `CHttpParser::Decode` on a body of one chunk, and the numbers that `%x` prints.
use Prim.Native.Nat.{min}
use ape_cpp_server.Base.{
  ltb, ltb→lt, not_ltb→le, Bool-cases, pos, digit, digits, hexadecimal, ℕ, zero, suc, ◌+◌, ◌-◌, ◌*◌,
  ◌/◌, ◌%◌, ◌^◌, ◌<◌, ◌≡◌, refl, ap, ◌∙◌, ◌≢◌, inl, inr, true, some, List, [], ◌∷◌, ◌++◌, arith,
}
use ape_cpp_server.CText.{is_hex, hex_value, read_hex, to_int, scan_hex}

digits-append :
    (base fuel n : ℕ) (out s : List ℕ) → digits base fuel n out ++ s ≡ digits base fuel n (out ++ s)
unfolding digits
digits-append base zero n out s = refl
digits-append base (suc fuel) n out s = elim (Bool-cases (ltb n base)) [
  | inl e ↦ rw (digits, e) refl
  | inr e ↦ rw (digits, e) (digits-append base fuel (n / base) (digit (n % base) ∷ out) s)
]

read_hex-digit :
    (k d : ℕ) (s : List ℕ) → d < 16 → read_hex k (digit d ∷ s) ≡ read_hex (k * 16 + d) s
unfolding read_hex
read_hex-digit k d s h = rw (is_hex-digit d h, hex_value-digit d h) refl
  where
    is_hex-digit : (d : ℕ) → d < 16 → is_hex (digit d) ≡ true
    is_hex-digit d h = ground arith

    hex_value-digit : (d : ℕ) → d < 16 → hex_value (digit d) ≡ d
    hex_value-digit d h = ground arith

read_hex-digits :
    (fuel n : ℕ) (out : List ℕ) → n < fuel → read_hex 0 (digits 16 fuel n out) ≡ read_hex n out
unfolding digits
read_hex-digits zero n out h = elim h [ ]
read_hex-digits (suc fuel) n out h = elim (Bool-cases (ltb n 16)) [
  | inl e ↦
      rw (digits, e)
        (read_hex-digit 0 (n % 16) out (omega arith)
          ∙ ap (λ k. read_hex k out) (omega (arith, ltb→lt n 16 e)))
  | inr e ↦
      rw (digits, e)
        (read_hex-digits fuel (n / 16) (digit (n % 16) ∷ out) (omega (arith, not_ltb→le n 16 e))
          ∙ read_hex-digit (n / 16) (n % 16) out (omega arith)
          ∙ ap (λ k. read_hex k out) (omega arith))
]

-- a text that begins with a digit other than 0
abbrev pub IsLead : List ℕ → Type 0
IsLead [] = ⊥
IsLead (d ∷ s) = (is_hex d ≡ true) × (d ≢ 48)

digits-IsLead : (fuel n : ℕ) (out : List ℕ) → n < fuel → 0 < n → IsLead (digits 16 fuel n out)
unfolding digits
digits-IsLead zero n out h h0 = elim h [ ]
digits-IsLead (suc fuel) n out h h0 = elim (Bool-cases (ltb n 16)) [
  | inl e ↦ rw (digits, e) (lead (n % 16) (omega arith) (omega (arith, ltb→lt n 16 e)))
  | inr e ↦
      rw (digits, e)
        (digits-IsLead fuel (n / 16) (digit (n % 16) ∷ out) (omega (arith, not_ltb→le n 16 e))
          (omega (arith, not_ltb→le n 16 e)))
]
  where
    lead : (d : ℕ) → d < 16 → 0 < d → (is_hex (digit d) ≡ true) × (digit d ≢ 48)
    lead d h h0 = (ground arith, ground arith)

scan_hex-lead :
    (s : List ℕ) → IsLead s → scan_hex s ≡ some (to_int (min (2 ^ 64 - 1) (read_hex 0 s)))
unfolding scan_hex
scan_hex-lead [] h = elim h [ ]
scan_hex-lead (d ∷ s) (h, h0) = ground arith

-- A number that `%x` printed is read back.
pub scan_hex-hexadecimal :
    (n : ℕ) (s : List ℕ) → 0 < n → n < 2 ^ 31 → scan_hex (hexadecimal n ++ (13 ∷ s)) ≡ some (pos n)
unfolding hexadecimal read_hex to_int
scan_hex-hexadecimal n s h0 h =
    ap scan_hex (digits-append 16 (suc n) n [] (13 ∷ s))
    ∙ scan_hex-lead (digits 16 (suc n) n (13 ∷ s))
        (digits-IsLead (suc n) n (13 ∷ s) (omega arith) h0)
    ∙ ap (λ k. some (to_int (min (2 ^ 64 - 1) k)))
        (read_hex-digits (suc n) n (13 ∷ s) (omega arith))
    ∙ ground arith
