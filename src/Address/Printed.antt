-- ===== src/Address/Printed.antt =====
-- What `ParseAddr` makes of an address that is written out.
use ape_cpp_server.Base.{
  ltb, leb, ltb→lt, not_ltb→le, ==_ne, Bool-cases, length, All, length-append, drop, codes, digit,
  digits, decimal, ℕ, zero, suc, ◌+◌, ◌-◌, ◌*◌, ◌/◌, ◌%◌, ◌^◌, ◌<◌, ◌≡◌, refl, ap, ◌∙◌, ◌≢◌, inl,
  inr, true, false, some, List, [], ◌∷◌, ◌++◌, arith,
}
use ape_cpp_server.CText.{is_digit, read_decimal}
use ape_cpp_server.Address.{
  Protocol, http, thrift, ftd, Address, address, span_colon, port_behind, choose, with_host,
  parse_addr,
}

abbrev pub protocol_text : Protocol → List ℕ
protocol_text http = codes "http"
protocol_text thrift = codes "thrift"
protocol_text ftd = codes "ftd"

-- a host of at most 31 characters without a colon
abbrev pub IsHost : List ℕ → Type 0
IsHost ip = (0 < length ip) × (length ip < 32) × All (λ c. c ≢ b':') ip

abbrev pub address_text : Protocol → List ℕ → ℕ → List ℕ
unfolding decimal
address_text p ip n = protocol_text p ++ (codes "://" ++ (ip ++ (b':' ∷ decimal n)))

span_colon-append :
    (n : ℕ) (ip s : List ℕ)
    → length ip < n
    → All (λ c. c ≢ b':') ip
    → span_colon n (ip ++ (b':' ∷ s)) ≡ (ip, b':' ∷ s)
unfolding span_colon
span_colon-append zero ip s h p = absurd (omega arith)
span_colon-append (suc n) [] s h p = refl
span_colon-append (suc n) (c ∷ ip) s h (hc, p) =
    rw (span_colon, ==_ne c b':' hc, span_colon-append n ip s (omega arith) p) refl

read_decimal-digit :
    (k d : ℕ) (s : List ℕ) → d < 10 → read_decimal k (digit d ∷ s) ≡ read_decimal (k * 10 + d) s
unfolding read_decimal
read_decimal-digit k d s h = rw (is_digit-digit) (ap (λ v. read_decimal (k * 10 + v) s) value)
  where
    is_digit-digit : is_digit (digit d) ≡ true
    is_digit-digit = ground arith

    value : digit d - 48 ≡ d
    value = ground arith

read_decimal-digits :
    (fuel n : ℕ) (out : List ℕ)
    → n < fuel
    → read_decimal 0 (digits 10 fuel n out) ≡ read_decimal n out
unfolding digits
read_decimal-digits zero n out h = elim h [ ]
read_decimal-digits (suc fuel) n out h = elim (Bool-cases (ltb n 10)) [
  | inl e ↦
      rw (digits, e)
        (read_decimal-digit 0 (n % 10) out (omega arith)
          ∙ ap (λ k. read_decimal k out) (omega (arith, ltb→lt n 10 e)))
  | inr e ↦
      rw (digits, e)
        (read_decimal-digits fuel (n / 10) (digit (n % 10) ∷ out) (omega (arith, not_ltb→le n 10 e))
          ∙ read_decimal-digit (n / 10) (n % 10) out (omega arith)
          ∙ ap (λ k. read_decimal k out) (omega arith))
]

-- a text that begins with a digit
abbrev IsNumber : List ℕ → Type 0
IsNumber [] = ⊥
IsNumber (c ∷ s) = is_digit c ≡ true

digits-IsNumber : (fuel n : ℕ) (out : List ℕ) → n < fuel → IsNumber (digits 10 fuel n out)
unfolding digits
digits-IsNumber zero n out h = elim h [ ]
digits-IsNumber (suc fuel) n out h = elim (Bool-cases (ltb n 10)) [
  | inl e ↦ rw (digits, e) (ground arith)
  | inr e ↦
      rw (digits, e)
        (digits-IsNumber fuel (n / 10) (digit (n % 10) ∷ out) (omega (arith, not_ltb→le n 10 e)))
]

port_behind-number :
    (s : List ℕ)
    → IsNumber s
    → read_decimal 0 s < 2 ^ 32
    → port_behind (b':' ∷ s) ≡ some (read_decimal 0 s)
unfolding port_behind
port_behind-number [] h l = elim h [ ]
port_behind-number (c ∷ s) h l = ground arith

decimal_value : (n : ℕ) → read_decimal 0 (decimal n) ≡ n
unfolding decimal read_decimal
decimal_value n = read_decimal-digits (suc n) n [] (omega arith)

port-decimal : (n : ℕ) → n < 2 ^ 32 → port_behind (b':' ∷ decimal n) ≡ some n
unfolding decimal
port-decimal n h =
    port_behind-number (decimal n) (digits-IsNumber (suc n) n [] (omega arith))
      (omega (arith, decimal_value n, h))
    ∙ ap some (decimal_value n)

-- what is made of the text behind the protocol
with_text : List ℕ → List ℕ → ℕ → Address
unfolding with_host span_colon decimal
with_text pro ip n =
    let rest = codes "://" ++ (ip ++ (b':' ∷ decimal n)) in
    with_host pro (span_colon (length rest) (drop 3 rest))

host_lem :
    (pro : List ℕ) (c : ℕ) (ip : List ℕ) (n : ℕ)
    → IsHost (c ∷ ip)
    → n < 2 ^ 32
    → with_text pro (c ∷ ip) n ≡ choose pro (c ∷ ip) (some n)
unfolding with_text
host_lem pro c ip n (h0, h32, q) h =
    rw
      (
        with_text,
        span_colon-append (length (codes "://" ++ ((c ∷ ip) ++ (b':' ∷ decimal n)))) (c ∷ ip)
            (decimal n) (omega (arith, length-append (c ∷ ip) (b':' ∷ decimal n))) q,
        with_host,
        short,
        port-decimal n h,
      )
      refl
  where
    short : leb 32 (length (c ∷ ip)) ≡ false
    short = ground arith

-- An address of a known protocol, with a host of 1 to 31 characters without a colon and a port below
-- 2 ^ 32, is parsed into these three.
pub parse_addr-text :
    (p : Protocol) (ip : List ℕ) (n : ℕ)
    → IsHost ip
    → n < 2 ^ 32
    → parse_addr (address_text p ip n) ≡ address p ip (some n)
unfolding parse_addr with_text choose
parse_addr-text p [] n (h0, h32, q) h = absurd (omega arith)
parse_addr-text p (c ∷ ip) n (h0, h32, q) h =
    next p (host_lem (protocol_text p) c ip n (h0, h32, q) h)
  where
    next :
        (p : Protocol)
        → with_text (protocol_text p) (c ∷ ip) n ≡ choose (protocol_text p) (c ∷ ip) (some n)
        → parse_addr (address_text p (c ∷ ip) n) ≡ address p (c ∷ ip) (some n)
    next http e = e
    next thrift e = e
    next ftd e = e
