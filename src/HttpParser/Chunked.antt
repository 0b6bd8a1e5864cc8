-- ===== src/HttpParser/Chunked.antt =====
-- The loop of `CHttpParser::Decode` over the chunks of a body.
use ape_cpp_server.Base.{
  ltb, le→not_ltb, ==_ne, Bool-cases, length, take, drop, All, length-append, take-append_left,
  drop-append, drop-drop, joined, codes, pos, digit, digits, hexadecimal, ℕ, zero, suc, ◌+◌, ◌/◌,
  ◌%◌, ◌^◌, ◌≤◌, ◌<◌, ◌≡◌, refl, sym, ap, ◌∙◌, ◌≢◌, inl, inr, some, List, [], ◌∷◌, ◌++◌, append-nil,
  append_assoc, arith,
}
use ape_cpp_server.CText.{strstr, read_hex, to_int, scan_hex}
use ape_cpp_server.HttpMessage.{HttpMessage, crlf}
use ape_cpp_server.HttpParser.{HttpDecoded, placed, after_size, chunk_at, chunks}
use ape_cpp_server.HttpParser.Head.{IsText, strstr-line}
use ape_cpp_server.HttpParser.Chunks.{scan_hex-hexadecimal}

digits-IsText : (fuel n : ℕ) (out : List ℕ) → IsText out → IsText (digits 16 fuel n out)
unfolding digits
digits-IsText zero n out p = p
digits-IsText (suc fuel) n out p = elim (Bool-cases (ltb n 16)) [
  | inl e ↦ rw (digits, e) (digit-text, p)
  | inr e ↦ rw (digits, e) (digits-IsText fuel (n / 16) (digit (n % 16) ∷ out) (digit-text, p))
]
  where
    digit-text : (digit (n % 16) ≢ 0) × (digit (n % 16) ≢ 13)
    digit-text = (ground arith, ground arith)

hexadecimal-IsText : (n : ℕ) → IsText (hexadecimal n)
unfolding hexadecimal
hexadecimal-IsText n = digits-IsText (suc n) n [] tt

-- the chunks of a body, with the last one
abbrev pub chunks_text : List (List ℕ) → List ℕ
chunks_text [] = codes "0" ++ (crlf ++ crlf)
chunks_text (b ∷ bs) = hexadecimal (length b) ++ (crlf ++ (b ++ (crlf ++ chunks_text bs)))

-- neither empty nor too long for an `int`
abbrev pub IsChunk : List ℕ → Type 0
IsChunk b = (0 < length b) × (length b < 2 ^ 31)

pub length-chunks :
    (b : List ℕ) (bs : List (List ℕ))
    → length (chunks_text (b ∷ bs))
      ≡ length (hexadecimal (length b)) + 2 + length b + 2 + length (chunks_text bs)
length-chunks b bs = omega (
  arith,
  length-append (hexadecimal (length b)) (crlf ++ (b ++ (crlf ++ chunks_text bs))),
  length-append b (crlf ++ chunks_text bs),
)

chunks-append :
    (b : List ℕ) (bs : List (List ℕ)) (s : List ℕ)
    → chunks_text (b ∷ bs) ++ s
      ≡ hexadecimal (length b) ++ (13 ∷ 10 ∷ (b ++ (13 ∷ 10 ∷ (chunks_text bs ++ s))))
chunks-append b bs s =
    append_assoc (hexadecimal (length b)) (crlf ++ (b ++ (crlf ++ chunks_text bs))) s
    ∙ ap (λ l. hexadecimal (length b) ++ (13 ∷ 10 ∷ l)) (append_assoc b (crlf ++ chunks_text bs) s)

-- One turn of the loop.
chunk_at_lem :
    (len begin : ℕ) (mem b s : List ℕ) (m : HttpMessage) (more : ℕ → HttpMessage → HttpDecoded)
    → IsChunk b
    → drop begin mem ≡ hexadecimal (length b) ++ (13 ∷ 10 ∷ (b ++ s))
    → begin + length (hexadecimal (length b)) + 2 + length b ≤ len
    → chunk_at len mem begin m more
      ≡ more
          (begin + length (hexadecimal (length b)) + 2 + length b + 2)
          (record m { body = m.body ++ b })
unfolding chunk_at after_size
chunk_at_lem len begin mem b s m more (h0, h31) em hl =
    rw
      (
        chunk_at,
        ap scan_hex em ∙ scan_hex-hexadecimal (length b) (10 ∷ (b ++ s)) h0 h31,
        ap (strstr crlf) em ∙ strstr-line size (b ++ s) (hexadecimal-IsText (length b)),
        after_size,
        ==_ne (length b) 0 (omega (arith, h0)),
        le→not_ltb len (begin + length size + 2 + length b) hl,
      )
      (ap (λ l. more (begin + length size + 2 + length b + 2) (record m { body = m.body ++ l }))
        content)
  where
    size : List ℕ
    size = hexadecimal (length b)

    content : take (length b) (drop (begin + length size + 2) mem) ≡ b
    content =
        ap (take (length b)) (
          ap (λ k. drop k mem) (omega arith)
          ∙ sym (drop-drop begin (length size + 2) mem)
          ∙ ap (drop (length size + 2)) em
          ∙ drop-append size (13 ∷ 10 ∷ (b ++ s)) (length size + 2) 2 refl)
        ∙ take-append_left b s

no_size : (s : List ℕ) → scan_hex (chunks_text [] ++ s) ≡ some (pos 0)
unfolding scan_hex read_hex to_int
no_size s = refl

last_chunk :
    (len begin : ℕ) (mem s : List ℕ) (m : HttpMessage) (more : ℕ → HttpMessage → HttpDecoded)
    → drop begin mem ≡ chunks_text [] ++ s
    → chunk_at len mem begin m more ≡ placed (pos (begin + 5)) m
unfolding chunk_at after_size
last_chunk len begin mem s m more em =
    rw
      (
        chunk_at,
        ap scan_hex em ∙ no_size s,
        ap (strstr crlf) em ∙ strstr-line (codes "0") (crlf ++ s) ((omega arith, omega arith), tt),
        after_size,
      )
      (ap (λ k. placed (pos k) m) (omega arith))

-- The loop reads the chunks in their order, and stops behind the last one.
pub chunks_lem :
    (bs : List (List ℕ)) (fuel len begin : ℕ) (mem s : List ℕ) (m : HttpMessage)
    → All IsChunk bs
    → length bs < fuel
    → drop begin mem ≡ chunks_text bs ++ s
    → begin + length (chunks_text bs) ≤ len
    → chunks fuel len mem begin m
      ≡ placed (pos (begin + length (chunks_text bs))) (record m { body = m.body ++ joined bs })
unfolding chunks
chunks_lem bs zero len begin mem s m v hf em hl = elim hf [ ]
chunks_lem [] (suc fuel) len begin mem s m v hf em hl =
    rw
      (
        chunks,
        le→not_ltb len begin (omega arith),
        last_chunk len begin mem s m (chunks fuel len mem) em,
      )
      (ap (λ l. placed (pos (begin + 5)) (record m { body = l })) (sym (append-nil m.body)))
chunks_lem (b ∷ bs) (suc fuel) len begin mem s m (vb, v) hf em hl =
    rw
      (
        chunks,
        le→not_ltb len begin (omega arith),
        chunk_at_lem len begin mem b (13 ∷ 10 ∷ (chunks_text bs ++ s)) m (chunks fuel len mem) vb
            (em ∙ chunks-append b bs s) (omega (arith, length-chunks b bs)),
        chunks_lem bs fuel len (begin + length (hexadecimal (length b)) + 2 + length b + 2) mem s
            (record m { body = m.body ++ b }) v (omega arith) next
            (omega (arith, length-chunks b bs)),
        append_assoc m.body b (joined bs),
      )
      (ap (λ k. placed (pos k) (record m { body = m.body ++ (b ++ joined bs) }))
        (omega (arith, length-chunks b bs)))
  where
    size : List ℕ
    size = hexadecimal (length b)

    next : drop (begin + length size + 2 + length b + 2) mem ≡ chunks_text bs ++ s
    next =
        ap (λ k. drop k mem) (omega arith)
        ∙ sym (drop-drop begin (length size + (4 + length b)) mem)
        ∙ ap (drop (length size + (4 + length b))) (em ∙ chunks-append b bs s)
        ∙ drop-append size (13 ∷ 10 ∷ (b ++ (13 ∷ 10 ∷ (chunks_text bs ++ s))))
            (length size + (4 + length b)) (4 + length b) refl
        ∙ drop-append (13 ∷ 10 ∷ b) (13 ∷ 10 ∷ (chunks_text bs ++ s)) (4 + length b) 2 (omega arith)
