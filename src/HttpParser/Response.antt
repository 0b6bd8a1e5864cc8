-- ===== src/HttpParser/Response.antt =====
-- `CHttpParser::Decode` on responses, up to the end of their heads.
use ape_cpp_server.Base.{
  leb, le→not_ltb, length, get_or, drop, length-append, codes, ℤ, ℕ, ◌+◌, ◌≤◌, ◌≡◌, refl, sym, ap,
  ◌∙◌, true, false, Option, some, List, ◌∷◌, ◌++◌, append_assoc, arith,
}
use ape_cpp_server.CText.{found, strstr, atoi}
use ape_cpp_server.Message.{new_message, set_reply}
use ape_cpp_server.HttpMessage.{
  HttpVersion, http_1_0, http_1_1, HttpMessage, new_http_message, version_text, crlf,
}
use ape_cpp_server.HttpParser.{
  version_at, method_at, decode_headers, response_line, decode_response, http_decode,
}
use ape_cpp_server.HttpParser.Head.{IsText, IsText-append, strstr-line}
use ape_cpp_server.HttpParser.Request.{is_1_1, length-version}

abbrev pub status_line : HttpVersion → List ℕ → List ℕ
status_line v reason = version_text v ++ (b' ' ∷ (reason ++ crlf))

-- what the first line says
abbrev pub first_reply : HttpVersion → ℤ → HttpMessage
first_reply v code = record new_http_message {
  net = set_reply code new_message;
  httpversion = v;
  keepalive = is_1_1 v;
}

method_at-reply : (v : HttpVersion) (s : List ℕ) → method_at (version_text v ++ s) ≡ some (5, true)
unfolding method_at
method_at-reply http_1_1 s = refl
method_at-reply http_1_0 s = refl

version_at-reply :
    (v : HttpVersion) (s : List ℕ) (m : HttpMessage)
    → version_at (drop 5 (version_text v ++ s)) m
      ≡ some (record m { httpversion = v; keepalive = is_1_1 v })
unfolding version_at
version_at-reply http_1_1 s m = refl
version_at-reply http_1_0 s m = refl

behind_version :
    (v : HttpVersion) (s : List ℕ)
    → (get_or (version_text v ++ (b' ' ∷ s)) 8 0 ≡ b' ')
      × (drop 9 (version_text v ++ (b' ' ∷ s)) ≡ s)
behind_version http_1_1 s = (refl, refl)
behind_version http_1_0 s = (refl, refl)

-- The end of the line, as it is searched from the second byte on.
status_end :
    (v : HttpVersion) (reason s : List ℕ)
    → IsText reason
    → strstr crlf (drop 1 (version_text v ++ (b' ' ∷ (reason ++ (13 ∷ 10 ∷ s)))))
      ≡ found (8 + length reason)
status_end http_1_1 reason s p =
    strstr-line (codes "TTP/1.1 " ++ reason) s
      (IsText-append (codes "TTP/1.1 ") reason (omega arith) p)
    ∙ ap found (omega arith)
status_end http_1_0 reason s p =
    strstr-line (codes "TTP/1.0 " ++ reason) s
      (IsText-append (codes "TTP/1.0 ") reason (omega arith) p)
    ∙ ap found (omega arith)

pub length-status_line :
    (v : HttpVersion) (reason : List ℕ) → length (status_line v reason) ≡ 11 + length reason
length-status_line v reason = omega (
  arith,
  length-append (version_text v) (b' ' ∷ (reason ++ crlf)),
  length-append reason crlf,
  length-version v,
)

module _ (parse_gmt : List ℕ → Option ℤ) (v : HttpVersion) (reason : List ℕ)
    (p : IsText reason) where
  pub decode-status_line :
      (len : ℕ) (s : List ℕ)
      → 16 ≤ len
      → length (status_line v reason) ≤ len
      → http_decode parse_gmt len (status_line v reason ++ s) new_http_message
        ≡ decode_headers parse_gmt len
            (status_line v reason ++ s)
            (length (status_line v reason))
            (first_reply v (atoi (reason ++ (13 ∷ 10 ∷ s))))
  unfolding http_decode decode_response response_line
  decode-status_line len s h16 hl =
      ap (λ l. http_decode parse_gmt len l new_http_message) shape
      ∙ rw
          (
            http_decode,
            le→not_ltb len 16 h16,
            method_at-reply v (b' ' ∷ after),
            decode_response,
            version_at-reply v (b' ' ∷ after) new_http_message,
            (behind_version v after).0,
          )
          (ap
            (λ t.
              response_line parse_gmt len (version_text v ++ (b' ' ∷ after))
                (first_reply v (atoi t)))
            (behind_version v after).1)
      ∙ ap (λ l. response_line parse_gmt len l (first_reply v (atoi after))) (sym shape)
      ∙ rw
          (
            response_line,
            ap (λ l. strstr crlf (drop 1 l)) shape ∙ status_end v reason s p,
            not_short,
          )
          (ap
            (λ k.
              decode_headers parse_gmt len (status_line v reason ++ s) k
                (first_reply v (atoi after)))
            (omega (arith, length-status_line v reason)))
    where
      after : List ℕ
      after = reason ++ (13 ∷ 10 ∷ s)

      shape : status_line v reason ++ s ≡ version_text v ++ (b' ' ∷ after)
      shape =
          append_assoc (version_text v) (b' ' ∷ (reason ++ crlf)) s
          ∙ ap (λ l. version_text v ++ (b' ' ∷ l)) (append_assoc reason crlf s)

      not_short : leb len (1 + (8 + length reason)) ≡ false
      not_short = ground (arith, length-status_line v reason)
