-- ===== src/HttpRoundtrip/Lines.antt =====
-- The head of a response that `CHttpParser::Encode` makes, as lines.
use ape_cpp_server.Base.{
  if◌then◌else◌, length, joined, joined-append, codes, hexadecimal, ℕ, ◌≡◌, refl, sym, ap, ◌∙◌,
  List, [], ◌∷◌, ◌++◌, append_assoc,
}
use ape_cpp_server.CText.{c_text}
use ape_cpp_server.UrlCode.{encode}
use ape_cpp_server.HttpMessage.{http_1_1, Cookie, HttpMessage, crlf}
use ape_cpp_server.HttpParser.Head.{Header, line_of, head_text}
use ape_cpp_server.HttpEncoder.{
  get_status, default_header, defaults_left, header_pieces, domain_pieces, expires_pieces,
  set_cookie_lines, response_body, response_pieces,
}

-- the line of a header
abbrev pub header_of : List ℕ × List ℕ → Header
header_of (k, v) = record { key = c_text k; value = b' ' ∷ c_text v }

abbrev pub headers_of : List (List ℕ × List ℕ) → List Header
headers_of [] = []
headers_of (h ∷ l) = header_of h ∷ headers_of l

pub head_text-append : (l k : List Header) → head_text (l ++ k) ≡ head_text l ++ head_text k
head_text-append [] k = refl
head_text-append (h ∷ l) k =
    ap (λ s. line_of h ++ (13 ∷ 10 ∷ s)) (head_text-append l k)
    ∙ sym (append_assoc (line_of h) (13 ∷ 10 ∷ head_text l) (head_text k))

pub header_pieces-text :
    (l : List (List ℕ × List ℕ)) → joined (header_pieces l) ≡ head_text (headers_of l)
unfolding header_pieces
header_pieces-text [] = refl
header_pieces-text ((k, v) ∷ l) =
    ap (λ s. c_text k ++ (58 ∷ 32 ∷ (c_text v ++ (13 ∷ 10 ∷ s)))) (header_pieces-text l)
    ∙ sym (append_assoc (c_text k) (58 ∷ 32 ∷ c_text v) (13 ∷ 10 ∷ head_text (headers_of l)))

abbrev pub chunked_line : Header
chunked_line = record { key = codes "Transfer-Encoding"; value = codes " chunked" }

module _ (http_date : ℕ → List ℕ) (now : ℕ) where
  -- what follows the name in the line of a cookie
  abbrev pub cookie_text : List ℕ → Cookie → List ℕ
  unfolding encode
  cookie_text k c =
      c_text k
      ++ (b'='
          ∷ (encode c.value
              ++ (codes "; path="
                  ++ (c_text c.path
                      ++ (joined (domain_pieces c.domain)
                          ++ joined (expires_pieces http_date now c.expires))))))

  abbrev pub cookie_header : List ℕ × Cookie → Header
  unfolding encode
  cookie_header (k, c) = record { key = codes "Set-Cookie"; value = b' ' ∷ cookie_text k c }

  abbrev pub cookie_headers : List (List ℕ × Cookie) → List Header
  unfolding encode
  cookie_headers [] = []
  cookie_headers (c ∷ l) = cookie_header c ∷ cookie_headers l

  pub set_cookie-text :
      (l : List (List ℕ × Cookie))
      → joined (set_cookie_lines http_date now l) ≡ head_text (cookie_headers l)
  unfolding set_cookie_lines
  set_cookie-text [] = refl
  set_cookie-text ((k, c) ∷ l) = simp (set_cookie-text l, joined-append, append_assoc)

  -- The lines of a response of version 1.1 behind the first one; the last one is apart.
  abbrev pub response_lines : HttpMessage → List Header
  unfolding encode defaults_left
  response_lines m =
      headers_of m.headers
      ++ (cookie_headers m.cookies
          ++ (headers_of (defaults_left m.headers default_header)
              ++ (record { key = codes "Date"; value = b' ' ∷ http_date now }
                  ∷ record {
                    key = codes "Connection";
                    value = b' ' ∷ (if m.keepalive then codes "Keep-Alive" else codes "Close");
                  }
                  ∷ [])))

  pub response-text :
      (m : HttpMessage)
      → m.httpversion ≡ http_1_1
      → joined (response_pieces http_date now m)
        ≡ codes "HTTP/1.1 "
          ++ (get_status m.net.code
              ++ (crlf
                  ++ (head_text (response_lines m)
                      ++ (line_of chunked_line
                          ++ (crlf
                              ++ (crlf
                                  ++ (hexadecimal (length m.body)
                                      ++ (crlf
                                          ++ (c_text m.body
                                              ++ (crlf ++ (codes "0" ++ (crlf ++ crlf))))))))))))
  unfolding response_pieces response_body
  response-text m e =
      simp (e, joined-append, append_assoc, header_pieces-text, set_cookie-text, head_text-append)
