-- ===== src/HttpParser/Broken.antt =====
-- Requests that `CHttpParser::Decode` does not read as they are meant.
use ape_cpp_server.Base.{
  le→not_ltb, length, All, length-append, drop-append_left, drop-append, ℤ, pos, negsuc, ℕ, suc,
  ◌+◌, ◌≤◌, ◌≡◌, refl, ◌∙◌, false, Option, List, ◌∷◌, ◌++◌, arith,
}
use ape_cpp_server.CText.{strchr}
use ape_cpp_server.HttpMessage.{HttpVersion, new_http_message, crlf}
use ape_cpp_server.HttpParser.{
  refused, placed, minus, decode_content, decode_headers, decode_request, http_decode,
}
use ape_cpp_server.HttpParser.Head.{Header, IsHeader}
use ape_cpp_server.HttpParser.Request.{
  Method, method_text, request_line, first_message, IsUrl, method_at-text, length-method,
  strchr-url, length-line, decode-request_line,
}
use ape_cpp_server.HttpParser.Whole.{head_bytes_of, reading_of, decode-head_bytes}

-- A whole request without a header line, with a NUL behind it, is taken for an incomplete one.
decode-no_headers :
    (parse_gmt : List ℕ → Option ℤ) (w : Method) (url : List ℕ) (v : HttpVersion) (rest : List ℕ)
    → IsUrl url
    → http_decode parse_gmt
        (length (request_line w url v ++ crlf))
        (request_line w url v ++ (crlf ++ (0 ∷ rest)))
        new_http_message
      ≡ placed (pos 0) (first_message w url v)
unfolding decode_headers
decode-no_headers parse_gmt w url v rest u =
    decode-request_line parse_gmt w url v u (length line) (crlf ++ (0 ∷ rest))
      (omega (arith, size, length-line parse_gmt w url v u, length-method w)) (omega (arith, size))
    ∙ rw (decode_headers, drop-append_left (request_line w url v) (crlf ++ (0 ∷ rest))) refl
  where
    line : List ℕ
    line = request_line w url v ++ crlf

    size : length line ≡ length (request_line w url v) + 2
    size = length-append (request_line w url v) crlf

-- A first line that has arrived only up to the url or a part of it, 16 bytes or more with a NUL
-- behind, is refused and not waited for.
pub decode_cut :
    (parse_gmt : List ℕ → Option ℤ) (w : Method) (url rest : List ℕ)
    → IsUrl url
    → 16 ≤ length (method_text w ++ (b' ' ∷ url))
    → http_decode parse_gmt
        (length (method_text w ++ (b' ' ∷ url)))
        (method_text w ++ (b' ' ∷ (url ++ (0 ∷ rest))))
        new_http_message
      ≡ refused
unfolding http_decode decode_request strchr
decode_cut parse_gmt w url rest u h =
    rw
      (
        http_decode,
        le→not_ltb (length (method_text w ++ (b' ' ∷ url))) 16 h,
        method_at-text w (b' ' ∷ (url ++ (0 ∷ rest))),
        decode_request,
        drop-append (method_text w) (b' ' ∷ (url ++ (0 ∷ rest))) (length (method_text w) + 1) 1
            refl,
        strchr-url url (0 ∷ rest) u,
      )
      refl

-- A request whose lines announce a negative length is placed before the end of its head, by that
-- length.
pub decode_back :
    (parse_gmt : List ℕ → Option ℤ) (w : Method) (url : List ℕ) (v : HttpVersion) (h : Header)
    (hs : List Header) (rest : List ℕ) (len n : ℕ)
    → IsUrl url
    → All IsHeader (h ∷ hs)
    → length (head_bytes_of w url v (h ∷ hs)) ≤ len
    → (reading_of parse_gmt w url v (h ∷ hs)).ischunked ≡ false
    → (reading_of parse_gmt w url v (h ∷ hs)).contentlen ≡ negsuc n
    → http_decode parse_gmt len (head_bytes_of w url v (h ∷ hs) ++ rest) new_http_message
      ≡ placed
          (minus (length (head_bytes_of w url v (h ∷ hs))) (suc n))
          (reading_of parse_gmt w url v (h ∷ hs)).msg
unfolding decode_content
decode_back parse_gmt w url v h hs rest len n u a hl hc hn =
    decode-head_bytes parse_gmt w url v h hs rest len u a hl
    ∙ rw
        (
          decode_content,
          hc,
          hn,
          le→not_ltb (len + suc n) (length (head_bytes_of w url v (h ∷ hs))) (omega (arith, hl)),
        )
        refl
