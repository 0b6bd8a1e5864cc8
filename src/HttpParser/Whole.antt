-- ===== src/HttpParser/Whole.antt =====
-- `CHttpParser::Decode` on a whole request with a body of the announced length.
use ape_cpp_server.Base.{
  ltb, if◌then◌else◌, lt→ltb, le→not_ltb, length, take, drop, All, length-append, take-append_left,
  drop-append_left, codes, ℤ, pos, ℕ, suc, ◌+◌, ◌*◌, ◌≤◌, ◌<◌, ◌≡◌, refl, ap, ◌∙◌, Bool, true,
  false, ◌&&◌, Option, List, [], ◌∷◌, ◌++◌, append_assoc, arith,
}
use ape_cpp_server.HttpMessage.{HttpVersion, HttpMessage, new_http_message, add_header, crlf}
use ape_cpp_server.HttpParser.{
  placed, Reading, new_reading, trim, same_nocase, decode_content, parse_header, header_lines,
  decode_head, decode_headers, http_decode,
}
use ape_cpp_server.HttpParser.Cookie.{body-decode_cookie}
use ape_cpp_server.HttpParser.Head.{Header, IsHeader, head_text, head_end, length-head, strstr-head}
use ape_cpp_server.HttpParser.Lines.{read_header, read_headers, header_lines_lem}
use ape_cpp_server.CText.{strstr}
use ape_cpp_server.HttpParser.Request.{
  Method, request_line, first_message, IsUrl, length-method, length-line, decode-request_line,
}

-- Two lines take more bytes than there are lines.
pub headers-le-text : (hs : List Header) → length hs * 3 ≤ length (head_text hs)
headers-le-text [] = omega arith
headers-le-text (h ∷ hs) =
    omega (arith, headers-le-text hs, length-head h hs, length-append h.key (b':' ∷ h.value))

if-body :
    (z : List ℕ) (b : Bool) (x y : Reading)
    → x.msg.body ≡ z
    → y.msg.body ≡ z
    → (if b then x else y).msg.body ≡ z
if-body z true x y p q = p
if-body z false x y p q = q

-- the body that `Decode` takes
taken_body :
    (body rest old s : List ℕ)
    → old ≡ []
    → s ≡ body ++ rest
    → (if ltb 0 (length body) then take (length body) s else old) ≡ body
taken_body [] rest old s e es = e
taken_body (c ∷ body) rest old s e es =
    rw (lt→ltb 0 (suc (length body)) (omega arith), es) (take-append_left (c ∷ body) rest)

module _ (parse_gmt : List ℕ → Option ℤ) where
  body-parse_header :
      (key value : List ℕ) (r : Reading)
      → (parse_header parse_gmt key value r).msg.body ≡ r.msg.body
  unfolding parse_header
  body-parse_header key value r =
      let z = r.msg.body in
      if-body z (same_nocase (codes "connection") key) _ _
        (if-body z (same_nocase (codes "close") value) _ _ refl
          (if-body z (same_nocase (codes "keep-alive") value) _ _ refl refl))
        (if-body z (same_nocase (codes "x-forwarded-for") key) _ _ refl (
          if-body z (same_nocase (codes "content-length") key) _ _ refl (
            if-body z
              (same_nocase (codes "transfer-encoding") key && same_nocase (codes "chunked") value) _
              _ refl
              (if-body z (same_nocase (codes "set-cookie") key) _ _
                (body-decode_cookie parse_gmt value r.msg) refl))))

  pub body-read_headers :
      (hs : List Header) (r : Reading) → (read_headers parse_gmt hs r).msg.body ≡ r.msg.body
  unfolding add_header
  body-read_headers [] r = refl
  body-read_headers (h ∷ hs) r =
      body-read_headers hs (read_header parse_gmt h r)
      ∙ body-parse_header (trim true h.key) (trim false h.value) _

  -- The head behind the first line, which takes `from` bytes.
  pub decode_headers_lem :
      (h : Header) (hs : List Header) (len from : ℕ) (mem rest : List ℕ) (m : HttpMessage)
      → All IsHeader (h ∷ hs)
      → drop from mem ≡ head_text (h ∷ hs) ++ (crlf ++ rest)
      → from + length (head_text (h ∷ hs)) ≤ len
      → decode_headers parse_gmt len mem from m
        ≡ decode_content len mem
            (from + length (head_text (h ∷ hs)) + 2)
            (read_headers parse_gmt (h ∷ hs) (new_reading m))
  unfolding decode_headers decode_head
  decode_headers_lem h hs len from mem rest m v em hl =
      rw
        (
          decode_headers,
          ap (strstr (crlf ++ crlf)) em ∙ strstr-head h hs rest v,
          decode_head,
          le→not_ltb len (from + head_end (h ∷ hs)) (omega arith),
          ap
                (λ l.
                  header_lines parse_gmt (suc (head_end (h ∷ hs))) l (head_end (h ∷ hs))
                    (new_reading m))
                em
              ∙ header_lines_lem parse_gmt (h ∷ hs) (suc (head_end (h ∷ hs))) (head_end (h ∷ hs))
                  rest (new_reading m) v enough refl,
        )
        (ap (λ k. decode_content len mem k (read_headers parse_gmt (h ∷ hs) (new_reading m)))
          end_eq)
    where
      end_eq : from + head_end (h ∷ hs) + 4 ≡ from + length (head_text (h ∷ hs)) + 2
      end_eq = omega (arith, length-head h hs)

      enough : length (h ∷ hs) < suc (head_end (h ∷ hs))
      enough =
          omega (arith, headers-le-text hs, length-head h hs, length-append h.key (b':' ∷ h.value))

-- What a length takes behind a head of `from` bytes.
content_lem :
    (len from : ℕ) (mem body rest : List ℕ) (r : Reading)
    → r.ischunked ≡ false
    → r.contentlen ≡ pos (length body)
    → r.msg.body ≡ []
    → drop from mem ≡ body ++ rest
    → from + length body ≤ len
    → decode_content len mem from r
      ≡ placed (pos (from + length body)) (record r.msg { body = body })
unfolding decode_content
content_lem len from mem body rest r hc hn hb em hl =
    rw (decode_content, hc, hn, le→not_ltb len (from + length body) hl)
      (ap (λ l. placed (pos (from + length body)) (record r.msg { body = l }))
        (taken_body body rest r.msg.body (drop from mem) hb em))

-- a request up to the end of its head
abbrev pub head_bytes_of : Method → List ℕ → HttpVersion → List Header → List ℕ
head_bytes_of w url v hs = request_line w url v ++ (head_text hs ++ crlf)

-- what the head of a request leaves of the parser
abbrev pub reading_of : (List ℕ → Option ℤ) → Method → List ℕ → HttpVersion → List Header → Reading
reading_of parse_gmt w url v hs = read_headers parse_gmt hs (new_reading (first_message w url v))

module _ (parse_gmt : List ℕ → Option ℤ) (w : Method) (url : List ℕ) (v : HttpVersion) (h : Header)
    (hs : List Header) where
  length-head_bytes :
      length (head_bytes_of w url v (h ∷ hs))
      ≡ length (request_line w url v) + length (head_text (h ∷ hs)) + 2
  length-head_bytes = omega (
    arith,
    length-append (request_line w url v) (head_text (h ∷ hs) ++ crlf),
    length-append (head_text (h ∷ hs)) crlf,
  )

  -- A request up to the end of its head.
  pub decode-head_bytes :
      (rest : List ℕ) (len : ℕ)
      → IsUrl url
      → All IsHeader (h ∷ hs)
      → length (head_bytes_of w url v (h ∷ hs)) ≤ len
      → http_decode parse_gmt len (head_bytes_of w url v (h ∷ hs) ++ rest) new_http_message
        ≡ decode_content len
            (head_bytes_of w url v (h ∷ hs) ++ rest)
            (length (head_bytes_of w url v (h ∷ hs)))
            (reading_of parse_gmt w url v (h ∷ hs))
  decode-head_bytes rest len u a hl =
      ap (λ l. http_decode parse_gmt len l new_http_message) shape
      ∙ decode-request_line parse_gmt w url v u len s
          (omega (
            arith,
            length-head_bytes,
            length-line parse_gmt w url v u,
            length-head h hs,
            length-method w,
          ))
          (omega (arith, length-head_bytes))
      ∙ decode_headers_lem parse_gmt h hs len from (request_line w url v ++ s) rest
          (first_message w url v) a (drop-append_left (request_line w url v) s)
          (omega (arith, length-head_bytes))
      ∙ cc (shape, length-head_bytes)
    where
      from : ℕ
      from = length (request_line w url v)

      s : List ℕ
      s = head_text (h ∷ hs) ++ (crlf ++ rest)

      shape : head_bytes_of w url v (h ∷ hs) ++ rest ≡ request_line w url v ++ s
      shape =
          append_assoc (request_line w url v) (head_text (h ∷ hs) ++ crlf) rest
          ∙ ap (◌++◌ (request_line w url v)) (append_assoc (head_text (h ∷ hs)) crlf rest)

  -- A request with a url without spaces, at least one header line and a body of the length that its
  -- lines announce, not in chunks, is decoded with any memory behind it, of which any part may be
  -- data: the place is behind the body, and the message has the method, the url, the version, what
  -- each line in turn sets, and the body.
  pub decode-request :
      (body rest : List ℕ) (len : ℕ)
      → IsUrl url
      → All IsHeader (h ∷ hs)
      → length (head_bytes_of w url v (h ∷ hs)) + length body ≤ len
      → (reading_of parse_gmt w url v (h ∷ hs)).ischunked ≡ false
      → (reading_of parse_gmt w url v (h ∷ hs)).contentlen ≡ pos (length body)
      → http_decode parse_gmt len
          (head_bytes_of w url v (h ∷ hs) ++ (body ++ rest))
          new_http_message
        ≡ placed
            (pos (length (head_bytes_of w url v (h ∷ hs)) + length body))
            (record (reading_of parse_gmt w url v (h ∷ hs)).msg { body = body })
  decode-request body rest len u a hl hc hn =
      decode-head_bytes (body ++ rest) len u a (omega arith)
      ∙ content_lem len (length (head_bytes_of w url v (h ∷ hs)))
          (head_bytes_of w url v (h ∷ hs) ++ (body ++ rest)) body rest
          (reading_of parse_gmt w url v (h ∷ hs)) hc hn
          (body-read_headers parse_gmt (h ∷ hs) (new_reading (first_message w url v)))
          (drop-append_left (head_bytes_of w url v (h ∷ hs)) (body ++ rest)) hl
