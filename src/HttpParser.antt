-- ===== src/HttpParser.antt =====
-- frame/protocol/httpparser.cc: `CHttpParser::Decode` on memory from `buf` on, of which `len` bytes
-- are the data. Places are counted from `buf`; a read outside of the memory is `broken`, but for
-- `atoi` and `sscanf`, to which the end of the memory is the end of the text. What `strptime` and
-- `mktime` make of a date is the parameter `parse_gmt`.
pub mod Cookie
pub mod Head
pub mod Lines
pub mod Request
pub mod Whole
pub mod Plain
pub mod Broken
pub mod Backward
pub mod Response
pub mod Chunks
pub mod Chunked
pub mod Answer
mod Tests
use ape_cpp_server.Base.{
  ltb, leb, ◌==◌, if◌then◌else◌, ◌>>=◌, length, get_or, take, drop, codes, lower, starts_nocase, ℤ,
  pos, negsuc, ℕ, zero, suc, ◌+◌, ◌-◌, Bool, true, false, ◌&&◌, Option, none, some, List, [], ◌∷◌,
  ◌++◌, map,
}
use ape_cpp_server.CText.{Found, outside, missing, found, strchr, strstr, c_text, atoi, scan_hex}
use ape_cpp_server.Message.{set_reply}
use ape_cpp_server.HttpMessage.{http_1_0, http_1_1, HttpMessage, add_header, crlf}
use ape_cpp_server.HttpParser.Cookie.{decode_cookie}
use mathlib.Core.List.{reverse}

-- What `Decode` returns: NULL, or a place, which a negative length may put before `buf`; or it reads
-- outside of the memory.
pub data HttpDecoded : Type 0 where
  broken refused : HttpDecoded
  placed : ℤ → HttpMessage → HttpDecoded

-- The parser's fields while it reads a head, with the message.
pub record Reading : Type 0 where
  pub contentlen : ℤ
  pub ischunked : Bool
  pub msg : HttpMessage

abbrev pub new_reading : HttpMessage → Reading
new_reading m = record { contentlen = pos 0; ischunked = false; msg = m }

-- The loop over the spaces at the front, which leaves one character.
unfoldable pub trim_front : List ℕ → List ℕ
trim_front [] = []
trim_front (c ∷ []) = c ∷ []
trim_front (c ∷ d ∷ s) = let rest = trim_front (d ∷ s) in if c == b' ' then rest else c ∷ d ∷ s

-- `trim`
unfoldable pub trim : Bool → List ℕ → List ℕ
unfolding trim_front
trim tolowercase s =
    let t = reverse (trim_front (reverse (trim_front s))) in if tolowercase then map lower t else t

-- `n - k`
abbrev pub minus : ℕ → ℕ → ℤ
minus n k = if leb k n then pos (n - k) else negsuc (k - n - 1)

-- `s.length () == length w && 0 == strncasecmp (s.c_str (), w, length w)`
abbrev pub same_nocase : List ℕ → List ℕ → Bool
same_nocase w s = length s == length w && starts_nocase w s

-- `value.substr (0, value.find (','))`
pub before_comma : List ℕ → List ℕ
before_comma [] = []
before_comma (c ∷ s) = if c == b',' then [] else c ∷ before_comma s

-- `none` where the version is neither 1.1 nor 1.0
pub version_at : List ℕ → HttpMessage → Option HttpMessage
version_at s m =
    if starts_nocase (codes "1.1") s
    then some (record m { httpversion = http_1_1; keepalive = true })
    else if starts_nocase (codes "1.0") s
    then some (record m { httpversion = http_1_0; keepalive = false })
    else none

-- The length of the method at the front, or `HTTP/`.
pub method_at : List ℕ → Option (ℕ × Bool)
method_at s =
    if starts_nocase (codes "GET") s
    then some (3, false)
    else if starts_nocase (codes "POST") s
    then some (4, false)
    else if starts_nocase (codes "HEAD") s
    then some (4, false)
    else if starts_nocase (codes "TRACE") s
    then some (5, false)
    else if starts_nocase (codes "PUT") s
    then some (3, false)
    else if starts_nocase (codes "DELETE") s
    then some (6, false)
    else if starts_nocase (codes "OPTIONS") s
    then some (7, false)
    else if starts_nocase (codes "CONNECT") s
    then some (7, false)
    else if starts_nocase (codes "HTTP/") s
    then some (5, true)
    else none

-- One chunk of `n` bytes, with `begin` behind the end of the line of its size; the rest of the
-- loop is `more`.
pub after_size : ℕ → List ℕ → ℕ → ℕ → HttpMessage → (ℕ → HttpMessage → HttpDecoded) → HttpDecoded
after_size len mem n begin m more =
    if n == 0
    then placed (pos (begin + 2)) m
    else if ltb len (begin + n)
    then placed (pos 0) m
    else more (begin + n + 2) (record m { body = m.body ++ take n (drop begin mem) })

-- The size of a chunk, and the chunk. Behind a size with no end of line the code goes on from NULL.
pub chunk_at : ℕ → List ℕ → ℕ → HttpMessage → (ℕ → HttpMessage → HttpDecoded) → HttpDecoded
unfolding after_size scan_hex strstr
chunk_at len mem begin m more = elim (scan_hex (drop begin mem)) [
  | none ↦ refused
  | some (negsuc _) ↦ refused
  | some (pos n) ↦ elim (strstr crlf (drop begin mem)) [
    | found k ↦ after_size len mem n (begin + k + 2) m more
    | _ ↦ broken
  ]
]

-- The loop over the chunks, each turn of which takes two bytes at least.
pub chunks : ℕ → ℕ → List ℕ → ℕ → HttpMessage → HttpDecoded
unfolding chunk_at
chunks zero len mem begin m = placed (pos (begin + 2)) m
chunks (suc fuel) len mem begin m =
    let next = chunk_at len mem begin m (chunks fuel len mem) in
    if ltb len begin then placed (pos (begin + 2)) m else next

-- What follows the head.
pub decode_content : ℕ → List ℕ → ℕ → Reading → HttpDecoded
unfolding chunks
decode_content len mem begin r =
    if r.ischunked then chunks (suc len) len mem begin r.msg else elim r.contentlen [
      | pos n ↦
          if ltb len (begin + n)
          then placed (pos 0) r.msg
          else placed (pos (begin + n))
              (record r.msg { body = if ltb 0 n then take n (drop begin mem) else r.msg.body })
      | negsuc n ↦
          if ltb (len + suc n) begin
          then placed (pos 0) r.msg
          else placed (minus begin (suc n)) r.msg
    ]

module _ (parse_gmt : List ℕ → Option ℤ) where
  -- `ParseHeader`
  unfoldable pub parse_header : List ℕ → List ℕ → Reading → Reading
  unfolding before_comma atoi decode_cookie
  parse_header key value r =
      if same_nocase (codes "connection") key
      then (if same_nocase (codes "close") value
          then record r { msg = record r.msg { keepalive = false } }
          else if same_nocase (codes "keep-alive") value
          then record r { msg = record r.msg { keepalive = true } }
          else r)
      else if same_nocase (codes "x-forwarded-for") key
      then record r { msg = record r.msg { xforwordip = before_comma value } }
      else if same_nocase (codes "content-length") key
      then record r { contentlen = atoi (c_text value) }
      else if same_nocase (codes "transfer-encoding") key && same_nocase (codes "chunked") value
      then record r { ischunked = true }
      else if same_nocase (codes "set-cookie") key
      then record r { msg = decode_cookie parse_gmt value r.msg }
      else r

  -- One line of the head: the text from its place on, and its end.
  pub header_line : List ℕ → ℕ → Found → Reading → Option Reading
  unfolding trim parse_header add_header
  header_line s end outside r = none
  header_line s end missing r = some r
  header_line s end (found colon) r =
      if ltb colon end
      then (let key = trim true (take colon s) in
          let value = trim false (take (end - colon - 1) (drop (colon + 1) s)) in
          some (parse_header key value (record r { msg = add_header key value r.msg })))
      else some r

  -- The loop over the lines, on the text from `begin` on, `room` bytes before the end of the head.
  -- `none` is a read outside of the memory; each turn takes two bytes at least.
  pub header_lines : ℕ → List ℕ → ℕ → Reading → Option Reading
  unfolding header_line strstr strchr
  header_lines zero s room r = some r
  header_lines (suc n) s room r = elim (strstr crlf s) [
    | outside ↦ none
    | missing ↦ some r
    | found end ↦
        let next =
          header_line s end (strchr b':' s) r
          >>= (λ r'. header_lines n (drop (end + 2) s) (room - (end + 2)) r') in
        if ltb 0 room && leb end room then next else some r
  ]

  -- The head's lines from `begin` on, and its end `k` bytes behind that.
  pub decode_head : ℕ → List ℕ → ℕ → ℕ → HttpMessage → HttpDecoded
  unfolding header_lines decode_content
  decode_head len mem begin k m =
      if ltb len (begin + k)
      then placed (pos 0) m
      else elim (header_lines (suc k) (drop begin mem) k (new_reading m)) [
        | none ↦ broken
        | some r ↦ decode_content len mem (begin + k + 4) r
      ]

  -- What follows the first line.
  pub decode_headers : ℕ → List ℕ → ℕ → HttpMessage → HttpDecoded
  unfolding decode_head strstr
  decode_headers len mem begin m = elim (strstr (crlf ++ crlf) (drop begin mem)) [
    | outside ↦ broken
    | missing ↦ placed (pos 0) m
    | found k ↦ decode_head len mem begin k m
  ]

  -- A request, whose method has `n` letters.
  pub decode_request : ℕ → ℕ → List ℕ → HttpMessage → HttpDecoded
  unfolding version_at decode_headers strchr
  decode_request n len mem m = elim (strchr b' ' (drop (n + 1) mem)) [
    | outside ↦ broken
    | missing ↦ refused
    | found k ↦
        let end = n + 1 + k in
        let m' = record m { method = take n mem; url = take k (drop (n + 1) mem) } in
        if leb len (end + 9) then refused else elim (version_at (drop (end + 6) mem) m') [
          | none ↦ refused
          | some m'' ↦ decode_headers len mem (end + 11) m''
        ]
  ]

  -- The first line of a response: `begin` goes back to the second byte, and from there to the end
  -- of the line.
  pub response_line : ℕ → List ℕ → HttpMessage → HttpDecoded
  unfolding decode_headers strstr
  response_line len mem m = elim (strstr crlf (drop 1 mem)) [
    | outside ↦ broken
    | missing ↦ refused
    | found k ↦ if leb len (1 + k) then refused else decode_headers len mem (1 + k + 2) m
  ]

  pub decode_response : ℕ → List ℕ → HttpMessage → HttpDecoded
  unfolding version_at response_line atoi
  decode_response len mem m = elim (version_at (drop 5 mem) m) [
    | none ↦ refused
    | some m' ↦
        if get_or mem 8 0 == b' '
        then response_line len mem (record m' { net = set_reply (atoi (drop 9 mem)) m'.net })
        else refused
  ]

  -- `Decode`
  pub http_decode : ℕ → List ℕ → HttpMessage → HttpDecoded
  unfolding method_at decode_request decode_response
  http_decode len mem m = if ltb len 16 then placed (pos 0) m else elim (method_at mem) [
    | none ↦ refused
    | some (n, false) ↦ decode_request n len mem m
    | some (n, true) ↦ decode_response len mem m
  ]
