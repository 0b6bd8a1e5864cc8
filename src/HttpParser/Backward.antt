-- ===== src/HttpParser/Backward.antt =====
-- `CHttpParser` as the parser of a connection, and what `HandleRead` makes of a negative length.
use ape_cpp_server.Base.{
  length, All, length-append, ℤ, pos, negsuc, ℕ, suc, ◌-◌, ◌≤◌, ◌<◌, ◌≡◌, ap, ◌∙◌, false, Option,
  none, some, List, [], ◌∷◌, ◌++◌, append_assoc, arith,
}
use ape_cpp_server.HttpMessage.{HttpMessage, HttpVersion, new_http_message, crlf}
use ape_cpp_server.Buffer.{Buffer, write, room}
use ape_cpp_server.Connection.{
  max_packet_size, Parsed, crash, null, place, before, Connection, crashes, deal, handle_read,
}
use ape_cpp_server.Connection.Reassembly.{IsReading}
use ape_cpp_server.Connection.Backward.{filled, handle_read-before}
use ape_cpp_server.HttpParser.{HttpDecoded, broken, refused, placed, minus, http_decode}
use ape_cpp_server.HttpParser.Head.{Header, IsHeader, head_text}
use ape_cpp_server.HttpParser.Request.{Method, request_line, IsUrl}
use ape_cpp_server.HttpParser.Whole.{head_bytes_of, reading_of}
use ape_cpp_server.HttpParser.Broken.{decode_back}

pub http_to_place : HttpDecoded → Parsed HttpMessage
http_to_place broken = crash
http_to_place refused = null
http_to_place (placed (pos n) m) = place n m
http_to_place (placed (negsuc n) m) = before n m

-- `CreateMessage` and `Decode`, as `HandleRead` calls them
pub http_parse : (List ℕ → Option ℤ) → ℕ → List ℕ → Parsed HttpMessage
unfolding http_to_place
http_parse parse_gmt len mem = http_to_place (http_decode parse_gmt len mem new_http_message)

minus-negsuc : (a n : ℕ) → a ≤ n → minus a (suc n) ≡ negsuc (n - a)
minus-negsuc a n h = ground (arith, h)

-- A connection that waits with nothing in its buffer reads at once a whole head, and any bytes behind
-- it, which fit. The head is of a request with a url without spaces, its header lines have no NUL and
-- no carriage return, and in their names no colon, and they announce no chunks, but a length that is
-- negative by more than the head's own length. Then the place that `Decode` returns is before the
-- buffer, and the next turn of the loop reads there, so `HandleRead` does not return.
pub handle_read-negative :
    (parse_gmt : List ℕ → Option ℤ) (fresh : ℕ → List ℕ) (w : Method) (url : List ℕ)
    (v : HttpVersion) (h : Header) (hs : List Header) (rest : List ℕ) (n : ℕ)
    (c : Connection HttpMessage)
    → IsUrl url
    → All IsHeader (h ∷ hs)
    → (reading_of parse_gmt w url v (h ∷ hs)).ischunked ≡ false
    → (reading_of parse_gmt w url v (h ∷ hs)).contentlen ≡ negsuc n
    → length (head_bytes_of w url v (h ∷ hs)) ≤ n
    → IsReading [] c
    → length (head_bytes_of w url v (h ∷ hs) ++ rest) < room c.buffer
    → length (head_bytes_of w url v (h ∷ hs) ++ rest) ≤ max_packet_size
    → let bytes = head_bytes_of w url v (h ∷ hs) ++ rest in
      (b : Buffer) × (write bytes c.buffer ≡ some b)
      × (deal (http_parse parse_gmt) b.loc 0 (filled b c) ≡ crashes)
      × (handle_read (http_parse parse_gmt) fresh (some bytes) c ≡ none)
unfolding http_parse http_to_place
handle_read-negative parse_gmt fresh w url v h hs rest n c u a hc hn hl r hb hm =
    handle_read-before (http_parse parse_gmt) fresh (n - length head)
      (reading_of parse_gmt w url v (h ∷ hs)).msg (head ++ rest) c r nonempty hb hm back
  where
    head : List ℕ
    head = head_bytes_of w url v (h ∷ hs)

    nonempty : 0 < length (head ++ rest)
    nonempty = omega (
      arith,
      length-append head rest,
      length-append (request_line w url v) (head_text (h ∷ hs) ++ crlf),
      length-append (head_text (h ∷ hs)) crlf,
    )

    back :
        (junk : List ℕ)
        → http_parse parse_gmt (length (head ++ rest)) ((head ++ rest) ++ junk)
          ≡ before (n - length head) (reading_of parse_gmt w url v (h ∷ hs)).msg
    back junk =
        ap (http_parse parse_gmt (length (head ++ rest))) (append_assoc head rest junk)
        ∙ ap http_to_place (
            decode_back parse_gmt w url v h hs (rest ++ junk) (length (head ++ rest)) n u a
              (omega (arith, length-append head rest)) hc hn
            ∙ ap (λ z. placed z (reading_of parse_gmt w url v (h ∷ hs)).msg)
                (minus-negsuc (length head) n hl))
