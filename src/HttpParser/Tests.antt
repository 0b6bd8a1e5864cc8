-- ===== src/HttpParser/Tests.antt =====
-- Runs of the parser of http messages, and its theorems at concrete inputs.
use ape_cpp_server.Base.{
  length, replicate, ap, zero, suc, some, true, false, codes, ℤ, pos, negsuc, hexadecimal, ℕ, ◌≡◌,
  refl, Option, none, List, [], ◌∷◌, ◌++◌, arith,
}
use ape_cpp_server.CText.{read_decimal, to_int, atoi}
use ape_cpp_server.HttpMessage.{http_1_1, HttpMessage, Cookie, new_http_message, crlf}
use ape_cpp_server.HttpParser.{
  HttpDecoded, broken, refused, placed, Reading, trim, parse_header, http_decode,
}
use ape_cpp_server.HttpParser.Cookie.{decode_cookie}
use ape_cpp_server.HttpParser.Head.{Header, head_text}
use ape_cpp_server.HttpParser.Request.{get, post}
use ape_cpp_server.HttpParser.Whole.{head_bytes_of, reading_of, decode-request}
use ape_cpp_server.HttpParser.Plain.{plain-All, plain_headers-IsHeader}
use ape_cpp_server.HttpParser.Broken.{decode_cut}
use ape_cpp_server.HttpParser.Backward.{http_parse, handle_read-negative}
use ape_cpp_server.Buffer.{Buffer, write, room}
use ape_cpp_server.Connection.{max_packet_size, Connection, crashes, deal, handle_read}
use ape_cpp_server.Connection.Backward.{filled}
use ape_cpp_server.Connection.Reassembly.{IsReading}
use ape_cpp_server.HttpParser.Chunked.{chunks_text}
use ape_cpp_server.HttpParser.Answer.{answer_head, answer_reading, decode-chunked}

-- dates are not read
abbrev no_time : List ℕ → Option ℤ
no_time _ = none

abbrev line : List ℕ → List ℕ
line s = s ++ crlf

-- the place, the method, the url, and the body
abbrev seen : HttpDecoded → ℤ × List ℕ × List ℕ × List ℕ
seen broken = (negsuc 0, [], [], [])
seen refused = (negsuc 1, [], [], [])
seen (placed n m) = (n, m.method, m.url, m.body)

abbrev post_bytes : List ℕ
post_bytes =
    line (codes "POST /a HTTP/1.1")
    ++ (line (codes "Content-Length: 3") ++ (line [] ++ codes "abcdef"))

post_read :
    seen (http_decode no_time (length post_bytes) (post_bytes ++ (0 ∷ [])) new_http_message)
    ≡ (pos 42, codes "POST", codes "/a", codes "abc")
unfolding http_decode
post_read = refl

abbrev chunked : List ℕ
chunked =
    line (codes "HTTP/1.1 200 OK")
    ++ (line (codes "Transfer-Encoding: chunked")
        ++ (line [] ++ (line (codes "3") ++ (line (codes "abc") ++ (line (codes "0") ++ line [])))))

chunked_read :
    seen (http_decode no_time (length chunked) (chunked ++ (0 ∷ [])) new_http_message)
    ≡ (pos 60, [], [], codes "abc")
unfolding http_decode
chunked_read = refl

abbrev cookie_of : List (List ℕ × Cookie) → List ℕ × List ℕ × List ℕ
cookie_of [] = ([], [], [])
cookie_of ((k, c) ∷ _) = (k, c.value, c.path)

cookie_read :
    cookie_of (decode_cookie no_time (codes "k=v1; path=/x") new_http_message).cookies
    ≡ (codes "k", codes "v1", codes "/x")
unfolding decode_cookie
cookie_read = refl

abbrev a_url : List ℕ
a_url = codes "/a"

abbrev length_line : List ℕ → Header
length_line n = record { key = codes "Content-Length"; value = b' ' ∷ n }

-- what a request whose one line gives its length leaves of the parser
abbrev length_read : List ℕ → Reading
length_read n = reading_of no_time post a_url http_1_1 (length_line n ∷ [])

decode-request_example :
    http_decode no_time 45
      (head_bytes_of post a_url http_1_1 (length_line (codes "3") ∷ []) ++ codes "abcdef")
      new_http_message
    ≡ placed (pos 42) (record (length_read (codes "3")).msg { body = codes "abc" })
unfolding parse_header trim atoi read_decimal to_int
decode-request_example =
    decode-request no_time post a_url http_1_1 (length_line (codes "3")) [] (codes "abc")
      (codes "def") 45 (plain-All 0 b' ' a_url refl)
      (plain_headers-IsHeader (length_line (codes "3") ∷ []) refl) (omega arith) refl refl

abbrev zeros : ℕ → List ℕ
zeros n = replicate n 0

length-zeros : (n : ℕ) → length (zeros n) ≡ n
length-zeros zero = refl
length-zeros (suc n) = ap suc (length-zeros n)

abbrev empty_buffer : Buffer
empty_buffer = record { base = zeros 10240; capacity = 10240; loc = 0 }

abbrev idle : Connection HttpMessage
idle = record {
  buffer = empty_buffer;
  writebuf = empty_buffer;
  close_after_write = false;
  writes = [];
  connected = true;
  has_session = true;
  is_dealing_read = false;
  socket_open = true;
  reading = none;
  read_log = [];
  peer_closes = 0;
}

idle-IsReading : IsReading [] idle
idle-IsReading = record {
  connected = refl;
  session = refl;
  valid = record { allocated = length-zeros 10240; filled = omega arith };
  held = refl;
  space = omega arith;
  bounded = omega arith;
  large = omega arith;
}

abbrev negative_bytes : List ℕ
negative_bytes = head_bytes_of post a_url http_1_1 (length_line (codes "-100") ∷ []) ++ codes "abcd"

handle_read-negative_example :
    (b : Buffer) × (write negative_bytes idle.buffer ≡ some b)
    × (deal (http_parse no_time) b.loc 0 (filled b idle) ≡ crashes)
    × (handle_read (http_parse no_time) zeros (some negative_bytes) idle ≡ none)
unfolding parse_header trim atoi read_decimal to_int room max_packet_size
handle_read-negative_example =
    handle_read-negative no_time zeros post a_url http_1_1 (length_line (codes "-100")) []
      (codes "abcd") 99 idle (plain-All 0 b' ' a_url refl)
      (plain_headers-IsHeader (length_line (codes "-100") ∷ []) refl) refl refl (omega arith)
      idle-IsReading (omega arith) (omega arith)

decode_cut_example :
    http_decode no_time 16 (codes "GET /abcdefghijk" ++ (0 ∷ [])) new_http_message ≡ refused
decode_cut_example =
    decode_cut no_time get (codes "/abcdefghijk") [] (plain-All 0 b' ' (codes "/abcdefghijk") refl)
      (omega arith)

abbrev chunked_header : Header
chunked_header = record { key = codes "Transfer-Encoding"; value = codes " chunked" }

abbrev two_chunks : List (List ℕ)
two_chunks = codes "abc" ∷ codes "de" ∷ []

decode-chunked_example :
    http_decode no_time 80
      (answer_head http_1_1 (codes "200 OK") (chunked_header ∷ [])
        ++ (chunks_text two_chunks ++ []))
      new_http_message
    ≡ placed
        (pos 67)
        (record (answer_reading no_time http_1_1
          (codes "200 OK")
          (head_text (chunked_header ∷ []) ++ (crlf ++ (chunks_text two_chunks ++ [])))
          (chunked_header ∷ [])).msg { body = codes "abcde" })
unfolding parse_header trim hexadecimal
decode-chunked_example =
    decode-chunked no_time http_1_1 (codes "200 OK") chunked_header [] two_chunks [] 80
      (plain-All 0 13 (codes "200 OK") refl) (plain_headers-IsHeader (chunked_header ∷ []) refl)
      ((omega arith, omega arith), ((omega arith, omega arith), tt)) (omega arith) refl
