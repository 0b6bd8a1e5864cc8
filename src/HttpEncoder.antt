-- ===== src/HttpEncoder.antt =====
-- frame/protocol/httpparser.cc: `CHttpParser::Encode`. Each call of `append` is a piece of the output,
-- and a C string is its bytes before NUL. `http_date` is what `gmtime_r` and `strftime` make of a
-- time, and `now` what `time` returns.
pub mod Appended
mod Tests
use ape_cpp_server.Base.{
  ltb, ◌==◌, if◌then◌else◌, ◌>>=◌, length, take, drop, codes, starts_nocase, ℤ, pos, negsuc,
  decimal, hexadecimal, ℕ, ◌/◌, Bool, true, Option, none, some, List, [], ◌∷◌, ◌++◌,
}
use ape_cpp_server.CText.{Found, found, strchr, c_text}
use ape_cpp_server.Buffer.{Buffer, append}
use ape_cpp_server.Message.{Direction, request, new_message, set_reply}
use ape_cpp_server.HttpMessage.{
  HttpVersion, http_1_0, http_1_1, Cookie, HttpMessage, new_http_message, same_bytes, version_text,
  crlf, decimal_int,
}
use ape_cpp_server.UrlCode.{encode}

abbrev pub status_table : List (ℕ × List ℕ)
status_table =
    (200, codes "200 OK")
    ∷ (201, codes "201 Created")
    ∷ (202, codes "202 Accepted")
    ∷ (204, codes "204 No Content")
    ∷ (300, codes "300 Multiple Choices")
    ∷ (301, codes "301 Moved Permanently")
    ∷ (302, codes "302 Moved Temporarily")
    ∷ (304, codes "304 Not Modified")
    ∷ (400, codes "400 Bad Request")
    ∷ (401, codes "401 Unauthorized")
    ∷ (403, codes "403 Forbidden")
    ∷ (404, codes "404 Not Found")
    ∷ (405, codes "405 Method Not Allowed")
    ∷ (500, codes "500 Internal Server Error")
    ∷ (501, codes "501 Not Implemented")
    ∷ (502, codes "502 Bad Gateway")
    ∷ (503, codes "503 Service Unavailable")
    ∷ []

unfoldable pub find_status : ℕ → List (ℕ × List ℕ) → Option (List ℕ)
find_status code [] = none
find_status code ((n, text) ∷ table) =
    let rest = find_status code table in if code == n then some text else rest

-- `snprintf` with room for six characters
abbrev pub unknown_status : ℤ → List ℕ
unknown_status code = take 6 (decimal_int code ++ codes " Unknow Code")

-- `GetStatus`
unfoldable pub get_status : ℤ → List ℕ
unfolding find_status
get_status (negsuc n) = unknown_status (negsuc n)
get_status (pos n) = elim (find_status n status_table) [
  | none ↦ unknown_status (pos n)
  | some text ↦ text
]

-- `sm_default_header_` and `sm_default_request_header_`, in the order of their keys
abbrev pub default_header : List (List ℕ × List ℕ)
default_header =
    (codes "Cache-Control", codes "no-cache")
    ∷ (codes "Content-Type", codes "text/html; charset=utf-8")
    ∷ (codes "Server", codes "Ape Http Server 1.0")
    ∷ []

abbrev pub default_request_header : List (List ℕ × List ℕ)
default_request_header = (codes "User-Agent", codes "ApeHttpClient") ∷ []

unfoldable pub without_key : List ℕ → List (List ℕ × List ℕ) → List (List ℕ × List ℕ)
without_key key [] = []
without_key key ((k, v) ∷ l) =
    let rest = without_key key l in if same_bytes key k then rest else (k, v) ∷ rest

-- The defaults that no header of the message replaces.
unfoldable pub defaults_left :
    List (List ℕ × List ℕ) → List (List ℕ × List ℕ) → List (List ℕ × List ℕ)
unfolding without_key
defaults_left [] defaults = defaults
defaults_left ((k, v) ∷ headers) defaults = defaults_left headers (without_key k defaults)

unfoldable pub header_pieces : List (List ℕ × List ℕ) → List (List ℕ)
header_pieces [] = []
header_pieces ((k, v) ∷ l) = c_text k ∷ codes ": " ∷ c_text v ∷ crlf ∷ header_pieces l

abbrev pub connection_pieces : Bool → List (List ℕ)
connection_pieces keepalive =
    codes "Connection: " ∷ (if keepalive then codes "Keep-Alive" else codes "Close") ∷ crlf ∷ []

-- The host in a url of "http://", and the path behind it.
pub split_url : List ℕ → List ℕ × List ℕ
unfolding strchr
split_url url =
    if starts_nocase (codes "http://") (c_text url)
    then elim (strchr b'/' (drop 7 (c_text url) ++ (0 ∷ []))) [
      | found k ↦ (take k (drop 7 (c_text url)), drop k (drop 7 (c_text url)))
      | _ ↦ (drop 7 url, [])
    ]
    else ([], c_text url)

abbrev pub path_piece : List ℕ → List ℕ
path_piece [] = codes "/"
path_piece (c ∷ s) = c ∷ s

abbrev pub host_pieces : List ℕ → List (List ℕ)
host_pieces [] = []
host_pieces (c ∷ s) = codes "Host: " ∷ (c ∷ s) ∷ crlf ∷ []

abbrev pub method_piece : List ℕ → List ℕ
method_piece [] = codes "GET"
method_piece (c ∷ s) = c_text (c ∷ s)

pub cookie_pairs : List (List ℕ × Cookie) → List (List ℕ)
unfolding encode
cookie_pairs [] = []
cookie_pairs ((k, c) ∷ l) = c_text k ∷ codes "=" ∷ encode c.value ∷ codes "; " ∷ cookie_pairs l

pub cookie_line : List (List ℕ × Cookie) → List (List ℕ)
unfolding cookie_pairs
cookie_line [] = []
cookie_line (c ∷ l) = codes "Cookie: " ∷ (cookie_pairs (c ∷ l) ++ (crlf ∷ []))

pub request_body : List ℕ → List (List ℕ)
unfolding decimal
request_body [] = crlf ∷ []
request_body (c ∷ s) =
    codes "Content-Length: " ∷ decimal (length (c ∷ s)) ∷ (crlf ++ crlf) ∷ c_text (c ∷ s) ∷ []

-- `EncodeRequest`
pub request_pieces : HttpMessage → List (List ℕ)
unfolding defaults_left header_pieces split_url cookie_line request_body
request_pieces m =
    let (host, path) = split_url m.url in
    method_piece m.method
    ∷ codes " "
    ∷ path_piece path
    ∷ codes " "
    ∷ (version_text m.httpversion ++ crlf)
    ∷ (host_pieces host
        ++ (header_pieces m.headers
            ++ (cookie_line m.cookies
                ++ (connection_pieces m.keepalive
                    ++ (header_pieces (defaults_left m.headers default_request_header)
                        ++ request_body m.body)))))

pub append_all : (ℕ → List ℕ) → List (List ℕ) → Buffer → Option Buffer
append_all fresh [] out = some out
append_all fresh (p ∷ ps) out = append fresh p out >>= (λ b. append_all fresh ps b)

abbrev pub domain_pieces : List ℕ → List (List ℕ)
domain_pieces [] = []
domain_pieces (c ∷ s) = codes "; domain=" ∷ c_text (c ∷ s) ∷ []

module _ (http_date : ℕ → List ℕ) (now : ℕ) where
  abbrev pub expires_pieces : ℕ → List (List ℕ)
  expires_pieces t = if ltb 0 t then codes "; expires=" ∷ http_date t ∷ [] else []

  unfoldable pub set_cookie_lines : List (List ℕ × Cookie) → List (List ℕ)
  unfolding encode
  set_cookie_lines [] = []
  set_cookie_lines ((k, c) ∷ l) =
      codes "Set-Cookie: "
      ∷ c_text k
      ∷ codes "="
      ∷ encode c.value
      ∷ codes "; path="
      ∷ c_text c.path
      ∷ (domain_pieces c.domain ++ (expires_pieces c.expires ++ (crlf ∷ set_cookie_lines l)))

  unfoldable pub response_body : HttpVersion → List ℕ → List (List ℕ)
  unfolding decimal hexadecimal
  response_body http_1_1 body =
      (codes "Transfer-Encoding: chunked" ++ crlf)
      ∷ crlf
      ∷ hexadecimal (length body)
      ∷ crlf
      ∷ c_text body
      ∷ (crlf ++ (codes "0" ++ (crlf ++ crlf)))
      ∷ []
  response_body http_1_0 body =
      codes "Content-Length: " ∷ decimal (length body) ∷ (crlf ++ crlf) ∷ c_text body ∷ []

  -- `EncodeResponse`
  unfoldable pub response_pieces : HttpMessage → List (List ℕ)
  unfolding get_status defaults_left header_pieces set_cookie_lines response_body
  response_pieces m =
      (version_text m.httpversion ++ codes " ")
      ∷ get_status m.net.code
      ∷ crlf
      ∷ (header_pieces m.headers
          ++ (set_cookie_lines m.cookies
              ++ (header_pieces (defaults_left m.headers default_header)
                  ++ (codes "Date: "
                      ∷ http_date now
                      ∷ crlf
                      ∷ (connection_pieces m.keepalive ++ response_body m.httpversion m.body)))))

  unfoldable pub pieces_of : Direction → HttpMessage → List (List ℕ)
  unfolding request_pieces response_pieces
  pieces_of request m = request_pieces m
  pieces_of _ m = response_pieces m

  -- `Encode`
  pub http_encode : (ℕ → List ℕ) → HttpMessage → Buffer → Option Buffer
  unfolding pieces_of append_all
  http_encode fresh m out = append_all fresh (pieces_of m.net.direction m) out

-- `CreateHeartBeatMessage`
pub create_http_heartbeat : Direction → HttpMessage
create_http_heartbeat request = record new_http_message {
  keepalive = true;
  httpversion = http_1_1;
  method = codes "GET";
  url = codes "/HeartBeat";
}
create_http_heartbeat _ = record new_http_message {
  net = set_reply (pos 200) new_message;
  keepalive = true;
  httpversion = http_1_1;
}
