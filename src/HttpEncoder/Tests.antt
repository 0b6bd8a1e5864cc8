-- ===== src/HttpEncoder/Tests.antt =====
-- Runs of the encoder of http messages, and its theorem at a concrete input.
use ape_cpp_server.Base.{joined, codes, pos, decimal, ℕ, ◌≡◌, refl, List, [], ◌∷◌, ◌++◌}
use ape_cpp_server.HttpMessage.{http_1_1, HttpMessage, new_http_message, crlf}
use ape_cpp_server.HttpEncoder.{get_status, request_pieces, response_body}

abbrev no_date : ℕ → List ℕ
no_date _ = codes "D"

abbrev asked : HttpMessage
asked = record new_http_message {
  httpversion = http_1_1;
  url = codes "http://h/p";
  headers = (codes "User-Agent", codes "u") ∷ [];
}

asked_text :
    joined (request_pieces asked)
    ≡ codes "GET /p HTTP/1.1"
      ++ (crlf
          ++ (codes "Host: h"
              ++ (crlf
                  ++ (codes "User-Agent: u"
                      ++ (crlf ++ (codes "Connection: Close" ++ (crlf ++ crlf)))))))
unfolding request_pieces
asked_text = refl

unknown : get_status (pos 299) ≡ codes "299 Un"
unfolding get_status decimal
unknown = refl

-- An empty body of a 1.1 response has the last chunk twice.
empty_body :
    joined (response_body no_date 0 http_1_1 [])
    ≡ codes "Transfer-Encoding: chunked"
      ++ (crlf ++ (crlf ++ (codes "0" ++ (crlf ++ (crlf ++ (codes "0" ++ (crlf ++ crlf)))))))
unfolding response_body
empty_body = refl
