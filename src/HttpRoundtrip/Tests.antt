-- ===== src/HttpRoundtrip/Tests.antt =====
-- The round trip of a response at a concrete input.
use ape_cpp_server.Base.{
  length, take, drop, replicate, zero, suc, ◌-◌, ap, some, codes, ℤ, pos, ℕ, ◌≡◌, refl, true,
  Option, none, List, [], ◌∷◌, ◌++◌, arith,
}
use ape_cpp_server.HttpMessage.{http_1_1, HttpMessage, new_http_message}
use ape_cpp_server.Message.{new_message, set_reply}
use ape_cpp_server.HttpParser.{placed, http_decode}
use ape_cpp_server.HttpParser.Plain.{plain_headers-IsHeader}
use ape_cpp_server.HttpEncoder.{find_status, defaults_left, response_pieces}
use ape_cpp_server.Buffer.{Buffer, contents}
use ape_cpp_server.HttpEncoder.{http_encode}
use ape_cpp_server.HttpRoundtrip.Encoded.{decode-http_encode}
use ape_cpp_server.HttpRoundtrip.{answer_of, all_lines, response_bytes, decode-response_pieces}

abbrev no_time : List ℕ → Option ℤ
no_time _ = none

abbrev no_date : ℕ → List ℕ
no_date _ = codes "D"

abbrev reply : HttpMessage
reply = record new_http_message {
  net = set_reply (pos 200) new_message;
  httpversion = http_1_1;
  keepalive = true;
  headers = (codes "Server", codes "s") ∷ [];
  cookies =
      (codes "k", record { value = codes "v"; path = codes "/"; domain = []; expires = 0 }) ∷ [];
  body = codes "abc";
}

decode-response_pieces_example :
    http_decode no_time 300
      (response_bytes no_time no_date 0 reply ++ codes "next")
      new_http_message
    ≡ placed
        (pos (length (response_bytes no_time no_date 0 reply)))
        (record (answer_of no_time (all_lines no_time no_date 0 reply) (pos 200)).msg {
          body = codes "abc";
        })
unfolding find_status defaults_left response_pieces
decode-response_pieces_example =
    decode-response_pieces no_time no_date 0 reply 200 300 (codes "200 OK") (codes "next") refl refl
      refl refl (omega arith, omega arith)
      (plain_headers-IsHeader (all_lines no_time no_date 0 reply) refl) (omega arith)

abbrev zeros : ℕ → List ℕ
zeros n = replicate n 0

length-zeros : (n : ℕ) → length (zeros n) ≡ n
length-zeros zero = refl
length-zeros (suc n) = ap suc (length-zeros n)

-- a buffer that holds two bytes
abbrev begun : Buffer
begun = record { base = 1 ∷ 2 ∷ 0 ∷ []; capacity = 3; loc = 2 }

decode-http_encode_example :
    (b' : Buffer) × (http_encode no_date 0 zeros reply begun ≡ some b')
    × (take 2 b'.base ≡ contents begun)
    × (http_decode no_time (b'.loc - 2) (drop 2 b'.base) new_http_message
        ≡ placed
            (pos (b'.loc - 2))
            (record (answer_of no_time (all_lines no_time no_date 0 reply) (pos 200)).msg {
              body = codes "abc";
            }))
unfolding find_status defaults_left response_pieces
decode-http_encode_example =
    decode-http_encode no_time no_date 0 reply 200 (codes "200 OK") zeros begun length-zeros
      (record { allocated = refl; filled = omega arith }) refl refl refl refl refl
      (omega arith, omega arith) (plain_headers-IsHeader (all_lines no_time no_date 0 reply) refl)
      (omega arith)
