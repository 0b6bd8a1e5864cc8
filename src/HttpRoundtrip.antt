-- ===== src/HttpRoundtrip.antt =====
-- frame/protocol/httpparser.cc: what `CHttpParser::Encode` makes of a response, as `CHttpParser::Decode`
-- reads it.
pub mod Lines
pub mod Status
pub mod Encoded
mod Tests
use ape_cpp_server.Base.{
  length, All, length-append, joined, ℤ, pos, hexadecimal, ℕ, ◌+◌, ◌≤◌, ◌≡◌, refl, sym, ap, ◌∙◌,
  true, Option, some, List, [], ◌∷◌, ◌++◌, append-nil, append_assoc, arith,
}
use ape_cpp_server.HttpMessage.{http_1_1, HttpMessage, new_http_message, crlf}
use ape_cpp_server.HttpParser.{
  HttpDecoded, placed, Reading, new_reading, trim, parse_header, http_decode,
}
use ape_cpp_server.HttpParser.Head.{Header, IsHeader, head_text}
use ape_cpp_server.HttpParser.Lines.{read_header, read_headers}
use ape_cpp_server.HttpParser.Response.{first_reply}
use ape_cpp_server.HttpParser.Chunked.{chunks_text, IsChunk}
use ape_cpp_server.HttpParser.Answer.{answer_head, decode-chunked}
use ape_cpp_server.HttpRoundtrip.Lines.{
  head_text-append, chunked_line, response_lines, response-text,
}
use ape_cpp_server.HttpRoundtrip.Status.{IsKnown, IsKnown-status, get_status-known}
use ape_cpp_server.CText.{c_text, atoi}
use ape_cpp_server.UrlCode.{encode}
use ape_cpp_server.HttpEncoder.{status_table, find_status, defaults_left, response_pieces}

read_headers-append :
    (parse_gmt : List ℕ → Option ℤ) (l k : List Header) (r : Reading)
    → read_headers parse_gmt (l ++ k) r ≡ read_headers parse_gmt k (read_headers parse_gmt l r)
read_headers-append parse_gmt [] k r = refl
read_headers-append parse_gmt (h ∷ l) k r =
    read_headers-append parse_gmt l k (read_header parse_gmt h r)

-- The last line says that the body is in chunks.
chunked_line_lem :
    (parse_gmt : List ℕ → Option ℤ) (r : Reading)
    → (read_header parse_gmt chunked_line r).ischunked ≡ true
unfolding parse_header trim
chunked_line_lem parse_gmt r = refl

-- what the lines of a response say
abbrev pub answer_of : (List ℕ → Option ℤ) → List Header → ℤ → Reading
answer_of parse_gmt hs code = read_headers parse_gmt hs (new_reading (first_reply http_1_1 code))

ischunked-answer :
    (parse_gmt : List ℕ → Option ℤ) (lines : List Header) (code : ℤ)
    → (answer_of parse_gmt (lines ++ (chunked_line ∷ [])) code).ischunked ≡ true
ischunked-answer parse_gmt lines code =
    ap (λ r. r.ischunked)
      (read_headers-append parse_gmt lines (chunked_line ∷ [])
        (new_reading (first_reply http_1_1 code)))
    ∙ chunked_line_lem parse_gmt
        (read_headers parse_gmt lines (new_reading (first_reply http_1_1 code)))

-- where the chunk's end is, and what is read
abbrev pub read_back : (List ℕ → Option ℤ) → List ℕ → List ℕ → ℤ → List Header → HttpDecoded
unfolding hexadecimal
read_back parse_gmt text body code hs =
    placed (pos (length (answer_head http_1_1 text hs) + length (chunks_text (body ∷ []))))
      (record (answer_of parse_gmt hs code).msg { body = body })

module _ (parse_gmt : List ℕ → Option ℤ) (text body rest : List ℕ) (n len : ℕ)
    (known : IsKnown n text) (chunk : IsChunk body) where
  one_chunk :
      (h : Header) (hs : List Header)
      → All IsHeader (h ∷ hs)
      → length (answer_head http_1_1 text (h ∷ hs)) + length (chunks_text (body ∷ [])) ≤ len
      → (answer_of parse_gmt (h ∷ hs) (pos n)).ischunked ≡ true
      → http_decode parse_gmt len
          (answer_head http_1_1 text (h ∷ hs) ++ (chunks_text (body ∷ []) ++ rest))
          new_http_message
        ≡ read_back parse_gmt text body (pos n) (h ∷ hs)
  unfolding read_back
  one_chunk h hs a hl hc =
      decode-chunked parse_gmt http_1_1 text h hs (body ∷ []) rest len known.line_text a (chunk, tt)
        hl (ap (λ c. (answer_of parse_gmt (h ∷ hs) c).ischunked) code_eq ∙ hc)
      ∙ rw (code_eq, append-nil body) refl
    where
      code_eq :
          atoi (
            text ++ (13 ∷ 10 ∷ (head_text (h ∷ hs) ++ (crlf ++ (chunks_text (body ∷ []) ++ rest)))))
          ≡ pos n
      code_eq =
          known.code_read (10 ∷ (head_text (h ∷ hs) ++ (crlf ++ (chunks_text (body ∷ []) ++ rest))))

  -- A response whose last line says that its body is in chunks, with the body in one chunk.
  decode-lines :
      (lines : List Header)
      → All IsHeader (lines ++ (chunked_line ∷ []))
      → length (answer_head http_1_1 text (lines ++ (chunked_line ∷ [])))
          + length (chunks_text (body ∷ []))
        ≤ len
      → http_decode parse_gmt len
          (answer_head http_1_1 text (lines ++ (chunked_line ∷ []))
            ++ (chunks_text (body ∷ []) ++ rest))
          new_http_message
        ≡ read_back parse_gmt text body (pos n) (lines ++ (chunked_line ∷ []))
  decode-lines [] a hl = one_chunk chunked_line [] a hl (ischunked-answer parse_gmt [] (pos n))
  decode-lines (h ∷ hs) a hl =
      one_chunk h (hs ++ (chunked_line ∷ [])) a hl (ischunked-answer parse_gmt (h ∷ hs) (pos n))

module _ (parse_gmt : List ℕ → Option ℤ) (http_date : ℕ → List ℕ) (now : ℕ) where
  -- all lines behind the first one
  abbrev pub all_lines : HttpMessage → List Header
  unfolding encode defaults_left
  all_lines m = response_lines http_date now m ++ (chunked_line ∷ [])

  -- the bytes of a response
  abbrev pub response_bytes : HttpMessage → List ℕ
  unfolding response_pieces
  response_bytes m = joined (response_pieces http_date now m)

  response-shape :
      (m : HttpMessage) (n : ℕ) (text : List ℕ)
      → m.httpversion ≡ http_1_1
      → m.net.code ≡ pos n
      → find_status n status_table ≡ some text
      → c_text m.body ≡ m.body
      → response_bytes m ≡ answer_head http_1_1 text (all_lines m) ++ chunks_text (m.body ∷ [])
  unfolding all_lines response_bytes
  response-shape m n text e ec ef eb =
      response-text http_date now m e
      ∙ simp (ec, get_status-known n text ef, eb, append_assoc, head_text-append) refl

  -- A response of version 1.1 whose code `GetStatus` knows, whose body is neither empty nor too long
  -- for an `int` and has no NUL, and whose header lines have no NUL and no carriage return, and in
  -- their names no colon, is read back from the bytes that `Encode` makes of it, with any memory
  -- behind them, of which any part may be data: the place is behind the bytes, and the message has
  -- the version, the code, what each line in turn sets, and the body.
  pub decode-response_pieces :
      (m : HttpMessage) (n len : ℕ) (text rest : List ℕ)
      → m.httpversion ≡ http_1_1
      → m.net.code ≡ pos n
      → find_status n status_table ≡ some text
      → c_text m.body ≡ m.body
      → IsChunk m.body
      → All IsHeader (all_lines m)
      → length (response_bytes m) ≤ len
      → http_decode parse_gmt len (response_bytes m ++ rest) new_http_message
        ≡ placed
            (pos (length (response_bytes m)))
            (record (answer_of parse_gmt (all_lines m) m.net.code).msg { body = m.body })
  unfolding all_lines read_back
  decode-response_pieces m n len text rest e ec ef eb c a hl =
      ap (λ l. http_decode parse_gmt len (l ++ rest) new_http_message) shape
      ∙ ap (λ l. http_decode parse_gmt len l new_http_message) (append_assoc head chunk rest)
      ∙ decode-lines parse_gmt text m.body rest n len (IsKnown-status n text ef) c
          (response_lines http_date now m) a (omega (arith, size))
      ∙ ap
          (λ k.
            placed (pos k)
              (record (answer_of parse_gmt (all_lines m) (pos n)).msg { body = m.body }))
          (sym size)
      ∙ ap
          (λ k.
            placed (pos (length (response_bytes m)))
              (record (answer_of parse_gmt (all_lines m) k).msg { body = m.body }))
          (sym ec)
    where
      head : List ℕ
      head = answer_head http_1_1 text (all_lines m)

      chunk : List ℕ
      chunk = chunks_text (m.body ∷ [])

      shape : response_bytes m ≡ head ++ chunk
      shape = response-shape m n text e ec ef eb

      size : length (response_bytes m) ≡ length head + length chunk
      size = ap length shape ∙ length-append head chunk
