-- ===== src/HttpParser/Answer.antt =====
-- `CHttpParser::Decode` on a whole response with a body in chunks.
use ape_cpp_server.Base.{
  length, drop, All, length-append, drop-append_left, joined, ℤ, pos, ℕ, suc, ◌+◌, ◌≤◌, ◌≡◌, refl,
  ap, ◌∙◌, true, Option, List, [], ◌∷◌, ◌++◌, append_assoc, arith,
}
use ape_cpp_server.CText.{atoi}
use ape_cpp_server.HttpMessage.{HttpVersion, new_http_message, crlf}
use ape_cpp_server.HttpParser.{placed, Reading, new_reading, decode_content, http_decode}
use ape_cpp_server.HttpParser.Head.{Header, IsText, IsHeader, head_text, behind, length-head}
use ape_cpp_server.HttpParser.Lines.{read_headers}
use ape_cpp_server.HttpParser.Whole.{body-read_headers, decode_headers_lem}
use ape_cpp_server.HttpParser.Response.{
  status_line, first_reply, length-status_line, decode-status_line,
}
use ape_cpp_server.HttpParser.Chunked.{chunks_text, IsChunk, length-chunks, chunks_lem}

-- a response up to the end of its head
abbrev pub answer_head : HttpVersion → List ℕ → List Header → List ℕ
answer_head v reason hs = status_line v reason ++ (head_text hs ++ crlf)

-- what the head of a response leaves of the parser; `behind` is what follows the line's text
abbrev pub answer_reading :
    (List ℕ → Option ℤ) → HttpVersion → List ℕ → List ℕ → List Header → Reading
answer_reading parse_gmt v reason behind hs =
    read_headers parse_gmt hs (new_reading (first_reply v (atoi (reason ++ (13 ∷ 10 ∷ behind)))))

bytes-of-chunks : (bs : List (List ℕ)) → length bs ≤ length (chunks_text bs)
bytes-of-chunks [] = omega arith
bytes-of-chunks (b ∷ bs) = omega (arith, bytes-of-chunks bs, length-chunks b bs)

-- A body in chunks behind a head of `from` bytes.
chunked_lem :
    (bs : List (List ℕ)) (len from : ℕ) (mem rest : List ℕ) (r : Reading)
    → All IsChunk bs
    → r.ischunked ≡ true
    → r.msg.body ≡ []
    → drop from mem ≡ chunks_text bs ++ rest
    → from + length (chunks_text bs) ≤ len
    → decode_content len mem from r
      ≡ placed (pos (from + length (chunks_text bs))) (record r.msg { body = joined bs })
unfolding decode_content
chunked_lem bs len from mem rest r v hc hb em hl =
    rw
      (
        decode_content,
        hc,
        chunks_lem bs (suc len) len from mem rest r.msg v (omega (arith, bytes-of-chunks bs)) em hl,
        hb,
      )
      refl

module _ (parse_gmt : List ℕ → Option ℤ) (v : HttpVersion) (reason : List ℕ) (h : Header)
    (hs : List Header) where
  length-answer_head :
      length (answer_head v reason (h ∷ hs))
      ≡ length (status_line v reason) + length (head_text (h ∷ hs)) + 2
  length-answer_head = omega (
    arith,
    length-append (status_line v reason) (head_text (h ∷ hs) ++ crlf),
    length-append (head_text (h ∷ hs)) crlf,
  )

  -- A response up to the end of its head.
  decode-answer_head :
      (rest : List ℕ) (len : ℕ)
      → IsText reason
      → All IsHeader (h ∷ hs)
      → 16 ≤ len
      → length (answer_head v reason (h ∷ hs)) ≤ len
      → http_decode parse_gmt len (answer_head v reason (h ∷ hs) ++ rest) new_http_message
        ≡ decode_content len
            (answer_head v reason (h ∷ hs) ++ rest)
            (length (answer_head v reason (h ∷ hs)))
            (answer_reading parse_gmt v reason (head_text (h ∷ hs) ++ (crlf ++ rest)) (h ∷ hs))
  decode-answer_head rest len u a h16 hl =
      ap (λ l. http_decode parse_gmt len l new_http_message) shape
      ∙ decode-status_line parse_gmt v reason u len s h16 (omega (arith, length-answer_head))
      ∙ decode_headers_lem parse_gmt h hs len from (status_line v reason ++ s) rest
          (first_reply v (atoi (reason ++ (13 ∷ 10 ∷ s)))) a
          (drop-append_left (status_line v reason) s) (omega (arith, length-answer_head))
      ∙ cc (shape, length-answer_head)
    where
      from : ℕ
      from = length (status_line v reason)

      s : List ℕ
      s = head_text (h ∷ hs) ++ (crlf ++ rest)

      shape : answer_head v reason (h ∷ hs) ++ rest ≡ status_line v reason ++ s
      shape =
          append_assoc (status_line v reason) (head_text (h ∷ hs) ++ crlf) rest
          ∙ ap (◌++◌ (status_line v reason)) (append_assoc (head_text (h ∷ hs)) crlf rest)

  -- A response with at least one header line, whose lines say that the body is in chunks, is decoded
  -- with any memory behind it, of which any part may be data, if no chunk but the last is empty or too
  -- long for an `int`: the place is behind the last chunk, and the message has the code that `atoi`
  -- finds in the first line, the version, what each line in turn sets, and the chunks' bytes joined.
  pub decode-chunked :
      (bs : List (List ℕ)) (rest : List ℕ) (len : ℕ)
      → IsText reason
      → All IsHeader (h ∷ hs)
      → All IsChunk bs
      → length (answer_head v reason (h ∷ hs)) + length (chunks_text bs) ≤ len
      → (answer_reading parse_gmt v reason
          (head_text (h ∷ hs) ++ (crlf ++ (chunks_text bs ++ rest)))
          (h ∷ hs)).ischunked
        ≡ true
      → http_decode parse_gmt len
          (answer_head v reason (h ∷ hs) ++ (chunks_text bs ++ rest))
          new_http_message
        ≡ placed
            (pos (length (answer_head v reason (h ∷ hs)) + length (chunks_text bs)))
            (record (answer_reading parse_gmt v reason
              (head_text (h ∷ hs) ++ (crlf ++ (chunks_text bs ++ rest)))
              (h ∷ hs)).msg { body = joined bs })
  decode-chunked bs rest len u a c hl hc =
      decode-answer_head (chunks_text bs ++ rest) len u a
        (omega (
          arith,
          length-answer_head,
          length-status_line v reason,
          length-head h hs,
          length-append h.key (b':' ∷ h.value),
        ))
        (omega arith)
      ∙ chunked_lem bs len (length (answer_head v reason (h ∷ hs)))
          (answer_head v reason (h ∷ hs) ++ (chunks_text bs ++ rest)) rest
          (answer_reading parse_gmt v reason
            (head_text (h ∷ hs) ++ (crlf ++ (chunks_text bs ++ rest))) (h ∷ hs))
          c hc
          (body-read_headers parse_gmt (h ∷ hs) (
            new_reading (
              first_reply v (
                atoi (
                  reason
                  ++ (13 ∷ 10 ∷ (head_text (h ∷ hs) ++ (crlf ++ (chunks_text bs ++ rest)))))))))
          (drop-append_left (answer_head v reason (h ∷ hs)) (chunks_text bs ++ rest)) hl
