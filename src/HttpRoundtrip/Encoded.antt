-- ===== src/HttpRoundtrip/Encoded.antt =====
-- `CHttpParser::Decode` on what `CHttpParser::Encode` appends to a buffer.
use ape_cpp_server.Base.{
  length, take, drop, All, length-append, length-take, drop-append_left, take-drop, joined, ℤ, pos,
  ℕ, ◌+◌, ◌-◌, ◌*◌, ◌^◌, ◌<◌, ◌≡◌, sym, ap, ◌∙◌, Option, some, List, ◌++◌, append_assoc, arith,
}
use ape_cpp_server.Buffer.{Buffer, contents}
use ape_cpp_server.Buffer.Append.{IsBuffer, IsAllocator, take-append_at}
use ape_cpp_server.Message.{response}
use ape_cpp_server.HttpMessage.{http_1_1, HttpMessage, new_http_message}
use ape_cpp_server.HttpParser.{placed, http_decode}
use ape_cpp_server.HttpParser.Head.{IsHeader}
use ape_cpp_server.HttpParser.Chunked.{IsChunk}
use ape_cpp_server.CText.{c_text}
use ape_cpp_server.HttpEncoder.{status_table, find_status, pieces_of, http_encode}
use ape_cpp_server.HttpEncoder.Appended.{http_encode_lem}
use ape_cpp_server.HttpRoundtrip.{answer_of, all_lines, response_bytes, decode-response_pieces}

length-contents : (b : Buffer) → IsBuffer b → length (contents b) ≡ b.loc
length-contents b v = omega (arith, length-take b.loc b.base, v.allocated, v.filled)

split-memory :
    (b b' : Buffer) (s : List ℕ)
    → contents b' ≡ contents b ++ s
    → b'.base ≡ contents b ++ (s ++ drop b'.loc b'.base)
split-memory b b' s e =
    sym (take-drop b'.loc b'.base)
    ∙ (ap (λ l. l ++ drop b'.loc b'.base) e ∙ append_assoc (contents b) s (drop b'.loc b'.base))

kept_before :
    (b b' : Buffer) (s : List ℕ)
    → IsBuffer b
    → contents b' ≡ contents b ++ s
    → take b.loc b'.base ≡ contents b
kept_before b b' s v e =
    ap (take b.loc) (split-memory b b' s e)
    ∙ take-append_at b.loc (contents b) (s ++ drop b'.loc b'.base) (sym (length-contents b v))

-- what lies behind the bytes that were there before
appended-memory :
    (b b' : Buffer) (s : List ℕ)
    → IsBuffer b
    → contents b' ≡ contents b ++ s
    → drop b.loc b'.base ≡ s ++ drop b'.loc b'.base
appended-memory b b' s v e =
    ap (drop b.loc) (split-memory b b' s e)
    ∙ ap (λ k. drop k (contents b ++ (s ++ drop b'.loc b'.base))) (sym (length-contents b v))
    ∙ drop-append_left (contents b) (s ++ drop b'.loc b'.base)

module _ (parse_gmt : List ℕ → Option ℤ) (http_date : ℕ → List ℕ) (now : ℕ) where
  -- A response of version 1.1 whose code `GetStatus` knows, whose body is neither empty nor too long
  -- for an `int` and has no NUL, and whose header lines have no NUL and no carriage return, and in
  -- their names no colon: `Encode` appends it to the buffer without a write outside of the memory, if
  -- 16 times the buffer's size and 64 times what it holds in the end fit in 32 bits; and `Decode` of
  -- what was appended, where it lies in the buffer's memory, takes all of it and gives a message with
  -- the version, the code, what each line in turn sets, and the body.
  pub decode-http_encode :
      (m : HttpMessage) (n : ℕ) (text : List ℕ) (fresh : ℕ → List ℕ) (b : Buffer)
      → IsAllocator fresh
      → IsBuffer b
      → m.net.direction ≡ response
      → m.httpversion ≡ http_1_1
      → m.net.code ≡ pos n
      → find_status n status_table ≡ some text
      → c_text m.body ≡ m.body
      → IsChunk m.body
      → All IsHeader (all_lines parse_gmt http_date now m)
      → 16 * b.capacity + 64 * (b.loc + length (response_bytes parse_gmt http_date now m)) < 2 ^ 32
      → (b' : Buffer) × (http_encode http_date now fresh m b ≡ some b')
        × (take b.loc b'.base ≡ contents b)
        × (http_decode parse_gmt (b'.loc - b.loc) (drop b.loc b'.base) new_http_message
            ≡ placed
                (pos (b'.loc - b.loc))
                (record (answer_of parse_gmt (all_lines parse_gmt http_date now m) m.net.code).msg {
                  body = m.body;
                }))
  unfolding pieces_of all_lines response_bytes
  decode-http_encode m n text fresh b alloc v ed e ec ef eb c a fits =
      let r = http_encode_lem http_date now fresh m b alloc v (rw (ed) fits) in
      let s = response_bytes parse_gmt http_date now m in
      let shape : contents r.0 ≡ contents b ++ s =
        r.2 ∙ ap (λ d. contents b ++ joined (pieces_of http_date now d m)) ed in
      let size : r.0.loc - b.loc ≡ length s = omega (
        arith,
        ap length shape,
        length-append (contents b) s,
        length-contents b v,
        length-contents r.0 r.3,
      ) in
      (
        r.0,
        r.1,
        kept_before b r.0 s v shape,
        ap (λ k. http_decode parse_gmt k (drop b.loc r.0.base) new_http_message) size
            ∙ ap (λ l. http_decode parse_gmt (length s) l new_http_message)
                (appended-memory b r.0 s v shape)
            ∙ decode-response_pieces parse_gmt http_date now m n (length s) text
                (drop r.0.loc r.0.base) e ec ef eb c a (omega arith)
            ∙ ap
                (λ k.
                  placed (pos k)
                    (record (answer_of parse_gmt (all_lines parse_gmt http_date now m)
                      m.net.code).msg { body = m.body }))
                (sym size),
      )
