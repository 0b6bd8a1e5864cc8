-- ===== src/HttpEncoder/Appended.antt =====
-- The calls of `append` in `Encode`, one after the other.
use ape_cpp_server.Base.{
  length, length-append, joined, ℕ, ◌+◌, ◌*◌, ◌^◌, ◌≤◌, ◌<◌, ◌≡◌, refl, sym, some, List, [], ◌∷◌,
  ◌++◌, append-nil, append_assoc, arith,
}
use ape_cpp_server.Buffer.{Buffer, contents}
use ape_cpp_server.Buffer.Append.{IsBuffer, IsAllocator, append_lem, append_capacity, loc-Appended}
use ape_cpp_server.HttpMessage.{HttpMessage}
use ape_cpp_server.HttpEncoder.{append_all, pieces_of, http_encode}

append_all_lem :
    (fresh : ℕ → List ℕ) (ps : List (List ℕ)) (b : Buffer) (most : ℕ)
    → IsAllocator fresh
    → IsBuffer b
    → b.capacity ≤ most
    → 4 * (b.loc + length (joined ps)) ≤ most
    → 4 * most < 2 ^ 32
    → (b' : Buffer) × (append_all fresh ps b ≡ some b')
      × (contents b' ≡ contents b ++ joined ps)
      × IsBuffer b'
unfolding append_all
append_all_lem fresh [] b most alloc v h0 h1 h2 = (b, refl, sym (append-nil (contents b)), v)
append_all_lem fresh (p ∷ ps) b most alloc v h0 h1 h2 =
    let fits : 4 * (b.loc + length p) ≤ most = omega (arith, length-append p (joined ps)) in
    let r = append_lem fresh p b alloc v (omega arith) in
    let s =
      append_all_lem fresh ps r.0 most alloc r.2.valid
        (append_capacity fresh p b r.0 most r.1 h0 fits h2)
        (omega (arith, loc-Appended p b r.0 v r.2, length-append p (joined ps))) h2 in
    (
      s.0,
      rw (append_all, r.1) s.1,
      cc (s.2, r.2.contents_eq, append_assoc (contents b) p (joined ps)),
      s.3,
    )

-- `Encode` of a request or a response appends exactly the pieces of the message to the buffer, and
-- never writes outside of the memory, if 16 times the buffer's size and 64 times what it holds in the
-- end fit in 32 bits.
pub http_encode_lem :
    (http_date : ℕ → List ℕ) (now : ℕ) (fresh : ℕ → List ℕ) (m : HttpMessage) (b : Buffer)
    → IsAllocator fresh
    → IsBuffer b
    → 16 * b.capacity + 64 * (b.loc + length (joined (pieces_of http_date now m.net.direction m)))
      < 2 ^ 32
    → (b' : Buffer) × (http_encode http_date now fresh m b ≡ some b')
      × (contents b' ≡ contents b ++ joined (pieces_of http_date now m.net.direction m))
      × IsBuffer b'
unfolding http_encode
http_encode_lem http_date now fresh m b alloc v h =
    let ps = pieces_of http_date now m.net.direction m in
    append_all_lem fresh ps b (b.capacity + 4 * (b.loc + length (joined ps))) alloc v (omega arith)
      (omega arith) (omega arith)
