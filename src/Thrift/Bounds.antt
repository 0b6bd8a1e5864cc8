-- ===== src/Thrift/Bounds.antt =====
-- The reads that `Decode` makes of bytes from anywhere.
use ape_cpp_server.Base.{
  ltb, leb, not_ltb→le, Bool-cases, Option-cases, length, take, drop, length-drop, add32, sub32,
  le32_of, ℕ, ◌+◌, ◌^◌, ◌≤◌, ◌<◌, ◌≡◌, refl, inl, inr, true, some, List, [], ◌∷◌, arith,
}
use ape_cpp_server.Message.{ThriftMessage}
use ape_cpp_server.Thrift.{
  ThriftHead, head_size, Decoded, fault, bad, incomplete, packet, read_head, read_word,
  direction_of, decode_body, decode_seqid, with_direction, with_method, decode_method, decode_head,
  decode,
}

-- The lengths of a head agree: the packet has room for the method and the sequence number, and its
-- size does not wrap.
pub record IsConsistent (head : ThriftHead) : Type 0 where
  pub holds : head.methodlen + 12 ≤ head.size
  pub small : head.size + 4 < 2 ^ 32

-- `Decode` came to no fault, and what it took lies within the data.
abbrev pub IsWithin : ℕ → Decoded → Type 0
IsWithin len fault = ⊥
IsWithin len bad = Unit
IsWithin len incomplete = Unit
IsWithin len (packet n msg) = n ≤ len

read_word-some : (mem : List ℕ) → 4 ≤ length mem → (w : ℕ) × (read_word mem ≡ some w)
read_word-some [] h = absurd (omega arith)
read_word-some (a ∷ []) h = absurd (omega arith)
read_word-some (a ∷ b ∷ []) h = absurd (omega arith)
read_word-some (a ∷ b ∷ c ∷ []) h = absurd (omega arith)
read_word-some (a ∷ b ∷ c ∷ d ∷ mem) h = (le32_of a b c d, refl)

decode_body-IsWithin :
    (len skip size seqid : ℕ) (mem : List ℕ) (msg : ThriftMessage)
    → size + 4 < 2 ^ 32
    → skip ≤ size + 4
    → size + 4 ≤ len
    → len ≤ length mem
    → IsWithin len (decode_body skip size seqid mem msg)
unfolding decode_body
decode_body-IsWithin len skip size seqid mem msg small h hs hl = rw (fits, IsWithin) (omega arith)
  where
    fits : leb (skip + sub32 (add32 size 4) skip) (length mem) ≡ true
    fits = ground arith

decode_seqid-IsWithin :
    (len : ℕ) (head : ThriftHead) (mem : List ℕ) (msg : ThriftMessage)
    → IsConsistent head
    → head.size + 4 ≤ len
    → len ≤ length mem
    → IsWithin len (decode_seqid (add32 head_size head.methodlen) head mem msg)
unfolding decode_seqid
decode_seqid-IsWithin len head mem msg c hs hl =
    rw (word.1, decode_seqid)
      (decode_body-IsWithin len (add32 (add32 head_size head.methodlen) 4) head.size word.0 mem msg
        c.small (omega (arith, c.holds, c.small)) hs hl)
  where
    word : (w : ℕ) × (read_word (drop (add32 head_size head.methodlen) mem) ≡ some w)
    word =
        read_word-some (drop (add32 head_size head.methodlen) mem)
          (omega (arith, length-drop (add32 head_size head.methodlen) mem, c.holds, c.small))

decode_method-IsWithin :
    (len : ℕ) (head : ThriftHead) (mem : List ℕ) (msg : ThriftMessage)
    → IsConsistent head
    → head.size + 4 ≤ len
    → len ≤ length mem
    → IsWithin len (decode_method len head mem msg)
unfolding decode_method
decode_method-IsWithin len head mem msg c hs hl =
    elim (Bool-cases (ltb len (add32 head_size head.methodlen))) [
      | inl e ↦ rw (e, decode_method) tt
      | inr e ↦
          rw (e, decode_method, fits)
            (decode_seqid-IsWithin len head mem
              (with_method head (take head.methodlen (drop head_size mem)) msg) c hs hl)
    ]
  where
    fits : leb (head_size + head.methodlen) (length mem) ≡ true
    fits = ground (arith, c.holds)

decode_head-IsWithin :
    (len : ℕ) (head : ThriftHead) (mem : List ℕ) (msg : ThriftMessage)
    → IsConsistent head
    → len ≤ length mem
    → IsWithin len (decode_head len head mem msg)
unfolding decode_head
decode_head-IsWithin len head mem msg c hl = elim (Bool-cases (ltb len (add32 head.size 4))) [
  | inl e ↦ rw (e, decode_head) tt
  | inr e ↦ elim (Option-cases (direction_of head.type_)) [
    | inl n ↦ rw (e, n, decode_head) tt
    | inr (d, n) ↦
        rw (e, n, decode_head)
          (decode_method-IsWithin len head mem (with_direction d msg) c
            (omega (arith, not_ltb→le len (add32 head.size 4) e, c.small)) hl)
  ]
]

read_head-some :
    (mem : List ℕ) → head_size ≤ length mem → (h : ThriftHead) × (read_head mem ≡ some h)
read_head-some (a ∷ b ∷ c ∷ d ∷ e ∷ f ∷ g ∷ h ∷ i ∷ j ∷ k ∷ l ∷ mem) le = (_, refl)
read_head-some mem le = absurd (omega arith)

-- On data that lie within the memory and start with a head whose lengths agree, `Decode` reads
-- nothing outside of the memory, and a packet that it takes lies within the data.
pub decode-IsWithin :
    (len : ℕ) (mem : List ℕ) (msg : ThriftMessage)
    → len ≤ length mem
    → ((h : ThriftHead) → read_head mem ≡ some h → IsConsistent h)
    → IsWithin len (decode len mem msg)
unfolding decode
decode-IsWithin len mem msg hl c = elim (Bool-cases (ltb len head_size)) [
  | inl e ↦ rw (e, decode) tt
  | inr e ↦
      let r = read_head-some mem (omega (arith, not_ltb→le len head_size e)) in
      rw (e, decode, r.1) (decode_head-IsWithin len r.0 mem msg (c r.0 r.1) hl)
]
