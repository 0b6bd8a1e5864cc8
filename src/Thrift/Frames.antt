-- ===== src/Thrift/Frames.antt =====
-- `CThriftParser` as the parser of a connection: its messages can be cut out of a stream.
use ape_cpp_server.Base.{
  ltb, lt→ltb, not_ltb→le, Bool-cases, length, All, length-append, joined, add32, be32, ℕ, ◌+◌, ◌-◌,
  ◌^◌, ◌≤◌, ◌<◌, ◌≡◌, refl, sym, ap, ◌∙◌, inl, inr, List, [], ◌∷◌, ◌++◌, append-nil, arith,
}
use ape_cpp_server.Message.{ThriftMessage, new_thrift_message}
use ape_cpp_server.Buffer.Append.{IsAllocator}
use ape_cpp_server.Connection.{
  max_packet_size, Parsed, crash, null, place, Connection, handle_reads,
}
use ape_cpp_server.Connection.Read.{Frame, IsFrame, stream}
use ape_cpp_server.Connection.Stream.{IsAllRead, handle_reads_lem}
use ape_cpp_server.Connection.Reassembly.{IsReading}
use ape_cpp_server.Thrift.{
  head_size, Decoded, fault, bad, incomplete, packet, read_head, decode_head, decode,
}
use ape_cpp_server.Thrift.Roundtrip.{wire, received, mem, read_head-wire, length-wire, decode-wire}

pub to_place : Decoded → Parsed ThriftMessage
to_place fault = crash
to_place bad = null
to_place incomplete = place 0 new_thrift_message
to_place (packet n m) = place n m

-- `CreateMessage` and `Decode`, as `HandleRead` calls them
pub thrift_decode : ℕ → List ℕ → Parsed ThriftMessage
unfolding to_place
thrift_decode len mem = to_place (decode len mem new_thrift_message)

abbrev pub frame : ThriftMessage → Frame ThriftMessage
frame m = record { bytes = wire m; msg = received m }

abbrev pub frames : List ThriftMessage → List (Frame ThriftMessage)
frames [] = []
frames (m ∷ ms) = frame m ∷ frames ms

read_head-append : (a r : List ℕ) → 12 ≤ length a → read_head (a ++ r) ≡ read_head a
read_head-append [] r h = elim h [ ]
read_head-append (a ∷ []) r h = absurd (omega arith)
read_head-append (a ∷ b ∷ []) r h = absurd (omega arith)
read_head-append (a ∷ b ∷ c ∷ []) r h = absurd (omega arith)
read_head-append (a ∷ b ∷ c ∷ d ∷ []) r h = absurd (omega arith)
read_head-append (a ∷ b ∷ c ∷ d ∷ e ∷ []) r h = absurd (omega arith)
read_head-append (a ∷ b ∷ c ∷ d ∷ e ∷ f ∷ []) r h = absurd (omega arith)
read_head-append (a ∷ b ∷ c ∷ d ∷ e ∷ f ∷ g ∷ []) r h = absurd (omega arith)
read_head-append (a ∷ b ∷ c ∷ d ∷ e ∷ f ∷ g ∷ i ∷ []) r h = absurd (omega arith)
read_head-append (a ∷ b ∷ c ∷ d ∷ e ∷ f ∷ g ∷ i ∷ j ∷ []) r h = absurd (omega arith)
read_head-append (a ∷ b ∷ c ∷ d ∷ e ∷ f ∷ g ∷ i ∷ j ∷ k ∷ []) r h = absurd (omega arith)
read_head-append (a ∷ b ∷ c ∷ d ∷ e ∷ f ∷ g ∷ i ∷ j ∷ k ∷ l ∷ []) r h = absurd (omega arith)
read_head-append (a ∷ b ∷ c ∷ d ∷ e ∷ f ∷ g ∷ i ∷ j ∷ k ∷ l ∷ o ∷ p) r h = refl

module _ (m : ThriftMessage) (fits : 16 + length m.method + length m.body < 2 ^ 32) where
  decode-part :
      (front back rest : List ℕ)
      → wire m ≡ front ++ back
      → 0 < length back
      → decode (length front) (front ++ rest) new_thrift_message ≡ incomplete
  unfolding decode decode_head
  decode-part front back rest e hb = elim (Bool-cases (ltb (length front) head_size)) [
    | inl t ↦ rw (t, decode) refl
    | inr t ↦
        rw
          (
            t,
            decode,
            read_head-append front rest (not_ltb→le (length front) head_size t)
                ∙ (sym (read_head-append front back (not_ltb→le (length front) head_size t))
                    ∙ (ap read_head (sym e)
                        ∙ (ap read_head (sym (append-nil (wire m))) ∙ read_head-wire m [] fits))),
            decode_head,
            lt→ltb (length front) (add32 (head_size + length m.method + length m.body) 4) shorter,
          )
          refl
  ]
    where
      shorter : length front < add32 (head_size + length m.method + length m.body) 4
      shorter = omega (arith, ap length e, length-append front back, length-wire m [] fits, fits)

  pub wire-IsFrame : IsFrame thrift_decode (frame m)
  unfolding thrift_decode
  wire-IsFrame = record {
    nonempty = omega (arith, length-wire m [] fits);
    whole = λ n rest h _. ap to_place (decode-wire m rest fits n h);
    part = λ front back rest e hb _.
        (new_thrift_message, ap to_place (decode-part front back rest e hb));
  }

All-frames :
    (ms : List ThriftMessage)
    → All (λ m. length (wire m) ≤ max_packet_size - 1024) ms
    → All (IsFrame thrift_decode) (frames ms)
      × All (λ f. length f.bytes ≤ max_packet_size - 1024) (frames ms)
unfolding max_packet_size
All-frames [] a = (tt, tt)
All-frames (m ∷ ms) a =
    let r = All-frames ms a.1 in
    (
      (wire-IsFrame m (omega (arith, a.0, length-append m.method (be32 m.seqid ++ m.body))), r.0),
      (a.0, r.1),
    )

-- Thrift messages that `Encode` wrote, none longer than a packet may be less 1024 bytes, that arrive
-- one behind the other in reads of at most 1024 bytes, cut anywhere, at a connection whose buffer
-- holds nothing, are given to the session in their order as `Decode` makes them, and the connection
-- waits for more with nothing held.
pub handle_reads-wire :
    (fresh : ℕ → List ℕ) (cs : List (List ℕ)) (ms : List ThriftMessage)
    (c : Connection ThriftMessage)
    → IsAllocator fresh
    → All (λ m. length (wire m) ≤ max_packet_size - 1024) ms
    → All (λ bytes. length bytes ≤ 1024) cs
    → IsReading [] c
    → joined cs ≡ stream (frames ms)
    → IsAllRead (frames ms) c (handle_reads thrift_decode fresh cs c)
handle_reads-wire fresh cs ms c alloc l p v es =
    let a = All-frames ms l in
    handle_reads_lem thrift_decode fresh alloc cs (frames ms) c a.0 a.1 p v es
