-- ===== src/Thrift/Roundtrip.antt =====
-- Decoding what `Encode` wrote.
use ape_cpp_server.Buffer.Append.{IsBuffer, IsAllocator, append_lem}
use ape_cpp_server.Buffer.{Buffer, contents}
use ape_cpp_server.Base.{
  leb, ◌==◌, if◌then◌else◌, le→not_ltb, length, drop, length-append, take-append_left,
  drop-append_left, add32, sub32, be32, be32_of, swap32, starts_nocase, read_bytes, ℕ, ◌+◌, ◌*◌,
  ◌/◌, ◌%◌, ◌^◌, ◌≤◌, ◌<◌, ◌≡◌, refl, sym, ap, ◌∙◌, true, false, ◌&&◌, some, List, ◌++◌,
  append_assoc, arith,
}
use ape_cpp_server.Message.{
  Direction, request, response, new_message, is_reply, ThriftMessage, new_thrift_message,
}
use ape_cpp_server.Thrift.{
  ThriftHead, head_size, t_call, t_reply, version_1, packet, read_head, read_word, heartbeat_method,
  direction_of, decode_body, decode_seqid, decode_method, decode_head, decode, head_bytes, encode,
  create_heartbeat,
}

-- the bytes of a message on the wire
abbrev pub wire : ThriftMessage → List ℕ
wire m = head_bytes m ++ (m.method ++ (be32 m.seqid ++ m.body))

decode_lem :
    (len : ℕ) (mem : List ℕ) (msg : ThriftMessage) (head : ThriftHead) (d : Direction)
    (method body : List ℕ) (seqid : ℕ)
    → head_size ≤ len
    → read_head mem ≡ some head
    → add32 head.size 4 ≤ len
    → direction_of head.type_ ≡ some d
    → add32 head_size head.methodlen ≤ len
    → read_bytes head_size head.methodlen mem ≡ some method
    → read_word (drop (add32 head_size head.methodlen) mem) ≡ some seqid
    → (let skip = add32 (add32 head_size head.methodlen) 4 in
        let bodylen = sub32 (add32 head.size 4) skip in read_bytes skip bodylen mem ≡ some body)
    → let skip = add32 (add32 head_size head.methodlen) 4 in
      let bodylen = sub32 (add32 head.size 4) skip in
      decode len mem msg
      ≡ packet (skip + bodylen) (record msg {
        net = record msg.net {
          direction = d;
          isheartbeat =
              if head.methodlen == 17 && starts_nocase heartbeat_method method
              then true
              else msg.net.isheartbeat;
        };
        seqid = seqid;
        method = method;
        body = body;
      })
unfolding decode
decode_lem len mem msg head d method body seqid h12 hh hs hd hm rm rs rb = rw (
  le→not_ltb len head_size h12,
  decode,
  hh,
  decode_head,
  le→not_ltb len (add32 head.size 4) hs,
  hd,
  decode_method,
  le→not_ltb len (add32 head_size head.methodlen) hm,
  rm,
  decode_seqid,
  rs,
  decode_body,
  rb,
)

be32_of-be32 :
    (x : ℕ)
    → x < 2 ^ 32
    → be32_of (x / 16777216 % 256) (x / 65536 % 256) (x / 256 % 256) (x % 256) ≡ x
be32_of-be32 x h = omega arith

read_bytes_lem :
    (at n : ℕ) (pre p rest : List ℕ)
    → at ≡ length pre
    → n ≡ length p
    → read_bytes at n (pre ++ (p ++ rest)) ≡ some p
read_bytes_lem at n pre p rest ea en =
    rw (ea, en, fits, drop-append_left pre (p ++ rest), take-append_left p rest)
  where
    fits : leb (length pre + length p) (length (pre ++ (p ++ rest))) ≡ true
    fits = ground (arith, length-append pre (p ++ rest), length-append p rest)

drop_lem : (n : ℕ) (pre xs : List ℕ) → n ≡ length pre → drop n (pre ++ xs) ≡ xs
drop_lem n pre xs e = rw (e, drop-append_left pre xs)

-- the message that arrives for one that was sent
abbrev pub received : ThriftMessage → ThriftMessage
received m = record {
  net = record new_message {
    direction = if is_reply m.net then response else request;
    isheartbeat =
        if length m.method == 17 && starts_nocase heartbeat_method m.method then true else false;
  };
  seqid = swap32 m.seqid;
  method = m.method;
  body = m.body;
}

module _ (m : ThriftMessage) (rest : List ℕ)
    (fits : 16 + length m.method + length m.body < 2 ^ 32) where
  total : ℕ
  total = head_size + length m.method + length m.body

  abbrev pub head : ThriftHead
  head = record {
    size = head_size + length m.method + length m.body;
    version = version_1;
    type_ = if is_reply m.net then t_reply else t_call;
    methodlen = length m.method;
  }

  abbrev pub mem : List ℕ
  mem = wire m ++ rest

  pub read_head-wire : read_head mem ≡ some head
  read_head-wire = ground arith

  pub length-wire : length (wire m) ≡ 16 + length m.method + length m.body
  length-wire = omega (arith, length-append m.method (be32 m.seqid ++ m.body))

  read_method : read_bytes head_size (length m.method) mem ≡ some m.method
  read_method =
      rw (append_assoc, append_assoc)
        (read_bytes_lem head_size (length m.method) (head_bytes m) m.method _ refl refl)

  read_seqid : read_word (drop (head_size + length m.method) mem) ≡ some (swap32 m.seqid)
  read_seqid =
      ap (λ l. read_word (drop (head_size + length m.method) (head_bytes m ++ l)))
        (append_assoc m.method (be32 m.seqid ++ m.body) rest)
      ∙ ap read_word (
          drop_lem (head_size + length m.method) (head_bytes m ++ m.method)
            (be32 m.seqid ++ (m.body ++ rest)) (omega arith))

  read_body : read_bytes (16 + length m.method) (length m.body) mem ≡ some m.body
  read_body =
      ap (λ l. read_bytes (16 + length m.method) (length m.body) (head_bytes m ++ l))
        (append_assoc m.method (be32 m.seqid ++ m.body) rest
          ∙ sym (append_assoc m.method (be32 m.seqid) (m.body ++ rest)))
      ∙ read_bytes_lem (16 + length m.method) (length m.body)
          (head_bytes m ++ (m.method ++ be32 m.seqid)) m.body rest
          (omega (arith, length-append m.method (be32 m.seqid))) refl

  direction-wire : direction_of head.type_ ≡ some (if is_reply m.net then response else request)
  direction-wire = ground arith

  -- A message shorter than 2 ^ 32 bytes that `Encode` wrote, followed by any bytes, all or part of
  -- them data, is decoded by `Decode` into the same method and body, with the bytes of its sequence
  -- number in the other order, and the place behind it; a message that is no reply arrives as a
  -- request.
  pub decode-wire :
      (len : ℕ)
      → length (wire m) ≤ len
      → decode len (wire m ++ rest) new_thrift_message ≡ packet (length (wire m)) (received m)
  decode-wire len h =
      decode_lem len (wire m ++ rest) new_thrift_message head
        (if is_reply m.net then response else request) m.method m.body (swap32 m.seqid)
        (omega (arith, h, length-wire)) read_head-wire (omega (arith, h, length-wire))
        direction-wire (omega (arith, h, length-wire)) read_method (rw method_end read_seqid)
        (rw (seqid_end, body_size) read_body)
      ∙ ap (λ n. packet n (received m)) (omega (arith, length-wire, seqid_end, body_size))
    where
      method_end : add32 head_size (length m.method) ≡ head_size + length m.method
      method_end = omega (arith, fits)

      seqid_end : add32 (add32 head_size (length m.method)) 4 ≡ 16 + length m.method
      seqid_end = omega (arith, fits)

      body_size :
          sub32 (add32 (head_size + length m.method + length m.body) 4) (16 + length m.method)
          ≡ length m.body
      body_size = omega (arith, fits)

-- `Encode` appends exactly the bytes of the message to the buffer, if the buffer may grow as often
-- as that takes.
pub encode_lem :
    (fresh : ℕ → List ℕ) (m : ThriftMessage) (b : Buffer)
    → IsAllocator fresh
    → IsBuffer b
    → 81 * (b.capacity + length (wire m)) < 2 ^ 32
    → (b' : Buffer) × (encode fresh m b ≡ some b')
      × (contents b' ≡ contents b ++ wire m)
      × IsBuffer b'
unfolding encode
encode_lem fresh m b alloc v h =
    let r1 = append_lem fresh (head_bytes m) b alloc v (omega (arith, size)) in
    let r2 =
      append_lem fresh m.method r1.0 alloc r1.2.valid (omega (arith, size, r1.2.capacity_le)) in
    let r3 =
      append_lem fresh (be32 m.seqid) r2.0 alloc r2.2.valid
        (omega (arith, size, r1.2.capacity_le, r2.2.capacity_le)) in
    let r4 =
      append_lem fresh m.body r3.0 alloc r3.2.valid
        (omega (arith, size, r1.2.capacity_le, r2.2.capacity_le, r3.2.capacity_le)) in
    (
      r4.0,
      rw (r1.1, r2.1, r3.1) r4.1,
      cc (
        r4.2.contents_eq,
        r3.2.contents_eq,
        r2.2.contents_eq,
        r1.2.contents_eq,
        append_assoc (contents b) (head_bytes m) (m.method ++ (be32 m.seqid ++ m.body)),
        append_assoc (contents b ++ head_bytes m) m.method (be32 m.seqid ++ m.body),
        append_assoc ((contents b ++ head_bytes m) ++ m.method) (be32 m.seqid) m.body,
      ),
      r4.2.valid,
    )
  where
    size : length (wire m) ≡ 16 + length m.method + length m.body
    size = omega (arith, length-append m.method (be32 m.seqid ++ m.body))

-- A heartbeat that `CreateHeartBeatMessage` makes is not taken for one where it arrives: its method
-- is not the one that `Decode` looks for.
decode-heartbeat :
    (d : Direction) (rest : List ℕ)
    → (m : ThriftMessage) × (decode
          (length (wire (create_heartbeat d) ++ rest))
          (wire (create_heartbeat d) ++ rest)
          new_thrift_message
        ≡ packet (length (wire (create_heartbeat d))) m)
      × ((create_heartbeat d).net.isheartbeat ≡ true)
      × (m.net.isheartbeat ≡ false)
unfolding create_heartbeat
decode-heartbeat d rest = (
  received (create_heartbeat d),
  decode-wire (create_heartbeat d) rest (omega arith) _
      (omega (arith, length-append (wire (create_heartbeat d)) rest)),
  refl,
  refl,
)
