-- ===== src/Thrift.antt =====
-- frame/protocol/thriftparser.cc: `CThriftParser`, the framing of thrift calls. The machine is
-- little-endian. `Decode (buf, len)` reads the memory from `buf` on, of which `len` bytes are the
-- data; a read out of the memory is a fault.
pub mod Roundtrip
pub mod Bounds
pub mod Frames
pub mod Sending
mod Tests
use ape_cpp_server.Base.{
  ltb, ◌==◌, if◌then◌else◌, ◌>>=◌, length, drop, add32, sub32, be32, be16, be32_of, le32_of, codes,
  starts_nocase, read_bytes, ℕ, ◌+◌, ◌*◌, ◌%◌, ◌^◌, true, ◌&&◌, ◌||◌, Option, none, some, List, [],
  ◌∷◌, ◌++◌,
}
use ape_cpp_server.Message.{Direction, request, response, new_message, is_reply, ThriftMessage}
use ape_cpp_server.Buffer.{Buffer, append}

-- `SThriftHead` after `ntohl` and `ntohs`, 12 bytes on the wire
pub record ThriftHead : Type 0 where
  pub size : ℕ
  pub version : ℕ
  pub type_ : ℕ
  pub methodlen : ℕ

abbrev pub head_size : ℕ
head_size = 12

abbrev pub t_call : ℕ
t_call = 1

abbrev pub t_reply : ℕ
t_reply = 2

abbrev pub t_oneway : ℕ
t_oneway = 4

abbrev pub version_1 : ℕ
version_1 = 0x8001

-- What `Decode` comes to: NULL, `buf` itself, or a message with the place behind it.
pub data Decoded : Type 0 where
  fault : Decoded
  bad : Decoded
  incomplete : Decoded
  packet : ℕ → ThriftMessage → Decoded

abbrev pub read_head : List ℕ → Option ThriftHead
read_head (a ∷ b ∷ c ∷ d ∷ e ∷ f ∷ g ∷ h ∷ i ∷ j ∷ k ∷ l ∷ _) = some (record {
  size = be32_of a b c d;
  version = e * 256 + f;
  type_ = g * 256 + h;
  methodlen = be32_of i j k l;
})
read_head _ = none

-- `*((uint32_t *)(buf + skip))`
abbrev pub read_word : List ℕ → Option ℕ
read_word (a ∷ b ∷ c ∷ d ∷ _) = some (le32_of a b c d)
read_word _ = none

abbrev pub heartbeat_method : List ℕ
heartbeat_method = codes "AllsparkHeartBeat"

abbrev pub direction_of : ℕ → Option Direction
direction_of t =
    if t == t_call || t == t_oneway
    then some request
    else if t == t_reply
    then some response
    else none

-- the call of `body.assign`
pub decode_body : ℕ → ℕ → ℕ → List ℕ → ThriftMessage → Decoded
decode_body skip size seqid mem msg =
    let bodylen = sub32 (add32 size 4) skip in
    elim (read_bytes skip bodylen mem) [
      | none ↦ fault
      | some body ↦ packet (skip + bodylen) (record msg { seqid = seqid; body = body })
    ]

-- the sequence id, which is not passed through `ntohl`
pub decode_seqid : ℕ → ThriftHead → List ℕ → ThriftMessage → Decoded
unfolding decode_body
decode_seqid skip head mem msg = elim (read_word (drop skip mem)) [
  | none ↦ fault
  | some seqid ↦ decode_body (add32 skip 4) head.size seqid mem msg
]

abbrev pub with_direction : Direction → ThriftMessage → ThriftMessage
with_direction d msg = record msg { net = record msg.net { direction = d } }

-- the method's name, and whether it is the heartbeat's
abbrev pub with_method : ThriftHead → List ℕ → ThriftMessage → ThriftMessage
with_method head method msg = record msg {
  method = method;
  net = record msg.net {
    isheartbeat =
        if head.methodlen == 17 && starts_nocase heartbeat_method method
        then true
        else msg.net.isheartbeat;
  };
}

pub decode_method : ℕ → ThriftHead → List ℕ → ThriftMessage → Decoded
unfolding decode_seqid
decode_method len head mem msg =
    if ltb len (add32 head_size head.methodlen)
    then bad
    else elim (read_bytes head_size head.methodlen mem) [
      | none ↦ fault
      | some method ↦
          decode_seqid (add32 head_size head.methodlen) head mem (with_method head method msg)
    ]

pub decode_head : ℕ → ThriftHead → List ℕ → ThriftMessage → Decoded
unfolding decode_method
decode_head len head mem msg =
    if ltb len (add32 head.size 4) then incomplete else elim (direction_of head.type_) [
      | none ↦ bad
      | some d ↦ decode_method len head mem (with_direction d msg)
    ]

pub decode : ℕ → List ℕ → ThriftMessage → Decoded
unfolding decode_head
decode len mem msg =
    if ltb len head_size
    then incomplete
    else elim (read_head mem) [ none ↦ fault | some head ↦ decode_head len head mem msg ]

-- the bytes of the head that `Encode` builds
abbrev pub head_bytes : ThriftMessage → List ℕ
head_bytes m =
    be32 ((head_size + length m.method + length m.body) % 2 ^ 32)
    ++ (be16 version_1
        ++ (be16 (if is_reply m.net then t_reply else t_call) ++ be32 (length m.method % 2 ^ 32)))

-- `Encode`: four calls of `append`.
pub encode : (ℕ → List ℕ) → ThriftMessage → Buffer → Option Buffer
encode fresh m out = do
  b ← append fresh (head_bytes m) out
  c ← append fresh m.method b
  d ← append fresh (be32 m.seqid) c
  append fresh m.body d

-- `CreateHeartBeatMessage`
pub create_heartbeat : Direction → ThriftMessage
create_heartbeat d = record {
  net = record new_message { direction = d; isheartbeat = true };
  seqid = 0;
  method = codes "HeartBeat";
  body = [];
}
