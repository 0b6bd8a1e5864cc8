-- ===== src/Thrift/Tests.antt =====
-- The theorems on thrift frames at concrete inputs, and runs of the code.
use ape_cpp_server.Base.{
  length, take, drop, replicate, codes, ℕ, zero, suc, ◌≡◌, refl, ap, true, false, some, List, [],
  ◌∷◌, ◌++◌, arith,
}
use ape_cpp_server.Message.{new_message, ThriftMessage, new_thrift_message}
use ape_cpp_server.Buffer.{Buffer, contents}
use ape_cpp_server.Thrift.{ThriftHead, version_1, incomplete, packet, read_head, decode, encode}
use ape_cpp_server.Thrift.Roundtrip.{wire, received, decode-wire}
use ape_cpp_server.Connection.{max_packet_size, Connection, async_write, handle_reads}
use ape_cpp_server.Connection.Reassembly.{IsReading}
use ape_cpp_server.Connection.Stream.{IsAllRead, handle_reads_lem}
use ape_cpp_server.Thrift.Frames.{thrift_decode, frames, wire-IsFrame, handle_reads-wire}
use ape_cpp_server.Thrift.Sending.{async_write_resends}
use ape_cpp_server.Thrift.Bounds.{IsConsistent, IsWithin, decode-IsWithin}

abbrev ping : ThriftMessage
ping = record { net = new_message; seqid = 7; method = codes "Ping"; body = 1 ∷ 2 ∷ 0 ∷ [] }

-- The bytes that arrive with the next packet's first byte behind them.
ping_arrives :
    decode 24 (wire ping ++ (9 ∷ [])) new_thrift_message
    ≡ packet 23 (record ping { seqid = 0x07000000 })
unfolding decode
ping_arrives = refl

ping_incomplete : decode 22 (wire ping) new_thrift_message ≡ incomplete
unfolding decode
ping_incomplete = refl

decode-wire_example :
    decode 24 (wire ping ++ (9 ∷ [])) new_thrift_message
    ≡ packet (length (wire ping)) (received ping)
decode-wire_example = decode-wire ping (9 ∷ []) (omega arith) 24 (omega arith)

-- memory that is handed out full of zeros
abbrev zeros : ℕ → List ℕ
zeros n = replicate n 0

length-zeros : (n : ℕ) → length (zeros n) ≡ n
length-zeros zero = refl
length-zeros (suc n) = ap suc (length-zeros n)

abbrev small_buffer : Buffer
small_buffer = record { base = 5 ∷ 6 ∷ 0 ∷ []; capacity = 3; loc = 2 }

-- a head that announces 12 bytes in all, with an empty method
abbrev short_packet : List ℕ
short_packet = 0 ∷ 0 ∷ 0 ∷ 8 ∷ 128 ∷ 1 ∷ 0 ∷ 1 ∷ 0 ∷ 0 ∷ 0 ∷ 0 ∷ []

abbrev short_head : ThriftHead
short_head = record { size = 8; version = version_1; type_ = 1; methodlen = 0 }

ping-IsConsistent : (h : ThriftHead) → read_head (wire ping) ≡ some h → IsConsistent h
ping-IsConsistent h e = ground arith

decode-IsWithin_example : IsWithin 23 (decode 23 (wire ping) new_thrift_message)
decode-IsWithin_example =
    decode-IsWithin 23 (wire ping) new_thrift_message (omega arith) ping-IsConsistent

-- A connection with new buffers.
abbrev idle : Connection ThriftMessage
idle = record {
  buffer = record { base = zeros 10240; capacity = 10240; loc = 0 };
  writebuf = record { base = zeros 10240; capacity = 10240; loc = 0 };
  close_after_write = false;
  writes = [];
  connected = true;
  has_session = true;
  is_dealing_read = false;
  socket_open = true;
  reading = some 10239;
  read_log = [];
  peer_closes = 0;
}

idle-IsReading : IsReading [] idle
idle-IsReading = record {
  connected = refl;
  session = refl;
  valid = record { allocated = length-zeros 10240; filled = omega arith };
  held = refl;
  space = omega arith;
  bounded = omega arith;
  large = omega arith;
}

-- `ping` in two pieces
abbrev pieces : List (List ℕ)
pieces = take 9 (wire ping) ∷ drop 9 (wire ping) ∷ []

handle_reads-wire_example :
    IsAllRead (frames (ping ∷ [])) idle (handle_reads thrift_decode zeros pieces idle)
unfolding max_packet_size
handle_reads-wire_example =
    handle_reads-wire zeros pieces (ping ∷ []) idle length-zeros (omega arith, tt)
      (omega arith, (omega arith, tt)) idle-IsReading refl

handle_reads_lem_example :
    IsAllRead (frames (ping ∷ [])) idle (handle_reads thrift_decode zeros pieces idle)
unfolding max_packet_size
handle_reads_lem_example =
    handle_reads_lem thrift_decode zeros length-zeros pieces (frames (ping ∷ [])) idle
      (wire-IsFrame ping (omega arith), tt) (omega arith, tt) (omega arith, (omega arith, tt))
      idle-IsReading refl

async_write_resends_example :
    (c' : Connection ThriftMessage) × (async_write (encode zeros) ping false idle ≡ some c')
    × (c'.writes ≡ idle.writes ++ ((contents idle.writebuf ++ wire ping) ∷ []))
    × (contents c'.writebuf ≡ contents idle.writebuf ++ wire ping)
async_write_resends_example =
    async_write_resends zeros ping false idle length-zeros refl
      (record { allocated = length-zeros 10240; filled = omega arith }) (omega arith)
