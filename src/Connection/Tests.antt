-- ===== src/Connection/Tests.antt =====
-- The theorems on connections at concrete inputs, and runs of the code, with a parser of messages of
-- one length byte and that many bytes.
use ape_cpp_server.Base.{
  ltb, ◌==◌, if◌then◌else◌, take, replicate, ℕ, ◌+◌, ◌≡◌, refl, true, false, Option, none, some,
  List, [], ◌∷◌,
}
use ape_cpp_server.Buffer.{double_capacity, reset_loc, room}
use ape_cpp_server.Connection.{
  max_packet_size, Parsed, crash, null, place, Connection, keep_rest, make_room, peer_close,
  async_read_inner, after_decode, finish_read, turn, deal, after_loop, deal_packets, handle_read,
  handle_reads,
}
use ape_cpp_server.Connection.Closing.{told, handle_read-told}

abbrev counted : ℕ → List ℕ → Parsed (List ℕ)
counted n [] = crash
counted n (k ∷ l) =
    if k == 255 then null else if ltb n (k + 1) then place 0 [] else place (k + 1) (take k l)

abbrev zeros : ℕ → List ℕ
zeros n = replicate n 0

abbrev idle : Connection (List ℕ)
idle = record {
  buffer = record { base = zeros 8; capacity = 8; loc = 0 };
  writebuf = record { base = zeros 4; capacity = 4; loc = 0 };
  close_after_write = false;
  writes = [];
  connected = true;
  has_session = true;
  is_dealing_read = false;
  socket_open = true;
  reading = some 7;
  read_log = [];
  peer_closes = 0;
}

abbrev logged : Option (Connection (List ℕ)) → List (List ℕ) × ℕ
logged none = ([], 9)
logged (some c) = (c.read_log, c.peer_closes)

-- Two messages in three pieces.
pieces :
    logged (handle_reads counted zeros ((2 ∷ 7 ∷ []) ∷ (8 ∷ 1 ∷ []) ∷ (9 ∷ []) ∷ []) idle)
    ≡ ((7 ∷ 8 ∷ []) ∷ (9 ∷ []) ∷ [], 0)
unfolding handle_reads handle_read deal_packets max_packet_size after_loop deal turn after_decode
    finish_read async_read_inner make_room room keep_rest double_capacity
pieces = refl

-- An illegal packet behind a message.
illegal : logged (handle_reads counted zeros ((1 ∷ 7 ∷ 255 ∷ []) ∷ []) idle) ≡ ((7 ∷ []) ∷ [], 1)
unfolding handle_reads handle_read deal_packets max_packet_size after_loop deal turn after_decode
    peer_close
illegal = refl

abbrev closed_down : Connection (List ℕ)
closed_down = record idle {
  connected = false;
  has_session = false;
  socket_open = false;
  reading = none;
  peer_closes = 1;
}

failed_read : handle_read counted zeros none idle ≡ some closed_down
unfolding handle_read reset_loc peer_close
failed_read = refl

handle_read-told_example : told closed_down ≡ told idle
handle_read-told_example = handle_read-told counted zeros none idle closed_down failed_read
