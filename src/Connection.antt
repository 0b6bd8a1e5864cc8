-- ===== src/Connection.antt =====
-- frame/net/connection.cc: `CConnection` after it is connected. Bytes that the socket read are cut
-- into messages by the parser and passed to the session (`HandleRead`), and the rest waits in the
-- buffer. The parser is a parameter: `Decode` on the length of the data and the memory that it lies
-- in. `session_->OnRead` is an entry of a log; the session does not close the connection in it.
pub mod Read
pub mod Reassembly
pub mod Stream
pub mod Closing
pub mod Backward
mod Tests
use ape_cpp_server.Base.{
  ltb, leb, ◌==◌, if◌then◌else◌, ◌>>=◌, take, drop, sub32, ℕ, zero, suc, ◌+◌, ◌-◌, ◌*◌, Bool, true,
  false, not, ◌&&◌, ◌||◌, Option, none, some, List, [], ◌∷◌, ◌++◌,
}
use ape_cpp_server.Buffer.{Buffer, double_capacity, write, reset_loc, room, contents}

unfoldable pub max_packet_size : ℕ
max_packet_size = 16 * 1024 * 1024

-- What `Decode` returns: NULL, or a place that lies some bytes behind `p`, none perhaps; or a place
-- that lies one byte and some more before `p`; or it reads outside of the memory.
pub data Parsed (M : Type 0) : Type 0 where
  crash : Parsed M
  null : Parsed M
  place : ℕ → M → Parsed M
  before : ℕ → M → Parsed M

-- `reading` is the size that `async_read_some` was called with, if a read is in progress;
-- `writes` the bytes of each `async_write` at its call, `read_log` the messages of
-- `session_->OnRead`; `peer_closes` counts `session_->OnPeerClose`.
pub record Connection (M : Type 0) : Type 0 where
  pub buffer : Buffer
  pub writebuf : Buffer
  pub close_after_write : Bool
  pub writes : List (List ℕ)
  pub connected : Bool
  pub has_session : Bool
  pub is_dealing_read : Bool
  pub socket_open : Bool
  pub reading : Option ℕ
  pub read_log : List M
  pub peer_closes : ℕ

-- How one turn of the loop in `HandleRead` ends: in a read outside of the memory, with a return, with
-- the end of the loop at `p`, or with the next turn at `p`. The whole loop may also never end.
pub data Turn (M : Type 0) : Type 0 where
  crashes : Turn M
  returns : Connection M → Turn M
  ends : ℕ → Connection M → Turn M
  goes_on : ℕ → Connection M → Turn M
  spins : Turn M

-- The move of the rest to the front, and the next read.
pub keep_rest : ℕ → Buffer → Buffer
keep_rest p b =
    if ltb p b.loc
    then record b {
      base = take (b.loc - p) (drop p b.base) ++ drop (b.loc - p) b.base;
      loc = b.loc - p;
    }
    else reset_loc 0 b

pub make_room : (ℕ → List ℕ) → Buffer → Buffer
make_room fresh b = if leb (room b) 1024 then double_capacity fresh b else b

module _ {M : Type 0} where
  -- `CConnection::OnPeerClose`
  pub peer_close : Connection M → Connection M
  peer_close c =
      let c' = record c { is_dealing_read = false } in
      let d =
        if c'.connected && c'.has_session
        then record c' { peer_closes = c'.peer_closes + 1; has_session = false }
        else c' in
      if d.connected then record d { socket_open = false; connected = false } else d

  -- `AsyncReadInner`, without the note of the remote address
  pub async_read_inner : Connection M → Connection M
  async_read_inner c =
      if not c.connected || c.is_dealing_read
      then c
      else record c { reading = some (sub32 (room c.buffer) 1) }

  -- `AsyncRead`, when the posted call has run
  pub async_read : Connection M → Connection M
  async_read c = async_read_inner (record c { connected = true })

  -- `AsyncWrite` over the parser's `Encode`; `none` is a write outside of the memory.
  unfoldable pub async_write :
      (M → Buffer → Option Buffer) → M → Bool → Connection M → Option (Connection M)
  async_write encode m close c =
      if not c.connected
      then some c
      else encode m c.writebuf >>= (λ b. some (record c {
        writebuf = b;
        close_after_write = close;
        writes = c.writes ++ (contents b ∷ []);
      }))

  -- `HandleWrite`; `out_queue_` is always empty.
  pub handle_write : Bool → Connection M → Connection M
  unfolding peer_close
  handle_write err c = if err || c.close_after_write then peer_close c else c

  -- The branches after `Decode`. From a place before the buffer the next turn's `Decode` would read.
  pub after_decode : ℕ → Parsed M → Connection M → Turn M
  unfolding peer_close
  after_decode p crash c = crashes
  after_decode p null c = returns (peer_close c)
  after_decode p (place n m) c =
      if ltb c.buffer.loc (p + n)
      then returns (peer_close c)
      else if n == 0
      then ends p c
      else if c.has_session
      then goes_on (p + n) (record c { read_log = c.read_log ++ (m ∷ []) })
      else returns (peer_close c)
  after_decode p (before n m) c =
      if not c.has_session
      then returns (peer_close c)
      else if leb p n
      then crashes
      else goes_on (p - suc n) (record c { read_log = c.read_log ++ (m ∷ []) })

  pub finish_read : (ℕ → List ℕ) → ℕ → Connection M → Connection M
  finish_read fresh p c =
      async_read_inner
        (record c { is_dealing_read = false; buffer = make_room fresh (keep_rest p c.buffer) })

module _ {M : Type 0} (decode : ℕ → List ℕ → Parsed M) where
  pub turn : ℕ → Connection M → Turn M
  turn p c =
      if ltb p c.buffer.loc
      then after_decode p (decode (c.buffer.loc - p) (drop p c.buffer.base))
          (record c { is_dealing_read = true })
      else ends p c

  -- The loop, with as many turns as there are bytes. Of the connection `Decode` gets the buffer alone,
  -- which the loop leaves as it is: a loop that has not ended in as many turns meets a place a second
  -- time and never ends.
  pub deal : ℕ → ℕ → Connection M → Turn M
  deal zero p c = if ltb p c.buffer.loc then spins else ends p c
  deal (suc n) p c = elim (turn p c) [
    | crashes ↦ crashes
    | returns c' ↦ returns c'
    | ends q c' ↦ ends q c'
    | goes_on q c' ↦ deal n q c'
    | spins ↦ spins
  ]

  -- The end of `HandleRead`; `none` is a read outside of the memory, or no end at all.
  pub after_loop : (ℕ → List ℕ) → Turn M → Option (Connection M)
  after_loop fresh crashes = none
  after_loop fresh (returns c) = some c
  after_loop fresh (ends p c) = some (finish_read fresh p c)
  after_loop fresh (goes_on p c) = some (finish_read fresh p c)
  after_loop fresh spins = none

  pub deal_packets : (ℕ → List ℕ) → Connection M → Option (Connection M)
  deal_packets fresh c =
      if ltb max_packet_size c.buffer.loc
      then some (peer_close c)
      else after_loop fresh (deal c.buffer.loc 0 c)

  -- `HandleRead` with the bytes that the socket wrote to `buffer_.top ()`, or an error
  pub handle_read : (ℕ → List ℕ) → Option (List ℕ) → Connection M → Option (Connection M)
  handle_read fresh none c =
      some (peer_close (record c { buffer = reset_loc 0 c.buffer; reading = none }))
  handle_read fresh (some bytes) c =
      write bytes c.buffer
      >>= (λ b. deal_packets fresh (record c { buffer = b; connected = true; reading = none }))

  -- Reads one after the other.
  pub handle_reads : (ℕ → List ℕ) → List (List ℕ) → Connection M → Option (Connection M)
  handle_reads fresh [] c = some c
  handle_reads fresh (bytes ∷ rest) c =
      handle_read fresh (some bytes) c >>= (λ c'. handle_reads fresh rest c')
