-- ===== src/Thrift/Sending.antt =====
-- `CConnection::AsyncWrite` with `CThriftParser`.
use ape_cpp_server.Base.{
  length, ℕ, ◌+◌, ◌*◌, ◌^◌, ◌<◌, ◌≡◌, refl, ap, Bool, true, some, List, [], ◌∷◌, ◌++◌,
}
use ape_cpp_server.Message.{ThriftMessage}
use ape_cpp_server.Buffer.{contents}
use ape_cpp_server.Buffer.Append.{IsBuffer, IsAllocator}
use ape_cpp_server.Connection.{Connection, async_write}
use ape_cpp_server.Thrift.{encode}
use ape_cpp_server.Thrift.Roundtrip.{wire, encode_lem}

-- `AsyncWrite` on a connection that is connected passes all the bytes of its write buffer to the
-- socket, those of the messages written before and then those of this one, and keeps them all in the
-- buffer, if the buffer may grow as often as that takes.
pub async_write_resends :
    (fresh : ℕ → List ℕ) (m : ThriftMessage) (close : Bool) (c : Connection ThriftMessage)
    → IsAllocator fresh
    → c.connected ≡ true
    → IsBuffer c.writebuf
    → 81 * (c.writebuf.capacity + length (wire m)) < 2 ^ 32
    → (c' : Connection ThriftMessage) × (async_write (encode fresh) m close c ≡ some c')
      × (c'.writes ≡ c.writes ++ ((contents c.writebuf ++ wire m) ∷ []))
      × (contents c'.writebuf ≡ contents c.writebuf ++ wire m)
unfolding async_write
async_write_resends fresh m close c alloc hc v h =
    let r = encode_lem fresh m c.writebuf alloc v h in
    (
      record c {
        writebuf = r.0;
        close_after_write = close;
        writes = c.writes ++ (contents r.0 ∷ []);
      },
      rw (async_write, hc, r.1) refl,
      ap (λ l. c.writes ++ (l ∷ [])) r.2,
      r.2,
    )
