-- ===== src/Connection/Backward.antt =====
-- A parser that returns a place before the buffer.
use ape_cpp_server.Base.{
  lt→ltb, le→not_ltb, length, drop, length-take, zero, take-drop, ℕ, suc, ◌-◌, ◌≤◌, ◌<◌, ◌≡◌, refl,
  sym, ap, ◌∙◌, true, none, some, List, [], ◌++◌, arith,
}
use ape_cpp_server.Buffer.{Buffer, write, room, contents}
use ape_cpp_server.Buffer.Append.{Appended, write-Appended}
use ape_cpp_server.Connection.{
  max_packet_size, Parsed, before, Connection, crashes, after_decode, turn, deal, after_loop,
  deal_packets, handle_read,
}
use ape_cpp_server.Connection.Reassembly.{IsReading}

before-crashes :
    {M : Type 0} (n : ℕ) (m : M) (c : Connection M)
    → c.has_session ≡ true
    → after_decode 0 (before n m) c ≡ crashes
unfolding after_decode
before-crashes n m c h = ground (arith, h)

-- what the socket has written before `HandleRead` deals with it
abbrev pub filled : {M : Type 0} → Buffer → Connection M → Connection M
filled b c = record c { buffer = b; connected = true; reading = none }

module _ {M : Type 0} (decode : ℕ → List ℕ → Parsed M) (fresh : ℕ → List ℕ) where
  sub_zero : (k : ℕ) → k - 0 ≡ k
  sub_zero k = omega arith

  turn-before :
      (n : ℕ) (m : M) (b : Buffer) (c : Connection M)
      → c.has_session ≡ true
      → 0 < b.loc
      → decode b.loc b.base ≡ before n m
      → turn decode 0 (filled b c) ≡ crashes
  unfolding turn
  turn-before n m b c hs h e =
      rw (turn, lt→ltb 0 b.loc h, ap (λ k. decode k b.base) (sub_zero b.loc) ∙ e)
        (before-crashes n m (record (filled b c) { is_dealing_read = true }) hs)

  -- A parser that goes back from the first byte ends the loop, and `HandleRead`, in a read before
  -- the buffer.
  pub handle_read-before :
      (n : ℕ) (m : M) (bytes : List ℕ) (c : Connection M)
      → IsReading [] c
      → 0 < length bytes
      → length bytes < room c.buffer
      → length bytes ≤ max_packet_size
      → ((rest : List ℕ) → decode (length bytes) (bytes ++ rest) ≡ before n m)
      → (b : Buffer) × (write bytes c.buffer ≡ some b)
        × (deal decode b.loc 0 (filled b c) ≡ crashes)
        × (handle_read decode fresh (some bytes) c ≡ none)
  unfolding handle_read deal_packets max_packet_size room after_loop deal turn
  handle_read-before n m bytes c v h0 hb hm hd = (
    w.0,
    w.1,
    ended w.0.loc counted,
    rw
        (
          handle_read,
          w.1,
          deal_packets,
          le→not_ltb max_packet_size w.0.loc (omega (arith, counted, hm)),
          ended w.0.loc counted,
        )
        refl,
  )
    where
      w :
          (b : Buffer) × (write bytes c.buffer ≡ some b)
          × Appended bytes c.buffer b
          × (b.capacity ≡ c.buffer.capacity)
      w =
          write-Appended bytes c.buffer v.valid (omega (arith, v.space, v.valid.filled, v.bounded))
            (omega (arith, v.bounded))

      now : contents w.0 ≡ bytes
      now = w.2.contents_eq ∙ ap (λ l. l ++ bytes) v.held

      counted : w.0.loc ≡ length bytes
      counted = omega (
        arith,
        ap length now,
        length-take w.0.loc w.0.base,
        w.2.valid.allocated,
        w.2.valid.filled,
      )

      seen : decode w.0.loc w.0.base ≡ before n m
      seen =
          ap (decode w.0.loc)
            (sym (take-drop w.0.loc w.0.base) ∙ ap (λ l. l ++ drop w.0.loc w.0.base) now)
          ∙ (ap (λ k. decode k (bytes ++ drop w.0.loc w.0.base)) counted
              ∙ hd (drop w.0.loc w.0.base))

      turned : turn decode 0 (filled w.0 c) ≡ crashes
      turned = turn-before n m w.0 c v.session (omega (arith, counted, h0)) seen

      ended : (k : ℕ) → k ≡ length bytes → deal decode k 0 (filled w.0 c) ≡ crashes
      ended zero e = absurd (omega (arith, e, h0))
      ended (suc k) e = rw (deal, turned) refl
