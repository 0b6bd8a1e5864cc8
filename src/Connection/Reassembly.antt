-- ===== src/Connection/Reassembly.antt =====
-- `HandleRead` on the whole: the buffer between two reads, and a stream of messages in any pieces.
use mathlib.Core.Path.{subst}
use ape_cpp_server.Base.{
  leb, lt→ltb, le→not_ltb, Bool-cases, length, take, drop, All, length-append, length-take,
  length-drop, drop-append_left, take-drop, sub32, ℕ, ◌+◌, ◌-◌, ◌^◌, ◌≤◌, ◌<◌, ◌≡◌, refl, sym, ap,
  ◌∙◌, inl, inr, true, false, Option, none, some, List, [], ◌∷◌, ◌++◌, append_assoc, arith,
}
use ape_cpp_server.Buffer.{Buffer, write, reset_loc, room, contents}
use ape_cpp_server.Buffer.Append.{
  IsBuffer, IsAllocator, take-append_at, Appended, write-Appended, double-IsBuffer,
}
use ape_cpp_server.Connection.{
  max_packet_size, Parsed, Connection, Turn, keep_rest, make_room, async_read_inner, finish_read,
  deal, after_loop, deal_packets, handle_read,
}
use ape_cpp_server.Connection.Read.{Frame, IsFrame, stream, messages, Waits, Dealt, deal-Dealt}

-- A connection that waits for bytes, with `xs` read and not yet taken: connected, with room for the
-- next read, which is under way.
pub record IsReading {M : Type 0} (xs : List ℕ) (c : Connection M) : Type 0 where
  pub connected : c.connected ≡ true
  pub session : c.has_session ≡ true
  pub valid : IsBuffer c.buffer
  pub held : contents c.buffer ≡ xs
  pub space : 1024 < c.buffer.capacity - c.buffer.loc
  pub bounded : c.buffer.capacity ≤ 2 ^ 26
  pub large : 10240 ≤ c.buffer.capacity

length-held :
    {M : Type 0} (xs : List ℕ) (c : Connection M) → IsReading xs c → length xs ≡ c.buffer.loc
length-held xs c v = omega (
  arith,
  ap length v.held,
  length-take c.buffer.loc c.buffer.base,
  v.valid.allocated,
  v.valid.filled,
)

split-contents : (b : Buffer) → b.base ≡ contents b ++ drop b.loc b.base
split-contents b = sym (take-drop b.loc b.base)

-- The buffer after a read: the rest moved to the front, with room again.
pub record IsReady (xs : List ℕ) (b : Buffer) : Type 0 where
  pub valid : IsBuffer b
  pub held : contents b ≡ xs
  pub space : 1024 < b.capacity - b.loc
  pub bounded : b.capacity ≤ 2 ^ 26
  pub large : 10240 ≤ b.capacity

pub record IsKept (xs : List ℕ) (cap : ℕ) (b : Buffer) : Type 0 where
  pub valid : IsBuffer b
  pub held : contents b ≡ xs
  pub same : b.capacity ≡ cap
  pub count : b.loc ≡ length xs

keep_rest-IsKept :
    (pre xs junk : List ℕ) (b : Buffer)
    → IsBuffer b
    → b.base ≡ pre ++ (xs ++ junk)
    → b.loc ≡ length pre + length xs
    → IsKept xs b.capacity (keep_rest (length pre) b)
unfolding keep_rest reset_loc
keep_rest-IsKept pre [] junk b v eb el =
    rw (keep_rest, le→not_ltb (length pre) b.loc (omega (arith, el)))
      record {
        valid = record { allocated = v.allocated; filled = omega arith };
        held = refl;
        same = refl;
        count = refl;
      }
keep_rest-IsKept pre (x ∷ xs) junk b v eb el =
    rw (keep_rest, lt→ltb (length pre) b.loc (omega (arith, el)))
      record {
        valid = record {
          allocated = omega (
            arith,
            v.allocated,
            v.filled,
            ap length moved,
            length-append (x ∷ xs) (drop (b.loc - length pre) b.base),
            length-drop (b.loc - length pre) b.base,
            el,
          );
          filled = omega (arith, v.filled);
        };
        held =
            ap (take (b.loc - length pre)) moved
            ∙ take-append_at (b.loc - length pre) (x ∷ xs) (drop (b.loc - length pre) b.base)
                (omega (arith, el));
        same = refl;
        count = omega (arith, el);
      }
  where
    moved :
        take (b.loc - length pre) (drop (length pre) b.base) ++ drop (b.loc - length pre) b.base
        ≡ (x ∷ xs) ++ drop (b.loc - length pre) b.base
    moved =
        ap (λ l. l ++ drop (b.loc - length pre) b.base)
          (ap (λ l. take (b.loc - length pre) (drop (length pre) l)) eb
            ∙ (ap (take (b.loc - length pre)) (drop-append_left pre ((x ∷ xs) ++ junk))
                ∙ take-append_at (b.loc - length pre) (x ∷ xs) junk (omega (arith, el))))

make_room-IsReady :
    (fresh : ℕ → List ℕ) (xs : List ℕ) (cap : ℕ) (b : Buffer)
    → IsAllocator fresh
    → IsKept xs cap b
    → 10240 ≤ cap
    → cap ≤ 2 ^ 26
    → length xs ≤ 2 ^ 24
    → IsReady xs (make_room fresh b)
unfolding make_room room
make_room-IsReady fresh xs cap b alloc k h0 h1 h2 = elim (Bool-cases (leb (room b) 1024)) [
  | inl e ↦
      let g = double-IsBuffer fresh b alloc k.valid (omega (arith, k.same)) in
      rw (make_room, e)
        record {
          valid = g.0;
          held = g.1 ∙ k.held;
          space = ground (arith, g.2, g.3, k.same, k.count, k.valid.filled, e);
          bounded = ground (arith, g.2, k.same, k.count, k.valid.filled, e);
          large = omega (arith, g.2, k.same);
        }
  | inr e ↦
      rw (make_room, e)
        record {
          valid = k.valid;
          held = k.held;
          space = ground (arith, k.same, k.count, k.valid.filled, e);
          bounded = omega (arith, k.same);
          large = omega (arith, k.same);
        }
]

-- After a read: the messages that were complete have gone to the session in order, and the rest of
-- the bytes waits for the next read, which is under way.
pub record Advanced {M : Type 0} (fs : List (Frame M)) (ys : List ℕ) (c : Connection M)
    (o : Option (Connection M)) : Type 0 where
  pub taken : List (Frame M)
  pub left : List (Frame M)
  pub xs : List ℕ
  pub last : Connection M
  pub returned : o ≡ some last
  pub reading_on : IsReading xs last
  pub frames_eq : fs ≡ taken ++ left
  pub bytes_eq : xs ++ ys ≡ stream left
  pub waits : Waits left xs
  pub log_eq : last.read_log ≡ c.read_log ++ messages taken
  pub asked : last.reading ≡ some (sub32 (room last.buffer) 1)

module _ {M : Type 0} (decode : ℕ → List ℕ → Parsed M) (fresh : ℕ → List ℕ)
    (alloc : IsAllocator fresh) where
  finish-Advanced :
      (fs : List (Frame M)) (zs ys : List ℕ) (c : Connection M) (t : Turn M)
      → IsBuffer c.buffer
      → 10240 ≤ c.buffer.capacity
      → c.buffer.capacity ≤ 2 ^ 26
      → c.buffer.loc ≤ 2 ^ 24
      → c.connected ≡ true
      → c.has_session ≡ true
      → Dealt fs ys c t
      → Advanced fs ys c (after_loop decode fresh t)
  unfolding after_loop finish_read async_read_inner room
  finish-Advanced fs zs ys c t v h0 h1 h2 hc hs d = record {
    taken = d.taken;
    left = d.left;
    xs = d.xs;
    last = after;
    returned =
        ap (after_loop decode fresh) d.ends_at
        ∙ rw (after_loop, finish_read, async_read_inner, d.connected_eq, hc) refl;
    reading_on = record {
      connected = d.connected_eq ∙ hc;
      session = d.session_eq ∙ hs;
      valid = r.valid;
      held = r.held;
      space = r.space;
      bounded = r.bounded;
      large = r.large;
    };
    frames_eq = d.frames_eq;
    bytes_eq = d.bytes_eq;
    waits = d.waits;
    log_eq = d.log_eq;
    asked = refl;
  }
    where
      r : IsReady d.xs (make_room fresh (keep_rest (length d.pre) d.last.buffer))
      r =
          make_room-IsReady fresh d.xs d.last.buffer.capacity
            (keep_rest (length d.pre) d.last.buffer) alloc
            (keep_rest-IsKept d.pre d.xs d.junk d.last.buffer (subst IsBuffer (sym d.buffer_eq) v)
              d.base_eq d.loc_eq)
            (omega (arith, ap (λ b. b.capacity) d.buffer_eq))
            (omega (arith, ap (λ b. b.capacity) d.buffer_eq))
            (omega (arith, ap (λ b. b.loc) d.buffer_eq, d.loc_eq))

      after : Connection M
      after = record d.last {
        is_dealing_read = false;
        buffer = make_room fresh (keep_rest (length d.pre) d.last.buffer);
        reading = some (sub32 (room (make_room fresh (keep_rest (length d.pre) d.last.buffer))) 1);
      }

  -- A read of any size that fits, while the bytes waiting and the new ones are at most a packet.
  pub handle_read_lem :
      (fs : List (Frame M)) (xs bytes ys : List ℕ) (c : Connection M)
      → All (IsFrame decode) fs
      → IsReading xs c
      → length bytes < room c.buffer
      → length xs + length bytes ≤ max_packet_size
      → xs ++ (bytes ++ ys) ≡ stream fs
      → Advanced fs ys c (handle_read decode fresh (some bytes) c)
  unfolding handle_read deal_packets max_packet_size room
  handle_read_lem fs xs bytes ys c a v hb hm es = subst (Advanced fs ys c) (sym opened) (
      again (
        finish-Advanced fs (xs ++ bytes) ys filled (deal decode w.0.loc 0 filled) w.2.valid
          (omega (arith, w.3, v.large)) (omega (arith, w.3, v.bounded)) small refl v.session
          (deal-Dealt decode fs w.0.loc [] (xs ++ bytes) (drop w.0.loc w.0.base) ys filled a
            v.session (omega (arith, counted)) (append_assoc xs bytes ys ∙ es)
            (split-contents w.0 ∙ ap (λ l. l ++ drop w.0.loc w.0.base) now)
            (omega (arith, counted)))))
    where
      w :
          (b : Buffer) × (write bytes c.buffer ≡ some b)
          × Appended bytes c.buffer b
          × (b.capacity ≡ c.buffer.capacity)
      w =
          write-Appended bytes c.buffer v.valid (omega (arith, v.space, v.valid.filled, v.bounded))
            (omega (arith, v.bounded))

      filled : Connection M
      filled = record c { buffer = w.0; connected = true; reading = none }

      now : contents w.0 ≡ xs ++ bytes
      now = w.2.contents_eq ∙ ap (λ l. l ++ bytes) v.held

      counted : length (xs ++ bytes) ≡ w.0.loc
      counted = omega (
        arith,
        ap length now,
        length-take w.0.loc w.0.base,
        w.2.valid.allocated,
        w.2.valid.filled,
      )

      small : w.0.loc ≤ 2 ^ 24
      small = omega (arith, counted, length-append xs bytes)

      opened :
          handle_read decode fresh (some bytes) c
          ≡ after_loop decode fresh (deal decode w.0.loc 0 filled)
      opened = rw (handle_read, w.1, deal_packets, le→not_ltb max_packet_size w.0.loc small) refl

      again :
          Advanced fs ys filled (after_loop decode fresh (deal decode w.0.loc 0 filled))
          → Advanced fs ys c (after_loop decode fresh (deal decode w.0.loc 0 filled))
      again r = record {
        taken = r.taken;
        left = r.left;
        xs = r.xs;
        last = r.last;
        returned = r.returned;
        reading_on = r.reading_on;
        frames_eq = r.frames_eq;
        bytes_eq = r.bytes_eq;
        waits = r.waits;
        log_eq = r.log_eq;
        asked = r.asked;
      }
