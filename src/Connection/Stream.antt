-- ===== src/Connection/Stream.antt =====
-- A stream of messages that arrives in pieces.
use mathlib.Core.Path.{subst}
use ape_cpp_server.Base.{
  length, All, length-append, joined, ℕ, ◌-◌, ◌≤◌, ◌≡◌, refl, ap, ◌∙◌, Option, some, List, [], ◌∷◌,
  ◌++◌, append-nil, append_assoc, arith,
}
use ape_cpp_server.Buffer.{room}
use ape_cpp_server.Buffer.Append.{IsAllocator}
use ape_cpp_server.Connection.{max_packet_size, Parsed, Connection, handle_read, handle_reads}
use ape_cpp_server.Connection.Read.{Frame, IsFrame, stream, messages, Waits}
use ape_cpp_server.Connection.Reassembly.{IsReading, Advanced, handle_read_lem}

All-drop_front : {A : Type 0} (P : A → Type 0) (l ys : List A) → All P (l ++ ys) → All P ys
All-drop_front P [] ys b = b
All-drop_front P (x ∷ l) ys b = All-drop_front P l ys b.1

All-append_right :
    {A : Type 0} (P : A → Type 0) (xs ys zs : List A) → zs ≡ xs ++ ys → All P zs → All P ys
All-append_right P xs ys zs e a = All-drop_front P xs ys (subst (All P) e a)

messages-append :
    {M : Type 0} (fs gs : List (Frame M)) → messages (fs ++ gs) ≡ messages fs ++ messages gs
messages-append [] gs = refl
messages-append (f ∷ fs) gs = ap (◌∷◌ f.msg) (messages-append fs gs)

none_left :
    {M : Type 0} (fs : List (Frame M)) (xs : List ℕ)
    → Waits fs xs
    → xs ++ [] ≡ stream fs
    → (fs ≡ []) × (xs ≡ [])
none_left [] xs w e = (refl, w)
none_left (f ∷ fs) xs w e =
    absurd
      (omega (arith, ap length e, ap length (append-nil xs), length-append f.bytes (stream fs)))

waiting-lt :
    {M : Type 0} (fs : List (Frame M)) (xs : List ℕ) (most : ℕ)
    → All (λ f. length f.bytes ≤ most) fs
    → Waits fs xs
    → length xs ≤ most
waiting-lt [] xs most a w = omega (arith, ap length w)
waiting-lt (f ∷ fs) xs most a w = omega (arith, w, a.0)

-- The connection waits again, with all the messages read.
pub record IsAllRead {M : Type 0} (fs : List (Frame M)) (c : Connection M)
    (o : Option (Connection M)) : Type 0 where
  pub last : Connection M
  pub returned : o ≡ some last
  pub reading_on : IsReading [] last
  pub log_eq : last.read_log ≡ c.read_log ++ messages fs

module _ {M : Type 0} (decode : ℕ → List ℕ → Parsed M) (fresh : ℕ → List ℕ)
    (alloc : IsAllocator fresh) where
  handle_reads_from :
      (cs : List (List ℕ)) (fs : List (Frame M)) (xs : List ℕ) (c : Connection M)
      → All (IsFrame decode) fs
      → All (λ f. length f.bytes ≤ max_packet_size - 1024) fs
      → All (λ bytes. length bytes ≤ 1024) cs
      → IsReading xs c
      → Waits fs xs
      → xs ++ joined cs ≡ stream fs
      → IsAllRead fs c (handle_reads decode fresh cs c)
  unfolding handle_reads max_packet_size room
  handle_reads_from [] fs xs c a l p v w es =
      let e : (fs ≡ []) × (xs ≡ []) = none_left fs xs w es in
      record {
        last = c;
        returned = refl;
        reading_on = subst (λ x. IsReading x c) e.1 v;
        log_eq = cc (e.0, append-nil c.read_log);
      }
  handle_reads_from (bytes ∷ cs) fs xs c a l p v w es =
      let r : Advanced fs (joined cs) c (handle_read decode fresh (some bytes) c) =
        handle_read_lem decode fresh alloc fs xs bytes (joined cs) c a v
          (omega (arith, v.space, v.valid.filled, v.bounded, p.0))
          (omega (arith, p.0, waiting-lt fs xs (max_packet_size - 1024) l w)) es in
      let t : IsAllRead r.left r.last (handle_reads decode fresh cs r.last) =
        handle_reads_from cs r.left r.xs r.last
          (All-append_right (IsFrame decode) r.taken r.left fs r.frames_eq a)
          (All-append_right (λ f. length f.bytes ≤ max_packet_size - 1024) r.taken r.left fs
            r.frames_eq l)
          p.1 r.reading_on r.waits r.bytes_eq in
      record {
        last = t.last;
        returned = rw (handle_reads, r.returned) t.returned;
        reading_on = t.reading_on;
        log_eq =
            t.log_eq
            ∙ cc (
              r.log_eq,
              append_assoc c.read_log (messages r.taken) (messages r.left),
              messages-append r.taken r.left,
              r.frames_eq,
            );
      }

  -- If the bytes of a sequence of messages arrive in reads of at most 1024 bytes each, cut anywhere,
  -- at a connection whose buffer holds nothing, then the session gets exactly these messages, in
  -- their order, and the connection waits for more, with nothing held. No message may be longer than
  -- 1024 bytes less than the largest packet.
  pub handle_reads_lem :
      (cs : List (List ℕ)) (fs : List (Frame M)) (c : Connection M)
      → All (IsFrame decode) fs
      → All (λ f. length f.bytes ≤ max_packet_size - 1024) fs
      → All (λ bytes. length bytes ≤ 1024) cs
      → IsReading [] c
      → joined cs ≡ stream fs
      → IsAllRead fs c (handle_reads decode fresh cs c)
  handle_reads_lem cs fs c a l p v es = handle_reads_from cs fs [] c a l p v (none_waits fs a) es
    where
      none_waits : (gs : List (Frame M)) → All (IsFrame decode) gs → Waits gs []
      none_waits [] b = refl
      none_waits (f ∷ gs) b = b.0.nonempty
