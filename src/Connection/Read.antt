-- ===== src/Connection/Read.antt =====
-- `HandleRead`: messages come out of the bytes in their order, however the bytes are cut up.
use ape_cpp_server.Base.{
  lt→ltb, le→not_ltb, ==_ne, le_or_gt, length, drop, All, length-append, drop-append_left, ℕ, zero,
  suc, ◌+◌, ◌-◌, ◌≤◌, ◌<◌, ◌≡◌, refl, sym, ap, ◌∙◌, inl, inr, true, List, [], ◌∷◌, ◌++◌, append-nil,
  append_assoc, arith,
}
use ape_cpp_server.Connection.{
  Parsed, place, Connection, Turn, ends, goes_on, after_decode, turn, deal,
}

-- A message on the wire: its bytes, and what the parser makes of them.
pub record Frame (M : Type 0) : Type 0 where
  pub bytes : List ℕ
  pub msg : M

-- What a parser does on the bytes of a frame, whatever memory lies behind them.
pub record IsFrame {M : Type 0} (decode : ℕ → List ℕ → Parsed M) (f : Frame M) : Type 0 where
  pub nonempty : 0 < length f.bytes
  pub whole :
      (n : ℕ) (rest : List ℕ)
      → length f.bytes ≤ n
      → n ≤ length (f.bytes ++ rest)
      → decode n (f.bytes ++ rest) ≡ place (length f.bytes) f.msg
  pub part :
      (front back rest : List ℕ)
      → f.bytes ≡ front ++ back
      → 0 < length back
      → 0 < length front
      → (m : M) × (decode (length front) (front ++ rest) ≡ place 0 m)

module _ {M : Type 0} where
  abbrev pub stream : List (Frame M) → List ℕ
  stream [] = []
  stream (f ∷ fs) = f.bytes ++ stream fs

  abbrev pub messages : List (Frame M) → List M
  messages [] = []
  messages (f ∷ fs) = f.msg ∷ messages fs

  -- No whole message waits.
  abbrev pub Waits : List (Frame M) → List ℕ → Type 0
  Waits [] xs = xs ≡ []
  Waits (f ∷ fs) xs = length xs < length f.bytes

-- Two ways to cut a list: the shorter front is a front of the longer one.
pub cut :
    (xs ys ws s : List ℕ)
    → xs ++ ys ≡ ws ++ s
    → length ws ≤ length xs
    → (t : List ℕ) × (xs ≡ ws ++ t) × (t ++ ys ≡ s)
cut xs ys [] s e h = (xs, refl, e)
cut [] ys (w ∷ ws) s e h = elim h [ ]
cut (x ∷ xs) ys (w ∷ ws) s e h =
    let r : (t : List ℕ) × (xs ≡ ws ++ t) × (t ++ ys ≡ s) = cut xs ys ws s (cc (e)) (omega arith) in
    (r.0, cc (r.1, e), r.2)

-- The loop left `xs` at `p`; before it lies what was taken.
pub record Dealt {M : Type 0} (fs : List (Frame M)) (ys : List ℕ) (c : Connection M) (t : Turn M)
    : Type 0 where
  pub taken : List (Frame M)
  pub left : List (Frame M)
  pub pre : List ℕ
  pub xs : List ℕ
  pub junk : List ℕ
  pub last : Connection M
  pub ends_at : t ≡ ends (length pre) last
  pub frames_eq : fs ≡ taken ++ left
  pub bytes_eq : xs ++ ys ≡ stream left
  pub waits : Waits left xs
  pub base_eq : last.buffer.base ≡ pre ++ (xs ++ junk)
  pub buffer_eq : last.buffer ≡ c.buffer
  pub loc_eq : last.buffer.loc ≡ length pre + length xs
  pub log_eq : last.read_log ≡ c.read_log ++ messages taken
  pub connected_eq : last.connected ≡ c.connected
  pub session_eq : last.has_session ≡ c.has_session

module _ {M : Type 0} (decode : ℕ → List ℕ → Parsed M) where
  none_wait : (fs : List (Frame M)) → All (IsFrame decode) fs → Waits fs []
  none_wait [] a = refl
  none_wait (f ∷ fs) a = a.0.nonempty

  deal_nothing :
      (n : ℕ) (pre junk : List ℕ) (fs : List (Frame M)) (ys : List ℕ) (c : Connection M)
      → All (IsFrame decode) fs
      → ys ≡ stream fs
      → c.buffer.base ≡ pre ++ junk
      → c.buffer.loc ≡ length pre
      → Dealt fs ys c (deal decode n (length pre) c)
  unfolding deal turn
  deal_nothing n pre junk fs ys c a es eb el = record {
    taken = [];
    left = fs;
    pre = pre;
    xs = [];
    junk = junk;
    last = c;
    ends_at = stays n;
    frames_eq = refl;
    bytes_eq = es;
    waits = none_wait fs a;
    base_eq = eb;
    buffer_eq = refl;
    loc_eq = omega (arith, el);
    log_eq = sym (append-nil c.read_log);
    connected_eq = refl;
    session_eq = refl;
  }
    where
      stays : (k : ℕ) → deal decode k (length pre) c ≡ ends (length pre) c
      stays zero = rw (deal, le→not_ltb (length pre) c.buffer.loc (omega (arith, el))) refl
      stays (suc k) = rw (deal, turn, le→not_ltb (length pre) c.buffer.loc (omega (arith, el))) refl

  turn_lem :
      (p : ℕ) (mem : List ℕ) (r : Parsed M) (c : Connection M)
      → p < c.buffer.loc
      → drop p c.buffer.base ≡ mem
      → decode (c.buffer.loc - p) mem ≡ r
      → turn decode p c ≡ after_decode p r (record c { is_dealing_read = true })
  unfolding turn
  turn_lem p mem r c h em ed = rw (lt→ltb p c.buffer.loc h, em, ed)

  deal_part :
      (n : ℕ) (pre xs junk back : List ℕ) (f : Frame M) (fs : List (Frame M)) (ys : List ℕ)
      (c : Connection M)
      → IsFrame decode f
      → f.bytes ≡ xs ++ back
      → 0 < length back
      → 0 < length xs
      → xs ++ ys ≡ stream (f ∷ fs)
      → c.buffer.base ≡ pre ++ (xs ++ junk)
      → c.buffer.loc ≡ length pre + length xs
      → Dealt (f ∷ fs) ys c (deal decode (suc n) (length pre) c)
  unfolding deal after_decode
  deal_part n pre xs junk back f fs ys c g ef hb hx es eb el = record {
    taken = [];
    left = f ∷ fs;
    pre = pre;
    xs = xs;
    junk = junk;
    last = record c { is_dealing_read = true };
    ends_at = waited;
    frames_eq = refl;
    bytes_eq = es;
    waits = omega (arith, ap length ef, length-append xs back);
    base_eq = eb;
    buffer_eq = refl;
    loc_eq = el;
    log_eq = sym (append-nil c.read_log);
    connected_eq = refl;
    session_eq = refl;
  }
    where
      r : (m : M) × (decode (length xs) (xs ++ junk) ≡ place 0 m)
      r = g.part xs back junk ef hb hx

      turned : turn decode (length pre) c ≡ ends (length pre) (record c { is_dealing_read = true })
      turned =
          turn_lem (length pre) (xs ++ junk) (place 0 r.0) c (omega (arith, el))
            (ap (drop (length pre)) eb ∙ drop-append_left pre (xs ++ junk))
            (ap (λ k. decode k (xs ++ junk)) (omega (arith, el)) ∙ r.1)
          ∙ rw (le→not_ltb c.buffer.loc (length pre + 0) (omega (arith, el))) refl

      waited :
          deal decode (suc n) (length pre) c
          ≡ ends (length pre) (record c { is_dealing_read = true })
      waited = rw (deal, turned) refl

  after_whole :
      (p : ℕ) (f : Frame M) (c : Connection M)
      → 0 < length f.bytes
      → p + length f.bytes ≤ c.buffer.loc
      → c.has_session ≡ true
      → after_decode p (place (length f.bytes) f.msg) c
        ≡ goes_on (p + length f.bytes) (record c { read_log = c.read_log ++ (f.msg ∷ []) })
  unfolding after_decode
  after_whole p f c h0 h1 hs =
      rw
        (
          le→not_ltb c.buffer.loc (p + length f.bytes) h1,
          ==_ne (length f.bytes) 0 (omega arith),
          hs,
        )
        refl

  -- What the next turn finds after a whole message.
  abbrev pub passed : Frame M → Connection M → Connection M
  passed f c = record c { is_dealing_read = true; read_log = c.read_log ++ (f.msg ∷ []) }

  deal_whole :
      (n : ℕ) (pre xs junk : List ℕ) (f : Frame M) (c : Connection M)
      → IsFrame decode f
      → c.has_session ≡ true
      → c.buffer.base ≡ pre ++ ((f.bytes ++ xs) ++ junk)
      → c.buffer.loc ≡ length pre + length (f.bytes ++ xs)
      → deal decode (suc n) (length pre) c ≡ deal decode n (length (pre ++ f.bytes)) (passed f c)
  unfolding deal
  deal_whole n pre xs junk f c g hs eb el = rw (deal, turned) refl
    where
      fits : length pre + length (f.bytes ++ xs) ≡ length pre + (length f.bytes + length xs)
      fits = ap (◌+◌ (length pre)) (length-append f.bytes xs)

      turned : turn decode (length pre) c ≡ goes_on (length (pre ++ f.bytes)) (passed f c)
      turned =
          turn_lem (length pre) (f.bytes ++ (xs ++ junk)) (place (length f.bytes) f.msg) c
            (omega (arith, el, fits, g.nonempty))
            (ap (drop (length pre)) eb
              ∙ (drop-append_left pre ((f.bytes ++ xs) ++ junk) ∙ append_assoc f.bytes xs junk))
            (g.whole (c.buffer.loc - length pre) (xs ++ junk) (omega (arith, el, fits))
              (omega (arith, el, fits, length-append f.bytes (xs ++ junk), length-append xs junk)))
          ∙ (after_whole (length pre) f (record c { is_dealing_read = true }) g.nonempty
                (omega (arith, el, fits)) hs
              ∙ ap (λ k. goes_on k (passed f c)) (sym (length-append pre f.bytes)))

  pub deal-Dealt :
      (fs : List (Frame M)) (n : ℕ) (pre xs junk ys : List ℕ) (c : Connection M)
      → All (IsFrame decode) fs
      → c.has_session ≡ true
      → length xs ≤ n
      → xs ++ ys ≡ stream fs
      → c.buffer.base ≡ pre ++ (xs ++ junk)
      → c.buffer.loc ≡ length pre + length xs
      → Dealt fs ys c (deal decode n (length pre) c)
  deal-Dealt fs n pre [] junk ys c a hs hn es eb el =
      deal_nothing n pre junk fs ys c a es eb (omega (arith, el))
  deal-Dealt [] n pre (x ∷ xs) junk ys c a hs hn es eb el = absurd cc
  deal-Dealt (f ∷ fs) zero pre (x ∷ xs) junk ys c a hs hn es eb el = elim hn [ ]
  deal-Dealt (f ∷ fs) (suc n) pre (x ∷ xs) junk ys c a hs hn es eb el =
      elim (le_or_gt (length f.bytes) (length (x ∷ xs))) [
        | inl h ↦
            let r : (t : List ℕ) × ((x ∷ xs) ≡ f.bytes ++ t) × (t ++ ys ≡ stream fs) =
              cut (x ∷ xs) ys f.bytes (stream fs) es h in
            next r.0 r.1 (
              deal-Dealt fs n (pre ++ f.bytes) r.0 junk ys (passed f c) a.1 hs
                (omega (arith, a.0.nonempty, ap length r.1, length-append f.bytes r.0)) r.2
                (eb
                  ∙ (ap (λ l. pre ++ (l ++ junk)) r.1
                      ∙ cc (append_assoc pre f.bytes (r.0 ++ junk), append_assoc f.bytes r.0 junk)))
                (omega
                  (arith, el, ap length r.1, length-append f.bytes r.0, length-append pre f.bytes)))
        | inr h ↦
            let r : (t : List ℕ) × (f.bytes ≡ (x ∷ xs) ++ t) × (t ++ stream fs ≡ ys) =
              cut f.bytes (stream fs) (x ∷ xs) ys (sym es) (omega arith) in
            deal_part n pre (x ∷ xs) junk r.0 f fs ys c a.0 r.1
              (omega (arith, ap length r.1, length-append (x ∷ xs) r.0)) (omega arith) es eb el
      ]
    where
      next :
          (t : List ℕ)
          → (x ∷ xs) ≡ f.bytes ++ t
          → Dealt fs ys (passed f c) (deal decode n (length (pre ++ f.bytes)) (passed f c))
          → Dealt (f ∷ fs) ys c (deal decode (suc n) (length pre) c)
      next t et d = record {
        taken = f ∷ d.taken;
        left = d.left;
        pre = d.pre;
        xs = d.xs;
        junk = d.junk;
        last = d.last;
        ends_at =
            deal_whole n pre t junk f c a.0 hs (eb ∙ ap (λ l. pre ++ (l ++ junk)) et)
              (el ∙ ap (λ l. length pre + length l) et)
            ∙ d.ends_at;
        frames_eq = ap (◌∷◌ f) d.frames_eq;
        bytes_eq = d.bytes_eq;
        waits = d.waits;
        base_eq = d.base_eq;
        buffer_eq = d.buffer_eq;
        loc_eq = d.loc_eq;
        log_eq = d.log_eq ∙ append_assoc c.read_log (f.msg ∷ []) (messages d.taken);
        connected_eq = d.connected_eq;
        session_eq = d.session_eq;
      }
