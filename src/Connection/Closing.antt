-- ===== src/Connection/Closing.antt =====
-- `OnPeerClose` from the handlers of reads and writes: the session is told once.
use mathlib.Core.Path.{subst}
use mathlib.Core.Option.{some-injective}
use ape_cpp_server.Base.{
  ltb, leb, not, ◌==◌, if◌then◌else◌, Bool-cases, Option-cases, drop, ℕ, zero, suc, ◌+◌, ◌-◌, ◌≡◌,
  refl, sym, ap, ◌∙◌, inl, inr, Bool, true, false, Option, none, some, List, arith,
}
use ape_cpp_server.Connection.{
  max_packet_size, Parsed, crash, null, place, before, Connection, Turn, crashes, returns, ends,
  goes_on, spins, peer_close, async_read_inner, after_decode, finish_read, turn, deal, after_loop,
  deal_packets, handle_read,
}
use ape_cpp_server.Buffer.{write, reset_loc}

-- how often the session has been told, with the time that is still to come
abbrev pub told : {M : Type 0} → Connection M → ℕ
told c = c.peer_closes + (if c.has_session then 1 else 0)

module _ {M : Type 0} where
  told-peer_close : (c : Connection M) → told (peer_close c) ≡ told c
  unfolding peer_close
  told-peer_close c = ground arith

  told-async_read_inner : (c : Connection M) → told (async_read_inner c) ≡ told c
  unfolding async_read_inner
  told-async_read_inner c = ground arith

  -- the connection that a turn leaves, if any
  abbrev Keeps : ℕ → Turn M → Type 0
  Keeps n crashes = Unit
  Keeps n (returns c) = told c ≡ n
  Keeps n (ends p c) = told c ≡ n
  Keeps n (goes_on p c) = told c ≡ n
  Keeps n spins = Unit

  if-Keeps :
      (n : ℕ) (b : Bool) (t u : Turn M) → Keeps n t → Keeps n u → Keeps n (if b then t else u)
  if-Keeps n true t u h k = h
  if-Keeps n false t u h k = k

  after_decode-Keeps :
      (p : ℕ) (r : Parsed M) (c : Connection M) → Keeps (told c) (after_decode p r c)
  unfolding after_decode
  after_decode-Keeps p crash c = tt
  after_decode-Keeps p null c = told-peer_close c
  after_decode-Keeps p (place n m) c =
      if-Keeps (told c) (ltb c.buffer.loc (p + n)) _ _ (told-peer_close c) (
        if-Keeps (told c) (n == 0) _ _ refl
          (if-Keeps (told c) c.has_session _ _ refl (told-peer_close c)))
  after_decode-Keeps p (before n m) c =
      if-Keeps (told c) (not c.has_session) _ _ (told-peer_close c)
        (if-Keeps (told c) (leb p n) _ _ tt refl)

  Keeps-trans : (n k : ℕ) (t : Turn M) → n ≡ k → Keeps n t → Keeps k t
  Keeps-trans n k t e h = subst (λ x. Keeps x t) e h

module _ {M : Type 0} (decode : ℕ → List ℕ → Parsed M) (fresh : ℕ → List ℕ) where
  turn-Keeps : (p : ℕ) (c : Connection M) → Keeps (told c) (turn decode p c)
  unfolding turn
  turn-Keeps p c =
      if-Keeps (told c) (ltb p c.buffer.loc) _ _
        (after_decode-Keeps p (decode (c.buffer.loc - p) (drop p c.buffer.base))
          (record c { is_dealing_read = true }))
        refl

  deal-Keeps : (n p : ℕ) (c : Connection M) → Keeps (told c) (deal decode n p c)
  unfolding deal
  deal-Keeps zero p c = if-Keeps (told c) (ltb p c.buffer.loc) _ _ tt refl
  deal-Keeps (suc n) p c = next (turn decode p c) (turn-Keeps p c) (deal-Keeps n)
    where
      next :
          (t : Turn M)
          → Keeps (told c) t
          → ((q : ℕ) (c' : Connection M) → Keeps (told c') (deal decode n q c'))
          → Keeps (told c) (elim t [
            | crashes ↦ crashes
            | returns c' ↦ returns c'
            | ends q c' ↦ ends q c'
            | goes_on q c' ↦ deal decode n q c'
            | spins ↦ spins
          ])
      next crashes h ih = tt
      next (returns c') h ih = h
      next (ends q c') h ih = h
      next (goes_on q c') h ih = Keeps-trans (told c') (told c) (deal decode n q c') h (ih q c')
      next spins h ih = tt

  after_loop-told :
      (n : ℕ) (t : Turn M) (c' : Connection M)
      → Keeps n t
      → after_loop decode fresh t ≡ some c'
      → told c' ≡ n
  unfolding after_loop finish_read
  after_loop-told n crashes c' h e = absurd cc
  after_loop-told n (returns c) c' h e = cc (h, e)
  after_loop-told n (ends p c) c' h e =
      sym (ap told (some-injective _ _ e)) ∙ (told-async_read_inner _ ∙ h)
  after_loop-told n (goes_on p c) c' h e =
      sym (ap told (some-injective _ _ e)) ∙ (told-async_read_inner _ ∙ h)
  after_loop-told n spins c' h e = absurd cc

  deal_packets-told :
      (c c' : Connection M) → deal_packets decode fresh c ≡ some c' → told c' ≡ told c
  unfolding deal_packets
  deal_packets-told c c' e = elim (Bool-cases (ltb max_packet_size c.buffer.loc)) [
    | inl f ↦
        sym (ap told (some-injective (peer_close c) c' (sym (rw (deal_packets, f) refl) ∙ e)))
        ∙ told-peer_close c
    | inr f ↦
        after_loop-told (told c) (deal decode c.buffer.loc 0 c) c' (deal-Keeps c.buffer.loc 0 c)
          (sym (rw (deal_packets, f) refl) ∙ e)
  ]

  -- If `HandleRead` returns, whether the read failed or not and whatever the parser makes of the bytes,
  -- places before `p` included, it tells the session of a close at most once and gives it up as it
  -- does: the number of the calls of `OnPeerClose`, and one more while there is a session, stay the
  -- same in sum.
  pub handle_read-told :
      (r : Option (List ℕ)) (c c' : Connection M)
      → handle_read decode fresh r c ≡ some c'
      → told c' ≡ told c
  unfolding handle_read
  handle_read-told none c c' e =
      sym (ap told (some-injective _ _ e))
      ∙ told-peer_close (record c { buffer = reset_loc 0 c.buffer; reading = none })
  handle_read-told (some bytes) c c' e = elim (Option-cases (write bytes c.buffer)) [
    | inl f ↦ absurd cc
    | inr f ↦
        deal_packets-told (record c { buffer = f.0; connected = true; reading = none }) c'
          (sym (rw (handle_read, f.1) refl) ∙ e)
  ]
