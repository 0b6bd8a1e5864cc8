-- ===== src/Buffer/Append.antt =====
-- `CBuffer::append`: the contents and the bounds of the memory.
use ape_cpp_server.Base.{
  ltb, leb, ltb→lt, not_ltb→le, Bool-cases, length, take, drop, length-append, length-take,
  length-drop, take-append_left, take-append_of_le, add32, ℕ, zero, suc, ◌+◌, ◌-◌, ◌*◌, ◌^◌, ◌≤◌,
  ◌<◌, ◌≡◌, refl, sym, ap, ◌∙◌, inl, inr, true, some, List, [], ◌∷◌, ◌++◌, append_assoc, arith,
}
use ape_cpp_server.Buffer.{Buffer, double_capacity, add_capacity, write, append, contents}

pub record IsBuffer (b : Buffer) : Type 0 where
  pub allocated : length b.base ≡ b.capacity
  pub filled : b.loc ≤ b.capacity

-- The memory that an allocator hands out has the size asked for.
abbrev pub IsAllocator : (ℕ → List ℕ) → Type 0
IsAllocator fresh = (n : ℕ) → length (fresh n) ≡ n

take-all : (n : ℕ) (xs : List ℕ) → length xs ≤ n → take n xs ≡ xs
take-all zero [] h = refl
take-all zero (x ∷ xs) h = elim h [ ]
take-all (suc n) [] h = refl
take-all (suc n) (x ∷ xs) h = ap (◌∷◌ x) (take-all n xs (omega arith))

pub take-append_at : (n : ℕ) (xs ys : List ℕ) → n ≡ length xs → take n (xs ++ ys) ≡ xs
take-append_at n xs ys e = rw e (take-append_left xs ys)

length-take_of_le : (n : ℕ) (xs : List ℕ) → n ≤ length xs → length (take n xs) ≡ n
length-take_of_le n xs h = omega (arith, length-take n xs)

-- What a call of `append` leaves behind.
pub record Appended (p : List ℕ) (b b' : Buffer) : Type 0 where
  pub valid : IsBuffer b'
  pub contents_eq : contents b' ≡ contents b ++ p
  pub capacity_le : b'.capacity ≤ 3 * b.capacity + length p

pub write-Appended :
    (p : List ℕ) (b : Buffer)
    → IsBuffer b
    → b.loc + length p ≤ b.capacity
    → b.capacity < 2 ^ 32
    → (b' : Buffer) × (write p b ≡ some b') × Appended p b b' × (b'.capacity ≡ b.capacity)
write-Appended p b v h small = (b', rw leb_fits, after, refl)
  where
    b' : Buffer
    b' = record b {
      base = take b.loc b.base ++ (p ++ drop (b.loc + length p) b.base);
      loc = add32 b.loc (length p);
    }

    leb_fits : leb (b.loc + length p) (length b.base) ≡ true
    leb_fits = ground (arith, v.allocated)

    prefix : length (take b.loc b.base) ≡ b.loc
    prefix = length-take_of_le b.loc b.base (omega (arith, v.allocated, v.filled))

    after : Appended p b b'
    after = record {
      valid = record {
        allocated = omega (
          arith,
          v.allocated,
          prefix,
          length-append (take b.loc b.base) (p ++ drop (b.loc + length p) b.base),
          length-append p (drop (b.loc + length p) b.base),
          length-drop (b.loc + length p) b.base,
        );
        filled = omega arith;
      };
      contents_eq =
          ap (λ l. take (add32 b.loc (length p)) l)
            (sym (append_assoc (take b.loc b.base) p (drop (b.loc + length p) b.base)))
          ∙ take-append_at (add32 b.loc (length p)) (take b.loc b.base ++ p)
              (drop (b.loc + length p) b.base)
              (omega (arith, prefix, length-append (take b.loc b.base) p));
      capacity_le = omega arith;
    }

pub grow-IsBuffer :
    (fresh : ℕ → List ℕ) (n : ℕ) (b : Buffer)
    → IsAllocator fresh
    → IsBuffer b
    → b.capacity + n < 2 ^ 32
    → let b' = add_capacity fresh n b in
      IsBuffer b' × (contents b' ≡ contents b) × (b'.capacity ≡ b.capacity + n) × (b'.loc ≡ b.loc)
unfolding add_capacity
grow-IsBuffer fresh n b alloc v h = (
  record {
    allocated = omega (
      arith,
      length-append (take (add32 b.capacity n) b.base) (fresh (add32 b.capacity n - length b.base)),
      alloc (add32 b.capacity n - length b.base),
      length-take (add32 b.capacity n) b.base,
      v.allocated,
    );
    filled = omega (arith, v.filled);
  },
  ap (λ l. take b.loc (l ++ fresh (add32 b.capacity n - length b.base)))
        (take-all (add32 b.capacity n) b.base (omega (arith, v.allocated)))
      ∙ take-append_of_le b.loc b.base _ (omega (arith, v.allocated, v.filled)),
  omega arith,
  refl,
)

pub double-IsBuffer :
    (fresh : ℕ → List ℕ) (b : Buffer)
    → IsAllocator fresh
    → IsBuffer b
    → b.capacity + b.capacity < 2 ^ 32
    → let b' = double_capacity fresh b in
      IsBuffer b'
      × (contents b' ≡ contents b)
      × (b'.capacity ≡ b.capacity + b.capacity)
      × (b'.loc ≡ b.loc)
unfolding double_capacity add_capacity
double-IsBuffer fresh b = grow-IsBuffer fresh b.capacity b

-- Where three times the capacity and the new bytes fit in 32 bits, `append` never writes outside of
-- the memory: it leaves the contents followed by the new bytes in a buffer that is valid again, of
-- at most that capacity.
pub append_lem :
    (fresh : ℕ → List ℕ) (p : List ℕ) (b : Buffer)
    → IsAllocator fresh
    → IsBuffer b
    → 3 * b.capacity + length p < 2 ^ 32
    → (b' : Buffer) × (append fresh p b ≡ some b') × Appended p b b'
unfolding append
append_lem fresh p b alloc v h = elim (Bool-cases (ltb b.capacity (add32 b.loc (length p)))) [
  | inl e ↦
      let more = add32 (b.capacity + length p) b.capacity in
      let g = grow-IsBuffer fresh more b alloc v (omega arith) in
      let w =
        write-Appended p (add_capacity fresh more b) g.0 (omega (arith, g.2, g.3, v.filled))
          (omega (arith, g.2)) in
      (
        w.0,
        rw (e, append) w.1,
        record {
          valid = w.2.valid;
          contents_eq = w.2.contents_eq ∙ ap (λ l. l ++ p) g.1;
          capacity_le = omega (arith, w.3, g.2);
        },
      )
  | inr e ↦
      let w =
        write-Appended p b v
          (omega (arith, v.filled, not_ltb→le b.capacity (add32 b.loc (length p)) e))
          (omega arith) in
      (w.0, rw (e, append) w.1, w.2)
]

capacity-write : (p : List ℕ) (b b' : Buffer) → write p b ≡ some b' → b'.capacity ≡ b.capacity
capacity-write p b b' e = elim (Bool-cases (leb (b.loc + length p) (length b.base))) [
  | inl h ↦ ground (arith, e, h)
  | inr h ↦ ground (arith, e, h)
]

-- `append` keeps within a bound that holds four times what it makes.
pub append_capacity :
    (fresh : ℕ → List ℕ) (p : List ℕ) (b b' : Buffer) (most : ℕ)
    → append fresh p b ≡ some b'
    → b.capacity ≤ most
    → 4 * (b.loc + length p) ≤ most
    → 4 * most < 2 ^ 32
    → b'.capacity ≤ most
unfolding append add_capacity
append_capacity fresh p b b' most e h0 h1 h2 =
    elim (Bool-cases (ltb b.capacity (add32 b.loc (length p)))) [
      | inl h ↦
          let c =
            capacity-write p (add_capacity fresh (add32 (b.capacity + length p) b.capacity) b) b'
              (rw (append, h) at e) in
          omega (arith, c, ltb→lt b.capacity (add32 b.loc (length p)) h)
      | inr h ↦ omega (arith, capacity-write p b b' (rw (append, h) at e))
    ]

length-contents : (b : Buffer) → IsBuffer b → length (contents b) ≡ b.loc
length-contents b v = length-take_of_le b.loc b.base (omega (arith, v.allocated, v.filled))

pub loc-Appended :
    (p : List ℕ) (b b' : Buffer) → IsBuffer b → Appended p b b' → b'.loc ≡ b.loc + length p
loc-Appended p b b' v a = omega (
  arith,
  length-contents b v,
  length-contents b' a.valid,
  ap length a.contents_eq,
  length-append (contents b) p,
)
