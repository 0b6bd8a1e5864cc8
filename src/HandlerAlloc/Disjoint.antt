-- ===== src/HandlerAlloc/Disjoint.antt =====
-- No two handlers have the same memory.
use ape_cpp_server.Base.{
  ◌⊎◌, ltb, ◌==◌, if◌then◌else◌, Bool-cases, not, ◌&&◌, ℕ, zero, suc, ◌+◌, ◌≤◌, ◌≡◌, refl, inl, inr,
  Bool, true, false, List, [], ◌∷◌, arith,
}
use ape_cpp_server.HandlerAlloc.{
  Block, storage, heap, HandlerAllocator, new_allocator, storage_size, allocate, deallocate,
  HandlerEvent, asks, gives_back, take_block, give_back, handle_event, handle_all,
}

abbrev pub same_block : Block → Block → Bool
same_block storage storage = true
same_block storage (heap n) = false
same_block (heap m) storage = false
same_block (heap m) (heap n) = m == n

-- how often a block is among those of the handlers
abbrev pub count_blocks : Block → List Block → ℕ
count_blocks x [] = 0
count_blocks x (b ∷ live) = (if same_block x b then 1 else 0) + count_blocks x live

abbrev in_use_no : HandlerAllocator → ℕ
in_use_no a = if a.in_use then 1 else 0

-- The storage is in use exactly if a handler has it, once, and a block of `operator new` is given once.
record IsDisjoint (live : List Block) (a : HandlerAllocator) : Type 0 where
  storage_eq : count_blocks storage live ≡ in_use_no a
  once : (n : ℕ) → count_blocks (heap n) live ≤ 1
  fresh : (n : ℕ) → a.next_block ≤ n → count_blocks (heap n) live ≡ 0

allocate-IsDisjoint :
    (size : ℕ) (live : List Block) (a : HandlerAllocator)
    → IsDisjoint live a
    → let s' = take_block (allocate size a) live in IsDisjoint s'.0 s'.1
unfolding allocate
allocate-IsDisjoint size live a i = elim (Bool-cases (not a.in_use && ltb size storage_size)) [
  | inl e ↦
      rw (allocate, e)
        record {
          storage_eq = ground (arith, e, i.storage_eq);
          once = λ n. omega (arith, i.once n);
          fresh = λ n h. omega (arith, i.fresh n h);
        }
  | inr e ↦
      rw (allocate, e)
        record {
          storage_eq = omega (arith, i.storage_eq);
          once = λ n. ground (arith, i.once n, i.fresh n);
          fresh = λ n h. ground (arith, i.fresh n, h);
        }
]

count-give_back :
    (x : Block) (k : ℕ) (live : List Block) (a : HandlerAllocator)
    → count_blocks x (give_back k live a).0 ≤ count_blocks x live
unfolding give_back
count-give_back x k [] a = omega arith
count-give_back x zero (b ∷ live) a = omega arith
count-give_back x (suc k) (b ∷ live) a = omega (arith, count-give_back x k live a)

-- Either the storage stays with who has it, or it is given back and no longer in use.
storage-give_back :
    (k : ℕ) (live : List Block) (a : HandlerAllocator)
    → let s' = give_back k live a in
      (count_blocks storage s'.0 ≡ count_blocks storage live) × (in_use_no s'.1 ≡ in_use_no a)
      ⊎ (count_blocks storage s'.0 + 1 ≡ count_blocks storage live) × (in_use_no s'.1 ≡ 0)
unfolding give_back deallocate
storage-give_back k [] a = inl (refl, refl)
storage-give_back zero (storage ∷ live) a = inr (omega arith, refl)
storage-give_back zero (heap n ∷ live) a = inl (omega arith, refl)
storage-give_back (suc k) (b ∷ live) a = elim (storage-give_back k live a) [
  | inl p ↦ inl (omega (arith, p.0), p.1)
  | inr p ↦ inr (omega (arith, p.0), p.1)
]

next-give_back :
    (k : ℕ) (live : List Block) (a : HandlerAllocator)
    → (give_back k live a).1.next_block ≡ a.next_block
unfolding give_back deallocate
next-give_back k [] a = refl
next-give_back zero (storage ∷ live) a = refl
next-give_back zero (heap n ∷ live) a = refl
next-give_back (suc k) (b ∷ live) a = next-give_back k live a

in_use_no-le : (a : HandlerAllocator) → in_use_no a ≤ 1
in_use_no-le a = ground arith

give_back-IsDisjoint :
    (k : ℕ) (live : List Block) (a : HandlerAllocator)
    → IsDisjoint live a
    → let s' = give_back k live a in IsDisjoint s'.0 s'.1
give_back-IsDisjoint k live a i = record {
  storage_eq = elim (storage-give_back k live a) [
    | inl p ↦ omega (arith, p.0, p.1, i.storage_eq)
    | inr p ↦ omega (arith, p.0, p.1, i.storage_eq, in_use_no-le a)
  ];
  once = λ n. omega (arith, count-give_back (heap n) k live a, i.once n);
  fresh = λ n h. omega (
    arith,
    count-give_back (heap n) k live a,
    i.fresh n (omega (arith, h, next-give_back k live a)),
  );
}

handle_event-IsDisjoint :
    (e : HandlerEvent) (live : List Block) (a : HandlerAllocator)
    → IsDisjoint live a
    → let s' = handle_event e (live, a) in IsDisjoint s'.0 s'.1
unfolding handle_event
handle_event-IsDisjoint (asks size) live a i = allocate-IsDisjoint size live a i
handle_event-IsDisjoint (gives_back k) live a i = give_back-IsDisjoint k live a i

handle_all-IsDisjoint :
    (es : List HandlerEvent) (live : List Block) (a : HandlerAllocator)
    → IsDisjoint live a
    → let s' = handle_all es (live, a) in IsDisjoint s'.0 s'.1
unfolding handle_all
handle_all-IsDisjoint [] live a i = i
handle_all-IsDisjoint (e ∷ es) live a i =
    let s' = handle_event e (live, a) in
    handle_all-IsDisjoint es s'.0 s'.1 (handle_event-IsDisjoint e live a i)

count-le :
    (b : Block) (live : List Block) (a : HandlerAllocator)
    → IsDisjoint live a
    → count_blocks b live ≤ 1
count-le storage live a i = omega (arith, i.storage_eq, in_use_no-le a)
count-le (heap n) live a i = i.once n

-- Whatever memory handlers ask for and give back, in any order: no block is the memory of two of them,
-- and the storage of the allocator is in use exactly if one of them has it.
pub handle_all_lem :
    (es : List HandlerEvent) (b : Block)
    → let s' = handle_all es ([], new_allocator) in
      (count_blocks b s'.0 ≤ 1) × (count_blocks storage s'.0 ≡ (if s'.1.in_use then 1 else 0))
handle_all_lem es b =
    let s' = handle_all es ([], new_allocator) in
    let i = handle_all-IsDisjoint es [] new_allocator new_lem in
    (count-le b s'.0 s'.1 i, i.storage_eq)
  where
    new_lem : IsDisjoint [] new_allocator
    new_lem = record { storage_eq = refl; once = λ n. omega arith; fresh = λ n h. refl }
