-- ===== src/Queue/Ring.antt =====
-- One ring of the queue: what it holds, and its indices.
use ape_cpp_server.Base.{
  ℕ, zero, suc, ◌+◌, ◌-◌, ◌≤◌, ◌<◌, ◌≡◌, ◌≢◌, refl, ap, ◌∙◌, List, [], ◌∷◌, ◌++◌, arith, ltb,
  if◌then◌else◌, get_or, set, length, length-set,
}
use ape_cpp_server.Queue.{MsgQueue, next_loc, new_queue, store, fetch}

-- the index `k` places after `loc`
abbrev pub advance : ℕ → ℕ → ℕ → ℕ
advance cap loc zero = loc
advance cap loc (suc k) = advance cap (next_loc cap loc) k

advance_lem :
    (cap loc k : ℕ)
    → loc < cap
    → k ≤ cap
    → advance cap loc k ≡ (if ltb (loc + k) cap then loc + k else loc + k - cap)
advance_lem cap loc zero h hk = ground arith
advance_lem cap loc (suc k) h hk = ground (arith, advance_lem cap (next_loc cap loc) k)

next_loc-advance : (cap loc k : ℕ) → next_loc cap (advance cap loc k) ≡ advance cap loc (suc k)
next_loc-advance cap loc zero = refl
next_loc-advance cap loc (suc k) = next_loc-advance cap (next_loc cap loc) k

-- the `n` pointers from `loc` on, oldest first
abbrev pub items_from : List ℕ → ℕ → ℕ → ℕ → List ℕ
items_from buf cap loc zero = []
items_from buf cap loc (suc n) = get_or buf loc 0 ∷ items_from buf cap (next_loc cap loc) n

abbrev pub items : MsgQueue → List ℕ
items q = items_from q.ppbuf q.capacity q.getloc q.datasize

pub record IsRing (q : MsgQueue) : Type 0 where
  pub slots : q.capacity ≤ length q.ppbuf
  pub get_in : q.getloc < q.capacity
  pub size_in : q.datasize ≤ q.capacity
  pub put_at : q.putloc ≡ advance q.capacity q.getloc q.datasize

get_or-set_self : (xs : List ℕ) (i v : ℕ) → i < length xs → get_or (set xs i v) i 0 ≡ v
get_or-set_self [] i v h = elim h [ ]
get_or-set_self (x ∷ xs) zero v h = refl
get_or-set_self (x ∷ xs) (suc i) v h = get_or-set_self xs i v (omega arith)

get_or-set_ne : (xs : List ℕ) (i j v : ℕ) → i ≢ j → get_or (set xs i v) j 0 ≡ get_or xs j 0
get_or-set_ne [] i j v h = refl
get_or-set_ne (x ∷ xs) zero zero v h = absurd (h refl)
get_or-set_ne (x ∷ xs) zero (suc j) v h = refl
get_or-set_ne (x ∷ xs) (suc i) zero v h = refl
get_or-set_ne (x ∷ xs) (suc i) (suc j) v h = get_or-set_ne xs i j v (λ e. h (ap suc e))

items_from-set :
    (buf : List ℕ) (cap loc n i v : ℕ)
    → cap ≤ length buf
    → loc < cap
    → n < cap
    → i ≡ advance cap loc n
    → items_from (set buf i v) cap loc (suc n) ≡ items_from buf cap loc n ++ (v ∷ [])
items_from-set buf cap loc zero i v hs hl hn e = ground (arith, get_or-set_self buf loc v)
items_from-set buf cap loc (suc n) i v hs hl hn e = ground (
  arith,
  get_or-set_ne buf i loc v,
  advance_lem cap (next_loc cap loc) n,
  items_from-set buf cap (next_loc cap loc) n i v,
)

items_from_pos :
    (buf : List ℕ) (cap loc n : ℕ)
    → 0 < n
    → items_from buf cap loc n ≡ get_or buf loc 0 ∷ items_from buf cap (next_loc cap loc) (n - 1)
items_from_pos buf cap loc zero h = elim h [ ]
items_from_pos buf cap loc (suc n) h =
    ap (λ k. items_from buf cap loc (suc k)) {x = n} {y = suc n - 1} (omega arith)

advance_pos : (cap loc n : ℕ) → 0 < n → advance cap loc n ≡ advance cap (next_loc cap loc) (n - 1)
advance_pos cap loc zero h = elim h [ ]
advance_pos cap loc (suc n) h =
    ap (λ k. advance cap loc (suc k)) {x = n} {y = suc n - 1} (omega arith)

pub new_queue-IsRing :
    (size : ℕ) (slots : List ℕ) → 0 < size → size ≤ length slots → IsRing (new_queue size slots)
unfolding new_queue
new_queue-IsRing size slots h hs = ground arith

pub store-IsRing : (v : ℕ) (q : MsgQueue) → IsRing q → q.datasize < q.capacity → IsRing (store v q)
unfolding store
store-IsRing v q r h = record {
  slots = omega (arith, length-set q.ppbuf q.putloc v, r.slots);
  get_in = r.get_in;
  size_in = omega arith;
  put_at =
      rw (r.put_at, next_loc-advance q.capacity q.getloc q.datasize)
        (ap (advance q.capacity q.getloc) {x = suc q.datasize} {y = q.datasize + 1} (omega arith));
}

-- A stored pointer becomes the last of the ring.
pub items-store :
    (v : ℕ) (q : MsgQueue)
    → IsRing q
    → q.datasize < q.capacity
    → items (store v q) ≡ items q ++ (v ∷ [])
unfolding store
items-store v q r h =
    ap (items_from (set q.ppbuf q.putloc v) q.capacity q.getloc) {y = suc q.datasize} (omega arith)
    ∙ items_from-set q.ppbuf q.capacity q.getloc q.datasize q.putloc v r.slots r.get_in h r.put_at

pub fetch-IsRing : (q : MsgQueue) → IsRing q → 0 < q.datasize → IsRing (fetch q).1
unfolding fetch
fetch-IsRing q r h = record {
  slots = r.slots;
  get_in = ground (arith, r.get_in);
  size_in = omega (arith, r.size_in);
  put_at = r.put_at ∙ advance_pos q.capacity q.getloc q.datasize h;
}

-- The pointer that is fetched is the first of the ring, and the others stay.
pub items-fetch : (q : MsgQueue) → 0 < q.datasize → items q ≡ (fetch q).0 ∷ items (fetch q).1
unfolding fetch
items-fetch q h = items_from_pos q.ppbuf q.capacity q.getloc q.datasize h
