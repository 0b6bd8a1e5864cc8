-- ===== src/Queue/Order.antt =====
-- Which pointer a call gets, and when a call waits.
use ape_cpp_server.Base.{
  Bool-cases, Option-cases, ℕ, ◌<◌, ◌≡◌, refl, sym, ap, ◌∙◌, ◌⊎◌, inl, inr, Bool, true, false, none,
  some, [], ◌∷◌, ◌++◌, arith,
}
use ape_cpp_server.Queue.{
  notify_put, Priority, high, medium, low, MsgQueue, is_full, is_empty, MsgQueuePrio, queue_at,
  with_queue, fetch, put_turn, choose, get_turn, queue_is_empty, get_capacity, get_used,
}
use ape_cpp_server.Queue.Ring.{items, IsRing, items-store, items-fetch}
use ape_cpp_server.Queue.Counters.{
  same, queue_at-with_queue, queue_at-notify_get, get_turn_waits, get_turn_takes,
}
use ape_cpp_server.Queue.Fifo.{not_full-room, choose-not_empty}

-- which ring `GetQ` looks at before which
abbrev pub above : Priority → Priority → Bool
above high medium = true
above high low = true
above medium low = true
above _ _ = false

choose-none : (s : MsgQueuePrio) → choose s ≡ none → queue_is_empty s ≡ true
unfolding choose queue_is_empty
choose-none s e = ground arith

choose-some : (s : MsgQueuePrio) (p : Priority) → choose s ≡ some p → queue_is_empty s ≡ false
unfolding choose queue_is_empty
choose-some s p e = ground arith

choose-above :
    (s : MsgQueuePrio) (p r : Priority)
    → choose s ≡ some p
    → above r p ≡ true
    → is_empty (queue_at r s) ≡ true
unfolding choose
choose-above s high high e h = cc
choose-above s high medium e h = cc
choose-above s high low e h = cc
choose-above s medium high e h = ground arith
choose-above s medium medium e h = cc
choose-above s medium low e h = cc
choose-above s low high e h = ground arith
choose-above s low medium e h = ground arith
choose-above s low low e h = cc

other_ring :
    (p r : Priority) (q : MsgQueue) (s : MsgQueuePrio)
    → same r p ≡ false
    → queue_at r (with_queue p q s) ≡ queue_at r s
other_ring p r q s e = rw (queue_at-with_queue r p q s, e)

pub queue_at-with_queue_same :
    (p : Priority) (q : MsgQueue) (s : MsgQueuePrio) → queue_at p (with_queue p q s) ≡ q
queue_at-with_queue_same high q s = refl
queue_at-with_queue_same medium q s = refl
queue_at-with_queue_same low q s = refl

full_eq : (q : MsgQueue) → is_full q ≡ true → q.datasize ≡ q.capacity
full_eq q h = ground arith

some_item : (q : MsgQueue) → is_empty q ≡ false → 0 < q.datasize
some_item q h = ground arith

-- `GetQ` waits exactly when `IsEmpty` holds; it takes a pointer of medium priority only while the
-- high ring is empty, and one of low priority only while the high and the medium ring are empty; and
-- what it takes is the oldest pointer of that ring, whose others stay, as do the other two rings.
pub get_turn_order :
    (s : MsgQueuePrio)
    → ((queue_is_empty s ≡ true) × ((get_turn s).1 ≡ none))
      ⊎ ((p : Priority) × (v : ℕ) × (queue_is_empty s ≡ false)
          × ((get_turn s).1 ≡ some (p, v))
          × (items (queue_at p s) ≡ v ∷ items (queue_at p (get_turn s).0))
          × ((r : Priority) → same r p ≡ false → queue_at r (get_turn s).0 ≡ queue_at r s)
          × ((r : Priority) → above r p ≡ true → is_empty (queue_at r s) ≡ true))
unfolding queue_is_empty choose
get_turn_order s = elim (Option-cases (choose s)) [
  | inl e ↦ rw (get_turn_waits s e) (inl (choose-none s e, refl))
  | inr (p, e) ↦ rw (get_turn_takes s p e) (
      inr (
        p,
        (fetch (queue_at p s)).0,
        choose-some s p e,
        refl,
        items-fetch (queue_at p s) (some_item (queue_at p s) (choose-not_empty s p e))
            ∙ ap (λ q. (fetch (queue_at p s)).0 ∷ items q)
                (sym (queue_at-with_queue_same p (notify_put (fetch (queue_at p s)).1) s)),
        (λ r d. other_ring p r (notify_put (fetch (queue_at p s)).1) s d),
        λ r a. choose-above s p r e a,
      ))
]

-- `PutQ` waits exactly when its ring is full, and the rings then stay as they are but for the count
-- of waiting threads; otherwise it appends the pointer to its ring.
put_turn_order :
    (v : ℕ) (p : Priority) (s : MsgQueuePrio)
    → IsRing (queue_at p s)
    → let (s', stored) = put_turn v p s in
      ((get_used s p ≡ get_capacity s p)
        × (stored ≡ false)
        × (items (queue_at p s') ≡ items (queue_at p s)))
      ⊎ ((get_used s p < get_capacity s p)
          × (stored ≡ true)
          × (items (queue_at p s') ≡ items (queue_at p s) ++ (v ∷ [])))
unfolding put_turn get_used get_capacity
put_turn_order v p s r = elim (Bool-cases (is_full (queue_at p s))) [
  | inl e ↦
      rw (e, put_turn)
        (inl (full_eq (queue_at p s) e, refl, ap items (queue_at-with_queue_same p _ s)))
  | inr e ↦
      rw (e, put_turn)
        (inr (
          not_full-room (queue_at p s) r e,
          refl,
          ap items (queue_at-notify_get p _ ∙ queue_at-with_queue_same p _ s)
              ∙ items-store v (queue_at p s) r (not_full-room (queue_at p s) r e),
        ))
]
