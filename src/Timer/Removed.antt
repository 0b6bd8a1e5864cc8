-- ===== src/Timer/Removed.antt =====
-- `CTimerManager::RemoveTimer`.
use mathlib.Core.Path.{subst}
use ape_cpp_server.Base.{
  ◌==◌, if◌then◌else◌, ==_iff, Bool-cases, length, get_or, ℕ, zero, suc, ◌≡◌, refl, ap, ◌∙◌, inl,
  inr, List, [], ◌∷◌, map, arith,
}
use ape_cpp_server.Timer.{
  no_wheel, TimerNode, Wheel, TimerManager, without, drop_from_wheel, remove_timer,
}
use ape_cpp_server.Timer.Place.{count_nodes, count_spokes, count_wheels, total, IsShaped}

-- what is left of a count when a timer has gone
abbrev pub left_of : ℕ → ℕ → ℕ → ℕ
left_of x id n = if id == x then 0 else n

count_nodes-without :
    (x id : ℕ) (l : List TimerNode) → count_nodes x (without id l) ≡ left_of x id (count_nodes x l)
count_nodes-without x id [] = ground arith
count_nodes-without x id (node ∷ l) = elim (Bool-cases (node.id == id)) [
  | inl e ↦ rw (e, count_nodes-without x id l) ground arith
  | inr e ↦ rw e ground (arith, count_nodes-without x id l)
]

count_spokes-without :
    (x id : ℕ) (l : List (List TimerNode))
    → count_spokes x (map (without id) l) ≡ left_of x id (count_spokes x l)
count_spokes-without x id [] = ground arith
count_spokes-without x id (s ∷ l) =
    ground (arith, count_spokes-without x id l, count_nodes-without x id s)

count_wheels-without :
    (x id : ℕ) (l : List Wheel)
    → count_wheels x (map (drop_from_wheel id) l) ≡ left_of x id (count_wheels x l)
count_wheels-without x id [] = ground arith
count_wheels-without x id (w ∷ l) =
    ground (arith, count_wheels-without x id l, count_spokes-without x id w.spokes)

left_of-fired :
    (x id : ℕ) (l : List TimerNode)
    → count_nodes id l ≡ 0
    → count_nodes x l ≡ left_of x id (count_nodes x l)
left_of-fired x id l h = elim (Bool-cases (id == x)) [
  | inl e ↦ rw e (subst (λ y. count_nodes y l ≡ 0) ((==_iff id x).0 e) h)
  | inr e ↦ rw e refl
]

-- After `RemoveTimer` of a timer that was not called back, it is nowhere, and every other timer is
-- as often as before.
pub remove_timer_lem :
    (x id : ℕ) (m : TimerManager)
    → count_nodes id m.fired ≡ 0
    → total x (remove_timer id m) ≡ left_of x id (total x m)
unfolding remove_timer
remove_timer_lem x id m h = ground (
  arith,
  count_wheels-without x id m.wheels,
  count_nodes-without x id m.readynodes,
  left_of-fired x id m.fired h,
)

length-map_wheels : (id : ℕ) (l : List Wheel) → length (map (drop_from_wheel id) l) ≡ length l
length-map_wheels id [] = refl
length-map_wheels id (w ∷ l) = ap suc (length-map_wheels id l)

length-map_spokes : (id : ℕ) (l : List (List TimerNode)) → length (map (without id) l) ≡ length l
length-map_spokes id [] = refl
length-map_spokes id (s ∷ l) = ap suc (length-map_spokes id l)

spokes-map :
    (id i : ℕ) (l : List Wheel)
    → length (get_or (map (drop_from_wheel id) l) i no_wheel).spokes
      ≡ length (get_or l i no_wheel).spokes
spokes-map id i [] = refl
spokes-map id zero (w ∷ l) = length-map_spokes id w.spokes
spokes-map id (suc i) (w ∷ l) = spokes-map id i l

pub remove_timer-IsShaped : (id : ℕ) (m : TimerManager) → IsShaped m → IsShaped (remove_timer id m)
unfolding remove_timer
remove_timer-IsShaped id m s = record {
  five = length-map_wheels id m.wheels ∙ s.five;
  spokes_eq = λ i h. spokes-map id i m.wheels ∙ s.spokes_eq i h;
}
