-- ===== src/Timer/Place.antt =====
-- `CTimerManager`: where the timers are. A timer is always on a spoke, ready, or called back.
use ape_cpp_server.Base.{
  ltb, leb, ◌==◌, if◌then◌else◌, Bool-cases, length, get_or, set, replicate, length-set, ℕ, zero,
  suc, ◌+◌, ◌-◌, ◌/◌, ◌%◌, ◌^◌, ◌<◌, ◌≡◌, refl, ◌∙◌, inl, inr, List, [], ◌∷◌, ◌++◌, arith,
}
use ape_cpp_server.Timer.{
  TimerNode, Wheel, TimerManager, new_manager, granularity, no_wheel, wheel_at, with_wheel,
  spoke_index, place_of, push_spoke, push_at, add_timer_node, add_to_ready, move_nodes,
}

abbrev pub count_nodes : ℕ → List TimerNode → ℕ
count_nodes x [] = 0
count_nodes x (node ∷ nodes) = (if node.id == x then 1 else 0) + count_nodes x nodes

abbrev pub count_spokes : ℕ → List (List TimerNode) → ℕ
count_spokes x [] = 0
count_spokes x (spoke ∷ spokes) = count_nodes x spoke + count_spokes x spokes

abbrev pub count_wheels : ℕ → List Wheel → ℕ
count_wheels x [] = 0
count_wheels x (w ∷ ws) = count_spokes x w.spokes + count_wheels x ws

-- how often a timer is anywhere
abbrev pub total : ℕ → TimerManager → ℕ
total x m = count_wheels x m.wheels + (count_nodes x m.readynodes + count_nodes x m.fired)

pub count_nodes-append :
    (x : ℕ) (l k : List TimerNode) → count_nodes x (l ++ k) ≡ count_nodes x l + count_nodes x k
count_nodes-append x [] k = omega arith
count_nodes-append x (node ∷ l) k = omega (arith, count_nodes-append x l k)

count_spokes-set :
    (x : ℕ) (l : List (List TimerNode)) (j : ℕ) (v : List TimerNode)
    → j < length l
    → count_spokes x (set l j v) + count_nodes x (get_or l j [])
      ≡ count_spokes x l + count_nodes x v
count_spokes-set x [] j v h = elim h [ ]
count_spokes-set x (s ∷ l) zero v h = omega arith
count_spokes-set x (s ∷ l) (suc j) v h = omega (arith, count_spokes-set x l j v (omega arith))

pub count_spokes-empty :
    (x : ℕ) (l : List (List TimerNode)) (j : ℕ)
    → count_spokes x (set l j []) + count_nodes x (get_or l j []) ≡ count_spokes x l
count_spokes-empty x [] j = refl
count_spokes-empty x (s ∷ l) zero = omega arith
count_spokes-empty x (s ∷ l) (suc j) = omega (arith, count_spokes-empty x l j)

pub count_wheels-set :
    (x : ℕ) (l : List Wheel) (i : ℕ) (w : Wheel)
    → i < length l
    → count_wheels x (set l i w) + count_spokes x (get_or l i no_wheel).spokes
      ≡ count_wheels x l + count_spokes x w.spokes
count_wheels-set x [] i w h = elim h [ ]
count_wheels-set x (s ∷ l) zero w h = omega arith
count_wheels-set x (s ∷ l) (suc i) w h = omega (arith, count_wheels-set x l i w (omega arith))

pub get_or-set_self :
    (l : List Wheel) (i : ℕ) (w : Wheel) → i < length l → get_or (set l i w) i no_wheel ≡ w
get_or-set_self [] i w h = elim h [ ]
get_or-set_self (s ∷ l) zero w h = refl
get_or-set_self (s ∷ l) (suc i) w h = get_or-set_self l i w (omega arith)

length-set_wheel :
    (l : List Wheel) (i k : ℕ) (w : Wheel)
    → length w.spokes ≡ length (get_or l i no_wheel).spokes
    → length (get_or (set l i w) k no_wheel).spokes ≡ length (get_or l k no_wheel).spokes
length-set_wheel [] i k w h = refl
length-set_wheel (s ∷ l) zero zero w h = h
length-set_wheel (s ∷ l) zero (suc k) w h = refl
length-set_wheel (s ∷ l) (suc i) zero w h = refl
length-set_wheel (s ∷ l) (suc i) (suc k) w h = length-set_wheel l i k w h

abbrev pub spokes_of : ℕ → ℕ
spokes_of zero = 256
spokes_of (suc i) = 64

-- Five wheels, the first of 256 spokes, the others of 64.
pub record IsShaped (m : TimerManager) : Type 0 where
  pub five : length m.wheels ≡ 5
  pub spokes_eq : (i : ℕ) → i < 5 → length (wheel_at i m).spokes ≡ spokes_of i

-- Another state with the same timers in the same shape.
pub record IsSame (x : ℕ) (m m' : TimerManager) : Type 0 where
  pub shaped : IsShaped m'
  pub total_eq : total x m' ≡ total x m

pub with_wheel-IsShaped :
    (i : ℕ) (w : Wheel) (m : TimerManager)
    → length w.spokes ≡ length (wheel_at i m).spokes
    → IsShaped m
    → IsShaped (with_wheel i w m)
with_wheel-IsShaped i w m h s = record {
  five = length-set m.wheels i w ∙ s.five;
  spokes_eq = λ k hk. length-set_wheel m.wheels i k w h ∙ s.spokes_eq k hk;
}

place_of_lem :
    (interval : ℕ) (m : TimerManager)
    → let p = place_of interval m in (p.0 < 5) × (p.1 < spokes_of p.0)
unfolding place_of spoke_index
place_of_lem interval m = elim (Bool-cases (ltb interval (2 ^ 8))) [
  | inl a ↦ rw a (omega arith, omega arith)
  | inr a ↦ rw a (elim (Bool-cases (ltb interval (2 ^ 14))) [
    | inl b ↦ rw b (omega arith, omega arith)
    | inr b ↦ rw b (elim (Bool-cases (ltb interval (2 ^ 20))) [
      | inl c ↦ rw c (omega arith, omega arith)
      | inr c ↦ rw c (elim (Bool-cases (ltb interval (2 ^ 26))) [
        | inl d ↦ rw d (omega arith, omega arith)
        | inr d ↦ rw d (omega arith, omega arith)
      ])
    ])
  ])
]

push_at_lem :
    (x : ℕ) (p : ℕ × ℕ) (node : TimerNode) (m : TimerManager)
    → IsShaped m
    → p.0 < 5
    → p.1 < spokes_of p.0
    → IsShaped (push_at p node m)
      × (total x (push_at p node m) ≡ (if node.id == x then 1 else 0) + total x m)
unfolding push_at
push_at_lem x (i, j) node m s hi hj = (
  with_wheel-IsShaped i (push_spoke j node w) m (length-set w.spokes j _) s,
  omega (
    arith,
    count_wheels-set x m.wheels i (push_spoke j node w) (omega (arith, s.five)),
    count_spokes-set x w.spokes j (get_or w.spokes j [] ++ (node ∷ []))
        (omega (arith, s.spokes_eq i hi)),
    count_nodes-append x (get_or w.spokes j []) (node ∷ []),
  ),
)
  where
    w : Wheel
    w = wheel_at i m

pub add_timer_node_lem :
    (x ms : ℕ) (node : TimerNode) (m : TimerManager)
    → IsShaped m
    → IsShaped (add_timer_node ms node m)
      × (total x (add_timer_node ms node m) ≡ (if node.id == x then 1 else 0) + total x m)
unfolding add_timer_node
add_timer_node_lem x ms node m s =
    let h = place_of_lem (ms / granularity) m in
    push_at_lem x (place_of (ms / granularity) m) node m s h.0 h.1

pub ready_lem :
    (x : ℕ) (nodes : List TimerNode) (m : TimerManager)
    → total x (add_to_ready nodes m) ≡ count_nodes x nodes + total x m
ready_lem x nodes m = omega (arith, count_nodes-append x m.readynodes nodes)

pub move_nodes_lem :
    (x now : ℕ) (nodes : List TimerNode) (m : TimerManager)
    → IsShaped m
    → IsShaped (move_nodes now nodes m)
      × (total x (move_nodes now nodes m) ≡ count_nodes x nodes + total x m)
unfolding move_nodes
move_nodes_lem x now [] m s = (s, omega arith)
move_nodes_lem x now (node ∷ nodes) m s = elim (Bool-cases (leb node.dead_time now)) [
  | inl e ↦
      let r =
        move_nodes_lem x now nodes (add_to_ready (node ∷ []) m)
          (record { five = s.five; spokes_eq = s.spokes_eq }) in
      rw (move_nodes, e) (r.0, omega (arith, r.1, ready_lem x (node ∷ []) m))
  | inr e ↦
      let a = add_timer_node_lem x ((node.dead_time - now) % 2 ^ 32) node m s in
      let r =
        move_nodes_lem x now nodes (add_timer_node ((node.dead_time - now) % 2 ^ 32) node m) a.0 in
      rw (move_nodes, e) (r.0, omega (arith, r.1, a.1))
]

pub new_manager-IsShaped : (now : ℕ) → IsShaped (new_manager now)
unfolding new_manager
new_manager-IsShaped now = record { five = refl; spokes_eq = sizes }
  where
    sizes : (i : ℕ) → i < 5 → length (wheel_at i (new_manager now)).spokes ≡ spokes_of i
    sizes zero h = refl
    sizes (suc zero) h = refl
    sizes (suc (suc zero)) h = refl
    sizes (suc (suc (suc zero))) h = refl
    sizes (suc (suc (suc (suc zero)))) h = refl
    sizes (suc (suc (suc (suc (suc i))))) h = absurd (omega arith)

count_spokes-replicate : (x n : ℕ) → count_spokes x (replicate n []) ≡ 0
count_spokes-replicate x zero = refl
count_spokes-replicate x (suc n) = omega (arith, count_spokes-replicate x n)

-- A new manager has no timer.
pub total-new_manager : (x now : ℕ) → total x (new_manager now) ≡ 0
unfolding new_manager
total-new_manager x now = omega (arith, count_spokes-replicate x 256, count_spokes-replicate x 64)
