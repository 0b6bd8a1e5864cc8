-- ===== src/Timer/Kept.antt =====
-- `CTimerManager`: no timer is lost, and none is called back twice.
use mathlib.Core.Path.{subst}
use ape_cpp_server.Base.{
  ltb, leb, ◌==◌, if◌then◌else◌, length, set, length-set, ℕ, zero, suc, ◌+◌, ◌-◌, ◌/◌, ◌%◌, ◌^◌,
  ◌≤◌, ◌<◌, ◌≡◌, refl, sym, ap, ◌∙◌, Bool, true, false, List, [], ◌∷◌, arith,
}
use ape_cpp_server.Timer.{
  Wheel, TimerManager, granularity, wheel_at, with_wheel, add_timer, add_to_ready, take_spoke,
  spoke_nodes, rewind, cascade_spoke, cascade, tick, ticks, do_time_out, detect_timer_list,
}
use ape_cpp_server.Timer.Place.{
  count_nodes, count_spokes, total, count_nodes-append, count_spokes-empty, count_wheels-set,
  IsShaped, IsSame, with_wheel-IsShaped, add_timer_node_lem, ready_lem, move_nodes_lem,
}

-- A wheel that holds the nodes of the old one but for `n`.
with_wheel_lem :
    (x i n : ℕ) (w : Wheel) (m : TimerManager)
    → i < 5
    → length w.spokes ≡ length (wheel_at i m).spokes
    → count_spokes x w.spokes + n ≡ count_spokes x (wheel_at i m).spokes
    → IsShaped m
    → IsShaped (with_wheel i w m) × (total x (with_wheel i w m) + n ≡ total x m)
with_wheel_lem x i n w m hi hl hc s = (
  with_wheel-IsShaped i w m hl s,
  omega (arith, count_wheels-set x m.wheels i w (omega (arith, s.five)), hc),
)

take_spoke_lem :
    (x i : ℕ) (m : TimerManager)
    → i < 5
    → IsShaped m
    → let m' = with_wheel i (take_spoke (wheel_at i m)) m in
      IsShaped m' × (total x m' + count_nodes x (spoke_nodes (wheel_at i m)) ≡ total x m)
take_spoke_lem x i m hi s =
    let w : Wheel = wheel_at i m in
    with_wheel_lem x i (count_nodes x (spoke_nodes w)) (take_spoke w) m hi
      (length-set w.spokes w.spokeindex []) (count_spokes-empty x w.spokes w.spokeindex) s

rewind_lem :
    (x i : ℕ) (m : TimerManager)
    → i < 5
    → IsShaped m
    → IsSame x m (with_wheel i (rewind (wheel_at i m)) m)
rewind_lem x i m hi s =
    let r = with_wheel_lem x i 0 (rewind (wheel_at i m)) m hi refl (omega arith) s in
    record { shaped = r.0; total_eq = omega (arith, r.1) }

cascade_spoke_lem :
    (x : ℕ) (now : ℕ → ℕ) (i : ℕ) (m : TimerManager)
    → i < 5
    → IsShaped m
    → IsSame x m (cascade_spoke now i m)
unfolding cascade_spoke
cascade_spoke_lem x now i m hi s =
    let t = take_spoke_lem x i m hi s in
    let r =
      move_nodes_lem x (now i) (spoke_nodes (wheel_at i m))
        (with_wheel i (take_spoke (wheel_at i m)) m) t.0 in
    record { shaped = r.0; total_eq = omega (arith, r.1, t.1) }

IsSame-trans : (x : ℕ) (a b c : TimerManager) → IsSame x a b → IsSame x b c → IsSame x a c
IsSame-trans x a b c p q = record { shaped = q.shaped; total_eq = q.total_eq ∙ p.total_eq }

if-IsSame :
    (x : ℕ) (c : Bool) (m a b : TimerManager)
    → IsSame x m a
    → IsSame x m b
    → IsSame x m (if c then a else b)
if-IsSame x true m a b p q = p
if-IsSame x false m a b p q = q

cascade_lem :
    (x : ℕ) (now : ℕ → ℕ) (n i : ℕ) (m : TimerManager)
    → n + i ≤ 5
    → IsShaped m
    → IsSame x m (cascade now n i m)
unfolding cascade
cascade_lem x now zero i m h s = record { shaped = s; total_eq = refl }
cascade_lem x now (suc n) i m h s =
    let m' : TimerManager = cascade_spoke now i m in
    let c : IsSame x m m' = cascade_spoke_lem x now i m (omega arith) s in
    let r : IsSame x m' (with_wheel i (rewind (wheel_at i m')) m') =
      rewind_lem x i m' (omega arith) c.shaped in
    if-IsSame x (leb (wheel_at i m').size (wheel_at i m').spokeindex) m _ m'
      (IsSame-trans x m m' _ c (
        IsSame-trans x m' _ _ r (
          cascade_lem x now n (i + 1) (with_wheel i (rewind (wheel_at i m')) m') (omega arith)
            r.shaped)))
      c

-- The first lines of a turn: the nodes of the spoke are ready, and the index has moved on.
taken-IsSame :
    (x : ℕ) (w : Wheel) (m : TimerManager)
    → w.spokes ≡ set (wheel_at 0 m).spokes (wheel_at 0 m).spokeindex []
    → IsShaped m
    → IsSame x m (add_to_ready (spoke_nodes (wheel_at 0 m)) (with_wheel 0 w m))
taken-IsSame x w m e s =
    let v : Wheel = wheel_at 0 m in
    let r =
      with_wheel_lem x 0 (count_nodes x (spoke_nodes v)) w m (omega arith)
        (ap length e ∙ length-set v.spokes v.spokeindex [])
        (ap (λ l. count_spokes x l + count_nodes x (spoke_nodes v)) e
          ∙ count_spokes-empty x v.spokes v.spokeindex)
        s in
    record {
      shaped = record { five = r.0.five; spokes_eq = r.0.spokes_eq };
      total_eq = omega (arith, r.1, ready_lem x (spoke_nodes v) (with_wheel 0 w m));
    }

set-set : (l : List Wheel) (v w : Wheel) → set (set l 0 v) 0 w ≡ set l 0 w
set-set [] v w = refl
set-set (u ∷ l) v w = refl

tick_lem : (x : ℕ) (now : ℕ → ℕ) (m : TimerManager) → IsShaped m → IsSame x m (tick now m)
unfolding tick
tick_lem x now m s =
    let w : Wheel = take_spoke (wheel_at 0 m) in
    let m' : TimerManager = add_to_ready (spoke_nodes (wheel_at 0 m)) (with_wheel 0 w m) in
    let r : TimerManager = with_wheel 0 (rewind w) m' in
    let a : IsSame x m m' = taken-IsSame x w m refl s in
    let b : IsSame x m r =
      subst (λ l. IsSame x m (record m' { wheels = l })) (sym (set-set m.wheels w (rewind w)))
        (taken-IsSame x (rewind w) m refl s) in
    let c : IsSame x m (if leb w.size w.spokeindex then cascade now 4 1 r else m') =
      if-IsSame x (leb w.size w.spokeindex) m (cascade now 4 1 r) m'
        (IsSame-trans x m r _ b (cascade_lem x now 4 1 r (omega arith) b.shaped)) a in
    record {
      shaped = record { five = c.shaped.five; spokes_eq = c.shaped.spokes_eq };
      total_eq = c.total_eq;
    }

ticks_lem :
    (x : ℕ) (now : ℕ → ℕ) (n : ℕ) (m : TimerManager) → IsShaped m → IsSame x m (ticks now n m)
unfolding ticks
ticks_lem x now zero m s = record { shaped = s; total_eq = refl }
ticks_lem x now (suc n) m s =
    let t : IsSame x m (tick now m) = tick_lem x now m s in
    IsSame-trans x m (tick now m) _ t (ticks_lem x now n (tick now m) t.shaped)

-- `DetectTimerList`, at whatever times, leaves the five wheels in their shape and each timer exactly
-- as often as before, on a spoke or called back: none is lost and none called back twice, and none
-- stays ready.
pub detect_timer_list_lem :
    (x time : ℕ) (now : ℕ → ℕ) (m : TimerManager)
    → IsShaped m
    → let m' = detect_timer_list time now m in
      IsShaped m' × (total x m' ≡ total x m) × (m'.readynodes ≡ [])
unfolding detect_timer_list do_time_out
detect_timer_list_lem x time now m s =
    let n : ℕ = if ltb m.checktime time then (time - m.checktime) / granularity % 2 ^ 32 else 0 in
    let t : IsSame x m (ticks now n m) = ticks_lem x now n m s in
    (
      record { five = t.shaped.five; spokes_eq = t.shaped.spokes_eq },
      omega (
        arith,
        t.total_eq,
        count_nodes-append x (ticks now n m).fired (ticks now n m).readynodes,
      ),
      refl,
    )

-- `AddTimer` puts its timer in once, whatever its time, and changes no other.
pub add_timer_lem :
    (x now milseconds id : ℕ) (m : TimerManager)
    → IsShaped m
    → let m' = add_timer now milseconds id m in
      IsShaped m' × (total x m' ≡ (if id == x then 1 else 0) + total x m)
unfolding add_timer
add_timer_lem x now milseconds id m s =
    add_timer_node_lem x milseconds (record { id = id; dead_time = now + milseconds }) m s
