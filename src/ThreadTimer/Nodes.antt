-- ===== src/ThreadTimer/Nodes.antt =====
-- `CThreadTimer`: the manager's nodes are those that the timers point to.
use ape_cpp_server.Base.{
  All, Bool-cases, Option-cases, ==_iff, get_elem?, set, ℕ, suc, ◌≤◌, ◌≡◌, ◌<◌, zero, ◌==◌, ◌∙◌,
  refl, ap, inl, inr, none, some, List, [], ◌∷◌, arith,
}
use ape_cpp_server.Timer.{TimerNode, detect_timer_list, new_manager}
use ape_cpp_server.Timer.Place.{
  count_nodes, total, IsShaped, new_manager-IsShaped, total-new_manager,
}
use ape_cpp_server.Timer.Kept.{detect_timer_list_lem}
use ape_cpp_server.ThreadTimer.Change.{
  held, holders, holders-at, held-some, IsKept, IsChange, start_lem, stop_lem, callback_lem,
  change_lem,
}
use ape_cpp_server.ThreadTimer.{
  ThreadTimer, Clockwork, stop, start, callback, timer_of, use_timer, call_back, Use, starts, stops,
  detects, forget, use_timers, use_all,
}

use_timer-IsKept :
    (f : ThreadTimer → Clockwork → ThreadTimer × Clockwork) (k : ℕ) (ts : List ThreadTimer)
    (c : Clockwork)
    → IsKept [] ts c
    → ((t : ThreadTimer)
        → ((x : ℕ) → held x t.timernode ≤ total x c.manager)
        → ((x : ℕ) → total x c.manager ≤ 1)
        → IsChange k t.timernode (f t c).0 c (f t c).1)
    → let s' = use_timer f k (ts, c) in IsKept [] s'.0 s'.1
unfolding use_timer
use_timer-IsKept f k ts c i h = elim (Option-cases (get_elem? ts k)) [
  | inl n ↦ rw (use_timer, n) i
  | inr t ↦
      rw (use_timer, t.1)
        (change_lem k t.0.timernode [] [] ts t.0 (f t.0 c).0 c (f t.0 c).1 i t.1
          (h t.0 (λ x. omega (arith, i.total_eq x, holders-at x k ts t.0 t.1))
            (λ x. omega (arith, i.total_eq x, i.once x)))
          (λ x. refl))
]

-- a timer that points to a node
holder_of :
    (x : ℕ) (ts : List ThreadTimer)
    → 0 < holders x ts
    → (k : ℕ) × (t : ThreadTimer) × (get_elem? ts k ≡ some t) × (t.timernode ≡ some x)
holder_of x [] h = absurd (omega (arith, h))
holder_of x (t ∷ ts) h = elim (Option-cases t.timernode) [
  | inl n ↦ let r = holder_of x ts (omega (arith, h, ap (held x) n)) in (suc r.0, r.1, r.2, r.3)
  | inr m ↦ elim (Bool-cases (m.0 == x)) [
    | inl e ↦ (zero, t, refl, m.1 ∙ ap some ((==_iff m.0 x).0 e))
    | inr e ↦
        let r = holder_of x ts (ground (arith, h, ap (held x) m.1, e)) in (suc r.0, r.1, r.2, r.3)
  ]
]

call_back-IsKept :
    (now : ℕ) (nodes : List TimerNode) (ts : List ThreadTimer) (c : Clockwork)
    → IsKept nodes ts c
    → let s' = call_back now nodes (ts, c) in IsKept [] s'.0 s'.1
unfolding call_back
call_back-IsKept now [] ts c i = i
call_back-IsKept now (node ∷ nodes) ts c i =
    let r = holder_of node.id ts (ground (arith, i.total_eq node.id)) in
    let t = r.1 in
    let f = callback now r.0 t c in
    let left : IsKept nodes (set ts r.0 f.0) f.1 =
      change_lem r.0 none (node ∷ nodes) nodes ts t f.0 c f.1 i r.2
        (callback_lem now r.0 t c i.shaped i.fired_eq (λ x. omega (arith, i.total_eq x, i.once x)))
        (λ x. omega (arith, ap (held x) r.3)) in
    rw (call_back, i.owned node.id r.0 t r.2 r.3, use_timer, r.2)
      (call_back-IsKept now nodes (set ts r.0 f.0) f.1 left)

detected_lem :
    (time : ℕ) (now : ℕ → ℕ) (ts : List ThreadTimer) (c : Clockwork)
    → IsKept [] ts c
    → let m = detect_timer_list time now (forget c.manager) in
      IsKept m.fired ts (record c { manager = forget m })
detected_lem time now ts c i =
    let m = detect_timer_list time now (forget c.manager) in
    let s : IsShaped (forget c.manager) = record {
      five = i.shaped.five;
      spokes_eq = i.shaped.spokes_eq;
    } in
    let r = detect_timer_list_lem 0 time now (forget c.manager) s in
    record {
      shaped = record { five = r.0.five; spokes_eq = r.0.spokes_eq };
      fired_eq = refl;
      total_eq = λ x. omega (
        arith,
        (detect_timer_list_lem x time now (forget c.manager) s).1,
        i.total_eq x,
        ap (count_nodes x) i.fired_eq,
      );
      once = i.once;
      fresh = i.fresh;
      owned = i.owned;
    }

use_timers-IsKept :
    (u : Use) (ts : List ThreadTimer) (c : Clockwork)
    → IsKept [] ts c
    → let s' = use_timers u (ts, c) in IsKept [] s'.0 s'.1
unfolding use_timers
use_timers-IsKept (starts now k) ts c i =
    use_timer-IsKept (start now k) k ts c i (λ t h l. start_lem now k t c i.shaped i.fired_eq h l)
use_timers-IsKept (stops k) ts c i =
    use_timer-IsKept stop k ts c i (λ t h l. stop_lem k t c i.shaped i.fired_eq h l)
use_timers-IsKept (detects time now later) ts c i =
    let m = detect_timer_list time now (forget c.manager) in
    call_back-IsKept later m.fired ts (record c { manager = forget m })
      (detected_lem time now ts c i)

-- a timer that was never started
abbrev pub IsIdle : ThreadTimer → Type 0
IsIdle t = t.timernode ≡ none

use_all-IsKept :
    (us : List Use) (ts : List ThreadTimer) (c : Clockwork)
    → IsKept [] ts c
    → let s' = use_all us (ts, c) in IsKept [] s'.0 s'.1
unfolding use_all
use_all-IsKept [] ts c i = i
use_all-IsKept (u ∷ us) ts c i =
    let s' = use_timers u (ts, c) in use_all-IsKept us s'.0 s'.1 (use_timers-IsKept u ts c i)

idle_lem : (x : ℕ) (ts : List ThreadTimer) → All IsIdle ts → holders x ts ≡ 0
idle_lem x [] a = refl
idle_lem x (t ∷ ts) a = omega (arith, ap (held x) a.0, idle_lem x ts a.1)

new_lem :
    (ts : List ThreadTimer) (now next : ℕ)
    → All IsIdle ts
    → IsKept [] ts (record { manager = new_manager now; next_node = next; owners = [] })
unfolding new_manager
new_lem ts now next a = record {
  shaped = new_manager-IsShaped now;
  fired_eq = refl;
  total_eq = λ x. omega (arith, total-new_manager x now, idle_lem x ts a);
  once = λ x. omega (arith, idle_lem x ts a);
  fresh = λ x h. idle_lem x ts a;
  owned = λ x k t g e.
      absurd (omega (arith, idle_lem x ts a, holders-at x k ts t g, held-some x t.timernode e));
}

-- Whatever timers are started and stopped and whenever `DetectTimerList` runs, from timers that were
-- never started and a new manager on: a node is in the manager exactly as often as a timer points to
-- it, which is at most once; and the timer that is stored in a node, whose `Callback` its time calls,
-- is the one that points to it.
pub use_all_lem :
    (us : List Use) (ts : List ThreadTimer) (now next x : ℕ)
    → All IsIdle ts
    → let s' =
        use_all us (ts, record { manager = new_manager now; next_node = next; owners = [] }) in
      (total x s'.1.manager ≡ holders x s'.0)
      × (holders x s'.0 ≤ 1)
      × ((k : ℕ) (t : ThreadTimer)
          → get_elem? s'.0 k ≡ some t
          → t.timernode ≡ some x
          → timer_of x s'.1.owners ≡ some k)
use_all_lem us ts now next x a =
    let i = use_all-IsKept us ts _ (new_lem ts now next a) in
    (omega (arith, i.total_eq x), i.once x, i.owned x)
