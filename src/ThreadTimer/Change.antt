-- ===== src/ThreadTimer/Change.antt =====
-- What one call of a method of `CThreadTimer` changes.
use mathlib.Core.Option.{some-injective}
use ape_cpp_server.Base.{
  ltb, ltb→lt, not_ltb→le, ◌==◌, if◌then◌else◌, Bool-cases, get_elem?, set, ℕ, zero, suc, ◌+◌, ◌≤◌,
  ◌<◌, ◌≡◌, refl, ap, sym, ◌∙◌, ◌⊎◌, ==_refl, ==_ne, inl, inr, Option, none, some, List, [], ◌∷◌,
  arith,
}
use ape_cpp_server.Timer.{TimerNode, add_timer, remove_timer}
use ape_cpp_server.Timer.Place.{count_nodes, total, IsShaped}
use ape_cpp_server.Timer.Kept.{add_timer_lem}
use ape_cpp_server.Timer.Removed.{remove_timer_lem, remove_timer-IsShaped}
use ape_cpp_server.ThreadTimer.{
  ThreadTimer, Clockwork, remove_node, stop, start, callback, timer_of,
}

-- whether a timer points to a node, as a number, and how many do
abbrev pub held : ℕ → Option ℕ → ℕ
held x none = 0
held x (some n) = if n == x then 1 else 0

abbrev pub holders : ℕ → List ThreadTimer → ℕ
holders x [] = 0
holders x (t ∷ ts) = held x t.timernode + holders x ts

holders-set :
    (x k : ℕ) (ts : List ThreadTimer) (t t' : ThreadTimer)
    → get_elem? ts k ≡ some t
    → holders x (set ts k t') + held x t.timernode ≡ holders x ts + held x t'.timernode
holders-set x k [] t t' h = absurd (cc)
holders-set x zero (u ∷ ts) t t' h =
    omega (arith, ap (λ v. held x (v.timernode)) (some-injective _ _ h))
holders-set x (suc k) (u ∷ ts) t t' h = omega (arith, holders-set x k ts t t' h)

pub holders-at :
    (x k : ℕ) (ts : List ThreadTimer) (t : ThreadTimer)
    → get_elem? ts k ≡ some t
    → held x t.timernode ≤ holders x ts
holders-at x k [] t h = absurd (cc)
holders-at x zero (u ∷ ts) t h =
    omega (arith, ap (λ v. held x (v.timernode)) (some-injective _ _ h))
holders-at x (suc k) (u ∷ ts) t h = omega (arith, holders-at x k ts t h)

-- The manager's nodes, and those of `nodes`, which are to be called back, are the timers' nodes, each
-- of one timer only, which is the one that is stored in it.
pub record IsKept (nodes : List TimerNode) (ts : List ThreadTimer) (c : Clockwork) : Type 0 where
  pub shaped : IsShaped c.manager
  pub fired_eq : c.manager.fired ≡ []
  pub total_eq : (x : ℕ) → total x c.manager + count_nodes x nodes ≡ holders x ts
  pub once : (x : ℕ) → holders x ts ≤ 1
  pub fresh : (x : ℕ) → c.next_node ≤ x → holders x ts ≡ 0
  pub owned :
      (x k : ℕ) (t : ThreadTimer)
      → get_elem? ts k ≡ some t
      → t.timernode ≡ some x
      → timer_of x c.owners ≡ some k

-- What a call for the timer at `k` changes, of which `o` are the nodes that it takes from the manager:
-- the new node is a new one, in which `k` is stored.
pub record IsChange (k : ℕ) (o : Option ℕ) (t' : ThreadTimer) (c c' : Clockwork) : Type 0 where
  pub shaped : IsShaped c'.manager
  pub fired_eq : c'.manager.fired ≡ []
  pub total_eq : (x : ℕ) → total x c'.manager + held x o ≡ total x c.manager + held x t'.timernode
  pub old : (x : ℕ) → x < c.next_node → held x t'.timernode ≡ 0
  pub next : c.next_node ≤ c'.next_node
  pub fresh : (x : ℕ) → c'.next_node ≤ x → held x t'.timernode ≡ 0
  pub stored : (x : ℕ) → t'.timernode ≡ some x → timer_of x c'.owners ≡ some k
  pub unchanged : (x : ℕ) → x < c.next_node → timer_of x c'.owners ≡ timer_of x c.owners

held-le : (x : ℕ) (o : Option ℕ) → held x o ≤ 1
held-le x none = omega arith
held-le x (some n) = ground arith

remove_node_lem :
    (o : Option ℕ) (c : Clockwork)
    → IsShaped c.manager
    → c.manager.fired ≡ []
    → ((x : ℕ) → held x o ≤ total x c.manager)
    → ((x : ℕ) → total x c.manager ≤ 1)
    → IsShaped (remove_node o c).manager
      × ((remove_node o c).manager.fired ≡ [])
      × ((x : ℕ) → total x (remove_node o c).manager + held x o ≡ total x c.manager)
      × ((remove_node o c).next_node ≡ c.next_node)
      × ((remove_node o c).owners ≡ c.owners)
unfolding remove_timer
remove_node_lem none c s f h l = (s, f, λ x. omega arith, refl, refl)
remove_node_lem (some id) c s f h l = (remove_timer-IsShaped id c.manager s, f, rest, refl, refl)
  where
    rest : (x : ℕ) → total x (remove_timer id c.manager) + held x (some id) ≡ total x c.manager
    rest x = ground (arith, remove_timer_lem x id c.manager (rw (f) refl), h x, l x)

pub stop_lem :
    (k : ℕ) (t : ThreadTimer) (c : Clockwork)
    → IsShaped c.manager
    → c.manager.fired ≡ []
    → ((x : ℕ) → held x t.timernode ≤ total x c.manager)
    → ((x : ℕ) → total x c.manager ≤ 1)
    → IsChange k t.timernode (stop t c).0 c (stop t c).1
unfolding stop
stop_lem k t c s f h l =
    let r = remove_node_lem t.timernode c s f h l in
    record {
      shaped = r.0;
      fired_eq = r.1;
      total_eq = λ x. omega (arith, r.2 x);
      old = λ x i. refl;
      next = omega (arith, r.3);
      fresh = λ x i. refl;
      stored = λ x e. absurd (cc);
      unchanged = λ x i. ap (timer_of x) r.4;
    }

pub start_lem :
    (now k : ℕ) (t : ThreadTimer) (c : Clockwork)
    → IsShaped c.manager
    → c.manager.fired ≡ []
    → ((x : ℕ) → held x t.timernode ≤ total x c.manager)
    → ((x : ℕ) → total x c.manager ≤ 1)
    → IsChange k t.timernode (start now k t c).0 c (start now k t c).1
unfolding start stop add_timer timer_of
start_lem now k t c s f h l =
    let r = remove_node_lem t.timernode c s f h l in
    let d = remove_node t.timernode c in
    record {
      shaped = (add_timer_lem 0 now t.interval d.next_node d.manager r.0).0;
      fired_eq = r.1;
      total_eq =
          λ x. omega (arith, r.2 x, (add_timer_lem x now t.interval d.next_node d.manager r.0).1);
      old = λ x i. ground (arith, r.3, i);
      next = omega (arith, r.3);
      fresh = λ x i. ground (arith, i);
      stored = λ x e. ground (arith, ==_refl d.next_node, some-injective _ _ e);
      unchanged = λ x i. rw (==_ne d.next_node x (omega (arith, i, r.3))) (ap (timer_of x) r.4);
    }

-- The callback, whose node the manager has no longer.
pub callback_lem :
    (now k : ℕ) (t : ThreadTimer) (c : Clockwork)
    → IsShaped c.manager
    → c.manager.fired ≡ []
    → ((x : ℕ) → total x c.manager ≤ 1)
    → IsChange k none (callback now k t c).0 c (callback now k t c).1
unfolding callback
callback_lem now k t c s f l = elim (Bool-cases t.circle) [
  | inl e ↦
      let u : ThreadTimer = record t { timernode = none } in
      let r = start_lem now k u c s f (λ x. omega arith) l in
      rw (callback, e)
        record {
          shaped = r.shaped;
          fired_eq = r.fired_eq;
          total_eq = r.total_eq;
          old = r.old;
          next = r.next;
          fresh = r.fresh;
          stored = r.stored;
          unchanged = r.unchanged;
        }
  | inr e ↦
      rw (callback, e)
        record {
          shaped = s;
          fired_eq = f;
          total_eq = λ x. refl;
          old = λ x i. refl;
          next = omega arith;
          fresh = λ x i. refl;
          stored = λ x e'. absurd (cc);
          unchanged = λ x i. refl;
        }
]

get_elem-set :
    (ts : List ThreadTimer) (k j : ℕ) (t t' u : ThreadTimer)
    → get_elem? ts k ≡ some t
    → get_elem? (set ts k t') j ≡ some u
    → ((j ≡ k) × (u ≡ t')) ⊎ (get_elem? ts j ≡ some u)
get_elem-set [] k j t t' u g e = absurd cc
get_elem-set (v ∷ ts) zero zero t t' u g e = inl (refl, sym (some-injective _ _ e))
get_elem-set (v ∷ ts) zero (suc j) t t' u g e = inr e
get_elem-set (v ∷ ts) (suc k) zero t t' u g e = inr e
get_elem-set (v ∷ ts) (suc k) (suc j) t t' u g e = elim (get_elem-set ts k j t t' u g e) [
  | inl q ↦ inl (ap suc q.0, q.1)
  | inr q ↦ inr q
]

pub held-some : (x : ℕ) (o : Option ℕ) → o ≡ some x → held x o ≡ 1
held-some x o e = rw (e, ==_refl x) refl

-- a node that a timer points to is not a new one
held-old :
    {nodes : List TimerNode} (x k : ℕ) (ts : List ThreadTimer) (t : ThreadTimer) (c : Clockwork)
    → IsKept nodes ts c
    → get_elem? ts k ≡ some t
    → t.timernode ≡ some x
    → x < c.next_node
held-old x k ts t c i g e = elim (Bool-cases (ltb x c.next_node)) [
  | inl b ↦ ltb→lt x c.next_node b
  | inr b ↦ absurd (
      omega (
        arith,
        i.fresh x (not_ltb→le x c.next_node b),
        holders-at x k ts t g,
        held-some x t.timernode e,
      ))
]

-- A changed timer is put back: of the nodes that are to be called back, those of `o'` are done with.
pub change_lem :
    (k : ℕ) (o : Option ℕ) (nodes left : List TimerNode) (ts : List ThreadTimer)
    (t t' : ThreadTimer) (c c' : Clockwork)
    → IsKept nodes ts c
    → get_elem? ts k ≡ some t
    → IsChange k o t' c c'
    → ((x : ℕ) → held x o + count_nodes x nodes ≡ held x t.timernode + count_nodes x left)
    → IsKept left (set ts k t') c'
change_lem k o nodes left ts t t' c c' i g n d = record {
  shaped = n.shaped;
  fired_eq = n.fired_eq;
  total_eq = λ x. omega (arith, n.total_eq x, i.total_eq x, d x, holders-set x k ts t t' g);
  once = λ x. elim (Bool-cases (ltb x c.next_node)) [
    | inl e ↦ omega (arith, i.once x, n.old x (ltb→lt x c.next_node e), holders-set x k ts t t' g)
    | inr e ↦ omega (
      arith,
      i.fresh x (not_ltb→le x c.next_node e),
      held-le x t'.timernode,
      holders-set x k ts t t' g,
    )
  ];
  fresh = λ x h.
      omega (arith, n.fresh x h, i.fresh x (omega (arith, h, n.next)), holders-set x k ts t t' g);
  owned = λ x j u e p. elim (get_elem-set ts k j t t' u g e) [
    | inl q ↦ n.stored x (sym (ap (λ v. v.timernode) q.1) ∙ p) ∙ ap some (sym q.0)
    | inr q ↦ n.unchanged x (held-old x j ts u c i q p) ∙ i.owned x j u q p
  ];
}
