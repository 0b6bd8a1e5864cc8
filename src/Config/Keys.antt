-- ===== src/Config/Keys.antt =====
-- `GetParameter` goes down by the keys of a path.
use ape_cpp_server.Base.{
  ◌⊎◌, length-drop, ◌==◌, if◌then◌else◌, Bool-cases, Option-cases, length, take, drop, ◌>>=◌, ℕ,
  zero, suc, ◌<◌, ◌≡◌, refl, ◌∙◌, inl, inr, true, false, Option, none, some, List, [], ◌∷◌, arith,
}
use ape_cpp_server.CText.{c_text}
use ape_cpp_server.Config.{
  find_slash, child_of, find_element, element_at, get_parameter, ConfigParser,
}

-- A path is cut at every slash.
abbrev pub put_first : ℕ → List (List ℕ) → List (List ℕ)
put_first c [] = (c ∷ []) ∷ []
put_first c (k ∷ ks) = (c ∷ k) ∷ ks

abbrev pub keys : List ℕ → List (List ℕ)
keys [] = [] ∷ []
keys (c ∷ s) = if c == b'/' then [] ∷ keys s else put_first c (keys s)

keys-none : (s : List ℕ) → find_slash s ≡ none → keys s ≡ s ∷ []
unfolding find_slash
keys-none [] h = refl
keys-none (c ∷ s) h = elim (Bool-cases (c == b'/')) [
  | inl e ↦ absurd (ground (arith, e, h))
  | inr e ↦ elim (Option-cases (find_slash s)) [
    | inl n ↦ rw (e, keys-none s n) refl
    | inr k ↦ absurd (ground (arith, e, h, k.1))
  ]
]

-- the place of the first slash, by the first character
find_slash-found :
    (c k : ℕ) (s : List ℕ)
    → find_slash (c ∷ s) ≡ some k
    → ((c == b'/') ≡ true) × (k ≡ 0)
      ⊎ ((c == b'/') ≡ false) × ((j : ℕ) × (find_slash s ≡ some j) × (k ≡ suc j))
unfolding find_slash
find_slash-found c k s h = ground (arith, h, Bool-cases (c == b'/'), Option-cases (find_slash s))

keys-some :
    (k : ℕ) (s : List ℕ)
    → find_slash s ≡ some k
    → (keys s ≡ take k s ∷ keys (drop (suc k) s)) × (k < length s)
unfolding find_slash
keys-some k [] h = absurd (cc)
keys-some k (c ∷ s) h = elim (find_slash-found c k s h) [
  | inl p ↦ rw (p.0, p.1) (refl, omega arith)
  | inr p ↦ let r = keys-some p.1.0 s p.1.1 in rw (p.0, p.1.2, r.0) (refl, omega (arith, r.1))
]

module _ {E : Type 0} (first_child : E → List ℕ → Option E) where
  -- the element that the keys lead to, `none` if a key is empty or leads nowhere
  abbrev pub descend : E → List (List ℕ) → Option E
  descend e [] = some e
  descend e ([] ∷ ks) = none
  descend e ((c ∷ k) ∷ ks) = first_child e (c_text (c ∷ k)) >>= (λ e'. descend e' ks)

  descend-child :
      (e : E) (k : List ℕ) (ks : List (List ℕ))
      → (child_of first_child e k >>= (λ e'. descend e' ks)) ≡ descend e (k ∷ ks)
  unfolding child_of
  descend-child e [] ks = refl
  descend-child e (c ∷ k) ks = refl

  found_at_end : (o : Option E) → o ≡ (o >>= (λ e. some e))
  found_at_end none = refl
  found_at_end (some e) = refl

  each_found :
      {g : E → Option E} (f : E → Option E)
      → ((e : E) → f e ≡ g e)
      → (o : Option E) → elim o [ none ↦ none | some e ↦ f e ] ≡ (o >>= g)
  each_found f h none = refl
  each_found f h (some e) = h e

  find_element_lem :
      (n : ℕ) (e : E) (path : List ℕ)
      → length path < n
      → find_element first_child n e path ≡ descend e (keys path)
  unfolding find_element
  find_element_lem zero e path h = elim h [ ]
  find_element_lem (suc n) e path h = elim (Option-cases (find_slash path)) [
    | inl p ↦
        rw (find_element, p, keys-none path p)
          (found_at_end (child_of first_child e path) ∙ descend-child e path [])
    | inr k ↦
        let r = keys-some k.0 path k.1 in
        rw (find_element, k.1, r.0)
          (each_found (λ e'. find_element first_child n e' (drop (suc k.0) path))
              (λ e'.
                find_element_lem n e' (drop (suc k.0) path)
                  (rw (length-drop (suc k.0) path) (omega (arith, r.1, h))))
              (child_of first_child e (take k.0 path))
            ∙ descend-child e (take k.0 path) (keys (drop (suc k.0) path)))
  ]

  element_at_lem :
      (root : Option E) (path : List ℕ)
      → element_at first_child root path ≡ (root >>= (λ e. descend e (keys path)))
  unfolding element_at
  element_at_lem none path = refl
  element_at_lem (some e) path = find_element_lem (suc (length path)) e path (omega arith)

  -- `GetParameter` is the empty text where there is no root, where a key of the path, which is cut at
  -- every slash, is empty, and where a key leads to no element. It is the text of the element that the
  -- keys lead to elsewhere.
  pub get_parameter_lem :
      (inner : E → List ℕ) (path : List ℕ) (p : ConfigParser E)
      → get_parameter first_child inner path p
        ≡ elim (p.root >>= (λ e. descend e (keys path))) [ none ↦ [] | some e ↦ inner e ]
  unfolding get_parameter
  get_parameter_lem inner path p = rw (get_parameter, element_at_lem p.root path) refl
