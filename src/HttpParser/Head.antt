-- ===== src/HttpParser/Head.antt =====
-- The lines of a head: where the searches of `Decode` find their ends, and what it reads in them.
use ape_cpp_server.Base.{
  ◌==◌, if◌then◌else◌, ==_refl, ==_ne, length, All, length-append, ℕ, suc, ◌+◌, ◌-◌, ◌≡◌, refl, sym,
  ap, ◌∙◌, ◌≢◌, Bool, true, false, ◌&&◌, List, [], ◌∷◌, ◌++◌, append_assoc, arith,
}
use ape_cpp_server.CText.{Found, outside, missing, found, one_on, strchr, starts, strstr}
use ape_cpp_server.HttpMessage.{crlf}

-- A line `key:value`, with whatever spaces.
pub record Header : Type 0 where
  pub key : List ℕ
  pub value : List ℕ

-- no NUL and no carriage return
abbrev pub IsText : List ℕ → Type 0
IsText = All (λ c. (c ≢ 0) × (c ≢ 13))

abbrev pub IsWithout : ℕ → List ℕ → Type 0
IsWithout d = All (λ c. c ≢ d)

pub record IsHeader (h : Header) : Type 0 where
  pub key_text : IsText h.key
  pub key_colon : IsWithout b':' h.key
  pub value_text : IsText h.value

abbrev pub line_of : Header → List ℕ
line_of h = h.key ++ (b':' ∷ h.value)

abbrev pub head_text : List Header → List ℕ
head_text [] = []
head_text (h ∷ hs) = line_of h ++ (13 ∷ 10 ∷ head_text hs)

abbrev pub behind : ℕ → Found → Found
behind n outside = outside
behind n missing = missing
behind n (found k) = found (n + k)

pub behind_one : (n : ℕ) (f : Found) → one_on (behind n f) ≡ behind (suc n) f
behind_one n outside = refl
behind_one n missing = refl
behind_one n (found k) = ap found (omega arith)

pub behind_none : (f : Found) → f ≡ behind 0 f
behind_none outside = refl
behind_none missing = refl
behind_none (found k) = ap found (omega arith)

pub IsText-append : (l k : List ℕ) → IsText l → IsText k → IsText (l ++ k)
IsText-append [] k p q = q
IsText-append (c ∷ l) k (h, p) q = (h, IsText-append l k p q)

-- A search for what begins with a carriage return passes a text.
pub strstr-text :
    (w l s : List ℕ) → IsText l → strstr (13 ∷ w) (l ++ s) ≡ behind (length l) (strstr (13 ∷ w) s)
unfolding strstr
strstr-text w [] s p = behind_none (strstr (13 ∷ w) s)
strstr-text w (c ∷ l) s ((h0, h13), p) =
    rw (strstr, ==_ne c 13 h13, ==_ne c 0 h0, strstr-text w l s p)
      (behind_one (length l) (strstr (13 ∷ w) s))

pub strchr-text :
    (d : ℕ) (l s : List ℕ)
    → IsText l
    → IsWithout d l
    → strchr d (l ++ s) ≡ behind (length l) (strchr d s)
unfolding strchr
strchr-text d [] s p q = behind_none (strchr d s)
strchr-text d (c ∷ l) s ((h0, _), p) (hd, q) =
    rw (strchr, ==_ne c d hd, ==_ne c 0 h0, strchr-text d l s p q)
      (behind_one (length l) (strchr d s))

pub strchr_here : (d : ℕ) (s : List ℕ) → strchr d (d ∷ s) ≡ found 0
unfolding strchr
strchr_here d s = rw (strchr, ==_refl d) refl

pub line-IsText : (h : Header) → IsHeader h → IsText (line_of h)
line-IsText h v =
    IsText-append h.key (b':' ∷ h.value) v.key_text ((omega arith, omega arith), v.value_text)

-- The end of a line.
pub strstr-line : (l s : List ℕ) → IsText l → strstr crlf (l ++ (13 ∷ 10 ∷ s)) ≡ found (length l)
unfolding strstr
strstr-line l s p = strstr-text (10 ∷ []) l (13 ∷ 10 ∷ s) p ∙ ap found (omega arith)

two_on : (f : Found) → one_on (one_on f) ≡ behind 2 f
two_on outside = refl
two_on missing = refl
two_on (found k) = ap found (omega arith)

pass_two :
    (b t : Bool) (f : Found)
    → b ≡ false
    → (if b && t then found 0 else one_on (one_on f)) ≡ behind 2 f
pass_two true t f h = absurd (cc)
pass_two false t f h = two_on f

strstr_pair :
    (c : ℕ) (s : List ℕ)
    → c ≢ 13
    → strstr (crlf ++ crlf) (13 ∷ 10 ∷ c ∷ s) ≡ behind 2 (strstr (crlf ++ crlf) (c ∷ s))
unfolding strstr
strstr_pair c s h =
    pass_two (c == 13) (starts (10 ∷ []) s) (strstr (crlf ++ crlf) (c ∷ s)) (==_ne c 13 h)

strstr_here : (s : List ℕ) → strstr (crlf ++ crlf) (13 ∷ 10 ∷ 13 ∷ 10 ∷ s) ≡ found 0
unfolding strstr
strstr_here s = refl

-- An end of a line with another line behind it is not the end of the head.
strstr_between :
    (k v s : List ℕ)
    → IsText k
    → strstr (crlf ++ crlf) (13 ∷ 10 ∷ ((k ++ (b':' ∷ v)) ++ s))
      ≡ behind 2 (strstr (crlf ++ crlf) ((k ++ (b':' ∷ v)) ++ s))
strstr_between [] v s p = strstr_pair b':' (v ++ s) (omega arith)
strstr_between (c ∷ k) v s ((_, h), p) = strstr_pair c ((k ++ (b':' ∷ v)) ++ s) h

-- where the head ends that these lines make
abbrev pub head_end : List Header → ℕ
head_end hs = length (head_text hs) - 2

pub length-head :
    (h : Header) (hs : List Header)
    → length (head_text (h ∷ hs)) ≡ length (line_of h) + 2 + length (head_text hs)
length-head h hs = omega (arith, length-append (line_of h) (13 ∷ 10 ∷ head_text hs))

pub head-append :
    (h : Header) (hs : List Header) (s : List ℕ)
    → head_text (h ∷ hs) ++ s ≡ line_of h ++ (13 ∷ 10 ∷ (head_text hs ++ s))
head-append h hs s = append_assoc (line_of h) (13 ∷ 10 ∷ head_text hs) s

-- The search for the end of a head with a line at least.
pub strstr-head :
    (h : Header) (hs : List Header) (rest : List ℕ)
    → All IsHeader (h ∷ hs)
    → strstr (crlf ++ crlf) (head_text (h ∷ hs) ++ (crlf ++ rest)) ≡ found (head_end (h ∷ hs))
strstr-head h [] rest (v, _) =
    ap (strstr (crlf ++ crlf)) (head-append h [] (crlf ++ rest))
    ∙ strstr-text (10 ∷ 13 ∷ 10 ∷ []) (line_of h) (13 ∷ 10 ∷ 13 ∷ 10 ∷ rest) (line-IsText h v)
    ∙ ap (behind (length (line_of h))) (strstr_here rest)
    ∙ ap found (omega (arith, length-head h []))
strstr-head h (g ∷ hs) rest (v, (w, vs)) =
    let n = length (line_of h) in
    let s = crlf ++ rest in
    ap (strstr (crlf ++ crlf)) (head-append h (g ∷ hs) s)
    ∙ strstr-text (10 ∷ 13 ∷ 10 ∷ []) (line_of h) (13 ∷ 10 ∷ (head_text (g ∷ hs) ++ s))
        (line-IsText h v)
    ∙ ap (λ l. behind n (strstr (crlf ++ crlf) (13 ∷ 10 ∷ l))) (head-append g hs s)
    ∙ ap (behind n) (strstr_between g.key g.value (13 ∷ 10 ∷ (head_text hs ++ s)) w.key_text)
    ∙ ap (λ l. behind n (behind 2 (strstr (crlf ++ crlf) l))) (sym (head-append g hs s))
    ∙ ap (λ f. behind n (behind 2 f)) (strstr-head g hs rest (w, vs))
    ∙ ap found (omega (arith, length-head h (g ∷ hs), length-head g hs))
