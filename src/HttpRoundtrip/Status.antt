-- ===== src/HttpRoundtrip/Status.antt =====
-- The code of a response, printed and read.
use mathlib.Core.Path.{subst}
use ape_cpp_server.Base.{
  ◌==◌, ==_iff, Bool-cases, codes, pos, ℕ, ◌≡◌, refl, sym, ◌∙◌, inl, inr, true, some, List, [], ◌∷◌,
  ◌++◌,
}
use ape_cpp_server.CText.{read_decimal, to_int, atoi}
use ape_cpp_server.HttpParser.Head.{IsText}
use ape_cpp_server.HttpParser.Plain.{plain, plain-All}
use ape_cpp_server.HttpEncoder.{status_table, find_status, get_status}

-- A line of the table is a text that `atoi` reads as its code.
pub record IsKnown (n : ℕ) (text : List ℕ) : Type 0 where
  pub line_text : IsText text
  pub code_read : (s : List ℕ) → atoi (text ++ (13 ∷ s)) ≡ pos n

IsKnown-of :
    (n : ℕ) (text : List ℕ)
    → plain 0 13 text ≡ true
    → ((s : List ℕ) → atoi (text ++ (13 ∷ s)) ≡ pos n)
    → IsKnown n text
IsKnown-of n text h k = record { line_text = plain-All 0 13 text h; code_read = k }

infixr 30 ◌also◌
◌also◌ : {A B : Type 0} → A → B → A × B
a also b = (a, b)

abbrev AllKnown : List (ℕ × List ℕ) → Type 0
AllKnown [] = Unit
AllKnown ((n, text) ∷ table) = IsKnown n text × AllKnown table

table-AllKnown : AllKnown status_table
unfolding atoi read_decimal to_int
table-AllKnown =
    IsKnown-of 200 (codes "200 OK") refl (λ s. refl)
    also IsKnown-of 201 (codes "201 Created") refl (λ s. refl)
    also IsKnown-of 202 (codes "202 Accepted") refl (λ s. refl)
    also IsKnown-of 204 (codes "204 No Content") refl (λ s. refl)
    also IsKnown-of 300 (codes "300 Multiple Choices") refl (λ s. refl)
    also IsKnown-of 301 (codes "301 Moved Permanently") refl (λ s. refl)
    also IsKnown-of 302 (codes "302 Moved Temporarily") refl (λ s. refl)
    also IsKnown-of 304 (codes "304 Not Modified") refl (λ s. refl)
    also IsKnown-of 400 (codes "400 Bad Request") refl (λ s. refl)
    also IsKnown-of 401 (codes "401 Unauthorized") refl (λ s. refl)
    also IsKnown-of 403 (codes "403 Forbidden") refl (λ s. refl)
    also IsKnown-of 404 (codes "404 Not Found") refl (λ s. refl)
    also IsKnown-of 405 (codes "405 Method Not Allowed") refl (λ s. refl)
    also IsKnown-of 500 (codes "500 Internal Server Error") refl (λ s. refl)
    also IsKnown-of 501 (codes "501 Not Implemented") refl (λ s. refl)
    also IsKnown-of 502 (codes "502 Bad Gateway") refl (λ s. refl)
    also IsKnown-of 503 (codes "503 Service Unavailable") refl (λ s. refl)
    also tt

find-IsKnown :
    (n : ℕ) (text : List ℕ) (table : List (ℕ × List ℕ))
    → AllKnown table
    → find_status n table ≡ some text
    → IsKnown n text
unfolding find_status
find-IsKnown n text [] k h = absurd (cc)
find-IsKnown n text ((c, t) ∷ table) (k, ks) h = elim (Bool-cases (n == c)) [
  | inl e ↦
      subst (λ x. IsKnown x text) (sym ((==_iff n c).0 e))
        (subst (IsKnown c) (same (rw (find_status, e) refl)) k)
  | inr e ↦ find-IsKnown n text table ks (sym (rw (find_status, e) refl) ∙ h)
]
  where
    same : find_status n ((c, t) ∷ table) ≡ some t → t ≡ text
    same e = cc

-- Every code that `GetStatus` has a text for is read back from the text.
pub IsKnown-status :
    (n : ℕ) (text : List ℕ) → find_status n status_table ≡ some text → IsKnown n text
IsKnown-status n text h = find-IsKnown n text status_table table-AllKnown h

pub get_status-known :
    (n : ℕ) (text : List ℕ) → find_status n status_table ≡ some text → get_status (pos n) ≡ text
unfolding get_status
get_status-known n text h = rw (get_status, h) refl
