-- ===== src/Connecting/Tries.antt =====
-- An attempt that the timer does not end.
use mathlib.Core.Path.{subst}
use ape_cpp_server.Base.{
  if◌then◌else◌, Bool-cases, ℤ, pos, negsuc, ℕ, ◌+◌, ◌≡◌, refl, sym, ap, ◌∙◌, inl, inr, Bool, true,
  false, not, ◌||◌, none, some, List, [], ◌∷◌, ◌++◌, append_assoc, arith,
}
use ape_cpp_server.Connecting.{
  Connecting, async_connect, connect_finish, close_socket, async_connect_to, handle_resolve,
  handle_connected, Event, resolved, answers, answer, step, run,
}

-- The endpoints up to the first one that can be reached, and whether there is one.
abbrev pub up_to : (ℕ → Bool) → List ℕ → List ℕ
up_to works [] = []
up_to works (e ∷ es) = e ∷ (if works e then [] else up_to works es)

abbrev pub some_works : (ℕ → Bool) → List ℕ → Bool
some_works works [] = false
some_works works (e ∷ es) = works e || some_works works es

-- asio's answers to the calls of `async_connect` with these endpoints
abbrev pub answers_of : (ℕ → Bool) → List ℕ → List Event
answers_of works [] = []
answers_of works (e ∷ es) = answers (not (works e)) ∷ answers_of works es

-- what the session is told
abbrev pub result_of : (ℕ → Bool) → List ℕ → ℤ
result_of works es = if some_works works es then pos 0 else negsuc 2

answer-idle : (err : Bool) (c : Connecting) → c.pending ≡ none → answer err c.pending c ≡ c
unfolding answer
answer-idle err c h = ap (λ o. answer err o c) h

-- no more answers come when none is waited for
run-idle :
    (works : ℕ → Bool) (es : List ℕ) (c : Connecting)
    → c.pending ≡ none
    → run c (answers_of works es) ≡ c
unfolding run step
run-idle works [] c h = refl
run-idle works (e ∷ es) c h =
    ap (λ d. run d (answers_of works es)) (answer-idle (not (works e)) c h) ∙ run-idle works es c h

-- How an attempt with these endpoints leaves the connection.
pub record IsFinished (works : ℕ → Bool) (es : List ℕ) (c c' : Connecting) : Type 0 where
  pub tries_eq : c'.tries ≡ c.tries ++ up_to works es
  pub results_eq : c'.results ≡ c.results ++ (result_of works es ∷ [])
  pub connected_eq : c'.connected ≡ (some_works works es || c.connected)
  pub idle : c'.pending ≡ none
  pub timer_off : c'.timer_on ≡ false

-- while no answer to the last call is there
abbrev asked : ℕ → Connecting → Connecting
asked e c = record c { pending = none; tries = c.tries ++ (e ∷ []) }

module _ (works : ℕ → Bool) where
  -- The same when the connection reached is known.
  from_end :
      (es : List ℕ) (c d c' : Connecting)
      → c' ≡ d
      → IsFinished works es c d
      → IsFinished works es c c'
  from_end es c d c' e f = subst (IsFinished works es c) (sym e) f

  reached :
      (e : ℕ) (es : List ℕ) (c : Connecting)
      → c.has_session ≡ true
      → works e ≡ true
      → IsFinished works (e ∷ es) c (connect_finish (pos 0) (asked e c))
  unfolding connect_finish
  reached e es c h w =
      rw (connect_finish, h)
        (record {
          tries_eq = rw w refl;
          results_eq = rw w refl;
          connected_eq = rw w refl;
          idle = refl;
          timer_off = refl;
        })

  given_up :
      (e : ℕ) (c : Connecting)
      → c.has_session ≡ true
      → works e ≡ false
      → IsFinished works (e ∷ []) c (connect_finish (negsuc 2) (asked e c))
  unfolding connect_finish
  given_up e c h w =
      rw (connect_finish, h)
        (record {
          tries_eq = rw w refl;
          results_eq = rw w refl;
          connected_eq = rw w refl;
          idle = refl;
          timer_off = refl;
        })

  goes_on :
      (e e' : ℕ) (es : List ℕ) (c c' : Connecting)
      → works e ≡ false
      → IsFinished works (e' ∷ es) (close_socket (asked e c)) c'
      → IsFinished works (e ∷ e' ∷ es) c c'
  goes_on e e' es c c' w f = record {
    tries_eq = f.tries_eq ∙ append_assoc c.tries (e ∷ []) (up_to works (e' ∷ es)) ∙ rw w refl;
    results_eq = f.results_eq ∙ rw w refl;
    connected_eq = f.connected_eq ∙ rw w refl;
    idle = f.idle;
    timer_off = f.timer_off;
  }

  tried :
      (e : ℕ) (es : List ℕ) (c : Connecting)
      → c.has_session ≡ true
      → IsFinished works (e ∷ es) c (run (async_connect e es c) (answers_of works (e ∷ es)))
  unfolding run step answer handle_connected connect_finish
  tried e [] c h = elim (Bool-cases (works e)) [
    | inl w ↦ from_end (e ∷ []) c _ _ (rw w refl) (reached e [] c h w)
    | inr w ↦ from_end (e ∷ []) c _ _ (rw w refl) (given_up e c h w)
  ]
  tried e (e' ∷ es) c h = elim (Bool-cases (works e)) [
    | inl w ↦
        from_end (e ∷ e' ∷ es) c _ _
          (ap
              (λ b.
                run (handle_connected (not b) (e' ∷ es) (asked e c)) (answers_of works (e' ∷ es)))
              w
            ∙ run-idle works (e' ∷ es) (connect_finish (pos 0) (asked e c))
                (reached e (e' ∷ es) c h w).idle)
          (reached e (e' ∷ es) c h w)
    | inr w ↦
        from_end (e ∷ e' ∷ es) c _ _
          (ap
            (λ b. run (handle_connected (not b) (e' ∷ es) (asked e c)) (answers_of works (e' ∷ es)))
            w)
          (goes_on e e' es c _ w (tried e' es (close_socket (asked e c)) h))
  ]

  -- After `AsyncConnect` of a connection with a session that is not yet connected, if the resolver gives
  -- a list of endpoints and no time limit is met: the endpoints are tried one after the other up to
  -- the first that can be reached, or all of them; the session is told once, of a success exactly if
  -- one can be reached; the connection is connected exactly then; and nothing is on its way.
  pub async_connect_lem :
      (e : ℕ) (es : List ℕ) (c : Connecting)
      → c.has_session ≡ true
      → c.connected ≡ false
      → let c' = run (async_connect_to c) (resolved (some (e, es)) ∷ answers_of works (e ∷ es)) in
        (c'.tries ≡ c.tries ++ up_to works (e ∷ es))
        × (c'.results ≡ c.results ++ (result_of works (e ∷ es) ∷ []))
        × (c'.connected ≡ some_works works (e ∷ es))
        × (c'.pending ≡ none)
        × (c'.timer_on ≡ false)
  unfolding run step handle_resolve async_connect_to
  async_connect_lem e es c h d =
      let s : Connecting = record c { resolves = c.resolves + 1; timer_on = true } in
      let started : async_connect_to c ≡ s = rw (async_connect_to, d) refl in
      let f : IsFinished works (e ∷ es) s
          (run (async_connect_to c) (resolved (some (e, es)) ∷ answers_of works (e ∷ es))) =
        from_end (e ∷ es) s _ _
          (ap (λ x. run x (resolved (some (e, es)) ∷ answers_of works (e ∷ es))) started)
          (tried e es s h) in
      (f.tries_eq, f.results_eq, f.connected_eq ∙ ground (arith, d), f.idle, f.timer_off)
