-- ===== src/HttpSession/Order.antt =====
-- The answers of a connection, over all of its life.
use mathlib.Core.Path.{subst}
use ape_cpp_server.Base.{
  ==_refl, Option-cases, length, ℕ, suc, ◌+◌, ◌^◌, ◌<◌, ◌≡◌, refl, ◌↔◌, inl, inr, Bool, none, some,
  List, [], ◌∷◌, ◌++◌, arith,
}
use ape_cpp_server.HttpSession.{
  Reply, ResponseItem, HttpSession, new_session, on_read_request, send, flush, answer_front, answer,
  do_send_back, Event, arrives, answers, run,
}
use ape_cpp_server.HttpSession.Pipeline.{
  Queued, IsPipelined, on_read_request-IsPipelined, new_session-IsPipelined, Continues,
  do_send_back-Continues, dwseq-do_send_back, dwseq-on_read_request,
}

run-Continues :
    (es : List Event) (s : HttpSession)
    → IsPipelined s
    → s.dwseq + length es < 2 ^ 32
    → Continues (run es s)
unfolding run
run-Continues [] s p h = p
run-Continues (arrives ∷ es) s p h =
    run-Continues es (on_read_request s).1 (on_read_request-IsPipelined s p (omega arith))
      (omega (arith, dwseq-on_read_request s))
run-Continues (answers m ∷ es) s p h = elim (Option-cases (do_send_back m s)) [
  | inl n ↦ rw (n, run, Continues) tt
  | inr (t, n) ↦
      rw (n, run)
        (run-Continues es t (subst Continues n (do_send_back-Continues m s p))
          (omega (arith, dwseq-do_send_back m s t n)))
]

-- Over any sequence of fewer than 2 ^ 32 requests and answers, whatever numbers the answers have and
-- in whatever order they are given: the answers sent are those of the first requests, one for each,
-- in the order of the requests, each closing the connection exactly if its message is not to be
-- kept alive; the other requests wait in order; and the first of them has no answer yet, so no
-- answer is held back whose predecessors have been given.
pub run-new_session_order :
    (es : List Event) (s : HttpSession)
    → length es < 2 ^ 32
    → run es new_session ≡ some s
    → IsPipelined s
unfolding new_session
run-new_session_order es s h e =
    subst Continues e (run-Continues es new_session new_session-IsPipelined (omega arith))

answer-eq-none :
    (m : Reply) (items : List ResponseItem) (s : HttpSession)
    → (answer m items s ≡ none) ↔ (items ≡ [])
unfolding answer
answer-eq-none m [] s = ((λ _. refl), λ _. refl)
answer-eq-none m (front ∷ items) s = ((λ h. ground arith), λ h. cc)

length-eq-zero : (items : List ResponseItem) → (items ≡ []) ↔ (length items ≡ 0)
length-eq-zero [] = ((λ _. refl), λ _. refl)
length-eq-zero (x ∷ items) = ((λ h. cc), λ h. absurd (omega arith))

-- In a pipeline, `DoSendBack` reads through `begin ()` of an empty queue exactly when every request
-- that came has been answered.
pub do_send_back_fault :
    (m : Reply) (s : HttpSession)
    → IsPipelined s
    → (do_send_back m s ≡ none) ↔ (length s.written ≡ s.dwseq)
unfolding do_send_back
do_send_back_fault m s p = (
  (λ h. omega (
    arith,
    p.count,
    (length-eq-zero s.request_deque).0 ((answer-eq-none m s.request_deque s).0 h),
  )),
  λ h.
      (answer-eq-none m s.request_deque s).1
        ((length-eq-zero s.request_deque).1 (omega (arith, p.count))),
)

answer_sent :
    (m : Reply) (n : ℕ) (items : List ResponseItem) (s : HttpSession)
    → Queued n items
    → 0 < length items
    → m.requestno ≡ n
    → (s' : HttpSession) × (rest : List (Reply × Bool)) × (answer m items s ≡ some s')
      × (s'.written ≡ s.written ++ (send m ∷ rest))
unfolding answer answer_front
answer_sent m n [] s q h e = elim h [ ]
answer_sent m n (front ∷ items) s q h e =
    (answer_front m items s, (flush items).0, rw (q.0, e, ==_refl n), refl)

-- In a pipeline, an answer for the first request that has none yet is sent at once, before whatever
-- was kept back for the requests after it.
answer_front_sent :
    (m : Reply) (s : HttpSession)
    → IsPipelined s
    → length s.written < s.dwseq
    → m.requestno ≡ suc (length s.written)
    → (s' : HttpSession) × (rest : List (Reply × Bool)) × (do_send_back m s ≡ some s')
      × (s'.written ≡ s.written ++ (send m ∷ rest))
unfolding do_send_back
answer_front_sent m s p h e =
    answer_sent m (suc (length s.written)) s.request_deque s p.queued (omega (arith, p.count)) e
