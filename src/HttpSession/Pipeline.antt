-- ===== src/HttpSession/Pipeline.antt =====
-- The queue of requests against the answers sent.
use mathlib.Core.Path.{subst}
use mathlib.Core.Option.{some-injective}
use ape_cpp_server.Base.{
  ◌==◌, ==_iff, Bool-cases, Option-cases, length, length-append, add32, ℕ, suc, ◌+◌, ◌^◌, ◌<◌, ◌≡◌,
  refl, sym, ap, ◌∙◌, inl, inr, Bool, not, Option, none, some, List, [], ◌∷◌, ◌++◌, arith,
}
use ape_cpp_server.HttpSession.{
  Reply, ResponseItem, HttpSession, new_session, on_read_request, send, flush, keep_response,
  answer_front, answer_later, answer, do_send_back,
}

-- The requests have the numbers from `n` on, and a kept answer has its request's number.
abbrev pub Queued : ℕ → List ResponseItem → Type 0
Queued n [] = Unit
Queued n (item ∷ items) =
    (item.no ≡ n) × ((m : Reply) → item.response ≡ some m → m.requestno ≡ n) × Queued (suc n) items

-- The answers have the numbers from `n` on, and each closes the connection exactly if its message
-- says so.
abbrev pub Sent : ℕ → List (Reply × Bool) → Type 0
Sent n [] = Unit
Sent n ((m, close) ∷ l) = (m.requestno ≡ n) × (close ≡ not m.keepalive) × Sent (suc n) l

-- The front of the queue has no answer yet.
abbrev pub Unanswered : List ResponseItem → Type 0
Unanswered [] = Unit
Unanswered (item ∷ items) = item.response ≡ none

Sent-append :
    (n : ℕ) (xs ys : List (Reply × Bool)) → Sent n xs → Sent (n + length xs) ys → Sent n (xs ++ ys)
Sent-append n [] ys hx hy = subst (λ k. Sent k ys) (omega arith) hy
Sent-append n ((m, close) ∷ xs) ys hx hy =
    (hx.0, hx.1, Sent-append (suc n) xs ys hx.2 (subst (λ k. Sent k ys) (omega arith) hy))

Queued-append :
    (n : ℕ) (xs : List ResponseItem) (item : ResponseItem)
    → Queued n xs
    → item.no ≡ n + length xs
    → item.response ≡ none
    → Queued n (xs ++ (item ∷ []))
Queued-append n [] item h e r = (omega arith, (λ m q. cc), tt)
Queued-append n (x ∷ xs) item h e r = (h.0, h.1, Queued-append (suc n) xs item h.2 (omega arith) r)

Unanswered-append :
    (xs : List ResponseItem) (item : ResponseItem)
    → Unanswered xs
    → item.response ≡ none
    → Unanswered (xs ++ (item ∷ []))
Unanswered-append [] item h e = e
Unanswered-append (x ∷ xs) item h e = h

-- The state of the pipeline: the answers sent so far are those of the first requests, in order; the
-- queue holds the requests after them, in order, each once; and the first of them has no answer yet.
pub record IsPipelined (s : HttpSession) : Type 0 where
  pub sent : Sent 1 s.written
  pub queued : Queued (suc (length s.written)) s.request_deque
  pub count : length s.written + length s.request_deque ≡ s.dwseq
  pub front : Unanswered s.request_deque

-- What `flush` leaves of a queue from `n` on.
pub record Flushed (n : ℕ) (items : List ResponseItem)
    (out : List (Reply × Bool) × List ResponseItem) : Type 0 where
  pub sent : Sent n out.0
  pub queued : Queued (n + length out.0) out.1
  pub count : length out.0 + length out.1 ≡ length items
  pub front : Unanswered out.1

flush-Flushed : (n : ℕ) (items : List ResponseItem) → Queued n items → Flushed n items (flush items)
unfolding flush
flush-Flushed n [] q = record { sent = tt; queued = tt; count = omega arith; front = tt }
flush-Flushed n (item ∷ items) q = elim (Option-cases item.response) [
  | inl e ↦
      rw (e, flush)
        (record {
          sent = tt;
          queued = subst (λ k. Queued k (item ∷ items)) {x = n} (omega arith) q;
          count = omega arith;
          front = e;
        })
  | inr (m, e) ↦
      let f = flush-Flushed (suc n) items q.2 in
      rw (e, flush)
        (record {
          sent = (q.1 m e, refl, f.sent);
          queued = subst (λ k. Queued k (flush items).1) (omega arith) f.queued;
          count = omega (arith, f.count);
          front = f.front;
        })
]

-- What `keep_response` makes of a queue from `n` on.
abbrev pub Kept : ℕ → List ResponseItem → Option (List ResponseItem) → Type 0
Kept n items none = Unit
Kept n items (some items') = Queued n items' × (length items' ≡ length items)

keep_response-Kept :
    (n : ℕ) (m : Reply) (items : List ResponseItem)
    → Queued n items
    → Kept n items (keep_response m items)
unfolding keep_response
keep_response-Kept n m [] q = tt
keep_response-Kept n m (item ∷ items) q = elim (Bool-cases (item.no == m.requestno)) [
  | inl e ↦ rw (e, Kept) ((q.0, (λ r h. ground (arith, q.0, e, some-injective h)), q.2), refl)
  | inr e ↦
      let k = keep_response-Kept (suc n) m items q.2 in
      elim (Option-cases (keep_response m items)) [
        | inl h ↦ rw (e, h, Kept) tt
        | inr (items', h) ↦
            let k' = subst (Kept (suc n) items) h k in
            rw (e, h, Kept) ((q.0, q.1, k'.0), ap suc k'.1)
      ]
]

pub on_read_request-IsPipelined :
    (s : HttpSession) → IsPipelined s → s.dwseq + 1 < 2 ^ 32 → IsPipelined (on_read_request s).1
unfolding on_read_request
on_read_request-IsPipelined s p h = record {
  sent = p.sent;
  queued =
      Queued-append (suc (length s.written)) s.request_deque _ p.queued (omega (arith, p.count))
        refl;
  count = omega (
    arith,
    p.count,
    length-append s.request_deque (record { no = add32 s.dwseq 1; response = none } ∷ []),
  );
  front = Unanswered-append s.request_deque _ p.front refl;
}

pub new_session-IsPipelined : IsPipelined new_session
unfolding new_session
new_session-IsPipelined = record { sent = tt; queued = tt; count = omega arith; front = tt }

answer_front-IsPipelined :
    (m : Reply) (front : ResponseItem) (items : List ResponseItem) (s : HttpSession)
    → IsPipelined s
    → s.request_deque ≡ front ∷ items
    → front.no ≡ m.requestno
    → IsPipelined (answer_front m items s)
unfolding answer_front
answer_front-IsPipelined m front items s p e h = record {
  sent =
      Sent-append 1 s.written (send m ∷ (flush items).0) p.sent
        (subst (λ k. Sent k (send m ∷ (flush items).0)) (omega arith) now);
  queued = subst (λ k. Queued k (flush items).1) more f.queued;
  count = omega (arith, more, f.count, p.count, ap length e);
  front = f.front;
}
  where
    q : Queued (suc (length s.written)) (front ∷ items)
    q = subst (Queued (suc (length s.written))) e p.queued

    f : Flushed (suc (suc (length s.written))) items (flush items)
    f = flush-Flushed (suc (suc (length s.written))) items q.2

    now : Sent (suc (length s.written)) (send m ∷ (flush items).0)
    now = (sym h ∙ q.0, refl, f.sent)

    more :
        suc (suc (length s.written)) + length (flush items).0
        ≡ suc (length (s.written ++ (send m ∷ (flush items).0)))
    more = omega (arith, length-append s.written (send m ∷ (flush items).0))

answer_later-IsPipelined :
    (m : Reply) (front : ResponseItem) (items : List ResponseItem) (s : HttpSession)
    → IsPipelined s
    → s.request_deque ≡ front ∷ items
    → IsPipelined (answer_later m front items s)
unfolding answer_later
answer_later-IsPipelined m front items s p e = elim (Option-cases (keep_response m items)) [
  | inl h ↦
      rw (h, answer_later)
        (record { sent = p.sent; queued = p.queued; count = p.count; front = p.front })
  | inr (items', h) ↦
      let k =
        subst (Kept (suc (suc (length s.written))) items) h
          (keep_response-Kept (suc (suc (length s.written))) m items q.2) in
      rw (h, answer_later)
        (record {
          sent = p.sent;
          queued = (q.0, q.1, k.0);
          count = omega (arith, p.count, ap length e, k.1);
          front = subst Unanswered e p.front;
        })
]
  where
    q : Queued (suc (length s.written)) (front ∷ items)
    q = subst (Queued (suc (length s.written))) e p.queued

-- What a call makes of a pipeline.
abbrev pub Continues : Option HttpSession → Type 0
Continues none = Unit
Continues (some s) = IsPipelined s

answer-Continues :
    (m : Reply) (items : List ResponseItem) (s : HttpSession)
    → IsPipelined s
    → s.request_deque ≡ items
    → Continues (answer m items s)
unfolding answer
answer-Continues m [] s p e = tt
answer-Continues m (front ∷ items) s p e = elim (Bool-cases (front.no == m.requestno)) [
  | inl h ↦
      rw (h, Continues)
        (answer_front-IsPipelined m front items s p e ((==_iff front.no m.requestno).0 h))
  | inr h ↦ rw (h, Continues) (answer_later-IsPipelined m front items s p e)
]

pub do_send_back-Continues :
    (m : Reply) (s : HttpSession) → IsPipelined s → Continues (do_send_back m s)
unfolding do_send_back
do_send_back-Continues m s p = answer-Continues m s.request_deque s p refl

dwseq-answer :
    (m : Reply) (items : List ResponseItem) (s s' : HttpSession)
    → answer m items s ≡ some s'
    → s'.dwseq ≡ s.dwseq
unfolding answer
dwseq-answer m [] s s' e = cc
dwseq-answer m (front ∷ items) s s' e = ground arith

pub dwseq-do_send_back :
    (m : Reply) (s s' : HttpSession) → do_send_back m s ≡ some s' → s'.dwseq ≡ s.dwseq
unfolding do_send_back
dwseq-do_send_back m s s' e = dwseq-answer m s.request_deque s s' e

pub dwseq-on_read_request :
    (s : HttpSession) → s.dwseq + 1 < 2 ^ 32 → (on_read_request s).1.dwseq ≡ s.dwseq + 1
unfolding on_read_request
dwseq-on_read_request s h = omega arith
