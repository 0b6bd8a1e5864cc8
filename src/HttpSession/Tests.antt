-- ===== src/HttpSession/Tests.antt =====
-- The theorems on pipelined answers at concrete inputs, and runs of the code.
use ape_cpp_server.Base.{ℕ, ◌≡◌, refl, ◌↔◌, true, false, none, some, List, [], ◌∷◌, arith}
use ape_cpp_server.HttpSession.{
  Reply, HttpSession, new_session, do_send_back, Event, arrives, answers, run,
}
use ape_cpp_server.HttpSession.Pipeline.{IsPipelined}
use ape_cpp_server.HttpSession.Order.{run-new_session_order, do_send_back_fault}

abbrev reply : ℕ → Reply
reply n = record { requestno = n; keepalive = true; body = [] }

-- Three requests, answered in the order 2, 3, 1.
abbrev crossed : List Event
crossed =
    arrives ∷ arrives ∷ answers (reply 2) ∷ arrives ∷ answers (reply 3) ∷ answers (reply 1) ∷ []

abbrev sent_back : HttpSession
sent_back = record {
  dwseq = 3;
  request_deque = [];
  written = (reply 1, false) ∷ (reply 2, false) ∷ (reply 3, false) ∷ [];
  deleted = [];
}

crossed-run : run crossed new_session ≡ some sent_back
unfolding run new_session
crossed-run = refl

-- An answer to no request is deleted.
stray :
    run (arrives ∷ answers (reply 9) ∷ []) new_session
    ≡ some (record {
      dwseq = 1;
      request_deque = record { no = 1; response = none } ∷ [];
      written = [];
      deleted = reply 9 ∷ [];
    })
unfolding run new_session
stray = refl

run-new_session_order_example : IsPipelined sent_back
run-new_session_order_example = run-new_session_order crossed sent_back (omega arith) crossed-run

do_send_back_fault_example : (do_send_back (reply 4) sent_back ≡ none) ↔ (3 ≡ sent_back.dwseq)
do_send_back_fault_example = do_send_back_fault (reply 4) sent_back run-new_session_order_example

abbrev one_waits : HttpSession
one_waits = record {
  dwseq = 1;
  request_deque = record { no = 1; response = none } ∷ [];
  written = [];
  deleted = [];
}

one_waits-IsPipelined : IsPipelined one_waits
one_waits-IsPipelined = record {
  sent = tt;
  queued = (refl, (λ m e. cc), tt);
  count = omega arith;
  front = refl;
}
