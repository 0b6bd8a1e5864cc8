-- ===== src/Session/Ledger.antt =====
-- Counting the messages of a session: those kept, given to the owner, and deleted.
use ape_cpp_server.Base.{
  ltb, ◌==◌, if◌then◌else◌, Bool-cases, Option-cases, ℕ, ◌+◌, ◌≡◌, refl, ap, ◌∙◌, ◌⊎◌, inl, inr,
  Bool, true, false, ◌||◌, none, some, List, [], ◌∷◌, ◌++◌, arith,
}
use ape_cpp_server.Message.{Direction, request, response, one_way, error_time_out, error_peer_close}
use ape_cpp_server.Session.{
  connected, timed_out, connecting, closed, Msg, is_ok, reply_with, Effect, deliver, discard, write,
  tell_accept, tell_connected, tell_peer_close, start_connect, start_read, close_socket,
  start_timer, stop_timer, Entry, Session, emit, is_status, insert_entry, find_entry, erase_entry,
  hand_over, clean_history, clean_waiting, clean_requests, do_send_request, do_send_to, deal,
  deal_waiting_list, on_connected, note_result, connect_result, connect_finish, do_connect,
  on_peer_close, connection_closed, close, do_send_back, take_answer, pass_on, read_response,
  answer_heartbeat, read_heartbeat, on_read, do_heartbeat, do_request_time_out, Event, sends,
  sends_back, reads, connects, starts_connect, loses_link, closes, accepts, beats, times_out, step,
}

-- 1 for the message with that pointer
abbrev pub one : ℕ → Msg → ℕ
one u m = if m.uid == u then 1 else 0

abbrev pub count_history : ℕ → List Entry → ℕ
count_history u [] = 0
count_history u (e ∷ es) = one u e.msg + count_history u es

abbrev pub count_waiting : ℕ → List (Msg × ℕ) → ℕ
count_waiting u [] = 0
count_waiting u ((m, t) ∷ ps) = one u m + count_waiting u ps

abbrev pub count_effect : ℕ → Effect → ℕ
count_effect u (deliver m) = one u m
count_effect u (discard m) = one u m
count_effect u _ = 0

abbrev pub count_log : ℕ → List Effect → ℕ
count_log u [] = 0
count_log u (e ∷ es) = count_effect u e + count_log u es

-- how often the session keeps the message, or has given it to the owner or deleted it
abbrev pub held : ℕ → Session → ℕ
held u s = count_history u s.history + count_waiting u s.waitinglist + count_log u s.log

pub count_log-emit :
    (u : ℕ) (l : List Effect) (e : Effect)
    → count_log u (l ++ (e ∷ [])) ≡ count_log u l + count_effect u e
count_log-emit u [] e = omega arith
count_log-emit u (x ∷ l) e = omega (arith, count_log-emit u l e)

count_waiting-append :
    (u : ℕ) (ps : List (Msg × ℕ)) (m : Msg) (t : ℕ)
    → count_waiting u (ps ++ ((m, t) ∷ [])) ≡ count_waiting u ps + one u m
count_waiting-append u [] m t = omega arith
count_waiting-append u ((n, r) ∷ ps) m t = omega (arith, count_waiting-append u ps m t)

count_history-insert :
    (u : ℕ) (e : Entry) (es : List Entry)
    → count_history u (insert_entry e es) ≡ one u e.msg + count_history u es
count_history-insert u e [] = refl
count_history-insert u e (x ∷ es) = elim (Bool-cases (ltb e.seqid x.seqid)) [
  | inl h ↦ rw h
  | inr h ↦ rw h (omega (arith, count_history-insert u e es))
]

pub count_history-erase :
    (u k : ℕ) (e : Entry) (es : List Entry)
    → find_entry k es ≡ some e
    → one u e.msg + count_history u (erase_entry k es) ≡ count_history u es
count_history-erase u k e [] h = cc
count_history-erase u k e (x ∷ es) h = elim (Bool-cases (x.seqid == k)) [
  | inl t ↦ ground (arith, t, h)
  | inr t ↦ ground (arith, t, h, count_history-erase u k e es)
]

held-hand_over : (u : ℕ) (m : Msg) (s : Session) → held u (hand_over m s) ≡ held u s + one u m
held-hand_over u m s =
    ground (arith, count_log-emit u s.log (deliver m), count_log-emit u s.log (discard m))

held-clean_history :
    (u : ℕ) (es : List Entry) (s : Session)
    → held u (clean_history es s)
      ≡ count_history u es + count_waiting u s.waitinglist + count_log u s.log
unfolding clean_history
held-clean_history u [] s = refl
held-clean_history u (e ∷ es) s = ground (
  arith,
  held-clean_history u es (
      hand_over (reply_with error_peer_close e.msg)
        (emit (stop_timer e.msg.uid) (record s { history = es }))),
  count_log-emit u (s.log ++ (stop_timer e.msg.uid ∷ []))
      (deliver (reply_with error_peer_close e.msg)),
  count_log-emit u (s.log ++ (stop_timer e.msg.uid ∷ []))
      (discard (reply_with error_peer_close e.msg)),
  count_log-emit u s.log (stop_timer e.msg.uid),
)

held-clean_waiting :
    (u : ℕ) (ps : List (Msg × ℕ)) (s : Session)
    → held u (clean_waiting ps s)
      ≡ count_history u s.history + count_waiting u ps + count_log u s.log
unfolding clean_waiting
held-clean_waiting u [] s = refl
held-clean_waiting u ((m, t) ∷ ps) s = ground (
  arith,
  held-clean_waiting u ps
      (hand_over (reply_with error_peer_close m) (record s { waitinglist = ps })),
  count_log-emit u s.log (deliver (reply_with error_peer_close m)),
  count_log-emit u s.log (discard (reply_with error_peer_close m)),
)

pub held-clean_requests : (u : ℕ) (s : Session) → held u (clean_requests s) ≡ held u s
unfolding clean_requests
held-clean_requests u s =
    held-clean_waiting u (clean_history s.history s).waitinglist (clean_history s.history s)
    ∙ held-clean_history u s.history s

held-do_send_request :
    (u : ℕ) (m : Msg) (t : ℕ) (s : Session)
    → (s.has_owner ≡ true) ⊎ (is_status s.status connected ≡ true)
    → held u (do_send_request m t s) ≡ held u s + one u m
unfolding do_send_request
held-do_send_request u m t s h = ground (
  arith,
  h,
  count_history-insert u (record { seqid = m.seqid; msg = m }) s.history,
  count_log-emit u s.log (deliver (reply_with error_peer_close m)),
  count_log-emit u s.log (start_timer m.uid t),
  count_log-emit u (s.log ++ (start_timer m.uid t ∷ [])) (write m false),
)

pub held-do_send_to :
    (u : ℕ) (m : Msg) (t : ℕ) (s : Session)
    → (s.has_owner ≡ true) ⊎ (is_status s.status connected ≡ true)
    → held u (do_send_to m t s) ≡ held u s + one u m
unfolding do_send_to
held-do_send_to u m t s h = ground (
  arith,
  h,
  held-do_send_request u m t s h,
  count_waiting-append u s.waitinglist m t,
  count_log-emit u s.log (discard m),
  count_log-emit u s.log (write m false),
  count_log-emit u (s.log ++ (write m false ∷ [])) (discard m),
)

waitinglist-do_send_to :
    (m : Msg) (t : ℕ) (s : Session)
    → is_status s.status connected ≡ true
    → (do_send_to m t s).waitinglist ≡ s.waitinglist
unfolding do_send_to do_send_request
waitinglist-do_send_to m t s h = ground (arith, h)

held-deal :
    (u : ℕ) (ps : List (Msg × ℕ)) (s : Session)
    → held u (deal ps s) ≡ count_history u s.history + count_waiting u ps + count_log u s.log
unfolding deal
held-deal u [] s = refl
held-deal u ((m, t) ∷ ps) s = elim (Bool-cases (is_status s.status connected)) [
  | inl e ↦
      ap
        (λ b. held u (
          deal ps (
            if b
            then do_send_to m t (record s { waitinglist = ps })
            else hand_over (reply_with error_peer_close m) (record s { waitinglist = ps }))))
        e
      ∙ omega (
        arith,
        held-deal u ps (do_send_to m t (record s { waitinglist = ps })),
        held-do_send_to u m t (record s { waitinglist = ps }) (inr e),
        ap (count_waiting u) (waitinglist-do_send_to m t (record s { waitinglist = ps }) e),
      )
  | inr e ↦
      ap
        (λ b. held u (
          deal ps (
            if b
            then do_send_to m t (record s { waitinglist = ps })
            else hand_over (reply_with error_peer_close m) (record s { waitinglist = ps }))))
        e
      ∙ ground (
        arith,
        held-deal u ps (hand_over (reply_with error_peer_close m) (record s { waitinglist = ps })),
        count_log-emit u s.log (deliver (reply_with error_peer_close m)),
        count_log-emit u s.log (discard (reply_with error_peer_close m)),
      )
]

held-note_result : (u : ℕ) (b : Bool) (s : Session) → held u (note_result b s) ≡ held u s
unfolding note_result
held-note_result u true s = ground arith
held-note_result u false s = ground arith

held-connect_result : (u : ℕ) (b : Bool) (s : Session) → held u (connect_result b s) ≡ held u s
unfolding connect_result deal_waiting_list
held-connect_result u b s =
    held-deal u (on_connected (note_result b s)).waitinglist (on_connected (note_result b s))
    ∙ ground (arith, held-note_result u b s, count_log-emit u (note_result b s).log tell_connected)

held-connect_finish : (u : ℕ) (b : Bool) (s : Session) → held u (connect_finish b s) ≡ held u s
unfolding connect_finish
held-connect_finish u true s = ground (
  arith,
  held-connect_result u true (emit start_read (record s { link_up = true })),
  count_log-emit u s.log start_read,
)
held-connect_finish u false s = ground (arith, held-connect_result u false s)

held-do_connect : (u : ℕ) (s : Session) → held u (do_connect s) ≡ held u s
unfolding do_connect
held-do_connect u s = ground (
  arith,
  held-connect_finish u true (record s { attached = true; status = connecting }),
  count_log-emit u s.log start_connect,
)

held-on_peer_close : (u : ℕ) (s : Session) → held u (on_peer_close s) ≡ held u s
unfolding on_peer_close
held-on_peer_close u s = ground (
  arith,
  held-clean_requests u (record s { status = closed }),
  count_log-emit u (clean_requests (record s { status = closed })).log tell_peer_close,
)

pub held-connection_closed : (u : ℕ) (s : Session) → held u (connection_closed s) ≡ held u s
unfolding connection_closed
held-connection_closed u s = ground (
  arith,
  held-on_peer_close u s,
  count_log-emit u s.log close_socket,
  count_log-emit u (on_peer_close s).log close_socket,
)

pub held-close : (u : ℕ) (s : Session) → held u (close s) ≡ held u s
unfolding close
held-close u s =
    let s' = record s { attached = false; has_owner = false; status = closed } in
    ground (arith, held-clean_requests u s', held-connection_closed u (clean_requests s'))

held-pass_on : (u : ℕ) (m : Msg) (s : Session) → held u (pass_on m s) ≡ held u s + one u m
held-pass_on u m s =
    ground (arith, count_log-emit u s.log (deliver m), count_log-emit u s.log (discard m))

held-take_answer :
    (u : ℕ) (m : Msg) (e : Entry) (s : Session)
    → find_entry m.seqid s.history ≡ some e
    → held u (take_answer m e s) ≡ held u s
held-take_answer u m e s h = omega (
  arith,
  count_history-erase u m.seqid e s.history h,
  count_log-emit u s.log (discard e.msg),
  count_log-emit u (s.log ++ (discard e.msg ∷ [])) (stop_timer e.msg.uid),
)

-- What a response comes to, once it is known whether it counts as good.
answered : Msg → Session → Session
answered m s = elim (find_entry m.seqid s.history) [
  | none ↦ emit (discard m) s
  | some e ↦ pass_on (record m { net = record m.net { ctx = e.msg.net.ctx } }) (take_answer m e s)
]

held-answered : (u : ℕ) (m : Msg) (s : Session) → held u (answered m s) ≡ held u s + one u m
unfolding answered
held-answered u m s = elim (Option-cases (find_entry m.seqid s.history)) [
  | inl h ↦ rw (h, answered) (omega (arith, count_log-emit u s.log (discard m)))
  | inr (e, h) ↦
      rw (h, answered)
        (held-pass_on u (record m { net = record m.net { ctx = e.msg.net.ctx } })
            (take_answer m e s)
          ∙ omega (arith, held-take_answer u m e s h))
]

held-read_response :
    (u : ℕ) (m : Msg) (s : Session) → held u (read_response m s) ≡ held u s + one u m
unfolding read_response answered
held-read_response u m s = elim (Bool-cases (is_ok m)) [
  | inl e ↦
      ap (λ b. held u (answered m (if b then record s { status = connected } else s))) e
      ∙ held-answered u m (record s { status = connected })
  | inr e ↦
      ap (λ b. held u (answered m (if b then record s { status = connected } else s))) e
      ∙ held-answered u m s
]

abbrev pub made : ℕ → (Direction → Msg) → Direction → ℕ
made u heartbeat request = one u (heartbeat response)
made u heartbeat _ = 0

held-answer_heartbeat :
    (u : ℕ) (heartbeat : Direction → Msg) (d : Direction) (s : Session)
    → held u (answer_heartbeat heartbeat d s) ≡ held u s + made u heartbeat d
held-answer_heartbeat u heartbeat request s = ground (
  arith,
  count_log-emit u s.log (discard (heartbeat response)),
  count_log-emit u s.log (write (heartbeat response) false),
  count_log-emit u (s.log ++ (write (heartbeat response) false ∷ []))
      (discard (heartbeat response)),
)
held-answer_heartbeat u heartbeat response s = omega arith
held-answer_heartbeat u heartbeat one_way s = omega arith

-- The messages that a call of `OnRead` brings: the one that was read, and the answer that the parser
-- makes for a heartbeat's request.
abbrev pub brought : ℕ → (Direction → Msg) → Msg → ℕ
brought u heartbeat m =
    one u m + (if m.net.isheartbeat then made u heartbeat m.net.direction else 0)

held-read_heartbeat :
    (u : ℕ) (heartbeat : Direction → Msg) (m : Msg) (s : Session)
    → held u (read_heartbeat heartbeat m s) ≡ held u s + one u m + made u heartbeat m.net.direction
unfolding read_heartbeat
held-read_heartbeat u heartbeat m s =
    let s' = answer_heartbeat heartbeat m.net.direction (record s { status = connected }) in
    omega (
      arith,
      held-answer_heartbeat u heartbeat m.net.direction (record s { status = connected }),
      count_log-emit u s'.log (discard m),
    )

held-on_read :
    (u : ℕ) (heartbeat : Direction → Msg) (m : Msg) (s : Session)
    → held u (on_read heartbeat m s) ≡ held u s + brought u heartbeat m
unfolding on_read
held-on_read u heartbeat m s =
    ground
      (arith, held-read_heartbeat u heartbeat m s, held-read_response u m s, held-pass_on u m s)

pub held-do_send_back :
    (u : ℕ) (m : Msg) (b : Bool) (s : Session) → held u (do_send_back m b s) ≡ held u s + one u m
unfolding do_send_back
held-do_send_back u m b s = ground (
  arith,
  count_log-emit u s.log (discard m),
  count_log-emit u s.log (write m b),
  count_log-emit u (s.log ++ (write m b ∷ [])) (discard m),
)

held-do_heartbeat :
    (u : ℕ) (heartbeat : Direction → Msg) (s : Session)
    → held u (do_heartbeat heartbeat s)
      ≡ held u s
        + (if is_status s.status connected || is_status s.status timed_out
            then one u (heartbeat request)
            else 0)
unfolding do_heartbeat
held-do_heartbeat u heartbeat s = ground (
  arith,
  count_log-emit u s.log (discard (heartbeat request)),
  count_log-emit u s.log (write (heartbeat request) false),
  count_log-emit u (s.log ++ (write (heartbeat request) false ∷ [])) (discard (heartbeat request)),
)

held-do_request_time_out :
    (u : ℕ) (m : Msg) (s : Session)
    → ((e : Entry) → find_entry m.seqid s.history ≡ some e → e.msg ≡ m)
    → held u (do_request_time_out m s) ≡ held u s
unfolding do_request_time_out
held-do_request_time_out u m s h = elim (Option-cases (find_entry m.seqid s.history)) [
  | inl n ↦ rw (n, do_request_time_out)
  | inr (e, n) ↦
      rw (n, do_request_time_out)
        (ground (
          arith,
          count_history-erase u m.seqid e s.history n,
          ap (one u) (h e n),
          count_log-emit u s.log (deliver (reply_with error_time_out m)),
          count_log-emit u s.log (discard m),
        ))
]

-- What an event adds to the messages of a session.
abbrev pub adds : ℕ → (Direction → Msg) → Session → Event → ℕ
adds u heartbeat s (sends m t) = one u m
adds u heartbeat s (sends_back m b) = one u m
adds u heartbeat s (reads m) = brought u heartbeat m
adds u heartbeat s beats =
    if is_status s.status connected || is_status s.status timed_out
    then one u (heartbeat request)
    else 0
adds u heartbeat s _ = 0

-- What the events are expected to meet: a request is given to a session that still has its owner or
-- is connected; and a request that times out is the first of its sequence id in the history.
abbrev pub Allowed : Session → Event → Type 0
Allowed s (sends m t) = (s.has_owner ≡ true) ⊎ (is_status s.status connected ≡ true)
Allowed s (times_out m) = (e : Entry) → find_entry m.seqid s.history ≡ some e → e.msg ≡ m
Allowed s _ = Unit

-- If a request is sent only while the session has its owner or is connected, and a request that times
-- out is the first of its sequence id in the history, each event leaves every message accounted for:
-- the number of times that the session keeps a message, or has given it to the owner or deleted it,
-- grows by exactly the number of times that the event brings that message.
pub held-step :
    (u : ℕ) (heartbeat : Direction → Msg) (s : Session) (e : Event)
    → Allowed s e
    → held u (step heartbeat s e) ≡ held u s + adds u heartbeat s e
unfolding step
held-step u heartbeat s (sends m t) a = held-do_send_to u m t s a
held-step u heartbeat s (sends_back m b) a = held-do_send_back u m b s
held-step u heartbeat s (reads m) a = held-on_read u heartbeat m s
held-step u heartbeat s (connects b) a = omega (arith, held-connect_finish u b s)
held-step u heartbeat s starts_connect a = omega (arith, held-do_connect u s)
held-step u heartbeat s loses_link a = omega (arith, held-connection_closed u s)
held-step u heartbeat s closes a = omega (arith, held-close u s)
held-step u heartbeat s accepts a = ground (arith, count_log-emit u s.log tell_accept)
held-step u heartbeat s beats a = held-do_heartbeat u heartbeat s
held-step u heartbeat s (times_out m) a = omega (arith, held-do_request_time_out u m s a)
