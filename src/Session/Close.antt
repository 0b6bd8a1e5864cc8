-- ===== src/Session/Close.antt =====
-- The end of a connection: what is done with the requests that have no answer yet.
use ape_cpp_server.Base.{
  if◌then◌else◌, ℕ, ◌≡◌, ◌∙◌, Bool, true, false, some, List, [], ◌∷◌, ◌++◌, append-nil,
  append_assoc, arith,
}
use ape_cpp_server.Message.{error_peer_close}
use ape_cpp_server.Session.{
  waiting, closed, Msg, reply_with, Effect, deliver, discard, tell_peer_close, close_socket,
  stop_timer, Entry, Session, emit, hand_over, clean_history, clean_waiting, clean_requests,
  on_peer_close, connection_closed,
}

-- The message given back: to the owner, or deleted where there is none.
abbrev pub give : Bool → Msg → Effect
give owner m =
    if owner
    then deliver (reply_with error_peer_close m)
    else discard (reply_with error_peer_close m)

-- What happens to the sent requests: each one's timer is stopped, and it is given back.
abbrev pub give_history : Bool → List Entry → List Effect
give_history owner [] = []
give_history owner (e ∷ es) = stop_timer e.msg.uid ∷ (give owner e.msg ∷ give_history owner es)

abbrev pub give_waiting : Bool → List (Msg × ℕ) → List Effect
give_waiting owner [] = []
give_waiting owner ((m, t) ∷ ps) = give owner m ∷ give_waiting owner ps

-- What `CleanRequestAndCallBack` leaves.
pub record Cleaned (s s' : Session) (gone : List Effect) : Type 0 where
  pub log_eq : s'.log ≡ s.log ++ gone
  pub status_eq : s'.status ≡ s.status
  pub owner_eq : s'.has_owner ≡ s.has_owner
  pub reconnect_eq : s'.autoreconnect ≡ s.autoreconnect
  pub link_eq : s'.link_up ≡ s.link_up
  pub attached_eq : s'.attached ≡ s.attached
  pub timer_eq : s'.timer_reconn ≡ s.timer_reconn

clean_history-Cleaned :
    (es : List Entry) (s : Session)
    → Cleaned s (clean_history es s) (give_history s.has_owner es)
      × ((clean_history es s).history ≡ [])
      × ((clean_history es s).waitinglist ≡ s.waitinglist)
unfolding clean_history
clean_history-Cleaned [] s = ground (arith, append-nil s.log)
clean_history-Cleaned (e ∷ es) s = ground (
  arith,
  clean_history-Cleaned es (
      hand_over (reply_with error_peer_close e.msg)
        (emit (stop_timer e.msg.uid) (record s { history = es }))),
  append_assoc (s.log ++ (stop_timer e.msg.uid ∷ [])) (give s.has_owner e.msg ∷ [])
      (give_history s.has_owner es),
  append_assoc s.log (stop_timer e.msg.uid ∷ [])
      (give s.has_owner e.msg ∷ give_history s.has_owner es),
)

pub clean_waiting-Cleaned :
    (ps : List (Msg × ℕ)) (s : Session)
    → Cleaned s (clean_waiting ps s) (give_waiting s.has_owner ps)
      × ((clean_waiting ps s).waitinglist ≡ [])
      × ((clean_waiting ps s).history ≡ s.history)
unfolding clean_waiting
clean_waiting-Cleaned [] s = ground (arith, append-nil s.log)
clean_waiting-Cleaned ((m, t) ∷ ps) s = ground (
  arith,
  clean_waiting-Cleaned ps
      (hand_over (reply_with error_peer_close m) (record s { waitinglist = ps })),
  append_assoc s.log (give s.has_owner m ∷ []) (give_waiting s.has_owner ps),
)

-- the messages given back, the sent requests before those that were never sent
abbrev pub given_back : Session → List Effect
given_back s = give_history s.has_owner s.history ++ give_waiting s.has_owner s.waitinglist

pub clean_requests-Cleaned :
    (s : Session)
    → Cleaned s (clean_requests s) (given_back s)
      × ((clean_requests s).history ≡ [])
      × ((clean_requests s).waitinglist ≡ [])
unfolding clean_requests
clean_requests-Cleaned s =
    let h = clean_history-Cleaned s.history s in
    let s' = clean_history s.history s in
    let w = clean_waiting-Cleaned s'.waitinglist s' in
    (
      record {
        log_eq =
            w.0.log_eq
            ∙ cc (
              h.0.log_eq,
              h.0.owner_eq,
              h.2,
              append_assoc s.log (give_history s.has_owner s.history)
                  (give_waiting s.has_owner s.waitinglist),
            );
        status_eq = w.0.status_eq ∙ h.0.status_eq;
        owner_eq = w.0.owner_eq ∙ h.0.owner_eq;
        reconnect_eq = w.0.reconnect_eq ∙ h.0.reconnect_eq;
        link_eq = w.0.link_eq ∙ h.0.link_eq;
        attached_eq = w.0.attached_eq ∙ h.0.attached_eq;
        timer_eq = w.0.timer_eq ∙ h.0.timer_eq;
      },
      w.2 ∙ h.1,
      w.1,
    )

-- When the peer closes the connection of an attached session, no request stays behind: every sent
-- request is stopped and given back with the code for a closed peer, in the order of the history,
-- then every request that was waiting, in order; to the owner if there is one. After that the owner
-- is told, unless the session reconnects by itself: then it waits, with its timer running. The
-- socket is closed last, and the connection is down and detached.
pub connection_closed_lem :
    (s : Session)
    → s.link_up ≡ true
    → s.attached ≡ true
    → let t = connection_closed s in
      (t.history ≡ [])
      × (t.waitinglist ≡ [])
      × (t.log
          ≡ (s.log ++ given_back s)
            ++ ((if s.autoreconnect then [] else if s.has_owner then tell_peer_close ∷ [] else [])
                ++ (close_socket ∷ [])))
      × (t.status ≡ (if s.autoreconnect then waiting else closed))
      × (t.timer_reconn ≡ (if s.autoreconnect then some true else s.timer_reconn))
      × (t.link_up ≡ false)
      × (t.attached ≡ false)
unfolding connection_closed on_peer_close
connection_closed_lem s up at =
    let c = clean_requests-Cleaned (record s { status = closed }) in
    ground (
      arith,
      up,
      at,
      c,
      append_assoc (s.log ++ given_back s) (tell_peer_close ∷ []) (close_socket ∷ []),
    )
