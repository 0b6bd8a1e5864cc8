-- ===== src/HttpSession.antt =====
-- frame/session/httpsession.h and httpsession.cc: `CHttpSession`, which answers pipelined requests in
-- the order in which they came. What goes to the connection and what is deleted is kept in two
-- logs. The request's way on through `CSession::OnRead` is in the module Session.
pub mod Pipeline
pub mod Order
mod Tests
use ape_cpp_server.Base.{
  ◌==◌, if◌then◌else◌, add32, ℕ, Bool, not, Option, none, some, List, [], ◌∷◌, ◌++◌,
}

-- What `DoSendBack` reads of a `SHttpMessage`.
pub record Reply : Type 0 where
  pub requestno : ℕ
  pub keepalive : Bool
  pub body : List ℕ

-- `SResponseItem`
pub record ResponseItem : Type 0 where
  pub no : ℕ
  pub response : Option Reply

pub record HttpSession : Type 0 where
  pub dwseq : ℕ
  pub request_deque : List ResponseItem
  -- the calls of `AsyncWrite`, with their argument `close`
  pub written : List (Reply × Bool)
  pub deleted : List Reply

pub new_session : HttpSession
new_session = record { dwseq = 0; request_deque = []; written = []; deleted = [] }

-- `OnRead` of a request: the number that the request gets, and its place in the queue.
pub on_read_request : HttpSession → ℕ × HttpSession
on_read_request s =
    let no = add32 s.dwseq 1 in
    (
      no,
      record s {
        dwseq = no;
        request_deque = s.request_deque ++ (record { no = no; response = none } ∷ []);
      },
    )

-- `CSession::DoSendBack`, with `!keepalive` for `close`
abbrev pub send : Reply → Reply × Bool
send m = (m, not m.keepalive)

-- The loop that sends the answers that were waiting: those sent, and what stays queued.
pub flush : List ResponseItem → List (Reply × Bool) × List ResponseItem
flush [] = ([], [])
flush (item ∷ items) = elim item.response [
  | none ↦ ([], item ∷ items)
  | some m ↦ let (sent, rest) = flush items in (send m ∷ sent, rest)
]

-- The loop over the queue behind its front; `none` if no request has that number.
pub keep_response : Reply → List ResponseItem → Option (List ResponseItem)
keep_response m [] = none
keep_response m (item ∷ items) =
    let rest = keep_response m items in
    if item.no == m.requestno
    then some (record item { response = some m } ∷ items)
    else elim rest [ none ↦ none | some items' ↦ some (item ∷ items') ]

pub answer_front : Reply → List ResponseItem → HttpSession → HttpSession
unfolding flush
answer_front m items s =
    let (sent, rest) = flush items in
    record s { request_deque = rest; written = s.written ++ (send m ∷ sent) }

pub answer_later : Reply → ResponseItem → List ResponseItem → HttpSession → HttpSession
unfolding keep_response
answer_later m front items s = elim (keep_response m items) [
  | none ↦ record s { deleted = s.deleted ++ (m ∷ []) }
  | some items' ↦ record s { request_deque = front ∷ items' }
]

pub answer : Reply → List ResponseItem → HttpSession → Option HttpSession
unfolding answer_front answer_later
answer m [] s = none
answer m (front ∷ items) s =
    if front.no == m.requestno
    then some (answer_front m items s)
    else some (answer_later m front items s)

-- `DoSendBack`. On an empty queue it reads through `begin ()`, a fault.
pub do_send_back : Reply → HttpSession → Option HttpSession
unfolding answer
do_send_back m s = answer m s.request_deque s

-- A request that arrives, or an answer that the application gives.
pub data Event : Type 0 where
  arrives : Event
  answers : Reply → Event

pub step : Event → HttpSession → Option HttpSession
unfolding do_send_back on_read_request
step arrives s = some (on_read_request s).1
step (answers m) s = do_send_back m s

pub run : List Event → HttpSession → Option HttpSession
unfolding step
run [] s = some s
run (e ∷ es) s = elim (step e s) [ none ↦ none | some s' ↦ run es s' ]
