-- ===== src/Session/Timeout.antt =====
-- Requests that time out.
use ape_cpp_server.Base.{◌+◌, ◌≡◌, ◌≢◌, true, some, arith}
use ape_cpp_server.Session.{
  Msg, reply_with, deliver, Entry, Session, find_entry, do_request_time_out,
}
use ape_cpp_server.Session.Ledger.{held, count_log-emit, count_history-erase}
use ape_cpp_server.Message.{error_time_out}

-- A time limit is matched with the history by the sequence id alone. Where the first element of that
-- id is another request, a session with an owner takes that one out of the history: it is then neither
-- kept, nor given to the owner, nor deleted, while the request that timed out is given to the owner
-- and, if it is kept, stays kept as well.
pub do_request_time_out_loses :
    (m : Msg) (e : Entry) (s : Session)
    → s.has_owner ≡ true
    → find_entry m.seqid s.history ≡ some e
    → e.msg.uid ≢ m.uid
    → (held e.msg.uid (do_request_time_out m s) + 1 ≡ held e.msg.uid s)
      × (held m.uid (do_request_time_out m s) ≡ held m.uid s + 1)
unfolding do_request_time_out
do_request_time_out_loses m e s o h ne =
    rw (h, do_request_time_out)
      (
        ground (
          arith,
          o,
          ne,
          count_history-erase e.msg.uid m.seqid e s.history h,
          count_log-emit e.msg.uid s.log (deliver (reply_with error_time_out m)),
        ),
        ground (
          arith,
          o,
          ne,
          count_history-erase m.uid m.seqid e s.history h,
          count_log-emit m.uid s.log (deliver (reply_with error_time_out m)),
        ),
      )
