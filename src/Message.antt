-- ===== src/Message.antt =====
-- frame/event/events.h, thriftmessage.h and frame/interface/errorcode.h: the messages that the
-- parsers, the sessions and the handlers pass on.
use ape_cpp_server.Base.{ℤ, negsuc, ℕ, Bool, true, false, List, []}

-- `SNetMessage::SMessageDirection`
pub data Direction : Type 0 where
  request response one_way : Direction

-- `SNetMessage`, without the address and the time of arrival, which are only written and printed.
-- `ctx` is a pointer, and 0 is NULL.
pub record NetMessage : Type 0 where
  pub direction : Direction
  pub isheartbeat : Bool
  pub code : ℤ
  pub ctx : ℕ
  pub connid : ℕ

abbrev pub new_message : NetMessage
new_message = record {
  direction = request;
  isheartbeat = false;
  code = negsuc 0;
  ctx = 0;
  connid = 0;
}

-- `SetReply (n)`
abbrev pub set_reply : ℤ → NetMessage → NetMessage
set_reply n m = record m { direction = response; code = n }

abbrev pub is_response : Direction → Bool
is_response response = true
is_response _ = false

-- `IsReply ()`
abbrev pub is_reply : NetMessage → Bool
is_reply m = is_response m.direction

-- `ERROR_TIME_OUT` and `ERROR_PEER_CLOSE`
abbrev pub error_time_out : ℤ
error_time_out = negsuc 10260000

abbrev pub error_peer_close : ℤ
error_peer_close = negsuc 10260001

-- `SThriftMessage`
pub record ThriftMessage : Type 0 where
  pub net : NetMessage
  pub seqid : ℕ
  pub method : List ℕ
  pub body : List ℕ

abbrev pub new_thrift_message : ThriftMessage
new_thrift_message = record { net = new_message; seqid = 0; method = []; body = [] }
