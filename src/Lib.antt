-- ===== src/Lib.antt =====
-- Verification of the ape server framework (frame/): a C++ framework for network servers and
-- clients on boost. A message comes in through a connection, whose parser cuts it out of the bytes
-- read; the connection's session matches answers with requests and passes messages to the handler;
-- answers go back through the session, for http in the order of the requests, and the parser writes
-- them into a buffer that the connection sends. Threads hand messages on through a priority queue.
--
-- Parts:
--   Base: names passed on, Boolean tests, lists, 32-bit arithmetic and bytes, integers.
--   Queue (frame/common/msgqueueprio.h, msgqueueprio.cc): `put_turn` and `get_turn` are one turn of
--     the loops of PutQ and GetQ under the mutex, `step` lets the threads of a system take turns, be
--     woken (also spuriously) or time out, in any order. A pointer is a number.
--   Buffer (frame/interface/buffer.h): CBuffer with the memory that it owns. What the allocator
--     leaves in new memory is a parameter, of which only its length is supposed. A write outside of
--     the memory is `none`.
--   Message (frame/event/events.h, thriftmessage.h, frame/interface/errorcode.h): messages.
--   Connection (frame/net/connection.cc): CConnection from the first read on, over any parser:
--     `handle_read` is HandleRead with the bytes that the socket put into the buffer. `none` is an
--     access outside of the memory.
--   Thrift (frame/protocol/thriftparser.cc): CThriftParser. Decode reads memory that is longer than
--     the data given to it; a read outside of the memory is `fault`. The machine is little-endian.
--     Thrift/Frames puts this parser into a connection.
--   HttpSession (frame/session/httpsession.cc): CHttpSession, with the calls of AsyncWrite and
--     `delete` in logs. A read of an empty queue is `none`.
--   Session (frame/session/session.cc, with the flags of frame/net/connection.cc): CSession as a
--     record; `step` is one event. Every call on the owner, the socket, a timer or `delete` is an
--     entry of a log. The parser's heartbeat message is a parameter.
--   Timer (frame/common/timermanager.cc): CTimerManager; the circles of nodes are lists, and the
--     times that gettimeofday gives are arguments.
--   ThreadTimer (frame/common/threadtimer.cc): CThreadTimer over its manager, several of them,
--     with the timer that is stored in each node.
--   CText: what the C library's functions on texts do (strchr, strstr, atoi, sscanf).
--   UrlCode (frame/interface/urlcode.h): the encoder and the decoder of urls.
--   HttpMessage (frame/event/httpmessage.h, httpmessage.cc): http messages and their printed forms.
--   HttpParser (frame/protocol/httpparser.cc): `CHttpParser::Decode` on memory from `buf` on. Head and
--     Lines are about the lines of a head, Request and Response about first lines, Chunks and Chunked
--     about bodies in chunks, Whole and Answer about whole messages, Broken about ill-formed ones.
--     Backward puts this parser into a connection.
--   HttpEncoder (frame/protocol/httpparser.cc): `CHttpParser::Encode` as the pieces that it appends.
--   HttpRoundtrip: what `Encode` makes of a response, as `Decode` reads it; Encoded has the buffer
--     between them.
--   SessionManager (frame/net/socsessionmanager.cc, sossessionmanager.cc): the tables of sessions.
--   Address (frame/protocol/protocolhelper.cc, baseparser.cc, frame/session/sessionfactory.cc): the
--     addresses of servers, as ParseAddr reads them, and the factories of parsers and of sessions.
--   Connecting (frame/net/connection.cc): CConnection until it is connected: AsyncConnect, the
--     handlers of the resolver, of an attempt to connect and of the time limit, and ConnectFinish.
--   SocSessionManager (frame/net/socsessionmanager.cc): accepted sessions, live, with DoSendBack and
--     DoCheckSession, in a manager whose sessions are all plain (CSession, as for thrift).
--   SosSessionManager (frame/net/sossessionmanager.cc, sessionmanager.cc): DoConnect, DoSendTo and
--     DoClose over the tables and the sessions, with what the sessions call their owner with;
--     Aging has DoCheckSession.
--   Server (frame/net/netthreadholder.cc, tcpsocketserver.cc): the threads' turns, and the servers
--     that accept connections, which share one holder.
--   IoThread (frame/net/ioservicethread.cc, netthreadholder.cc): the flag by which a thread is known
--     to be alive, and the timer that runs its timers.
--   HandlerAlloc (frame/interface/handleralloc.h): the memory of asio's handlers.
--   Config (frame/common/xmlconfigparser.cc): CXmlConfigParser over what tinyxml2 gives.
--
-- Bounds: `unsigned int` arithmetic is modulo 2 ^ 32 where the code adds or subtracts; the numbers
-- that are only compared or copied are unbounded. The loop over the packets in a buffer takes the
-- number of the buffer's bytes as fuel, which is exact: a parser may go back, but in the loop it is
-- given the same buffer at each place, so a loop that has not ended in as many turns comes to a
-- place again and never ends, which is the outcome `spins`. On the bytes of the data run also the
-- loops of the http parser over lines and chunks and those over the keys of a path, each turn of
-- which takes a byte at least;
-- every other loop is a recursion on a list or on the number of its turns (Cascade: of the wheels
-- left), and waits of threads are events.
--
-- Not modelled: `CHttpSession` behind the manager of accepted sessions, what joins the two session
-- managers in frame/net/sessionmanager.cc, the loop of frame/common/msgtimerthread.cc, and the
-- classes that only print or load files; threads, boost and the C library are outside of the source,
-- and frame/tinyxml2 is a copy of another library.
-- The owner's handler is not run inside of a session's call: what it does next is another event.
pub mod Address
pub mod Base
pub mod Buffer
pub mod CText
pub mod Config
pub mod Connecting
pub mod Connection
pub mod HandlerAlloc
pub mod HttpEncoder
pub mod HttpMessage
pub mod HttpParser
pub mod HttpRoundtrip
pub mod HttpSession
pub mod IoThread
pub mod Message
pub mod Queue
pub mod Server
pub mod Session
pub mod SessionManager
pub mod SocSessionManager
pub mod SosSessionManager
pub mod Thrift
pub mod ThreadTimer
pub mod Timer
pub mod UrlCode
