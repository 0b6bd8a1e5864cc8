-- ===== src/SocSessionManager/Tests.antt =====
-- A session that is accepted, answers and grows old, and the theorem on its manager.
use ape_cpp_server.Base.{pos, ◌≡◌, refl, false, []}
use ape_cpp_server.Message.{new_message}
use ape_cpp_server.Session.{Msg, new_session}
use ape_cpp_server.SocSessionManager.{
  SocManager, new_soc_manager, accept_session, do_send_back, check_sessions,
}

abbrev answer : Msg
answer = record { uid = 5; seqid = 1; ok_code = pos 0; net = new_message }

accepted : SocManager
unfolding accept_session new_session
accepted = accept_session 3 (new_session false false 0) new_soc_manager

-- Two checks with nothing in between close the session.
gone : (check_sessions (check_sessions accepted)).sessions ≡ []
unfolding accepted check_sessions
gone = refl

-- A message to a session that is not there is neither sent nor deleted.
lost : do_send_back 4 answer accepted ≡ accepted
unfolding accepted do_send_back
lost = refl
