-- ===== src/SosSessionManager/Tests.antt =====
-- The theorems on `CSosSessionManager` at concrete inputs, and a run.
use ape_cpp_server.Base.{
  codes, pos, negsuc, ℕ, zero, suc, ◌+◌, ◌≡◌, refl, inl, true, false, ◌||◌, Option, none, some,
  List, [], ◌∷◌, ◌++◌,
}
use ape_cpp_server.Message.{new_message}
use ape_cpp_server.Session.{Msg, reply_with, fault, do_connect}
use ape_cpp_server.SessionManager.{find_session}
use ape_cpp_server.SosSessionManager.{
  message, SosManager, new_sos_manager, notify, has_value, returns, exits, do_send_to, do_close,
}
use ape_cpp_server.SosSessionManager as Sos
use ape_cpp_server.SosSessionManager.Tables.{has_id}
use ape_cpp_server.SosSessionManager.Registered.{Request, connects, sends, serve_all, serve_all-new}
use ape_cpp_server.SosSessionManager.Sent.{total, do_send_to-total}
use ape_cpp_server.SosSessionManager.Shut.{do_send_to-do_close}
use ape_cpp_server.SosSessionManager.Aging.{do_check_session}
use ape_cpp_server.SosSessionManager.Aging.Quiet.{do_check_session_lem}
use ape_cpp_server.SosSessionManager.Reused.{do_send_to-do_connect}

-- 0 is the empty text, 1 and 2 are names, 3 and 4 addresses.
abbrev text : ℕ → List ℕ
text zero = []
text (suc zero) = codes "a"
text (suc (suc zero)) = codes "b"
text (suc (suc (suc zero))) = codes "http://h:80"
text (suc (suc (suc (suc n)))) = codes "ftd://h:81"

-- An address of a protocol without a parser ends the process.
no_parser : Sos.do_connect text 1 4 false 0 true new_sos_manager ≡ exits
unfolding Sos.do_connect
no_parser = refl

abbrev calling : Msg
calling = record { uid = 5; seqid = 1; ok_code = pos 0; net = new_message }

abbrev manager_or_new : Option SosManager → SosManager
manager_or_new none = new_sos_manager
manager_or_new (some w) = w

-- A short session of the name `a`, to the address.
abbrev asked : List Request
asked = connects 1 3 false 0 false ∷ sends 1 calling 30 ∷ sends 2 calling 30 ∷ []

started : SosManager
unfolding serve_all Sos.new_member do_connect
started = manager_or_new (serve_all text asked new_sos_manager)

-- The request waits in the session, and that to an unknown name is given back.
started_notices : started.notices ≡ message none (reply_with (negsuc 0) calling) ∷ []
unfolding started
started_notices = refl

serve_all-new_example :
    has_id 1 started.members
    ≡ (has_value 1 started.short_sessions || has_value 1 started.addr_sessions)
unfolding started
serve_all-new_example = serve_all-new text asked started refl 1

started-IsRegistered :
    (x : ℕ)
    → has_id x started.members
      ≡ (has_value x started.short_sessions || has_value x started.addr_sessions)
unfolding started
started-IsRegistered x = serve_all-new text asked started refl x

do_send_to-total_example : total 5 (do_send_to 1 calling 30 started) ≡ total 5 started + 1
unfolding started
do_send_to-total_example =
    do_send_to-total 5 1 calling 30 started started-IsRegistered (inl refl, tt)

do_send_to-do_close_example :
    (do_send_to 1 calling 30 (do_close 1 started)).effects
    ≡ (do_close 1 started).effects ++ ((1, fault) ∷ [])
unfolding started
do_send_to-do_close_example = do_send_to-do_close 1 1 30 calling started refl refl refl

-- A session to be shared, of the name `a`.
shared : SosManager
unfolding serve_all Sos.new_member do_connect
shared = manager_or_new (serve_all text (connects 1 3 false 0 true ∷ []) new_sos_manager)

do_send_to-do_connect_example :
    (w' : SosManager) × (Sos.do_connect text 2 3 false 0 true shared ≡ returns (pos 0) w')
    × ((m : Msg) (timeout : ℕ)
        → do_send_to 2 m timeout w' ≡ notify (message none (reply_with (negsuc 0) m)) w')
unfolding shared find_session
do_send_to-do_connect_example = do_send_to-do_connect text 2 3 1 false 0 shared refl refl refl refl

-- The second check finds the session that the first one aged, and deletes it with its request.
gone : (do_check_session (do_check_session started)).members ≡ []
unfolding started do_check_session
gone = refl

do_check_session_lem_example :
    let w = do_check_session started in
    ((do_check_session w).notices ≡ w.notices) × (total 5 (do_check_session w) ≡ total 5 w)
do_check_session_lem_example = do_check_session_lem 5 (do_check_session started)
