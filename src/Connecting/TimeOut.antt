-- ===== src/Connecting/TimeOut.antt =====
-- An attempt whose time limit is met while an endpoint has not answered.
use ape_cpp_server.Base.{
  pos, negsuc, ℕ, ◌+◌, ◌≡◌, true, false, some, List, [], ◌∷◌, ◌++◌, append_assoc, arith,
}
use ape_cpp_server.Connecting.{
  Connecting, connect_finish, handle_connected, handle_connect_timeout, answers, timer, answer,
  step, run,
}

-- If the time limit is met while an endpoint with another one behind it has not answered, the attempt
-- is not over: the close of the socket, which asio answers with an error, makes the connection try the
-- other endpoint. If that one can be reached, the session is told of the failure and then of a
-- success.
pub handle_connect_timeout_goes_on :
    (e : ℕ) (rest : List ℕ) (c : Connecting)
    → c.has_session ≡ true
    → c.pending ≡ some (e ∷ rest)
    → let c' = run c (timer false ∷ answers true ∷ answers false ∷ []) in
      (c'.tries ≡ c.tries ++ (e ∷ []))
      × (c'.results ≡ c.results ++ (negsuc 2 ∷ pos 0 ∷ []))
      × (c'.connected ≡ true)
      × (c'.socket_closes ≡ c.socket_closes + 2)
unfolding run step answer handle_connect_timeout handle_connected connect_finish
handle_connect_timeout_goes_on e rest c h p =
    ground (arith, h, p, append_assoc c.results (negsuc 2 ∷ []) (pos 0 ∷ []))
