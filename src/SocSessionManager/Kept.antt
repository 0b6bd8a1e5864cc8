-- ===== src/SocSessionManager/Kept.antt =====
-- What becomes of the messages of accepted sessions.
use ape_cpp_server.Base.{ℕ, ◌+◌, Option, none, some, List, [], ◌∷◌}
use ape_cpp_server.Session.{timed_out, Session}
use ape_cpp_server.Session
use ape_cpp_server.Session.Ledger.{count_log}
use ape_cpp_server.SosSessionManager.Sent.{kept}
use ape_cpp_server.SocSessionManager.{SocManager}

abbrev pub kept_live : ℕ → List (ℕ × Session) → ℕ
kept_live u [] = 0
kept_live u ((i, s) ∷ table) = kept u s + kept_live u table

-- how often a message is kept by a session, or was given to the handler or deleted
abbrev pub live_total : ℕ → SocManager → ℕ
live_total u w = kept_live u w.sessions + count_log u w.log

abbrev pub one_if : ℕ → Option Session → ℕ
one_if n none = 0
one_if n (some s) = n
