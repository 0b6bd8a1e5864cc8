-- ===== src/Connecting/Tests.antt =====
-- The theorems on connection attempts at concrete inputs.
use ape_cpp_server.Base.{◌==◌, pos, negsuc, ℕ, ◌≡◌, refl, Bool, true, false, none, some, [], ◌∷◌}
use ape_cpp_server.Connecting.{
  Connecting, new_connecting, async_connect, async_connect_to, resolved, answers, timer, run,
}
use ape_cpp_server.Connecting.Tries.{answers_of, async_connect_lem}
use ape_cpp_server.Connecting.TimeOut.{handle_connect_timeout_goes_on}

abbrev second : ℕ → Bool
second e = e == 2

async_connect_lem_example :
    let c' =
      run
        (async_connect_to (new_connecting true))
        (resolved (some (1, 2 ∷ 3 ∷ [])) ∷ answers_of second (1 ∷ 2 ∷ 3 ∷ [])) in
    (c'.tries ≡ 1 ∷ 2 ∷ [])
    × (c'.results ≡ pos 0 ∷ [])
    × (c'.connected ≡ true)
    × (c'.pending ≡ none)
    × (c'.timer_on ≡ false)
async_connect_lem_example = async_connect_lem second 1 (2 ∷ 3 ∷ []) (new_connecting true) refl refl

abbrev started : Connecting
started = async_connect 1 (2 ∷ []) (new_connecting true)

handle_connect_timeout_goes_on_example :
    let c' = run started (timer false ∷ answers true ∷ answers false ∷ []) in
    (c'.tries ≡ 1 ∷ 2 ∷ [])
    × (c'.results ≡ negsuc 2 ∷ pos 0 ∷ [])
    × (c'.connected ≡ true)
    × (c'.socket_closes ≡ 2)
handle_connect_timeout_goes_on_example = handle_connect_timeout_goes_on 2 [] started refl refl
