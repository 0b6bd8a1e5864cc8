-- ===== src/Timer/Tests.antt =====
-- The theorems on timers at concrete inputs, and runs of the code.
use ape_cpp_server.Base.{ℕ, ◌≡◌, refl, List, [], ◌∷◌}
use ape_cpp_server.Timer.{TimerNode, TimerManager, new_manager, add_timer, detect_timer_list}
use ape_cpp_server.Timer.Place.{total, IsShaped, new_manager-IsShaped}
use ape_cpp_server.Timer.Kept.{detect_timer_list_lem, add_timer_lem}

-- A manager from the time 1000 on, with a timer of 25 ms.
abbrev one_timer : TimerManager
one_timer = add_timer 1000 25 7 (new_manager 1000)

abbrev fired_ids : List TimerNode → List ℕ
fired_ids [] = []
fired_ids (node ∷ nodes) = node.id ∷ fired_ids nodes

not_yet : fired_ids (detect_timer_list 1020 (λ _. 1020) one_timer).fired ≡ []
unfolding detect_timer_list add_timer new_manager
not_yet = refl

in_time : fired_ids (detect_timer_list 1030 (λ _. 1030) one_timer).fired ≡ 7 ∷ []
unfolding detect_timer_list add_timer new_manager
in_time = refl

one_timer-IsShaped : IsShaped one_timer
one_timer-IsShaped = (add_timer_lem 7 1000 25 7 (new_manager 1000) (new_manager-IsShaped 1000)).0

detect_timer_list_lem_example :
    let m' = detect_timer_list 1030 (λ _. 1030) one_timer in
    IsShaped m' × (total 7 m' ≡ total 7 one_timer) × (m'.readynodes ≡ [])
detect_timer_list_lem_example =
    detect_timer_list_lem 7 1030 (λ _. 1030) one_timer one_timer-IsShaped
