-- ===== src/HandlerAlloc/Tests.antt =====
-- A run of the allocator, and its theorem on it.
use ape_cpp_server.Base.{if◌then◌else◌, ◌≡◌, refl, ◌≤◌, List, [], ◌∷◌}
use ape_cpp_server.HandlerAlloc.{
  storage, heap, new_allocator, HandlerEvent, asks, gives_back, handle_all,
}
use ape_cpp_server.HandlerAlloc.Disjoint.{count_blocks, handle_all_lem}

abbrev events : List HandlerEvent
events = asks 100 ∷ asks 100 ∷ gives_back 1 ∷ asks 160 ∷ asks 159 ∷ []

-- The second handler gets a block, and so does the third, which is too large for the storage.
given : (handle_all events ([], new_allocator)).0 ≡ storage ∷ heap 1 ∷ heap 0 ∷ []
unfolding handle_all
given = refl

handle_all_lem_example :
    let s' = handle_all events ([], new_allocator) in
    (count_blocks storage s'.0 ≤ 1) × (count_blocks storage s'.0 ≡ (if s'.1.in_use then 1 else 0))
handle_all_lem_example = handle_all_lem events storage
