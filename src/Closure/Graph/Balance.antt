-- ===== src/Closure/Graph/Balance.antt =====
-- The bytes that `kb2_validate_graph` of src/closure.c takes from the allocator and gives back.
use kobox.Prelude.{ℕ, List, ◌+◌, ◌*◌, ◌-◌, ◌≡◌, Bool, true, false, length, arith, if◌then◌else◌}
use kobox.Allocator.{Heap, allocate, deallocate}
use kobox.Closure.{Storage}
use kobox.Closure.NodeMap.{Entry}
use kobox.Closure.Graph.{give_back, allocate_edges, validate_graph}

-- The bytes behind a pointer.
unfoldable taken : Bool → ℕ → ℕ
taken granted size = if granted then size else 0

live-allocate :
    (h : Heap) (size : ℕ) → (allocate h size).1.live ≡ h.live + taken (allocate h size).0 size
unfolding allocate taken
live-allocate h size = ground arith

live-allocate_edges :
    (h : Heap) (size : ℕ)
    → (allocate_edges h size).1.live ≡ h.live + taken (allocate_edges h size).0 size
unfolding allocate_edges taken
live-allocate_edges h size = ground (arith, live-allocate h size)

live-give_back :
    (granted : Bool) (size : ℕ) (h : Heap)
    → (give_back granted size h).live ≡ h.live - taken granted size
unfolding give_back deallocate taken
live-give_back true size h = ground arith
live-give_back false size h = ground arith

-- The check gives back all that it takes.
pub live-validate_graph :
    (s : Storage) (map : List Entry) (h : Heap) → (validate_graph s map h).1.live ≡ h.live
unfolding validate_graph
live-validate_graph s map h =
    let n = length s.artifacts.items in
    let m = length s.dependencies.items in
    let (heads, h1) = allocate h (n * 8) in
    let (queue, h2) = allocate h1 (n * 8) in
    let (incoming, h3) = allocate h2 (n * 4) in
    let (reachable, h4) = allocate h3 (n * 1) in
    let (next, h5) = allocate_edges h4 (m * 8) in
    let (targets, h6) = allocate_edges h5 (m * 8) in
    let b1 = give_back targets (m * 8) h6 in
    let b2 = give_back next (m * 8) b1 in
    let b3 = give_back reachable (n * 1) b2 in
    let b4 = give_back incoming (n * 4) b3 in
    let b5 = give_back queue (n * 8) b4 in
    omega (
      arith,
      live-allocate h (n * 8),
      live-allocate h1 (n * 8),
      live-allocate h2 (n * 4),
      live-allocate h3 (n * 1),
      live-allocate_edges h4 (m * 8),
      live-allocate_edges h5 (m * 8),
      live-give_back targets (m * 8) h6,
      live-give_back next (m * 8) b1,
      live-give_back reachable (n * 1) b2,
      live-give_back incoming (n * 4) b3,
      live-give_back queue (n * 8) b4,
      live-give_back heads (n * 8) b5,
    )
