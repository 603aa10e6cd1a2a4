-- ===== src/Closure/Graph.antt =====
-- The check of the dependency graph: `kb2_validate_graph` of src/closure.c.
pub mod Count
pub mod Sorting
pub mod Ranks
pub mod Linking
pub mod Resolved
pub mod Reaching
pub mod Emptied
pub mod Sound
pub mod Queues
pub mod Balance
use kobox.Prelude.{
  ℕ, zero, suc, ◌+◌, ◌-◌, ◌*◌, ◌%◌, ◌^◌, Bool, true, false, List, [], ◌∷◌, ◌++◌, Option, none, some,
  ◌&&◌, ◌||◌, not, ◌==◌, if◌then◌else◌, length, get_or, set, replicate,
}
use kobox.Status.{Status, ok, invalid_configuration, no_memory}
use kobox.Allocator.{Heap, allocate, deallocate}
use kobox.Closure.{Artifact, Dependency, Storage, shared_provider}
use kobox.Closure.NodeMap.{Entry, node_map_find}

-- One index of `next` and `targets`: the next edge of the same consumer, or SIZE_MAX, and the
-- provider.
pub record Edge : Type 0 where
  pub next : Option ℕ
  pub target : ℕ

-- The arrays `heads` and `incoming`, and `next` and `targets` from the last index that has been
-- written down to the first, so that the index of an edge is the number of edges after it.
pub record Links : Type 0 where
  pub heads : List (Option ℕ)
  pub edges : List Edge
  pub incoming : List ℕ

abbrev pub kind_of : List Artifact → ℕ → ℕ
kind_of [] i = 0
kind_of (r ∷ rs) zero = r.kind
kind_of (r ∷ rs) (suc i) = kind_of rs i

-- The writes of one turn of the first loop.
unfoldable pub add_edge : Links → ℕ → ℕ → Links
add_edge k consumer provider = record {
  heads = set k.heads consumer (some (length k.edges));
  edges = record { next = get_or k.heads consumer none; target = provider } ∷ k.edges;
  incoming = set k.incoming provider (suc (get_or k.incoming provider 0));
}

-- One turn, or `none` where it leaves with KB2_STATUS_INVALID_CONFIGURATION.
unfoldable pub link : List Artifact → Links → Option ℕ → Option ℕ → Option Links
unfolding add_edge
link rs k none provider = none
link rs k (some consumer) none = none
link rs k (some consumer) (some provider) =
    if get_or k.incoming provider 0 == 2 ^ 32 - 1
      || kind_of rs consumer == shared_provider && not (kind_of rs provider == shared_provider)
    then none
    else some (add_edge k consumer provider)

unfoldable pub link_all : List Artifact → List Entry → List Dependency → Option Links → Option Links
unfolding link
link_all rs map ds none = none
link_all rs map [] (some k) = some k
link_all rs map (d ∷ ds) (some k) =
    link_all rs map ds
      (link rs k (node_map_find map d.consumer_node_id) (node_map_find map d.provider_node_id))

unfoldable pub no_links : ℕ → Links
no_links n = record { heads = replicate n none; edges = []; incoming = replicate n 0 }

-- The targets that the walk `for (edge = heads[node]; edge != SIZE_MAX; edge = next[edge])` meets.
-- Each edge leads to one of a lower index, which stands further down.
unfoldable pub walk : List Edge → Option ℕ → List ℕ
walk es none = []
walk [] (some i) = []
walk (e ∷ es) (some i) = if i == length es then e.target ∷ walk es e.next else walk es (some i)

unfoldable pub targets_of : Links → ℕ → List ℕ
targets_of k node = walk k.edges (get_or k.heads node none)

-- The state of the second loop: `queue` up to `queue_begin`, from the last entry to the first, and
-- from there to `queue_end`.
pub record Order : Type 0 where
  pub incoming : List ℕ
  pub taken : List ℕ
  pub waiting : List ℕ
  pub processed : ℕ

-- `--incoming[provider]` over 32 bits.
abbrev pub decremented : ℕ → ℕ
decremented n = (n + (2 ^ 32 - 1)) % 2 ^ 32

unfoldable pub release : Order → ℕ → Order
release o provider =
    let n = decremented (get_or o.incoming provider 0) in
    record o {
      incoming = set o.incoming provider n;
      waiting = if n == 0 then o.waiting ++ (provider ∷ []) else o.waiting;
    }

unfoldable pub release_all : Order → List ℕ → Order
unfolding release
release_all o [] = o
release_all o (t ∷ ts) = release_all (release o t) ts

-- One turn of the loop over the queue; there is none where the queue is empty.
unfoldable pub order_turn : (ℕ → List ℕ) → Order → List ℕ → Order
unfolding release_all
order_turn out o [] = o
order_turn out o (node ∷ waiting) =
    release_all
      (record {
        incoming = o.incoming;
        taken = node ∷ o.taken;
        waiting = waiting;
        processed = suc o.processed;
      })
      (out node)

-- The loop, for as many turns as there are artifacts.
unfoldable pub order_from : (ℕ → List ℕ) → ℕ → Order → Order
unfolding order_turn
order_from out zero o = o
order_from out (suc turns) o = order_from out turns (order_turn out o o.waiting)

-- The indices from `i` on at which a list of counts has 0.
unfoldable pub zeroes : ℕ → List ℕ → List ℕ
zeroes i [] = []
zeroes i (n ∷ ns) = let rest = zeroes (suc i) ns in if n == 0 then i ∷ rest else rest

unfoldable pub first_order : List ℕ → Order
unfolding zeroes
first_order incoming = record {
  incoming = incoming;
  taken = [];
  waiting = zeroes 0 incoming;
  processed = 0;
}

-- The state of the third loop: `reachable`, and the queue from `queue_begin` to `queue_end`.
pub record Reach : Type 0 where
  pub reachable : List Bool
  pub waiting : List ℕ

unfoldable pub visit : Reach → ℕ → Reach
visit r provider = if get_or r.reachable provider false then r else record {
  reachable = set r.reachable provider true;
  waiting = r.waiting ++ (provider ∷ []);
}

unfoldable pub visit_all : Reach → List ℕ → Reach
unfolding visit
visit_all r [] = r
visit_all r (t ∷ ts) = visit_all (visit r t) ts

unfoldable pub reach_turn : (ℕ → List ℕ) → Reach → List ℕ → Reach
unfolding visit_all
reach_turn out r [] = r
reach_turn out r (node ∷ waiting) =
    visit_all (record { reachable = r.reachable; waiting = waiting }) (out node)

-- The loop, for as many turns as there are artifacts.
unfoldable pub reach_from : (ℕ → List ℕ) → ℕ → Reach → Reach
unfolding reach_turn
reach_from out zero r = r
reach_from out (suc turns) r = reach_from out turns (reach_turn out r r.waiting)

unfoldable pub root_flags : List Artifact → List Bool
root_flags [] = []
root_flags (r ∷ rs) = r.is_root ∷ root_flags rs

unfoldable pub root_indices : ℕ → List Artifact → List ℕ
root_indices i [] = []
root_indices i (r ∷ rs) = let rest = root_indices (suc i) rs in if r.is_root then i ∷ rest else rest

unfoldable pub all_reached : List Bool → Bool
all_reached [] = true
all_reached (b ∷ bs) = b && all_reached bs

-- The loops after the edges.
unfoldable pub judge_graph : List Artifact → Option Links → Status
unfolding first_order order_from reach_from root_flags root_indices all_reached targets_of walk
judge_graph rs none = invalid_configuration
judge_graph rs (some k) =
    let n = length rs in
    let o = order_from (targets_of k) n (first_order k.incoming) in
    let r =
      reach_from (targets_of k) n
        (record { reachable = root_flags rs; waiting = root_indices 0 rs }) in
    if not (o.processed == n)
    then invalid_configuration
    else if all_reached r.reachable
    then ok
    else invalid_configuration

-- What the check comes to where it has its memory.
unfoldable pub check_graph : Storage → List Entry → Status
unfolding judge_graph link_all no_links
check_graph s map =
    let rs = s.artifacts.items in
    judge_graph rs (link_all rs map s.dependencies.items (some (no_links (length rs))))

-- `if (p != NULL) deallocate(…)`
unfoldable pub give_back : Bool → ℕ → Heap → Heap
unfolding deallocate
give_back granted size h = if granted then deallocate h size else h

-- The edges' arrays are asked for where there are edges.
unfoldable pub allocate_edges : Heap → ℕ → Bool × Heap
unfolding allocate
allocate_edges h size = if size == 0 then (false, h) else allocate h size

unfoldable pub validate_graph : Storage → List Entry → Heap → Status × Heap
unfolding check_graph give_back allocate_edges allocate
validate_graph s map h =
    let n = length s.artifacts.items in
    let m = length s.dependencies.items in
    let (heads, h1) = allocate h (n * 8) in
    let (queue, h2) = allocate h1 (n * 8) in
    let (incoming, h3) = allocate h2 (n * 4) in
    let (reachable, h4) = allocate h3 (n * 1) in
    let (next, h5) = allocate_edges h4 (m * 8) in
    let (targets, h6) = allocate_edges h5 (m * 8) in
    let status =
      if not heads
        || (not queue
            || (not incoming || (not reachable || not (m == 0) && (not next || not targets))))
      then no_memory
      else check_graph s map in
    (
      status,
      give_back heads (n * 8) (
          give_back queue (n * 8) (
            give_back incoming (n * 4) (
              give_back reachable (n * 1)
                (give_back next (m * 8) (give_back targets (m * 8) h6))))),
    )
