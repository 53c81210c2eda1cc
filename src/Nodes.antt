-- ===== src/Nodes.antt =====
-- internal/praefect/nodes/manager.go and local_elector.go: the health of nodes and the election of a
-- primary in memory. A node, a pointer in the code, is its index in the list of a shard's nodes. What
-- the health checks answer is given.
pub mod Health
pub mod Election
pub mod Samples
use gitally.Prelude.{
  ℕ, zero, suc, ◌+◌, ◌-◌, String, Bool, true, false, not, ◌&&◌, Option, none, some, List, [], ◌∷◌,
  ◌++◌, ltb, ◌==◌, if◌then◌else◌, length, get_elem?, drop, str_eq,
}

abbrev pub healthcheck_threshold : ℕ
healthcheck_threshold = 3

-- `statuses`, the oldest first.
pub record NodeStatus : Type 0 where
  pub storage : String
  pub statuses : List Bool

all_ok : List Bool → Bool
all_ok [] = true
all_ok (ok ∷ rest) = if ok then all_ok rest else false

pub is_healthy : NodeStatus → Bool
unfolding all_ok
is_healthy n =
    if ltb (length n.statuses) healthcheck_threshold
    then false
    else all_ok (drop (length n.statuses - healthcheck_threshold) n.statuses)

pub update_status : NodeStatus → Bool → NodeStatus
update_status n status =
    let statuses = n.statuses ++ status ∷ [] in
    record {
      storage = n.storage;
      statuses = if ltb healthcheck_threshold (length statuses) then drop 1 statuses else statuses;
    }

-- Where `primaryNode` points.
pub record LocalElector : Type 0 where
  pub nodes : List NodeStatus
  pub primary_node : ℕ

pub healthy_at : Option NodeStatus → Bool
unfolding is_healthy
healthy_at none = false
healthy_at (some n) = is_healthy n

-- `CheckHealth` of each node from an index on, given what the health checks answer.
pub check_health : (ℕ → Bool) → ℕ → List NodeStatus → List NodeStatus
unfolding update_status
check_health serving i [] = []
check_health serving i (n ∷ ns) = update_status n (serving i) ∷ check_health serving (suc i) ns

-- The first healthy node from an index on that is not the primary.
new_primary : ℕ → ℕ → List NodeStatus → Option ℕ
unfolding is_healthy
new_primary primary i [] = none
new_primary primary i (n ∷ ns) =
    let rest = new_primary primary (suc i) ns in
    if not (i == primary) && is_healthy n then some i else rest

-- Whether the call returns no error.
elect : List NodeStatus → ℕ → Option ℕ → LocalElector × Bool
elect nodes primary none = (record { nodes = nodes; primary_node = primary }, false)
elect nodes primary (some i) = (record { nodes = nodes; primary_node = i }, true)

pub check_nodes : LocalElector → (ℕ → Bool) → LocalElector × Bool
unfolding check_health new_primary elect healthy_at
check_nodes s serving =
    let nodes = check_health serving 0 s.nodes in
    if healthy_at (get_elem? nodes s.primary_node)
    then (record { nodes = nodes; primary_node = s.primary_node }, true)
    else elect nodes s.primary_node (new_primary s.primary_node 0 nodes)

-- The indices from one on that are not the primary.
secondaries_from : ℕ → ℕ → List NodeStatus → List ℕ
secondaries_from primary i [] = []
secondaries_from primary i (n ∷ ns) =
    let rest = secondaries_from primary (suc i) ns in if i == primary then rest else i ∷ rest

-- The primary and the secondaries; `none` where the primary is not healthy.
pub get_shard : LocalElector → Option (ℕ × List ℕ)
unfolding secondaries_from healthy_at
get_shard s =
    if healthy_at (get_elem? s.nodes s.primary_node)
    then some (s.primary_node, secondaries_from s.primary_node 0 s.nodes)
    else none
