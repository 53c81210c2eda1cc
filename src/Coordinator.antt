-- ===== src/Coordinator.antt =====
-- internal/praefect/coordinator.go: what Praefect does with a mutator call besides the proxying.
-- The gRPC connection of a node is left out. An error that a node returned is known by its identity,
-- which is what `!=` compares of two interface values that hold pointers.
pub mod Quorum
pub mod Outdated
pub mod Finalizer
pub mod Methods
pub mod Samples
use gitally.Prelude.{
  ℕ, ◌+◌, ◌/◌, String, Bool, true, false, not, ◌&&◌, Option, none, some, List, [], ◌∷◌, ◌++◌, ltb,
  ◌==◌, if◌then◌else◌, u64, str_eq, is_some, map, length,
}
use gitally.Transactions.Types.{VoteResult, undecided, is_committed, Voter, Result}
use gitally.Transactions.Transaction.{Transaction, state, did_vote, count_subtransactions}
use gitally.Transactions.Manager.{Manager}
use gitally.Transactions.Manager

pub record RouterNode : Type 0 where
  pub storage : String

pub record RepositoryMutatorRoute : Type 0 where
  pub repository_id : ℕ
  pub primary : RouterNode
  pub secondaries : List RouterNode
  pub replication_targets : List String

unfoldable pub new_voter : ℕ → RouterNode → Voter
new_voter votes n = record { name = n.storage; votes = votes; vote = none; result = undecided }

unfoldable pub voters_of : RouterNode → List RouterNode → List Voter
unfolding new_voter
voters_of primary secondaries =
    new_voter (u64 (length secondaries + 1)) primary ∷ map (new_voter 1) secondaries

unfoldable pub threshold_of : List RouterNode → ℕ
threshold_of secondaries =
    if ltb 1 (length secondaries)
    then u64 (u64 (length secondaries + 1) + u64 (length secondaries + 1) / 2)
    else u64 (length secondaries + 1)

pub register_transaction : Manager → RouterNode → List RouterNode → Manager × Result ℕ
register_transaction m primary secondaries =
    Manager.register_transaction m (voters_of primary secondaries) (threshold_of secondaries)

-- `nodeErrors.errByNode[node]`; no entry and a nil entry are both `none`.
unfoldable pub error_of : String → List (String × ℕ) → Option ℕ
error_of node [] = none
error_of node ((n, e) ∷ es) = if str_eq n node then some e else error_of node es

same_error : Option ℕ → Option ℕ → Bool
same_error none none = true
same_error none (some e) = false
same_error (some e) none = false
same_error (some e) (some f) = e == f

-- `nodeStates[node]`, with the zero value of a result where there is no entry.
unfoldable pub result_of : String → List (String × VoteResult) → VoteResult
result_of node [] = undecided
result_of node ((n, r) ∷ rs) = if str_eq n node then r else result_of node rs

unfoldable pub router_nodes_to_storages : List RouterNode → List String
router_nodes_to_storages = map (λ n. n.storage)

-- Whether the last loop takes a secondary for updated.
is_updated : List (String × ℕ) → Option ℕ → List (String × VoteResult) → String → Bool
unfolding error_of same_error result_of
is_updated errors primary_err states n =
    if not (same_error (error_of n errors) primary_err)
    then false
    else if not (is_committed (result_of n states))
    then false
    else true

-- The last loop: the storages that are updated, and those that are outdated.
split_secondaries :
    List (String × ℕ)
    → Option ℕ
    → List (String × VoteResult)
    → List RouterNode
    → List String × List String
split_secondaries errors primary_err states [] = ([], [])
split_secondaries errors primary_err states (n ∷ ns) =
    let (updated, outdated) = split_secondaries errors primary_err states ns in
    if is_updated errors primary_err states n.storage
    then (n.storage ∷ updated, outdated)
    else (updated, n.storage ∷ outdated)

pub record Verdict : Type 0 where
  pub primary_dirtied : Bool
  pub updated : List String
  pub outdated : List String

-- `getUpdatedAndOutdatedSecondaries`; `State()` returns no error, and metrics are left out.
pub get_updated_and_outdated_secondaries :
    RepositoryMutatorRoute → Transaction → List (String × ℕ) → Verdict
get_updated_and_outdated_secondaries route t errors =
    let primary_err = error_of route.primary.storage errors in
    let targets = route.replication_targets in
    let all = router_nodes_to_storages route.secondaries in
    let states = state t in
    let (updated, outdated) = split_secondaries errors primary_err states route.secondaries in
    if count_subtransactions t == 0 && is_some primary_err
    then record { primary_dirtied = false; updated = []; outdated = [] }
    else if count_subtransactions t == 1 && not (did_vote t route.primary.storage)
    then record { primary_dirtied = false; updated = []; outdated = [] }
    else if count_subtransactions t == 0
    then record { primary_dirtied = true; updated = []; outdated = targets ++ all }
    else if not (is_committed (result_of route.primary.storage states))
    then record { primary_dirtied = true; updated = []; outdated = targets ++ all }
    else record { primary_dirtied = true; updated = updated; outdated = targets ++ outdated }
