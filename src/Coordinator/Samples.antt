-- ===== src/Coordinator/Samples.antt =====
-- Three nodes behind the coordinator, and the theorems at their states.
use gitally.Prelude.{◌≡◌, ◌≢◌, refl, Option, some, List, [], ◌∷◌, arith}
use gitally.Transactions.Types.{Vote, undecided, committed}
use gitally.Transactions.Subtransaction.{Subtransaction, find_voter, get_vote, state}
use gitally.Transactions.Subtransaction.Samples.{
  weighted, secondary_voted, primary_voted, after_secondary, after_primary,
}
use gitally.Transactions.Transaction.{
  Transaction, transaction_open, count_subtransactions, did_vote, did_vote_first, state_of,
  last_state, state as transaction_state,
}
use gitally.Coordinator.{
  RouterNode, RepositoryMutatorRoute, new_voter, voters_of, threshold_of, error_of, result_of,
  get_updated_and_outdated_secondaries,
}
use gitally.Coordinator.Quorum.{HasStorages, committed_with_primary, clean_is_uncommitted}
use gitally.Coordinator.Outdated.{IsSorted, get_updated_and_outdated_secondaries_lem}

abbrev pub node_a : RouterNode
node_a = record { storage = "a" }

abbrev pub others : List RouterNode
others = record { storage = "b" } ∷ record { storage = "c" } ∷ []

abbrev pub route : RepositoryMutatorRoute
route = record {
  repository_id = 1;
  primary = node_a;
  secondaries = others;
  replication_targets = "d" ∷ [];
}

abbrev pub with_one : Subtransaction → Transaction
with_one s = record {
  id = 1;
  threshold = 4;
  voters = weighted;
  state = transaction_open;
  subtransactions = s ∷ [];
}

names : HasStorages node_a others
unfolding voters_of new_voter find_voter
names = (refl, (refl, (refl, tt)))

committed_with_primary_example :
    (w : Vote) × (◌≡◌ {A = Option Vote} (some 7) (some w))
    × (◌≡◌ {A = Option Vote} (some 7) (some w))
unfolding voters_of new_voter threshold_of find_voter
committed_with_primary_example =
    committed_with_primary node_a others (omega arith) names primary_voted "b"
      (record { name = "b"; votes = 1; vote = some 7; result = committed })
      (record { name = "a"; votes = 3; vote = some 7; result = committed }) after_primary refl refl
      refl

clean_is_uncommitted_example : undecided ≢ committed
unfolding voters_of new_voter threshold_of find_voter get_updated_and_outdated_secondaries
    count_subtransactions did_vote did_vote_first get_vote error_of
clean_is_uncommitted_example =
    clean_is_uncommitted node_a others (omega arith) names route (with_one secondary_voted) []
      secondary_voted "b" (record { name = "b"; votes = 1; vote = some 7; result = undecided }) refl
      refl after_secondary refl refl

get_updated_and_outdated_secondaries_lem_example :
    IsSorted route
      (with_one primary_voted)
      []
      (get_updated_and_outdated_secondaries route (with_one primary_voted) [])
unfolding get_updated_and_outdated_secondaries count_subtransactions did_vote did_vote_first
    get_vote error_of result_of state_of last_state find_voter transaction_state state
get_updated_and_outdated_secondaries_lem_example =
    get_updated_and_outdated_secondaries_lem route (with_one primary_voted) [] refl
