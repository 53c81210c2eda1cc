-- ===== src/Coordinator/Finalizer/Samples.antt =====
-- The finalizer of a call that three nodes have answered.
use gitally.Prelude.{ℕ, ◌≡◌, ◌≢◌, refl, String, true, Option, none, some, [], ◌∷◌}
use gitally.Transactions.Subtransaction.{find_voter, get_vote, state}
use gitally.Transactions.Subtransaction.Samples.{primary_voted}
use gitally.Transactions.Transaction.{
  count_subtransactions, did_vote, did_vote_first, state_of, last_state, state as transaction_state,
}
use gitally.Replication.Types.{update_repo, rename_repo, text, ReplicationJob}
use gitally.Coordinator.{
  error_of, same_error, result_of, router_nodes_to_storages, is_updated, split_secondaries,
  get_updated_and_outdated_secondaries,
}
use gitally.Coordinator.Samples.{route, with_one}
use gitally.Coordinator.Outdated.{IsSorted}
use gitally.Coordinator.Methods.{should_use_transaction}
use gitally.Coordinator.Finalizer.{
  Message, get_replication_details, rename_details, one_of, StoreCall, increment_generation,
  StoreError, Outcome, Config, job_change, store_call, job_for, first_error, enqueue_jobs, jobs_for,
  enqueue_outdated, answered, called, new_request_finalizer, finalize_verdict,
  create_transaction_finalizer,
}
use gitally.Coordinator.Finalizer.Laws.{Replicates, IsFaithful, new_request_finalizer_lem}
use gitally.Coordinator.Finalizer.Completion.{request_of, finalizer_no_panic, stale_are_replicated}
use gitally.Coordinator.Finalizer.Transacted.{transacted_changes}
use gitally.Coordinator.Finalizer.Transacted

abbrev conf : Config
conf = record { election_per_repository = true; default_replication_factor = λ s. 3 }

abbrev store : StoreCall → Option StoreError
store c = none

abbrev queue : ReplicationJob → Option ℕ
queue j = none

abbrev job : String → ReplicationJob
job n = record {
  repository_id = 1;
  change = update_repo;
  relative_path = "r.git";
  target_node_storage = n;
  source_node_storage = "a";
  virtual_storage = "default";
  params = [];
}

abbrev outcome : Outcome
outcome = record {
  calls = increment_generation "default" "r.git" "a" ("b" ∷ []) ∷ [];
  enqueued = job "d" ∷ job "c" ∷ [];
  result = none;
}

-- Opens the verdict.
verdict_open : ℕ
unfolding get_updated_and_outdated_secondaries count_subtransactions did_vote did_vote_first
    get_vote error_of result_of state_of last_state find_voter transaction_state state
    split_secondaries is_updated same_error router_nodes_to_storages new_request_finalizer called
    store_call answered enqueue_outdated jobs_for job_for enqueue_jobs first_error job_change
    finalize_verdict create_transaction_finalizer
verdict_open = 0

stale_are_replicated_example :
    (s : IsSorted route
      (with_one primary_voted)
      []
      (get_updated_and_outdated_secondaries route (with_one primary_voted) []))
    × Replicates conf store queue (request_of route "default" "r.git") ("d" ∷ s.rest) outcome
unfolding verdict_open
stale_are_replicated_example =
    stale_are_replicated conf store queue route (with_one primary_voted) [] "default" "r.git"
      update_repo [] outcome refl refl refl

new_request_finalizer_lem_example :
    (wanted : Option StoreCall) × (store_call conf store queue
        (request_of route "default" "r.git")
        ("b" ∷ [])
        ("d" ∷ "c" ∷ [])
        update_repo
        []
      ≡ some wanted)
    × IsFaithful conf store queue
        (request_of route "default" "r.git")
        ("d" ∷ "c" ∷ [])
        update_repo
        wanted
        outcome
        none
unfolding verdict_open
new_request_finalizer_lem_example =
    new_request_finalizer_lem conf store queue (request_of route "default" "r.git") ("b" ∷ [])
      ("d" ∷ "c" ∷ []) update_repo [] outcome refl

finalizer_no_panic_example :
    create_transaction_finalizer conf store queue route
      (with_one primary_voted)
      []
      "default"
      "r.git"
      rename_repo
      (("RelativePath", text "s.git") ∷ [])
    ≢ none
unfolding get_replication_details one_of rename_details
finalizer_no_panic_example =
    finalizer_no_panic conf store queue "/gitaly.RepositoryService/RenameRepository"
      (Message.rename_repository_request "s.git") rename_repo (("RelativePath", text "s.git") ∷ [])
      route (with_one primary_voted) [] "default" "r.git" refl

transacted_changes_example :
    Transacted.Replicates
      (get_replication_details "/gitaly.RepositoryService/RemoveRepository" Message.other_message)
unfolding should_use_transaction
transacted_changes_example =
    transacted_changes "/gitaly.RepositoryService/RemoveRepository" refl Message.other_message
