-- ===== src/Coordinator/Finalizer.antt =====
-- What the coordinator does with the database and the replication queue once the nodes of a mutator
-- call have answered. The stores are parameters: what each call answers.
pub mod Laws
pub mod Details
pub mod Carried
pub mod Completion
pub mod Transacted
pub mod Samples
use gitally.Prelude.{
  ℕ, String, Bool, true, false, not, ◌&&◌, Option, none, some, List, [], ◌∷◌, ◌++◌, ltb,
  if◌then◌else◌, str_eq,
}
use gitally.Transactions.Transaction.{Transaction}
use gitally.Replication.Types.{
  ChangeType, update_repo, create_repo, delete_repo, rename_repo, garbage_collect, repack_full,
  repack_incremental, cleanup, pack_refs, write_commit_graph, midx_repack, optimize_repository,
  Value, text, flag, number, Params, ReplicationJob,
}
use gitally.Coordinator.{RepositoryMutatorRoute, Verdict, get_updated_and_outdated_secondaries}

-- The messages that `getReplicationDetails` looks into.
pub data Message : Type 0 where
  rename_repository_request : String → Message
  garbage_collect_request : Bool → Bool → Message
  repack_full_request : Bool → Message
  repack_incremental_request cleanup_request midx_repack_request : Message
  write_commit_graph_request : ℕ → Message
  optimize_repository_request : Message
  pack_refs_request : Bool → Message
  other_message : Message

-- `none` is the error of a message whose type does not fit the method.
abbrev Details : Type 0
Details = Option (ChangeType × Params)

rename_details : Message → Details
rename_details (rename_repository_request p) = some (rename_repo, ("RelativePath", text p) ∷ [])
rename_details _ = none

garbage_collect_details : Message → Details
garbage_collect_details (garbage_collect_request b p) =
    some (garbage_collect, ("CreateBitmap", flag b) ∷ ("Prune", flag p) ∷ [])
garbage_collect_details _ = none

repack_full_details : Message → Details
repack_full_details (repack_full_request b) = some (repack_full, ("CreateBitmap", flag b) ∷ [])
repack_full_details _ = none

repack_incremental_details : Message → Details
repack_incremental_details repack_incremental_request = some (repack_incremental, [])
repack_incremental_details _ = none

cleanup_details : Message → Details
cleanup_details cleanup_request = some (cleanup, [])
cleanup_details _ = none

write_commit_graph_details : Message → Details
write_commit_graph_details (write_commit_graph_request s) =
    some (write_commit_graph, ("SplitStrategy", number s) ∷ [])
write_commit_graph_details _ = none

midx_repack_details : Message → Details
midx_repack_details midx_repack_request = some (midx_repack, [])
midx_repack_details _ = none

optimize_repository_details : Message → Details
optimize_repository_details optimize_repository_request = some (optimize_repository, [])
optimize_repository_details _ = none

pack_refs_details : Message → Details
pack_refs_details (pack_refs_request a) = some (pack_refs, ("AllRefs", flag a) ∷ [])
pack_refs_details _ = none

one_of : String → List String → Bool
one_of s [] = false
one_of s (x ∷ xs) = if str_eq s x then true else one_of s xs

pub get_replication_details : String → Message → Details
get_replication_details method m =
    if str_eq method "/gitaly.RepositoryService/RemoveRepository"
    then some (delete_repo, [])
    else if one_of method (
        "/gitaly.RepositoryService/CreateFork" ∷ "/gitaly.RepositoryService/CreateRepository"
        ∷ "/gitaly.RepositoryService/CreateRepositoryFromBundle"
        ∷ "/gitaly.RepositoryService/CreateRepositoryFromSnapshot"
        ∷ "/gitaly.RepositoryService/CreateRepositoryFromURL"
        ∷ "/gitaly.RepositoryService/ReplicateRepository" ∷ [])
    then some (create_repo, [])
    else if str_eq method "/gitaly.RepositoryService/RenameRepository"
    then rename_details m
    else if str_eq method "/gitaly.RepositoryService/GarbageCollect"
    then garbage_collect_details m
    else if str_eq method "/gitaly.RepositoryService/RepackFull"
    then repack_full_details m
    else if str_eq method "/gitaly.RepositoryService/RepackIncremental"
    then repack_incremental_details m
    else if str_eq method "/gitaly.RepositoryService/Cleanup"
    then cleanup_details m
    else if str_eq method "/gitaly.RepositoryService/WriteCommitGraph"
    then write_commit_graph_details m
    else if str_eq method "/gitaly.RepositoryService/MidxRepack"
    then midx_repack_details m
    else if str_eq method "/gitaly.RepositoryService/OptimizeRepository"
    then optimize_repository_details m
    else if str_eq method "/gitaly.RefService/PackRefs"
    then pack_refs_details m
    else some (update_repo, [])

pub data StoreCall : Type 0 where
  -- The virtual storage, the relative path, the primary, the secondaries that are up to date.
  increment_generation : String → String → String → List String → StoreCall
  -- The virtual storage, the relative path, the primary, the new relative path.
  rename_repository : String → String → String → String → StoreCall
  -- The virtual storage, the relative path, the storages.
  delete_repository : String → String → List String → StoreCall
  -- The repository, the virtual storage, the relative path, the primary, the updated and the outdated
  -- secondaries, and whether the primary and the assignments are stored.
  create_repository :
      ℕ → String → String → String → List String → List String → Bool → Bool → StoreCall

pub data StoreError : Type 0 where
  repository_not_exists no_rows_affected repository_exists : StoreError
  other_error : ℕ → StoreError

pub data FinalizerError : Type 0 where
  store_failed : StoreError → FinalizerError
  enqueue_failed : ℕ → FinalizerError

pub record Outcome : Type 0 where
  pub calls : List StoreCall
  pub enqueued : List ReplicationJob
  pub result : Option FinalizerError

-- `DefaultReplicationFactors()[virtualStorage]` is a number; one below 0 is 0 here, as only `> 0` is
-- asked.
pub record Config : Type 0 where
  pub election_per_repository : Bool
  pub default_replication_factor : String → ℕ

unfoldable pub get_param : String → Params → Option Value
get_param k [] = none
get_param k ((k', v) ∷ ps) = if str_eq k' k then some v else get_param k ps

-- The assertion `params["RelativePath"].(string)`, `none` where it panics.
pub as_text : Option Value → Option String
as_text none = none
as_text (some (text s)) = some s
as_text (some (flag b)) = none
as_text (some (number n)) = none

-- The store's error that each kind of change passes over.
pub is_tolerated : ChangeType → StoreError → Bool
is_tolerated rename_repo repository_not_exists = true
is_tolerated delete_repo no_rows_affected = true
is_tolerated create_repo repository_exists = true
is_tolerated _ _ = false

-- The change that the jobs are for.
job_change : ChangeType → ChangeType
job_change create_repo = update_repo
job_change change = change

-- The jobs' common part, and what the stores answer.
pub record Request : Type 0 where
  pub repository_id : ℕ
  pub virtual_storage : String
  pub relative_path : String
  pub primary : String

module _ (conf : Config) (store : StoreCall → Option StoreError)
    (queue : ReplicationJob → Option ℕ) where
  -- `none` where the code panics; no call for a change that the switch does not name.
  pub store_call :
      Request → List String → List String → ChangeType → Params → Option (Option StoreCall)
  unfolding get_param as_text
  store_call r updated outdated update_repo params =
      some (some (increment_generation r.virtual_storage r.relative_path r.primary updated))
  store_call r updated outdated rename_repo params =
      elim (as_text (get_param "RelativePath" params)) [
        | none ↦ none
        | some p ↦ some (some (rename_repository r.virtual_storage r.relative_path r.primary p))
      ]
  store_call r updated outdated delete_repo params =
      some (some (delete_repository r.virtual_storage r.relative_path (updated ++ r.primary ∷ [])))
  store_call r updated outdated create_repo params = some (
      some (
        create_repository r.repository_id r.virtual_storage r.relative_path r.primary updated
          outdated conf.election_per_repository
          (conf.election_per_repository
            && ltb 0 (conf.default_replication_factor r.virtual_storage))))
  store_call r updated outdated _ params = some none

  job_for : Request → ChangeType → Params → String → ReplicationJob
  job_for r change params secondary = record {
    repository_id = r.repository_id;
    change = change;
    relative_path = r.relative_path;
    target_node_storage = secondary;
    source_node_storage = r.primary;
    virtual_storage = r.virtual_storage;
    params = params;
  }

  -- The group of goroutines, in the order in which they run: all of them run, and `Wait` returns the
  -- first error.
  first_error : Option ℕ → Option FinalizerError → Option FinalizerError
  first_error (some e) rest = some (enqueue_failed e)
  first_error none rest = rest

  enqueue_jobs : List ReplicationJob → Option FinalizerError
  unfolding first_error
  enqueue_jobs [] = none
  enqueue_jobs (j ∷ js) = first_error (queue j) (enqueue_jobs js)

  jobs_for : Request → ChangeType → Params → List String → List ReplicationJob
  unfolding job_for
  jobs_for r change params [] = []
  jobs_for r change params (n ∷ ns) = job_for r change params n ∷ jobs_for r change params ns

  enqueue_outdated : Request → List StoreCall → ChangeType → Params → List String → Outcome
  unfolding jobs_for enqueue_jobs job_change
  enqueue_outdated r calls change params outdated = record {
    calls = calls;
    enqueued = jobs_for r (job_change change) params outdated;
    result = enqueue_jobs (jobs_for r (job_change change) params outdated);
  }

  -- After the store's answer.
  answered : Request → StoreCall → List String → ChangeType → Params → Option StoreError → Outcome
  unfolding enqueue_outdated is_tolerated
  answered r call outdated change params none =
      enqueue_outdated r (call ∷ []) change params outdated
  answered r call outdated change params (some e) =
      if is_tolerated change e
      then enqueue_outdated r (call ∷ []) change params outdated
      else record { calls = call ∷ []; enqueued = []; result = some (store_failed e) }

  called : Request → List String → ChangeType → Params → Option (Option StoreCall) → Option Outcome
  unfolding answered enqueue_outdated
  called r outdated change params none = none
  called r outdated change params (some none) = some (enqueue_outdated r [] change params outdated)
  called r outdated change params (some (some call)) =
      some (answered r call outdated change params (store call))

  -- The function that `newRequestFinalizer` returns; `none` where it panics. Logging, the timeout and
  -- the correlation id are left out.
  pub new_request_finalizer :
      Request → List String → List String → ChangeType → Params → Option Outcome
  unfolding called store_call
  new_request_finalizer r updated outdated change params =
      called r outdated change params (store_call r updated outdated change params)

  finalize_verdict : Request → ChangeType → Params → Verdict → Option Outcome
  unfolding new_request_finalizer
  finalize_verdict r change params v =
      if not v.primary_dirtied
      then some (record { calls = []; enqueued = []; result = none })
      else new_request_finalizer r v.updated v.outdated change params

  -- The function that `createTransactionFinalizer` returns.
  pub create_transaction_finalizer :
      RepositoryMutatorRoute
      → Transaction
      → List (String × ℕ)
      → String
      → String
      → ChangeType
      → Params
      → Option Outcome
  unfolding finalize_verdict
  create_transaction_finalizer route t errors virtual_storage relative_path change params =
      finalize_verdict
        (record {
          repository_id = route.repository_id;
          virtual_storage = virtual_storage;
          relative_path = relative_path;
          primary = route.primary.storage;
        })
        change params (get_updated_and_outdated_secondaries route t errors)
