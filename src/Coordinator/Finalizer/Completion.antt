-- ===== src/Coordinator/Finalizer/Completion.antt =====
-- From the votes of the nodes to the replication jobs.
use gitally.Prelude.{
  ℕ, ◌≡◌, ◌≢◌, refl, String, true, not, Option, none, some, List, ◌++◌, arith, sym, ◌∙◌, Bool-cases,
  inl, inr, subst,
}
use gitally.Transactions.Transaction.{Transaction}
use gitally.Replication.Types.{ChangeType, rename_repo, Params, ReplicationJob}
use gitally.Coordinator.{RepositoryMutatorRoute, Verdict, get_updated_and_outdated_secondaries}
use gitally.Coordinator.Outdated.{IsSorted, get_updated_and_outdated_secondaries_lem}
use gitally.Coordinator.Finalizer.{
  Message, get_replication_details, StoreCall, StoreError, Outcome, Config, Request, store_call,
  called, new_request_finalizer, finalize_verdict, create_transaction_finalizer,
}
use gitally.Coordinator.Finalizer.Laws.{Replicates, IsFaithful, new_request_finalizer_lem}
use gitally.Coordinator.Finalizer.Details.{Fits, AllFit, get_replication_details-AllFit}

abbrev pub request_of : RepositoryMutatorRoute → String → String → Request
request_of route virtual_storage relative_path = record {
  repository_id = route.repository_id;
  virtual_storage = virtual_storage;
  relative_path = relative_path;
  primary = route.primary.storage;
}

module _ (conf : Config) (store : StoreCall → Option StoreError)
    (queue : ReplicationJob → Option ℕ) where
  store_call-Fits :
      (r : Request) (updated outdated : List String) (change : ChangeType) (params : Params)
      → Fits change params
      → store_call conf store queue r updated outdated change params ≢ none
  unfolding store_call
  store_call-Fits r updated outdated rename_repo params (p, e) =
      rw (e, store_call) (λ h. ground arith)
  store_call-Fits r updated outdated _ params f = λ h. ground arith

  called-panic :
      (r : Request) (outdated : List String) (change : ChangeType) (params : Params)
      (c : Option (Option StoreCall))
      → c ≢ none
      → called conf store queue r outdated change params c ≢ none
  unfolding called
  called-panic r outdated change params none h = absurd (h refl)
  called-panic r outdated change params (some none) h = λ e. ground arith
  called-panic r outdated change params (some (some c)) h = λ e. ground arith

  -- With the details that `getReplicationDetails` has found, the finalizer of a transaction does not
  -- panic, whatever the method, the message and the votes were.
  pub finalizer_no_panic :
      (method : String) (m : Message) (change : ChangeType) (params : Params)
      (route : RepositoryMutatorRoute) (t : Transaction) (errors : List (String × ℕ))
      (virtual_storage relative_path : String)
      → get_replication_details method m ≡ some (change, params)
      → create_transaction_finalizer conf store queue route t errors virtual_storage relative_path
          change params
        ≢ none
  unfolding create_transaction_finalizer finalize_verdict new_request_finalizer
  finalizer_no_panic method m change params route t errors virtual_storage relative_path h =
      let fits : Fits change params = subst AllFit h (get_replication_details-AllFit method m) in
      elim (Bool-cases
        (not (get_updated_and_outdated_secondaries route t errors).primary_dirtied)) [
          | inl b ↦ rw b (λ e. ground arith)
          | inr b ↦
              rw b (called-panic _ _ change params _ (store_call-Fits _ _ _ change params fits))
        ]

  finalize_verdict-dirtied :
      (r : Request) (change : ChangeType) (params : Params) (v : Verdict)
      → v.primary_dirtied ≡ true
      → finalize_verdict conf store queue r change params v
        ≡ new_request_finalizer conf store queue r v.updated v.outdated change params
  unfolding finalize_verdict
  finalize_verdict-dirtied r change params v d = rw d refl

  -- When the finalizer of a transaction that dirtied the primary returns no error, then it has
  -- divided the secondaries into updated ones, exactly those that have committed together with the
  -- primary and with its error, and others; and the queue has accepted one job from the primary for
  -- every replication target and for every secondary that is not updated, and no other job.
  pub stale_are_replicated :
      (route : RepositoryMutatorRoute) (t : Transaction) (errors : List (String × ℕ))
      (virtual_storage relative_path : String) (change : ChangeType) (params : Params) (o : Outcome)
      → create_transaction_finalizer conf store queue route t errors virtual_storage relative_path
          change params
        ≡ some o
      → o.result ≡ none
      → (get_updated_and_outdated_secondaries route t errors).primary_dirtied ≡ true
      → (s : IsSorted route t errors (get_updated_and_outdated_secondaries route t errors))
        × Replicates conf store queue
            (request_of route virtual_storage relative_path)
            (route.replication_targets ++ s.rest)
            o
  unfolding create_transaction_finalizer
  stale_are_replicated route t errors virtual_storage relative_path change params o h e d =
      let v = get_updated_and_outdated_secondaries route t errors in
      let r = request_of route virtual_storage relative_path in
      let s = get_updated_and_outdated_secondaries_lem route t errors d in
      let finalized = sym (finalize_verdict-dirtied r change params v d) ∙ h in
      let (wanted, asked, faithful) =
        new_request_finalizer_lem conf store queue r v.updated v.outdated change params o
          finalized in
      (
        s,
        subst (λ ns. Replicates conf store queue r ns o) s.targets
            (subst (IsFaithful conf store queue r v.outdated change wanted o) e faithful).0,
      )
