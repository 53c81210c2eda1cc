-- ===== src/Coordinator/Finalizer/Laws.antt =====
-- What the finalizers of mutator calls leave behind.
use gitally.Prelude.{
  ℕ, ◌≡◌, ◌≢◌, ◌⊎◌, refl, String, true, Option, none, some, List, [], ◌∷◌, arith, All, map, ap, inl,
  inr, Bool-cases, subst,
}
use gitally.Replication.Types.{
  ChangeType, rename_repo, delete_repo, create_repo, Params, ReplicationJob,
}
use gitally.Coordinator.Finalizer.{
  StoreCall, StoreError, repository_not_exists, no_rows_affected, repository_exists, FinalizerError,
  store_failed, enqueue_failed, Outcome, Config, is_tolerated, job_change, Request, store_call,
  job_for, first_error, enqueue_jobs, jobs_for, enqueue_outdated, answered, called,
  new_request_finalizer,
}

-- The errors of the store that say that a change is made already.
pub data Tolerated : ChangeType → StoreError → Type 0 where
  renamed : Tolerated rename_repo repository_not_exists
  deleted : Tolerated delete_repo no_rows_affected
  created : Tolerated create_repo repository_exists

is_tolerated-Tolerated :
    (change : ChangeType) (e : StoreError) → is_tolerated change e ≡ true → Tolerated change e
unfolding is_tolerated
is_tolerated-Tolerated rename_repo repository_not_exists h = Tolerated.renamed
is_tolerated-Tolerated delete_repo no_rows_affected h = Tolerated.deleted
is_tolerated-Tolerated create_repo repository_exists h = Tolerated.created
is_tolerated-Tolerated _ _ h = absurd cc

Tolerated-is_tolerated :
    (change : ChangeType) (e : StoreError) → Tolerated change e → is_tolerated change e ≡ true
unfolding is_tolerated
Tolerated-is_tolerated _ _ renamed = refl
Tolerated-is_tolerated _ _ deleted = refl
Tolerated-is_tolerated _ _ created = refl

module _ (conf : Config) (store : StoreCall → Option StoreError)
    (queue : ReplicationJob → Option ℕ) where
  -- The jobs of an outcome without an error: one for each storage of a list, in order, from the
  -- primary, and each accepted by the queue.
  abbrev pub Replicates : Request → List String → Outcome → Type 0
  Replicates r outdated o =
      (map (λ j. j.target_node_storage) o.enqueued ≡ outdated)
      × All
          (λ j.
            (j.source_node_storage ≡ r.primary)
            × (j.relative_path ≡ r.relative_path)
            × (j.virtual_storage ≡ r.virtual_storage)
            × (queue j ≡ none))
          o.enqueued

  -- The store was asked for just what was wanted, and has answered without an error, or with one
  -- that is tolerated.
  abbrev pub Settled : ChangeType → Option StoreCall → List StoreCall → Type 0
  Settled change none calls = calls ≡ []
  Settled change (some call) calls =
      (calls ≡ call ∷ [])
      × ((store call ≡ none) ⊎ ((e : StoreError) × (store call ≡ some e) × Tolerated change e))

  -- What an outcome says of the calls that it made, when this one of the store was wanted.
  abbrev pub IsFaithful :
      Request
      → List String
      → ChangeType
      → Option StoreCall
      → Outcome
      → Option FinalizerError
      → Type 0
  IsFaithful r outdated change wanted o none =
      Replicates r outdated o × Settled change wanted o.calls
  IsFaithful r outdated change wanted o (some (store_failed e)) =
      (o.enqueued ≡ [])
      × ((call : StoreCall) × (wanted ≡ some call) × (o.calls ≡ call ∷ []) × (store call ≡ some e))
      × ¬ Tolerated change e
  IsFaithful r outdated change wanted o (some (enqueue_failed e)) =
      (map (λ j. j.target_node_storage) o.enqueued ≡ outdated) × Settled change wanted o.calls

  targets-jobs_for :
      (r : Request) (change : ChangeType) (params : Params) (ns : List String)
      → map (λ j. j.target_node_storage) (jobs_for conf store queue r change params ns) ≡ ns
  unfolding jobs_for job_for
  targets-jobs_for r change params [] = refl
  targets-jobs_for r change params (n ∷ ns) =
      ap (λ xs. n ∷ xs) (targets-jobs_for r change params ns)

  enqueue_jobs-cons :
      (j : ReplicationJob) (js : List ReplicationJob)
      → enqueue_jobs conf store queue (j ∷ js) ≡ none
      → (queue j ≡ none) × (enqueue_jobs conf store queue js ≡ none)
  unfolding enqueue_jobs first_error
  enqueue_jobs-cons j js h = ground arith

  enqueue_jobs-accepted :
      (r : Request) (change : ChangeType) (params : Params) (ns : List String)
      → enqueue_jobs conf store queue (jobs_for conf store queue r change params ns) ≡ none
      → All
          (λ j.
            (j.source_node_storage ≡ r.primary)
            × (j.relative_path ≡ r.relative_path)
            × (j.virtual_storage ≡ r.virtual_storage)
            × (queue j ≡ none))
          (jobs_for conf store queue r change params ns)
  unfolding jobs_for job_for
  enqueue_jobs-accepted r change params [] h = tt
  enqueue_jobs-accepted r change params (n ∷ ns) h =
      let (here, there) = enqueue_jobs-cons _ _ h in
      ((refl, refl, refl, here), enqueue_jobs-accepted r change params ns there)

  -- An error of the group comes from the queue.
  enqueue_jobs-error :
      (js : List ReplicationJob) (e : StoreError)
      → enqueue_jobs conf store queue js ≢ some (store_failed e)
  unfolding enqueue_jobs first_error
  enqueue_jobs-error [] e h = ground arith
  enqueue_jobs-error (j ∷ js) e h = ground (arith, enqueue_jobs-error js e)

  enqueued-IsFaithful :
      (r : Request) (calls : List StoreCall) (change : ChangeType) (params : Params)
      (ns : List String) (wanted : Option StoreCall) (res : Option FinalizerError)
      → Settled change wanted calls
      → enqueue_jobs conf store queue (jobs_for conf store queue r (job_change change) params ns)
        ≡ res
      → IsFaithful r ns change wanted
          (enqueue_outdated conf store queue r calls change params ns)
          res
  unfolding enqueue_outdated
  enqueued-IsFaithful r calls change params ns wanted none s h =
      ((targets-jobs_for r _ params ns, enqueue_jobs-accepted r _ params ns h), s)
  enqueued-IsFaithful r calls change params ns wanted (some (enqueue_failed e)) s h =
      (targets-jobs_for r _ params ns, s)
  enqueued-IsFaithful r calls change params ns wanted (some (store_failed e)) s h =
      absurd (enqueue_jobs-error _ e h)

  enqueue_outdated-IsFaithful :
      (r : Request) (calls : List StoreCall) (change : ChangeType) (params : Params)
      (ns : List String) (wanted : Option StoreCall)
      → Settled change wanted calls
      → let o = enqueue_outdated conf store queue r calls change params ns in
        IsFaithful r ns change wanted o o.result
  unfolding enqueue_outdated
  enqueue_outdated-IsFaithful r calls change params ns wanted s =
      enqueued-IsFaithful r calls change params ns wanted _ s refl

  answered-IsFaithful :
      (r : Request) (call : StoreCall) (ns : List String) (change : ChangeType) (params : Params)
      (answer : Option StoreError)
      → store call ≡ answer
      → let o = answered conf store queue r call ns change params answer in
        IsFaithful r ns change (some call) o o.result
  unfolding answered
  answered-IsFaithful r call ns change params none h =
      enqueue_outdated-IsFaithful r (call ∷ []) change params ns (some call) (refl, inl h)
  answered-IsFaithful r call ns change params (some e) h =
      elim (Bool-cases (is_tolerated change e)) [
        | inl b ↦ rw b (
            enqueue_outdated-IsFaithful r (call ∷ []) change params ns (some call)
              (refl, inr (e, h, is_tolerated-Tolerated change e b)))
        | inr b ↦
            rw b
              (refl, (call, refl, refl, h), λ t. let no = Tolerated-is_tolerated change e t in cc)
      ]

  -- The outcome of a call that does not panic is faithful.
  abbrev IsFaithfulRun :
      Request → List String → ChangeType → Option (Option StoreCall) → Option Outcome → Type 0
  IsFaithfulRun r ns change c none = Unit
  IsFaithfulRun r ns change c (some o) =
      (wanted : Option StoreCall) × (c ≡ some wanted) × IsFaithful r ns change wanted o o.result

  called-IsFaithful :
      (r : Request) (ns : List String) (change : ChangeType) (params : Params)
      (c : Option (Option StoreCall))
      → IsFaithfulRun r ns change c (called conf store queue r ns change params c)
  unfolding called
  called-IsFaithful r ns change params none = tt
  called-IsFaithful r ns change params (some none) =
      (none, refl, enqueue_outdated-IsFaithful r [] change params ns none refl)
  called-IsFaithful r ns change params (some (some call)) =
      (some call, refl, answered-IsFaithful r call ns change params (store call) refl)

  -- What `newRequestFinalizer` leaves, when it does not panic. Without an error: the store was asked
  -- for the call of the change, if it has one, and answered without an error, or with the one that
  -- says that the change is made already; and there is one job for each outdated secondary, from the
  -- primary, that the queue has accepted. Any other error of the store is returned, and then no job
  -- is enqueued. With an error of the queue every job was tried all the same.
  pub new_request_finalizer_lem :
      (r : Request) (updated outdated : List String) (change : ChangeType) (params : Params)
      (o : Outcome)
      → new_request_finalizer conf store queue r updated outdated change params ≡ some o
      → (wanted : Option StoreCall) × (store_call conf store queue r updated outdated change params
          ≡ some wanted)
        × IsFaithful r outdated change wanted o o.result
  unfolding new_request_finalizer
  new_request_finalizer_lem r updated outdated change params o h =
      let c = store_call conf store queue r updated outdated change params in
      subst (IsFaithfulRun r outdated change c) h (called-IsFaithful r outdated change params c)
