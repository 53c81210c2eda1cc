-- ===== src/Replicator/Aims.antt =====
-- Which nodes and records the replicator touches for an event.
use gitally.Prelude.{◌≡◌, refl, String, Option, none, some, List, [], ◌∷◌}
use gitally.Replication.Types.{
  ChangeType, update_repo, create_repo, delete_repo, delete_replica, rename_repo,
  garbage_collect as gc, repack_full as rf, repack_incremental as ri, cleanup as cl,
  pack_refs as pr, write_commit_graph as wg, midx_repack as mr, optimize_repository as optimize,
  Value, text, flag, number, ReplicationEvent,
}
use gitally.Coordinator.Finalizer.{get_param}
use gitally.Replicator.{
  Repository, ObjectPool, Generation, unknown, generation, source, target, Request,
  replicate_repository, link_repository_to_object_pool, remove_repository, rename_repository,
  garbage_collect, repack_full, pack_refs, repack_incremental, cleanup, midx_repack,
  optimize_repository, write_commit_graph, Call, rpc, get_object_pool, get_replicated_generation,
  delete_invalid_repository, set_generation, delete_repository, delete_replica_record,
  rename_record, CallError, downgrade_attempted, invalid_source_repository, no_rows_affected,
  repository_not_exists, other_error, Reply, replies, errs, Outside, JobError, call_failed,
  delete_invalid_failed, Ended, done, failed_with, crashes, Session, continue, or_fail, make,
  target_of, source_of, link_clone, link_pool, write_generation, read_pool, finish_replication,
  delete_invalid, after_copy, copy, with_generation, replicate, pass_no_rows, pass_not_exists,
  delete_record, destroy, get_text, rename, bool_of, get_bool, collect_garbage, pack_all_refs,
  get_strategy, write_graph, repack_all, send_target,
}

-- The repository that a request changes.
abbrev pub changed : Request → Repository
changed (replicate_repository s t) = t
changed (link_repository_to_object_pool p t) = t
changed (remove_repository t) = t
changed (rename_repository t p) = t
changed (garbage_collect t b p) = t
changed (repack_full t b) = t
changed (pack_refs t a) = t
changed (repack_incremental t) = t
changed (cleanup t) = t
changed (midx_repack t) = t
changed (optimize_repository t) = t
changed (write_commit_graph t s) = t

-- A request changes the target's repository, and one to copy copies the source's.
abbrev pub IsRequest : ReplicationEvent → Request → Type 0
IsRequest e (replicate_repository s t) = (s ≡ source_of e) × (t ≡ target_of e)
IsRequest e request = changed request ≡ target_of e

-- A record of the store: the virtual storage, the relative path and the storage.
abbrev pub IsRecord : ReplicationEvent → String → String → String → String → Type 0
IsRecord e storage vs path s =
    (vs ≡ e.job.virtual_storage) × (path ≡ e.job.relative_path) × (s ≡ storage)

-- The target has been asked last for a copy of the source, and has answered that the source is not a
-- repository.
abbrev pub FoundInvalid : Outside → ReplicationEvent → List Call → Type 0
FoundInvalid w e [] = ⊥
FoundInvalid w e (c ∷ h) =
    (c ≡ rpc target (replicate_repository (source_of e) (target_of e)))
    × (w.error_of (c ∷ h) ≡ some invalid_source_repository)

-- After the calls so far, a call changes the target and its record, and reads the source; the record
-- of the source goes only when the source has just turned out to be invalid.
abbrev pub IsAimed : Outside → ReplicationEvent → List Call → Call → Type 0
IsAimed w e h (rpc target request) = IsRequest e request
IsAimed w e h (rpc source request) = ⊥
IsAimed w e h (get_object_pool p r) = (p ≡ source) × (r ≡ source_of e)
IsAimed w e h (get_replicated_generation vs path s t) =
    IsRecord e e.job.source_node_storage vs path s × (t ≡ e.job.target_node_storage)
IsAimed w e h (delete_invalid_repository vs path s) =
    IsRecord e e.job.source_node_storage vs path s × FoundInvalid w e h
IsAimed w e h (set_generation vs path s g) = IsRecord e e.job.target_node_storage vs path s
IsAimed w e h (delete_repository vs path ss) =
    (vs ≡ e.job.virtual_storage)
    × (path ≡ e.job.relative_path)
    × (ss ≡ e.job.target_node_storage ∷ [])
IsAimed w e h (delete_replica_record vs path s) = IsRecord e e.job.target_node_storage vs path s
IsAimed w e h (rename_record vs path s new) = IsRecord e e.job.target_node_storage vs path s

-- Each call is aimed, after the calls before it.
abbrev pub AreAimed : Outside → ReplicationEvent → List Call → Type 0
AreAimed w e [] = Unit
AreAimed w e (c ∷ h) = IsAimed w e h c × AreAimed w e h

module _ (e : ReplicationEvent) (w : Outside) where
  -- A session that adds calls of this kind only.
  abbrev pub Aims {ℓ} : {A : Type ℓ} → Session A → Type 0
  Aims s = (h : List Call) → AreAimed w e h → AreAimed w e (s h).0

  pub continue-IsAimed {ℓ κ} :
      {A : Type ℓ} {B : Type κ} (r : List Call × Ended A) (f : A → Session B)
      → AreAimed w e r.0
      → ((a : A) → Aims (f a))
      → AreAimed w e (continue r f).0
  continue-IsAimed (h, done a) f k g = g a h k
  continue-IsAimed (h, failed_with x) f k g = k
  continue-IsAimed (h, crashes) f k g = k

  or_fail-Aims : (f : CallError → JobError) (x : Option CallError) → Aims (or_fail f x)
  or_fail-Aims f none h k = k
  or_fail-Aims f (some x) h k = k

  make-Aims : (c : Call) → ((h : List Call) → IsAimed w e h c) → Aims (make w c)
  make-Aims c a h k = or_fail-Aims call_failed (w.error_of (c ∷ h)) (c ∷ h) (a h, k)

  link_clone-Aims : (r : Option Repository) → Aims (link_clone w e r)
  unfolding link_clone
  link_clone-Aims none h k = k
  link_clone-Aims (some r) h k =
      make-Aims (rpc target (link_repository_to_object_pool _ (target_of e))) (λ _. refl) h k

  link_pool-Aims : (p : Option ObjectPool) → Aims (link_pool w e p)
  unfolding link_pool
  link_pool-Aims none h k = k
  link_pool-Aims (some p) h k = link_clone-Aims p.repository h k

  write_generation-Aims : (g : Generation) → Aims (write_generation w e g)
  unfolding write_generation
  write_generation-Aims unknown h k = k
  write_generation-Aims (generation g) h k =
      make-Aims
        (set_generation e.job.virtual_storage e.job.relative_path e.job.target_node_storage g)
        (λ _. (refl, refl, refl)) h k

  elim-Reply :
      (r : Reply (Option ObjectPool)) (h : List Call)
      → AreAimed w e h
      → AreAimed w e
          (elim r as (λ x. List Call × Ended (Option ObjectPool)) [
            | replies p ↦ (h, done p)
            | errs x ↦ (h, failed_with (call_failed x))
          ]).0
  elim-Reply (replies p) h k = k
  elim-Reply (errs x) h k = k

  read_pool-Aims : Aims (read_pool w e)
  unfolding read_pool
  read_pool-Aims h k =
      let h' = get_object_pool source (source_of e) ∷ h in
      elim-Reply (w.object_pool_of h') h' ((refl, refl), k)

  finish_replication-Aims : (g : Generation) → Aims (finish_replication w e g)
  unfolding finish_replication
  finish_replication-Aims g h k =
      continue-IsAimed (read_pool w e h) _ (read_pool-Aims h k) (λ pool h' k'.
        continue-IsAimed (link_pool w e pool h') _ (link_pool-Aims pool h' k')
          (λ u h'' k''. write_generation-Aims g h'' k''))

  after_copy-Aims :
      (g : Generation) (x : Option CallError) (h : List Call)
      → AreAimed w e h
      → (x ≡ some invalid_source_repository → FoundInvalid w e h)
      → AreAimed w e (after_copy w e g x h).0
  unfolding after_copy delete_invalid
  after_copy-Aims g none h k i = finish_replication-Aims g h k
  after_copy-Aims g (some invalid_source_repository) h k i =
      let c =
        delete_invalid_repository e.job.virtual_storage e.job.relative_path
          e.job.source_node_storage in
      or_fail-Aims delete_invalid_failed (w.error_of (c ∷ h)) (c ∷ h)
        (((refl, refl, refl), i refl), k)
  after_copy-Aims g (some (downgrade_attempted c a)) h k i = k
  after_copy-Aims g (some no_rows_affected) h k i = k
  after_copy-Aims g (some repository_not_exists) h k i = k
  after_copy-Aims g (some (other_error n)) h k i = k

  with_generation-Aims : (r : Reply Generation) → Aims (with_generation w e r)
  unfolding with_generation copy
  with_generation-Aims (replies g) h k =
      let h' = rpc target (replicate_repository (source_of e) (target_of e)) ∷ h in
      after_copy-Aims g (w.error_of h') h' ((refl, refl), k) (λ q. (refl, q))
  with_generation-Aims (errs (downgrade_attempted c a)) h k = k
  with_generation-Aims (errs invalid_source_repository) h k = k
  with_generation-Aims (errs no_rows_affected) h k = k
  with_generation-Aims (errs repository_not_exists) h k = k
  with_generation-Aims (errs (other_error n)) h k = k

  pub replicate-Aims : Aims (replicate w e)
  unfolding replicate
  replicate-Aims h k =
      let h' =
        get_replicated_generation e.job.virtual_storage e.job.relative_path
          e.job.source_node_storage e.job.target_node_storage
        ∷ h in
      with_generation-Aims (w.generation_of h') h' (((refl, refl, refl), refl), k)

  pass_no_rows-Aims : (x : Option CallError) → Aims (pass_no_rows x)
  unfolding pass_no_rows
  pass_no_rows-Aims none h k = k
  pass_no_rows-Aims (some no_rows_affected) h k = k
  pass_no_rows-Aims (some (downgrade_attempted c a)) h k = k
  pass_no_rows-Aims (some invalid_source_repository) h k = k
  pass_no_rows-Aims (some repository_not_exists) h k = k
  pass_no_rows-Aims (some (other_error n)) h k = k

  pass_not_exists-Aims : (x : Option CallError) → Aims (pass_not_exists x)
  unfolding pass_not_exists
  pass_not_exists-Aims none h k = k
  pass_not_exists-Aims (some no_rows_affected) h k = k
  pass_not_exists-Aims (some (downgrade_attempted c a)) h k = k
  pass_not_exists-Aims (some invalid_source_repository) h k = k
  pass_not_exists-Aims (some repository_not_exists) h k = k
  pass_not_exists-Aims (some (other_error n)) h k = k

  delete_record-Aims : (c : ChangeType) → Aims (delete_record w e c)
  unfolding delete_record
  delete_record-Aims delete_repo h k =
      let h' =
        delete_repository e.job.virtual_storage e.job.relative_path (e.job.target_node_storage ∷ [])
        ∷ h in
      pass_no_rows-Aims (w.error_of h') h' ((refl, refl, refl), k)
  delete_record-Aims delete_replica h k =
      let h' =
        delete_replica_record e.job.virtual_storage e.job.relative_path e.job.target_node_storage
        ∷ h in
      pass_no_rows-Aims (w.error_of h') h' ((refl, refl, refl), k)
  delete_record-Aims update_repo h k = k
  delete_record-Aims create_repo h k = k
  delete_record-Aims rename_repo h k = k
  delete_record-Aims gc h k = k
  delete_record-Aims rf h k = k
  delete_record-Aims ri h k = k
  delete_record-Aims cl h k = k
  delete_record-Aims pr h k = k
  delete_record-Aims wg h k = k
  delete_record-Aims mr h k = k
  delete_record-Aims optimize h k = k

  pub destroy-Aims : Aims (destroy w e)
  unfolding destroy
  destroy-Aims h k =
      let c = rpc target (remove_repository (target_of e)) in
      continue-IsAimed (make w c h) _ (make-Aims c (λ _. refl) h k)
        (λ u. delete_record-Aims e.job.change)

  get_text-Aims : (p : String) (v : Option Value) → Aims (get_text p v)
  unfolding get_text
  get_text-Aims p none h k = k
  get_text-Aims p (some (text s)) h k = k
  get_text-Aims p (some (flag b)) h k = k
  get_text-Aims p (some (number n)) h k = k

  pub rename-Aims : Aims (rename w e)
  unfolding rename
  rename-Aims h k =
      let v = get_param "RelativePath" e.job.params in
      continue-IsAimed (get_text "RelativePath" v h) _ (get_text-Aims "RelativePath" v h k)
        (λ path h' k'.
          let c = rpc target (rename_repository (target_of e) path) in
          continue-IsAimed (make w c h') _ (make-Aims c (λ _. refl) h' k') (λ u h'' k''.
            let last =
              rename_record e.job.virtual_storage e.job.relative_path e.job.target_node_storage path
              ∷ h'' in
            pass_not_exists-Aims (w.error_of last) last ((refl, refl, refl), k'')))

  bool_of-Aims : (p : String) (v : Option Value) → Aims (bool_of p v)
  unfolding bool_of
  bool_of-Aims p none h k = k
  bool_of-Aims p (some (flag b)) h k = k
  bool_of-Aims p (some (text s)) h k = k
  bool_of-Aims p (some (number n)) h k = k

  get_bool-Aims : (p : String) → Aims (get_bool e.job.params p)
  unfolding get_bool
  get_bool-Aims p h k = bool_of-Aims p (get_param p e.job.params) h k

  pub collect_garbage-Aims : Aims (collect_garbage w e)
  unfolding collect_garbage
  collect_garbage-Aims h k =
      continue-IsAimed (get_bool e.job.params "CreateBitmap" h) _ (get_bool-Aims "CreateBitmap" h k)
        (λ b h' k'.
          continue-IsAimed (get_bool e.job.params "Prune" h') _ (get_bool-Aims "Prune" h' k')
            (λ p. make-Aims (rpc target (garbage_collect (target_of e) b p)) (λ _. refl)))

  pub pack_all_refs-Aims : Aims (pack_all_refs w e)
  unfolding pack_all_refs
  pack_all_refs-Aims h k =
      continue-IsAimed (get_bool e.job.params "AllRefs" h) _ (get_bool-Aims "AllRefs" h k)
        (λ a. make-Aims (rpc target (pack_refs (target_of e) a)) (λ _. refl))

  pub repack_all-Aims : Aims (repack_all w e)
  unfolding repack_all
  repack_all-Aims h k =
      continue-IsAimed (get_bool e.job.params "CreateBitmap" h) _ (get_bool-Aims "CreateBitmap" h k)
        (λ b. make-Aims (rpc target (repack_full (target_of e) b)) (λ _. refl))

  get_strategy-Aims : (v : Option Value) → Aims (get_strategy v)
  unfolding get_strategy
  get_strategy-Aims none h k = k
  get_strategy-Aims (some (number n)) h k = k
  get_strategy-Aims (some (text s)) h k = k
  get_strategy-Aims (some (flag b)) h k = k

  pub write_graph-Aims : Aims (write_graph w e)
  unfolding write_graph
  write_graph-Aims h k =
      let v = get_param "SplitStrategy" e.job.params in
      continue-IsAimed (get_strategy v h) _ (get_strategy-Aims v h k)
        (λ s. make-Aims (rpc target (write_commit_graph (target_of e) s)) (λ _. refl))

  pub send_target-Aims :
      (request : Repository → Request)
      → IsRequest e (request (target_of e))
      → Aims (send_target w e request)
  unfolding send_target
  send_target-Aims request q h k = make-Aims (rpc target (request (target_of e))) (λ _. q) h k
