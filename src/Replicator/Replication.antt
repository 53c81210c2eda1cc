-- ===== src/Replicator/Replication.antt =====
-- What has happened when `Replicate` returns without an error.
use gitally.Prelude.{ℕ, ◌≡◌, refl, sym, ap, subst, Option, none, some, List, [], ◌∷◌}
use gitally.Replication.Types.{ReplicationEvent}
use gitally.Replicator.{
  Repository, ObjectPool, Generation, unknown, generation, source, target, replicate_repository,
  link_repository_to_object_pool, Call, rpc, get_object_pool, get_replicated_generation,
  delete_invalid_repository, set_generation, CallError, downgrade_attempted,
  invalid_source_repository, no_rows_affected, repository_not_exists, other_error, Reply, replies,
  errs, Outside, JobError, call_failed, delete_invalid_failed, Ended, done, failed_with, crashes,
  Session, continue, or_fail, target_of, source_of, link_clone, link_pool, write_generation,
  read_pool, finish_replication, delete_invalid, after_copy, copy, with_generation, replicate,
}

continue_then {ℓ κ μ} :
    {A : Type ℓ} {B : Type κ} {C : Type μ} (r : List Call × Ended A) (f : A → Session B)
    (h : List Call) (b : B)
    → continue r f ≡ (h, done b)
    → ((h' : List Call) (a : A) → r ≡ (h', done a) → f a h' ≡ (h, done b) → C)
    → C
continue_then (h', done a) f h b q k = k h' a refl q
continue_then (h', failed_with x) f h b q k = absurd cc
continue_then (h', crashes) f h b q k = absurd cc

or_fail_inv :
    (f : CallError → JobError) (x : Option CallError) (h h' : List Call) (u : Unit {0})
    → or_fail f x h ≡ (h', done u)
    → (x ≡ none) × (h' ≡ h)
or_fail_inv f none h h' u q = (refl, ap (λ r. r.0) (sym q))
or_fail_inv f (some x) h h' u q = absurd cc

module _ (w : Outside) (e : ReplicationEvent) where
  abbrev pub asked : Call
  asked =
      get_replicated_generation e.job.virtual_storage e.job.relative_path e.job.source_node_storage
        e.job.target_node_storage

  abbrev pub sent : Call
  sent = rpc target (replicate_repository (source_of e) (target_of e))

  abbrev pub dropped : Call
  dropped =
      delete_invalid_repository e.job.virtual_storage e.job.relative_path e.job.source_node_storage

  abbrev pub pool_asked : Call
  pool_asked = get_object_pool source (source_of e)

  -- If there is a pool, the pool at its path on the target's storage is linked to the target.
  abbrev pub Linked : List Call → Option ObjectPool → List Call → Type 0
  Linked h none h' = h' ≡ h
  Linked h (some p) h' =
      (r : Repository) × (there : Repository) × (clone : ObjectPool) × (p.repository ≡ some r)
      × (there.storage_name ≡ e.job.target_node_storage)
      × (there.relative_path ≡ r.relative_path)
      × (clone.repository ≡ some there)
      × (h' ≡ rpc target (link_repository_to_object_pool clone (target_of e)) ∷ h)
      × (w.error_of h' ≡ none)

  -- The generation of the target is set, if it is known.
  abbrev pub Recorded : List Call → Generation → List Call → Type 0
  Recorded h unknown h' = h' ≡ h
  Recorded h (generation g) h' =
      (h'
        ≡ set_generation e.job.virtual_storage e.job.relative_path e.job.target_node_storage g ∷ h)
      × (w.error_of h' ≡ none)

  link_clone_inv :
      (r : Option Repository) (h h' : List Call) (u : Unit {0})
      → link_clone w e r h ≡ (h', done u)
      → Linked h (some (record { repository = r })) h'
  unfolding link_clone
  link_clone_inv none h h' u q = absurd cc
  link_clone_inv (some r) h h' u q =
      let there : Repository = record {
        storage_name = e.job.target_node_storage;
        relative_path = r.relative_path;
      } in
      let clone : ObjectPool = record { repository = some there } in
      let made = rpc target (link_repository_to_object_pool clone (target_of e)) ∷ h in
      let (ok, same) = or_fail_inv call_failed (w.error_of made) made h' u q in
      (r, there, clone, refl, refl, refl, refl, same, rw same ok)

  link_pool_inv :
      (p : Option ObjectPool) (h h' : List Call) (u : Unit {0})
      → link_pool w e p h ≡ (h', done u)
      → Linked h p h'
  unfolding link_pool
  link_pool_inv none h h' u q = ap (λ r. r.0) (sym q)
  link_pool_inv (some p) h h' u q = link_clone_inv p.repository h h' u q

  write_generation_inv :
      (g : Generation) (h h' : List Call) (u : Unit {0})
      → write_generation w e g h ≡ (h', done u)
      → Recorded h g h'
  unfolding write_generation
  write_generation_inv unknown h h' u q = ap (λ r. r.0) (sym q)
  write_generation_inv (generation g) h h' u q =
      let made =
        set_generation e.job.virtual_storage e.job.relative_path e.job.target_node_storage g ∷ h in
      let (ok, same) = or_fail_inv call_failed (w.error_of made) made h' u q in (same, rw same ok)

  read_pool_inv :
      (h h' : List Call) (p : Option ObjectPool)
      → read_pool w e h ≡ (h', done p)
      → (h' ≡ pool_asked ∷ h) × (w.object_pool_of (pool_asked ∷ h) ≡ replies p)
  unfolding read_pool
  read_pool_inv h h' p q = answered (w.object_pool_of (pool_asked ∷ h)) refl q
    where
      answered :
          (r : Reply (Option ObjectPool))
          → w.object_pool_of (pool_asked ∷ h) ≡ r
          → elim r as (λ x. List Call × Ended (Option ObjectPool)) [
            | replies p ↦ (pool_asked ∷ h, done p)
            | errs x ↦ (pool_asked ∷ h, failed_with (call_failed x))
          ]
            ≡ (h', done p)
          → (h' ≡ pool_asked ∷ h) × (w.object_pool_of (pool_asked ∷ h) ≡ replies p)
      answered (replies p') r q' = (ap (λ x. x.0) (sym q'), cc)
      answered (errs x) r q' = absurd cc

  -- The calls of a replication that returns no error, the last one first.
  pub data Replicated : List Call → Type 0 where
    -- The target has this generation or a later one.
    up_to_date :
        (current attempted : ℕ)
        → w.generation_of (asked ∷ []) ≡ errs (downgrade_attempted current attempted)
        → Replicated (asked ∷ [])
    -- The source is not a repository, and its record is gone.
    source_dropped :
        w.error_of (sent ∷ asked ∷ []) ≡ some invalid_source_repository
        → w.error_of (dropped ∷ sent ∷ asked ∷ []) ≡ none
        → Replicated (dropped ∷ sent ∷ asked ∷ [])
    copied :
        (g : Generation) (pool : Option ObjectPool) (h h' : List Call)
        → w.generation_of (asked ∷ []) ≡ replies g
        → w.error_of (sent ∷ asked ∷ []) ≡ none
        → w.object_pool_of (pool_asked ∷ sent ∷ asked ∷ []) ≡ replies pool
        → Linked (pool_asked ∷ sent ∷ asked ∷ []) pool h
        → Recorded h g h'
        → Replicated h'

  after_copy-Replicated :
      (g : Generation) (x : Option CallError) (h : List Call) (u : Unit {0})
      → w.generation_of (asked ∷ []) ≡ replies g
      → w.error_of (sent ∷ asked ∷ []) ≡ x
      → after_copy w e g x (sent ∷ asked ∷ []) ≡ (h, done u)
      → Replicated h
  unfolding after_copy finish_replication delete_invalid
  after_copy-Replicated g none h u a s q =
      let before = sent ∷ asked ∷ [] in
      continue_then (read_pool w e before) _ h u q λ h1 pool q1 q2.
        continue_then (link_pool w e pool h1) _ h u q2 λ h2 v q3 q4.
          let (same, p) = read_pool_inv before h1 pool q1 in
          Replicated.copied g pool h2 h a s p
            (subst (λ x. Linked x pool h2) same (link_pool_inv pool h1 h2 v q3))
            (write_generation_inv g h2 h u q4)
  after_copy-Replicated g (some invalid_source_repository) h u a s q =
      let made = dropped ∷ sent ∷ asked ∷ [] in
      let (ok, same) = or_fail_inv delete_invalid_failed (w.error_of made) made h u q in
      subst Replicated (sym same) (Replicated.source_dropped s ok)
  after_copy-Replicated g (some (downgrade_attempted c d)) h u a s q = absurd cc
  after_copy-Replicated g (some no_rows_affected) h u a s q = absurd cc
  after_copy-Replicated g (some repository_not_exists) h u a s q = absurd cc
  after_copy-Replicated g (some (other_error n)) h u a s q = absurd cc

  with_generation-Replicated :
      (r : Reply Generation) (h : List Call) (u : Unit {0})
      → w.generation_of (asked ∷ []) ≡ r
      → with_generation w e r (asked ∷ []) ≡ (h, done u)
      → Replicated h
  unfolding with_generation copy
  with_generation-Replicated (replies g) h u a q =
      after_copy-Replicated g (w.error_of (sent ∷ asked ∷ [])) h u a refl q
  with_generation-Replicated (errs (downgrade_attempted c d)) h u a q =
      subst Replicated (ap (λ r. r.0) q) (Replicated.up_to_date c d a)
  with_generation-Replicated (errs invalid_source_repository) h u a q = absurd cc
  with_generation-Replicated (errs no_rows_affected) h u a q = absurd cc
  with_generation-Replicated (errs repository_not_exists) h u a q = absurd cc
  with_generation-Replicated (errs (other_error n)) h u a q = absurd cc

-- When `Replicate` returns no error: the target has the generation or a later one and nothing was
-- done; or the source is not a repository and its record was deleted; or the target was written, then
-- linked, if the source has a pool, to the pool at the same path on the target's storage, and its
-- generation was then set if the source's is known.
pub replicate-Replicated :
    (w : Outside) (e : ReplicationEvent) (h : List Call)
    → replicate w e [] ≡ (h, done tt)
    → Replicated w e h
unfolding replicate
replicate-Replicated w e h q =
    with_generation-Replicated w e (w.generation_of (asked w e ∷ [])) h tt refl q
