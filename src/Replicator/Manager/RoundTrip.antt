-- ===== src/Replicator/Manager/RoundTrip.antt =====
-- A message that the coordinator turns into a replication job, and the replicator into a request.
use gitally.Prelude.{
  ℕ, ◌≡◌, refl, sym, subst, String, Bool, true, false, Option, none, some, List, [], ◌∷◌, ◌++◌,
  arith,
}
use gitally.Replication.Types.{
  ChangeType, update_repo, create_repo, delete_repo, delete_replica, rename_repo, garbage_collect,
  repack_full, repack_incremental, cleanup, pack_refs, write_commit_graph, midx_repack,
  optimize_repository, text, flag, number, ReplicationEvent,
}
use gitally.Coordinator.Finalizer.{
  Message, rename_repository_request, garbage_collect_request, repack_full_request,
  repack_incremental_request, cleanup_request, midx_repack_request, write_commit_graph_request,
  optimize_repository_request, pack_refs_request, other_message, get_replication_details, get_param,
}
use gitally.Coordinator.Finalizer.Carried.{Carries, AllCarry, get_replication_details-AllCarry}
use gitally.Replicator
use gitally.Replicator.{
  Repository, Request, Call, CallError, repository_not_exists, rename_record, rpc, target, Outside,
  Session, Ended, JobError, call_failed, done, failed_with, crashes, continue, ◌>>=◌, attempt,
  or_fail, make, give, refuse, target_of, rename, get_text, pass_not_exists, bool_of, get_bool,
  collect_garbage, pack_all_refs, get_strategy, write_graph, repack_all, send_target,
}
use gitally.Replicator.Manager.{Nodes, dispatch, process_replication_event}

-- The request that asks a node for what the message asked the primary for.
abbrev pub replayed : Message → Repository → Option Request
replayed (rename_repository_request p) t = some (Replicator.rename_repository t p)
replayed (garbage_collect_request b p) t = some (Replicator.garbage_collect t b p)
replayed (repack_full_request b) t = some (Replicator.repack_full t b)
replayed repack_incremental_request t = some (Replicator.repack_incremental t)
replayed cleanup_request t = some (Replicator.cleanup t)
replayed midx_repack_request t = some (Replicator.midx_repack t)
replayed (write_commit_graph_request s) t = some (Replicator.write_commit_graph t s)
replayed optimize_repository_request t = some (Replicator.optimize_repository t)
replayed (pack_refs_request a) t = some (Replicator.pack_refs t a)
replayed other_message t = none

-- The changes that are the message's, not those of the repository as a whole.
abbrev pub is_replayed : ChangeType → Bool
is_replayed update_repo = false
is_replayed create_repo = false
is_replayed delete_repo = false
is_replayed delete_replica = false
is_replayed c = true

-- The first call is this request, to the target.
abbrev pub Sends : Option Request → List Call → Type 0
Sends none h = ⊥
Sends (some r) h = (later : List Call) × (h ≡ later ++ rpc target r ∷ [])

module _ (n : Nodes) (w : Outside) (e : ReplicationEvent) where
  or_fail-calls :
      (f : CallError → JobError) (x : Option CallError) (h : List Call) → (or_fail f x h).0 ≡ h
  or_fail-calls f none h = refl
  or_fail-calls f (some x) h = refl

  make-Sends : (r : Request) → Sends (some r) (make w (rpc target r) []).0
  make-Sends r = ([], or_fail-calls call_failed _ (rpc target r ∷ []))

  get_bool_eq :
      (k : String) (b : Bool) (h : List Call)
      → get_param k e.job.params ≡ some (flag b)
      → get_bool e.job.params k h ≡ (h, done b)
  unfolding get_bool bool_of
  get_bool_eq k b h q = rw q refl

  pass_not_exists-calls : (x : Option CallError) (h : List Call) → (pass_not_exists x h).0 ≡ h
  unfolding pass_not_exists
  pass_not_exists-calls none h = refl
  pass_not_exists-calls (some repository_not_exists) h = refl
  pass_not_exists-calls (some x) h = ground arith

  -- What follows a call can only add calls.
  renamed-Sends :
      (r : Request) (c : Call) (x : Option CallError)
      → Sends
          (some r)
          (continue
            (or_fail call_failed x (rpc target r ∷ []))
            (λ u. attempt w c >>= pass_not_exists)).0
  renamed-Sends r c none = (c ∷ [], pass_not_exists-calls _ (c ∷ rpc target r ∷ []))
  renamed-Sends r c (some x) = ([], refl)

  rename-Sends :
      (p : String)
      → get_param "RelativePath" e.job.params ≡ some (text p)
      → Sends (some (Replicator.rename_repository (target_of e) p)) (rename w e []).0
  unfolding rename get_text
  rename-Sends p q =
      let r = Replicator.rename_repository (target_of e) p in
      let c = rename_record e.job.virtual_storage e.job.relative_path e.job.target_node_storage p in
      rw q (renamed-Sends r c (w.error_of (rpc target r ∷ [])))

  same_message :
      (m m' : Message) (h : List Call)
      → m ≡ m'
      → Sends (replayed m' (target_of e)) h
      → Sends (replayed m (target_of e)) h
  same_message m m' h q s = subst (λ x. Sends (replayed x (target_of e)) h) (sym q) s

  collect_garbage-Sends :
      (b p : Bool)
      → get_param "CreateBitmap" e.job.params ≡ some (flag b)
      → get_param "Prune" e.job.params ≡ some (flag p)
      → Sends (some (Replicator.garbage_collect (target_of e) b p)) (collect_garbage w e []).0
  unfolding collect_garbage
  collect_garbage-Sends b p j k =
      rw (get_bool_eq "CreateBitmap" b [] j, get_bool_eq "Prune" p [] k)
        (make-Sends (Replicator.garbage_collect (target_of e) b p))

  repack_all-Sends :
      (b : Bool)
      → get_param "CreateBitmap" e.job.params ≡ some (flag b)
      → Sends (some (Replicator.repack_full (target_of e) b)) (repack_all w e []).0
  unfolding repack_all
  repack_all-Sends b j =
      rw (get_bool_eq "CreateBitmap" b [] j) (make-Sends (Replicator.repack_full (target_of e) b))

  pack_all_refs-Sends :
      (a : Bool)
      → get_param "AllRefs" e.job.params ≡ some (flag a)
      → Sends (some (Replicator.pack_refs (target_of e) a)) (pack_all_refs w e []).0
  unfolding pack_all_refs
  pack_all_refs-Sends a j =
      rw (get_bool_eq "AllRefs" a [] j) (make-Sends (Replicator.pack_refs (target_of e) a))

  write_graph-Sends :
      (s : ℕ)
      → get_param "SplitStrategy" e.job.params ≡ some (number s)
      → Sends (some (Replicator.write_commit_graph (target_of e) s)) (write_graph w e []).0
  unfolding write_graph get_strategy
  write_graph-Sends s j = rw j (make-Sends (Replicator.write_commit_graph (target_of e) s))

  dispatch-Sends :
      (m : Message) (c : ChangeType)
      → is_replayed c ≡ true
      → Carries m c e.job.params
      → Sends (replayed m (target_of e)) (dispatch n w e c []).0
  unfolding dispatch send_target
  dispatch-Sends m rename_repo i (p, q, k) =
      same_message m (rename_repository_request p) _ q (rename-Sends p k)
  dispatch-Sends m garbage_collect i (b, p, q, j, k) =
      same_message m (garbage_collect_request b p) _ q (collect_garbage-Sends b p j k)
  dispatch-Sends m repack_full i (b, q, k) =
      same_message m (repack_full_request b) _ q (repack_all-Sends b k)
  dispatch-Sends m pack_refs i (a, q, k) =
      same_message m (pack_refs_request a) _ q (pack_all_refs-Sends a k)
  dispatch-Sends m write_commit_graph i (s, q, k) =
      same_message m (write_commit_graph_request s) _ q (write_graph-Sends s k)
  dispatch-Sends m repack_incremental i q =
      same_message m repack_incremental_request _ q
        (make-Sends (Replicator.repack_incremental (target_of e)))
  dispatch-Sends m cleanup i q =
      same_message m cleanup_request _ q (make-Sends (Replicator.cleanup (target_of e)))
  dispatch-Sends m midx_repack i q =
      same_message m midx_repack_request _ q (make-Sends (Replicator.midx_repack (target_of e)))
  dispatch-Sends m optimize_repository i q =
      same_message m optimize_repository_request _ q
        (make-Sends (Replicator.optimize_repository (target_of e)))
  dispatch-Sends m update_repo i q = absurd cc
  dispatch-Sends m create_repo i q = absurd cc
  dispatch-Sends m delete_repo i q = absurd cc
  dispatch-Sends m delete_replica i q = absurd cc

-- When an event has the change and the parameters that `getReplicationDetails` finds for a message,
-- and the change is one of a message, then the first call of the replicator sends the target a
-- request with the fields of the message, for the target's repository.
pub replayed_as_sent :
    (n : Nodes) (w : Outside) (e : ReplicationEvent) (method : String) (m : Message)
    → get_replication_details method m ≡ some (e.job.change, e.job.params)
    → is_replayed e.job.change ≡ true
    → Sends (replayed m (target_of e)) (process_replication_event n w e []).0
unfolding process_replication_event
replayed_as_sent n w e method m q i =
    dispatch-Sends n w e m e.job.change i
      (subst (AllCarry m) q (get_replication_details-AllCarry method m))
