-- ===== src/Replicator/Manager/Targets.antt =====
-- The calls that the manager makes for an event.
use gitally.Prelude.{ℕ, refl, Option, none, some, [], Bool-cases, inl, inr}
use gitally.Replication.Types.{
  ChangeType, update_repo, create_repo, delete_repo, delete_replica, rename_repo, garbage_collect,
  repack_full, repack_incremental, cleanup, pack_refs, write_commit_graph, midx_repack,
  optimize_repository, ReplicationEvent,
}
use gitally.Replicator
use gitally.Replicator.{Outside, replicate}
use gitally.Replicator.Aims.{
  AreAimed, Aims, continue-IsAimed, replicate-Aims, destroy-Aims, rename-Aims, collect_garbage-Aims,
  pack_all_refs-Aims, repack_all-Aims, write_graph-Aims, send_target-Aims,
}
use gitally.Replicator.Manager.{Nodes, inject, update, dispatch, process_replication_event}

module _ (n : Nodes) (w : Outside) (e : ReplicationEvent) where
  inject-Aims : (x : Option ℕ) → Aims e w (inject x)
  unfolding inject
  inject-Aims none h k = k
  inject-Aims (some x) h k = k

  update-Aims : Aims e w (update n w e)
  unfolding update
  update-Aims h k = elim (Bool-cases (n.has_node e.job.virtual_storage e.job.source_node_storage)) [
    | inr b ↦ rw b k
    | inl b ↦
        let x = n.inject_error e.job.source_node_storage in
        rw b (continue-IsAimed e w (inject x h) _ (inject-Aims x h k) (λ u. replicate-Aims e w))
  ]

  dispatch-Aims : (c : ChangeType) → Aims e w (dispatch n w e c)
  unfolding dispatch
  dispatch-Aims update_repo h k = update-Aims h k
  dispatch-Aims create_repo h k = k
  dispatch-Aims delete_repo h k = destroy-Aims e w h k
  dispatch-Aims delete_replica h k = destroy-Aims e w h k
  dispatch-Aims rename_repo h k = rename-Aims e w h k
  dispatch-Aims garbage_collect h k = collect_garbage-Aims e w h k
  dispatch-Aims repack_full h k = repack_all-Aims e w h k
  dispatch-Aims repack_incremental h k = send_target-Aims e w Replicator.repack_incremental refl h k
  dispatch-Aims cleanup h k = send_target-Aims e w Replicator.cleanup refl h k
  dispatch-Aims pack_refs h k = pack_all_refs-Aims e w h k
  dispatch-Aims write_commit_graph h k = write_graph-Aims e w h k
  dispatch-Aims midx_repack h k = send_target-Aims e w Replicator.midx_repack refl h k
  dispatch-Aims optimize_repository h k =
      send_target-Aims e w Replicator.optimize_repository refl h k

-- Whatever the nodes and the store answer, the calls for an event change only the target's repository
-- and its record, and read the source. The record of the source is deleted only right after the target, asked for a
-- copy, has answered that the source is not a repository.
pub process_replication_event-IsAimed :
    (n : Nodes) (w : Outside) (e : ReplicationEvent)
    → AreAimed w e (process_replication_event n w e []).0
unfolding process_replication_event
process_replication_event-IsAimed n w e = dispatch-Aims n w e e.job.change [] tt
