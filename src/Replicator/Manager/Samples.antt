-- ===== src/Replicator/Manager/Samples.antt =====
-- A job that replicates a repository, one that collects garbage, and the theorems at them.
use gitally.Prelude.{ℕ, ◌≡◌, refl, String, true, false, Option, none, some, List, [], ◌∷◌, arith}
use gitally.Replication.Types.{
  ChangeType, update_repo, garbage_collect, in_progress, completed, failed, dead, flag, Params,
  ReplicationJob, ReplicationEvent,
}
use gitally.Replication.Queue.{Queue, new_queue, enqueue}
use gitally.Coordinator.Finalizer.{garbage_collect_request}
use gitally.Coordinator.Finalizer.Carried.{garbage_collect_eq}
use gitally.Replicator
use gitally.Replicator.{
  Outside, Call, Generation, generation, invalid_source_repository, replies, done, replicate,
  with_generation, copy, after_copy, finish_replication, read_pool, link_pool, write_generation,
  target_of,
}
use gitally.Replicator.Aims.{AreAimed}
use gitally.Replicator.Replication.{Replicated, replicate-Replicated, asked, sent, pool_asked}
use gitally.Replicator.Manager.{
  Nodes, process_replication_event, handle_events, handle_node, process_backlog, IdsByState,
}
use gitally.Replicator.Manager.Targets.{process_replication_event-IsAimed}
use gitally.Replicator.Manager.Backoff.{expected_waits, process_backlog_lem}
use gitally.Replicator.Manager.Processing.{LogsFailures, differences_are_never_logged}
use gitally.Replicator.Manager.RoundTrip.{Sends, replayed, replayed_as_sent}

abbrev event : ℕ → ℕ → ChangeType → Params → ReplicationEvent
event n attempts change params = record {
  id = n;
  state = in_progress;
  attempt = attempts;
  lock_id = "";
  created_at = n;
  updated_at = some 5;
  job = record {
    repository_id = 1;
    change = change;
    relative_path = "r.git";
    target_node_storage = "b";
    source_node_storage = "a";
    virtual_storage = "default";
    params = params;
  };
  meta = [];
}

-- Everything succeeds, without an object pool.
abbrev willing : Outside
willing = record {
  generation_of = λ h. replies (generation 3);
  object_pool_of = λ h. replies none;
  error_of = λ h. none;
}

-- The source is not a repository.
abbrev declining : Outside
declining = record {
  generation_of = λ h. replies (generation 3);
  object_pool_of = λ h. replies none;
  error_of = λ h. some invalid_source_repository;
}

abbrev nodes : Nodes
nodes = record { has_node = λ vs s. true; inject_error = λ s. none }

-- No node is connected.
abbrev alone : Nodes
alone = record { has_node = λ vs s. false; inject_error = λ s. none }

abbrev copying : ReplicationEvent
copying = event 1 2 update_repo []

abbrev collecting : ReplicationEvent
collecting = event 2 2 garbage_collect (("CreateBitmap", flag true) ∷ ("Prune", flag false) ∷ [])

abbrev calls : List Call
calls =
    Replicator.set_generation "default" "r.git" "b" 3
    ∷ pool_asked willing copying
    ∷ sent willing copying
    ∷ asked willing copying
    ∷ []

process_replication_event-IsAimed_example :
    AreAimed declining copying (process_replication_event nodes declining copying []).0
process_replication_event-IsAimed_example =
    process_replication_event-IsAimed nodes declining copying

replicated : replicate willing copying [] ≡ (calls, done tt)
unfolding replicate with_generation copy after_copy finish_replication read_pool link_pool
    write_generation
replicated = refl

replicate-Replicated_example : Replicated willing copying calls
replicate-Replicated_example = replicate-Replicated willing copying calls replicated

replayed_as_sent_example :
    Sends
      (replayed (garbage_collect_request true false) (target_of collecting))
      (process_replication_event nodes willing collecting []).0
replayed_as_sent_example =
    replayed_as_sent nodes willing collecting "/gitaly.RepositoryService/GarbageCollect"
      (garbage_collect_request true false) (garbage_collect_eq true false) refl

-- Two rounds without events, one with an event, and one without.
abbrev rounds : List (List (String × ℕ))
rounds = (("b", 0) ∷ []) ∷ [] ∷ (("b", 2) ∷ []) ∷ [] ∷ []

process_backlog_lem_example :
    process_backlog nodes "default" 1 5 1 rounds ≡ expected_waits nodes "default" 1 5 0 rounds
process_backlog_lem_example =
    process_backlog_lem nodes "default" 1 5 rounds (omega arith) (omega arith)

abbrev marshal : ReplicationJob → Option String
marshal j = some j.relative_path

abbrev one_queued : Queue
one_queued = (enqueue new_queue 1 copying).0

differences_are_never_logged_example :
    LogsFailures
      (handle_node marshal (λ n. n) (λ q. q) (λ g. g) nodes willing one_queued [] "default" "b" 10)
differences_are_never_logged_example =
    differences_are_never_logged marshal (λ n. n) (λ q. q) (λ g. g) nodes willing one_queued []
      "default" "b" 10

-- Without a connection to the source a job that copies fails, or is dead without attempts left; the
-- collection of garbage needs none and completes.
abbrev batch : List ReplicationEvent
batch =
    event 1 1 update_repo [] ∷ collecting ∷ event 4 0 update_repo [] ∷ event 3 2 update_repo [] ∷ []

abbrev groups : IdsByState
groups = (failed, 1 ∷ 3 ∷ []) ∷ (completed, 2 ∷ []) ∷ (dead, 4 ∷ []) ∷ []

abbrev calls_made : List Call
calls_made = (handle_events alone willing batch [] []).0
