-- ===== src/Replicator/Manager.antt =====
-- internal/praefect/replicator.go: the replication manager. The connections to the nodes are a test on
-- the storages; timeouts, metrics and the health updates of events are left out.
pub mod Targets
pub mod Backoff
pub mod Processing
pub mod States
pub mod RoundTrip
pub mod Samples
use gitally.Prelude.{
  ℕ, zero, suc, ◌+◌, ◌*◌, ◌%◌, ◌^◌, String, Bool, true, false, not, Option, none, some, List, [],
  ◌∷◌, ◌++◌, length, leb, ◌==◌, if◌then◌else◌, u64,
}
use gitally.Replication.Types.{
  ChangeType, update_repo, create_repo, delete_repo, delete_replica, rename_repo, garbage_collect,
  repack_full, repack_incremental, cleanup, pack_refs, write_commit_graph, midx_repack,
  optimize_repository, JobState, ready, in_progress, completed, cancelled, failed, dead,
  ReplicationJob, ReplicationEvent,
}
use gitally.Replication.Queue.{Queue, dequeue, has_id}
use gitally.Replication.Queue.Acknowledge.{AckError, acknowledge}
use gitally.Replicator
use gitally.Replicator.{
  Outside, Session, ◌>>=◌, continue, Ended, done, failed_with, crashes, give, refuse,
  unknown_change, no_connection, inject_failed, replicate, destroy, rename, collect_garbage,
  pack_all_refs, write_graph, repack_all, send_target,
}

-- What the manager knows of the other nodes: `nodes[virtualStorage][storage]`, and the error of putting
-- a node's address into the context.
pub record Nodes : Type 0 where
  pub has_node : String → String → Bool
  pub inject_error : String → Option ℕ

inject : Option ℕ → Session (Unit {0})
inject none = give tt
inject (some x) = refuse (inject_failed x)

update : Nodes → Outside → ReplicationEvent → Session (Unit {0})
unfolding inject
update n w e =
    if n.has_node e.job.virtual_storage e.job.source_node_storage
    then inject (n.inject_error e.job.source_node_storage) >>= (λ u. replicate w e)
    else refuse (no_connection e.job.source_node_storage)

-- The switch on the change.
dispatch : Nodes → Outside → ReplicationEvent → ChangeType → Session (Unit {0})
unfolding update
dispatch n w e update_repo = update n w e
dispatch n w e delete_repo = destroy w e
dispatch n w e delete_replica = destroy w e
dispatch n w e rename_repo = rename w e
dispatch n w e garbage_collect = collect_garbage w e
dispatch n w e repack_full = repack_all w e
dispatch n w e repack_incremental = send_target w e Replicator.repack_incremental
dispatch n w e cleanup = send_target w e Replicator.cleanup
dispatch n w e pack_refs = pack_all_refs w e
dispatch n w e write_commit_graph = write_graph w e
dispatch n w e midx_repack = send_target w e Replicator.midx_repack
dispatch n w e optimize_repository = send_target w e Replicator.optimize_repository
dispatch n w e create_repo = refuse unknown_change

pub process_replication_event : Nodes → Outside → ReplicationEvent → Session (Unit {0})
unfolding dispatch
process_replication_event n w e = dispatch n w e e.job.change

-- The state that an event gets; `none` where the replicator panics.
new_state : ℕ → Ended (Unit {0}) → Option JobState
new_state attempts (done u) = some completed
new_state zero (failed_with x) = some dead
new_state (suc n) (failed_with x) = some failed
new_state attempts crashes = none

pub handle_node_event :
    Nodes
    → Outside
    → ReplicationEvent
    → List Replicator.Call
    → List Replicator.Call × Option JobState
unfolding new_state
handle_node_event n w e h =
    let (h', end) = process_replication_event n w e h in (h', new_state e.attempt end)

pub same_state : JobState → JobState → Bool
same_state ready ready = true
same_state in_progress in_progress = true
same_state completed completed = true
same_state cancelled cancelled = true
same_state failed failed = true
same_state dead dead = true
same_state _ _ = false

-- `eventIDsByState`, in the order of its making, and the append of one id.
abbrev pub IdsByState : Type 0
IdsByState = List (JobState × List ℕ)

add_to_state : JobState → ℕ → IdsByState → IdsByState
unfolding same_state
add_to_state s id [] = (s, id ∷ []) ∷ []
add_to_state s id ((t, ids) ∷ rest) =
    if same_state t s then (t, ids ++ id ∷ []) ∷ rest else (t, ids) ∷ add_to_state s id rest

-- The loop over the events that were dequeued.
pub handle_events :
    Nodes
    → Outside
    → List ReplicationEvent
    → IdsByState
    → List Replicator.Call
    → List Replicator.Call × Option IdsByState
unfolding add_to_state
handle_events n w [] acc h = (h, some acc)
handle_events n w (e ∷ es) acc h =
    let (h', state) = handle_node_event n w e h in
    elim state [ none ↦ (h', none) | some s ↦ handle_events n w es (add_to_state s e.id acc) h' ]

-- `copy(result, l)` and the loops are the same list here; a set is the list of its elements.
without : List ℕ → List ℕ → List ℕ
unfolding has_id
without r [] = []
without r (v ∷ l) = let rest = without r l in if has_id v r then rest else v ∷ rest

pub subtract_uint64 : List ℕ → List ℕ → List ℕ
unfolding without
subtract_uint64 [] r = []
subtract_uint64 (v ∷ l) [] = v ∷ l
subtract_uint64 (v ∷ l) (x ∷ r) = without (x ∷ r) (v ∷ l)

-- What is logged when an acknowledgement returns.
pub data AckLog : Type 0 where
  ack_failed : JobState → List ℕ → AckError → AckLog
  not_acknowledged : JobState → List ℕ → AckLog

log_difference : JobState → List ℕ → List AckLog
log_difference state [] = []
log_difference state (id ∷ ids) = not_acknowledged state (id ∷ ids) ∷ []

ack_logs : JobState → List ℕ → List ℕ → Option AckError → List AckLog
unfolding log_difference
ack_logs state ids acked (some x) = ack_failed state ids x ∷ []
ack_logs state ids acked none = log_difference state (subtract_uint64 acked ids)

-- `meanwhile` is what other callers do to the queue before a call of this one, and `ranged` the order
-- in which a map of states is ranged over.
module _ (marshal : ReplicationJob → Option String) (now : ℕ → ℕ) (meanwhile : Queue → Queue)
    (ranged : IdsByState → IdsByState) where
  -- The loop over the states; `none` where an acknowledgement panics.
  acknowledge_all : Queue → IdsByState → Option (Queue × List AckLog)
  unfolding ack_logs
  acknowledge_all q [] = some (q, [])
  acknowledge_all q ((state, ids) ∷ rest) = elim (acknowledge marshal (meanwhile q) now state ids) [
    | none ↦ none
    | some (q', acked, x) ↦ elim (acknowledge_all q' rest) [
      | none ↦ none
      | some (q'', logs) ↦ some (q'', ack_logs state ids acked x ++ logs)
    ]
  ]

  -- The queue, the calls and the logs at the end, and the number of events.
  pub record Handled : Type 0 where
    pub queue : Queue
    pub calls : List Replicator.Call
    pub logs : List AckLog
    pub count : ℕ

  handled : List Replicator.Call → ℕ → Option (Queue × List AckLog) → Option Handled
  handled h count none = none
  handled h count (some (q, logs)) =
      some (record { queue = q; calls = h; logs = logs; count = count })

  after_events : Queue → ℕ → List Replicator.Call × Option IdsByState → Option Handled
  unfolding acknowledge_all handled
  after_events q count (h, none) = none
  after_events q count (h, some ids) = handled h count (acknowledge_all q (ranged ids))

  handle_batch :
      Nodes
      → Outside
      → Queue
      → List Replicator.Call
      → Option (List ReplicationEvent)
      → Option Handled
  unfolding handle_events after_events
  handle_batch n w q h none = some (record { queue = q; calls = h; logs = []; count = 0 })
  handle_batch n w q h (some []) = some (record { queue = q; calls = h; logs = []; count = 0 })
  handle_batch n w q h (some (e ∷ es)) =
      after_events q (length (e ∷ es)) (handle_events n w (e ∷ es) [] h)

  -- `none` where a call panics.
  pub handle_node :
      Nodes → Outside → Queue → List Replicator.Call → String → String → ℕ → Option Handled
  unfolding handle_batch
  handle_node n w q h virtual_storage storage batch =
      let (q', events) = dequeue marshal (meanwhile q) now virtual_storage storage batch in
      handle_batch n w q' h events

-- A `time.Duration` is an int64: its low 64 bits, compared with their sign.
abbrev pub double64 : ℕ → ℕ
double64 d = u64 (d * 2)

abbrev pub at_least64 : ℕ → ℕ → Bool
at_least64 a b = leb (u64 (b + 2 ^ 63)) (u64 (a + 2 ^ 63))

-- A call of the function that `ExpBackoffFunc` returns: the duration after it, and what it returns.
unfoldable pub backoff : ℕ → ℕ → ℕ × ℕ
backoff max duration =
    let doubled = double64 duration in (if at_least64 doubled max then max else doubled, duration)

-- The events of a round of `processBacklog`, given the count that each healthy storage has handled.
pub total_events : Nodes → String → List (String × ℕ) → ℕ
total_events n vs [] = 0
total_events n vs ((storage, count) ∷ rest) =
    let others = total_events n vs rest in if n.has_node vs storage then count + others else others

-- What a round does at its end: the next duration, and how long it waits.
pub end_round : ℕ → ℕ → ℕ → ℕ → ℕ × Option ℕ
unfolding backoff
end_round start max duration zero = let (next, wait) = backoff max duration in (next, some wait)
end_round start max duration (suc n) = (start, none)

-- The waits of the rounds before the context is done.
pub process_backlog : Nodes → String → ℕ → ℕ → ℕ → List (List (String × ℕ)) → List (Option ℕ)
unfolding total_events end_round
process_backlog n vs start max duration [] = []
process_backlog n vs start max duration (round ∷ rounds) =
    let (next, wait) = end_round start max duration (total_events n vs round) in
    wait ∷ process_backlog n vs start max next rounds
