-- ===== src/Replication/Queue/Samples.antt =====
-- A queue with one job, and three duplicates behind a completed one.
use gitally.Prelude.{
  max, map, take, List, ℕ, ◌≡◌, ◌≢◌, refl, String, Option, none, some, [], ◌∷◌, arith, length,
  false,
}
use gitally.Replication.Types.{
  in_progress, update_repo, ready, completed, ReplicationJob, ReplicationEvent,
}
use gitally.Replication.Queue.Deliveries.{as_taken, firsts, eligible, dequeue_lem}
use gitally.Replication.Queue.{
  dequeue_loop, visit, is_ready_or_failed, fresh_key, has_key, taken_event, keep, return, halt,
  Queue, new_queue, enqueue, dequeue,
}
use gitally.Replication.Queue.Acknowledge.{acknowledge, remove_same}
use gitally.Replication.Queue.Acknowledge.Acks.{Calls, queue_is_sound}
use gitally.Replication.Queue.Attempts.{IsSoundQueue}
use gitally.Replication.Queue.Acknowledge.Duplicates.{half_of_duplicates}

abbrev job : ReplicationJob
job = record {
  repository_id = 1;
  change = update_repo;
  relative_path = "r.git";
  target_node_storage = "b";
  source_node_storage = "a";
  virtual_storage = "default";
  params = [];
}

abbrev event : ℕ → ReplicationEvent
event n = record {
  id = n;
  state = ready;
  attempt = 3;
  lock_id = "";
  created_at = n;
  updated_at = none;
  job = job;
  meta = [];
}

abbrev marshal : ReplicationJob → Option String
marshal j = some j.relative_path

abbrev clock : ℕ → ℕ
clock n = 9

abbrev one_queued : Queue
one_queued = (enqueue new_queue 1 (event 0)).0

abbrev one_dequeued : Queue
one_dequeued = (dequeue marshal one_queued clock "default" "b" 5).0

queue_is_sound_example :
    IsSoundQueue one_dequeued × (acknowledge marshal one_dequeued clock completed (1 ∷ []) ≢ none)
queue_is_sound_example = queue_is_sound marshal one_dequeued clock completed (1 ∷ []) (
    Calls.dequeues one_queued clock "default" "b" 5
      (Calls.enqueues new_queue 1 (event 0) Calls.starts))

half_of_duplicates_example :
    length (remove_same marshal "r.git" 9 false (event 2 ∷ event 3 ∷ event 4 ∷ [])).events ≡ 1
half_of_duplicates_example =
    half_of_duplicates marshal "r.git" 9 false (event 2 ∷ event 3 ∷ event 4 ∷ [])
      ((refl, omega arith), ((refl, omega arith), ((refl, omega arith), tt)))

abbrev other : ReplicationEvent
other = record (event 3) { job = record job { relative_path = "s.git" } }

-- A job that is there twice, an event in progress, and another job.
abbrev waiting : Queue
waiting = record {
  seq = 4;
  queued =
      event 1
      ∷ event 2
      ∷ record (event 4) { state = in_progress; job = record job { relative_path = "t.git" } }
      ∷ other
      ∷ [];
  dequeued = 4 ∷ [];
  last_event_by_dest = [];
}

abbrev delivered : List ReplicationEvent
delivered = as_taken clock (event 1) ∷ as_taken clock other ∷ []

dequeue_lem_example :
    delivered
    ≡ map
        (as_taken clock)
        (take (max 5 1) (firsts marshal [] (eligible "default" "b" waiting.queued)))
unfolding dequeue dequeue_loop visit is_ready_or_failed fresh_key has_key taken_event keep return
    halt
dequeue_lem_example = dequeue_lem marshal waiting clock "default" "b" 5 delivered refl
