-- ===== src/Replication/Queue.antt =====
-- internal/praefect/datastore/memory.go: the replication queue in memory. A call holds the lock as a
-- whole. `json.Marshal` is a parameter, `none` where it fails; `now` is the time at which a call
-- meets the event of a number. `Attempt` is an `int` that no call brings below 0.
pub mod Acknowledge
pub mod Attempts
pub mod Deliveries
pub mod Samples
use gitally.Prelude.{
  ℕ, ◌+◌, ◌-◌, String, Bool, true, false, not, ◌&&◌, ◌||◌, Option, none, some, List, [], ◌∷◌, ◌++◌,
  ltb, leb, ◌==◌, if◌then◌else◌, str_eq, u64,
}
use Prim.Native.String.{◌++◌ as append}
use gitally.Replication.Types.{
  JobState, ready, in_progress, completed, cancelled, failed, dead, ReplicationJob,
  ReplicationEvent, allow_to_ack,
}

pub record EventDestination : Type 0 where
  pub virtual : String
  pub storage : String
  pub relative_path : String

abbrev pub Lasts : Type 0
Lasts = List (EventDestination × ReplicationEvent)

-- `storageNamesByVirtualStorage` is never read.
pub record Queue : Type 0 where
  pub seq : ℕ
  pub queued : List ReplicationEvent
  pub dequeued : List ℕ
  pub last_event_by_dest : Lasts

pub new_queue : Queue
new_queue = record { seq = 0; queued = []; dequeued = []; last_event_by_dest = [] }

define_dest : ReplicationEvent → EventDestination
define_dest e = record {
  virtual = e.job.virtual_storage;
  storage = e.job.target_node_storage;
  relative_path = e.job.relative_path;
}

same_dest : EventDestination → EventDestination → Bool
same_dest a b =
    str_eq a.virtual b.virtual
    && str_eq a.storage b.storage
    && str_eq a.relative_path b.relative_path

put_last : EventDestination → ReplicationEvent → Lasts → Lasts
unfolding same_dest
put_last d e [] = (d, e) ∷ []
put_last d e ((d', e') ∷ ls) = if same_dest d' d then (d, e) ∷ ls else (d', e') ∷ put_last d e ls

-- Writes an event where it is already the last one of its destination.
refresh_last : ReplicationEvent → Lasts → Lasts
unfolding same_dest define_dest
refresh_last e [] = []
refresh_last e ((d, l) ∷ ls) =
    if same_dest d (define_dest e)
    then (d, if l.id == e.id then e else l) ∷ ls
    else (d, l) ∷ refresh_last e ls

unfoldable pub has_id : ℕ → List ℕ → Bool
has_id n [] = false
has_id n (m ∷ ms) = if m == n then true else has_id n ms

add_id : ℕ → List ℕ → List ℕ
unfolding has_id
add_id n ns = if has_id n ns then ns else n ∷ ns

delete_id : ℕ → List ℕ → List ℕ
delete_id n [] = []
delete_id n (m ∷ ms) = if m == n then delete_id n ms else m ∷ delete_id n ms

-- The event as `Enqueue` writes it, with the id and the time given.
ready_event : ℕ → ℕ → ReplicationEvent → ReplicationEvent
ready_event id now e = record {
  id = id;
  state = ready;
  attempt = 3;
  lock_id =
      append e.job.virtual_storage
        (append "|" (append e.job.target_node_storage (append "|" e.job.relative_path)));
  created_at = now;
  updated_at = e.updated_at;
  job = e.job;
  meta = e.meta;
}

pub enqueue : Queue → ℕ → ReplicationEvent → Queue × ReplicationEvent
unfolding ready_event put_last define_dest
enqueue q now event =
    let id = u64 (q.seq + 1) in
    let e = ready_event id now event in
    (
      record {
        seq = id;
        queued = q.queued ++ e ∷ [];
        dequeued = q.dequeued;
        last_event_by_dest = put_last (define_dest e) e q.last_event_by_dest;
      },
      e,
    )

has_key : String → List String → Bool
has_key k [] = false
has_key k (x ∷ xs) = if str_eq x k then true else has_key k xs

is_ready_or_failed : JobState → Bool
is_ready_or_failed ready = true
is_ready_or_failed failed = true
is_ready_or_failed _ = false

-- What one round of the loop of `Dequeue` does with an event.
pub data Visit : Type 0 where
  skips fails : Visit
  takes : String → Visit

fresh_key : List String → Option String → Visit
unfolding has_key
fresh_key seen none = fails
fresh_key seen (some k) = if has_key k seen then skips else takes k

taken_event : ℕ → ReplicationEvent → ReplicationEvent
taken_event now e = record {
  id = e.id;
  state = in_progress;
  attempt = e.attempt - 1;
  lock_id = e.lock_id;
  created_at = e.created_at;
  updated_at = some now;
  job = e.job;
  meta = e.meta;
}

-- What the loop of `Dequeue` has made of the rest of the queue.
pub record Dequeued : Type 0 where
  pub queued : List ReplicationEvent
  pub dequeued : List ℕ
  pub lasts : Lasts
  pub result : List ReplicationEvent
  pub failed_at_json : Bool

keep : ReplicationEvent → Dequeued → Dequeued
keep e d = record {
  queued = e ∷ d.queued;
  dequeued = d.dequeued;
  lasts = d.lasts;
  result = d.result;
  failed_at_json = d.failed_at_json;
}

return : ReplicationEvent → Dequeued → Dequeued
return e d = record {
  queued = e ∷ d.queued;
  dequeued = d.dequeued;
  lasts = d.lasts;
  result = e ∷ d.result;
  failed_at_json = d.failed_at_json;
}

halt : List ReplicationEvent → List ℕ → Lasts → Bool → Dequeued
halt es ids ls failing = record {
  queued = es;
  dequeued = ids;
  lasts = ls;
  result = [];
  failed_at_json = failing;
}

module _ (marshal : ReplicationJob → Option String) where
  visit : String → String → List String → ReplicationEvent → Visit
  unfolding is_ready_or_failed fresh_key
  visit virtual_storage node_storage seen e =
      if str_eq e.job.virtual_storage virtual_storage
        && str_eq e.job.target_node_storage node_storage
        && is_ready_or_failed e.state
      then fresh_key seen (marshal e.job)
      else skips

  dequeue_loop :
      (ℕ → ℕ)
      → String
      → String
      → ℕ
      → List String
      → ℕ
      → List ℕ
      → Lasts
      → List ReplicationEvent
      → Dequeued
  unfolding visit taken_event keep return halt add_id refresh_last
  dequeue_loop now vs ns count seen taken ids ls [] = halt [] ids ls false
  dequeue_loop now vs ns count seen taken ids ls (e ∷ es) = elim (visit vs ns seen e) [
    | skips ↦ keep e (dequeue_loop now vs ns count seen taken ids ls es)
    | fails ↦ halt (e ∷ es) ids ls true
    | takes k ↦
        let e' = taken_event (now e.id) e in
        let ids' = add_id e.id ids in
        let ls' = refresh_last e' ls in
        return e' (elim (leb count (taken + 1)) [
          | true ↦ halt es ids' ls' false
          | false ↦ dequeue_loop now vs ns count (k ∷ seen) (taken + 1) ids' ls' es
        ])
  ]

  -- `none` is an error of `json.Marshal`, which leaves the events taken before in progress.
  pub dequeue : Queue → (ℕ → ℕ) → String → String → ℕ → Queue × Option (List ReplicationEvent)
  unfolding dequeue_loop
  dequeue q now virtual_storage node_storage count =
      let d =
        dequeue_loop now virtual_storage node_storage count [] 0 q.dequeued q.last_event_by_dest
          q.queued in
      (
        record {
          seq = q.seq;
          queued = d.queued;
          dequeued = d.dequeued;
          last_event_by_dest = d.lasts;
        },
        if d.failed_at_json then none else some d.result,
      )
