-- ===== src/Replication/Queue/Acknowledge.antt =====
-- internal/praefect/datastore/memory.go: `Acknowledge`, and the `remove` that it calls.
pub mod Acks
pub mod Duplicates
pub mod Answers
use gitally.Prelude.{
  ℕ, ◌+◌, String, Bool, true, false, not, ◌&&◌, Option, none, some, List, [], ◌∷◌, ◌++◌, ltb, ◌==◌,
  if◌then◌else◌, str_eq,
}
use gitally.Replication.Types.{
  JobState, ready, in_progress, completed, cancelled, failed, dead, ReplicationJob,
  ReplicationEvent, allow_to_ack,
}
use gitally.Replication.Queue.{Queue, Lasts, refresh_last, has_id, delete_id}

pub data AckError : Type 0 where
  not_supported not_in_progress dead_acked_as_failed bad_json : AckError

-- The events before, the event of a number, and the events behind it.
pub data Place : Type 0 where
  absent : Place
  found : List ReplicationEvent → ReplicationEvent → List ReplicationEvent → Place

behind : ReplicationEvent → Place → Place
behind e absent = absent
behind e (found before x after) = found (e ∷ before) x after

place : ℕ → List ReplicationEvent → Place
unfolding behind
place id [] = absent
place id (e ∷ es) = let rest = behind e (place id es) in if e.id == id then found [] e es else rest

acked_event : JobState → ℕ → ReplicationEvent → ReplicationEvent
acked_event state now e = record {
  id = e.id;
  state = state;
  attempt = e.attempt;
  lock_id = e.lock_id;
  created_at = e.created_at;
  updated_at = some now;
  job = e.job;
  meta = e.meta;
}

is_in_progress : JobState → Bool
is_in_progress in_progress = true
is_in_progress _ = false

is_failed : JobState → Bool
is_failed failed = true
is_failed _ = false

is_completed : JobState → Bool
is_completed completed = true
is_completed _ = false

-- The states after which an event leaves the queue.
is_final : JobState → Bool
is_final completed = true
is_final cancelled = true
is_final dead = true
is_final _ = false

-- What the inner loop of `Acknowledge` leaves of the events behind, and the ids it removes.
pub record Remains : Type 0 where
  pub events : List ReplicationEvent
  pub removed : List ℕ
  pub failed_at_json : Bool

retain : ReplicationEvent → Remains → Remains
retain e r = record {
  events = e ∷ r.events;
  removed = r.removed;
  failed_at_json = r.failed_at_json;
}

remove_event : ReplicationEvent → Remains → Remains
remove_event e r = record {
  events = r.events;
  removed = e.id ∷ r.removed;
  failed_at_json = r.failed_at_json;
}

pub data Likeness : Type 0 where
  unknown other_job same_job : Likeness

compare_keys : String → Option String → Likeness
compare_keys key none = unknown
compare_keys key (some k) = if str_eq key k then same_job else other_job

module _ (marshal : ReplicationJob → Option String) where
  -- From `skipping`, the loop passes over one event: `remove(j)` has moved it to the place that `j++`
  -- leaves behind.
  pub remove_same : String → ℕ → Bool → List ReplicationEvent → Remains
  unfolding retain remove_event compare_keys
  remove_same key dequeued_at skipping [] = record {
    events = [];
    removed = [];
    failed_at_json = false;
  }
  remove_same key dequeued_at true (e ∷ es) = retain e (remove_same key dequeued_at false es)
  remove_same key dequeued_at false (e ∷ es) = elim (ltb dequeued_at e.created_at) [
    | true ↦ record { events = e ∷ es; removed = []; failed_at_json = false }
    | false ↦ elim (compare_keys key (marshal e.job)) [
      | unknown ↦ record { events = e ∷ es; removed = []; failed_at_json = true }
      | other_job ↦ retain e (remove_same key dequeued_at false es)
      | same_job ↦ remove_event e (remove_same key dequeued_at true es)
    ]
  ]

  -- The loop behind an acknowledged event; `none` where it reads a time that is not there.
  remove_later : Option String → Option ℕ → List ReplicationEvent → Option Remains
  unfolding remove_same
  remove_later none at es = some (record { events = es; removed = []; failed_at_json = true })
  remove_later (some key) at [] =
      some (record { events = []; removed = []; failed_at_json = false })
  remove_later (some key) none (e ∷ es) = none
  remove_later (some key) (some at) (e ∷ es) = some (remove_same key at false (e ∷ es))

  abbrev pub Acked : Type 0
  Acked = Option (Queue × List ℕ × Option AckError)

  delete_ids : List ℕ → List ℕ → List ℕ
  unfolding delete_id
  delete_ids [] ids = ids
  delete_ids (n ∷ ns) ids = delete_ids ns (delete_id n ids)

  -- The end of a round: the event is removed when its new state is final.
  finish_event :
      Queue → JobState → Lasts → List ReplicationEvent → ReplicationEvent → Remains → Queue
  unfolding delete_ids delete_id is_final
  finish_event q state ls before e r = record {
    seq = q.seq;
    queued = before ++ (if is_final state then r.events else e ∷ r.events);
    dequeued =
        let ids = delete_ids r.removed q.dequeued in
        if is_final state then delete_id e.id ids else ids;
    last_event_by_dest = ls;
  }

  -- With an error of `json.Marshal` the event keeps its new state, and what was removed is gone.
  close_round :
      Queue → JobState → Lasts → List ReplicationEvent → ReplicationEvent → Option Remains → Acked
  unfolding finish_event delete_ids
  close_round q state ls before e none = none
  close_round q state ls before e (some r) =
      if r.failed_at_json
      then some (
        record {
          seq = q.seq;
          queued = before ++ e ∷ r.events;
          dequeued = delete_ids r.removed q.dequeued;
          last_event_by_dest = ls;
        },
        [],
        some bad_json,
      )
      else some (finish_event q state ls before e r, e.id ∷ [], none)

  ack_found :
      Queue
      → JobState
      → ℕ
      → List ReplicationEvent
      → ReplicationEvent
      → List ReplicationEvent
      → Acked
  unfolding is_in_progress is_failed is_completed acked_event refresh_last close_round remove_later
  ack_found q state now before e after =
      if not (is_in_progress e.state)
      then some (q, [], some not_in_progress)
      else if e.attempt == 0 && is_failed state
      then some (q, [], some dead_acked_as_failed)
      else let e' = acked_event state now e in
        let ls = refresh_last e' q.last_event_by_dest in
        close_round q state ls before e' (
          if is_completed state
          then remove_later (marshal e.job) e.updated_at after
          else some (record { events = after; removed = []; failed_at_json = false }))

  -- One round of the loop over the ids.
  ack_place : Queue → JobState → (ℕ → ℕ) → Place → Acked
  unfolding ack_found
  ack_place q state now absent = some (q, [], none)
  ack_place q state now (found before e after) = ack_found q state (now e.id) before e after

  ack_one : Queue → JobState → (ℕ → ℕ) → ℕ → Acked
  unfolding has_id place ack_place
  ack_one q state now id =
      if not (has_id id q.dequeued)
      then some (q, [], none)
      else ack_place q state now (place id q.queued)

  -- `return nil, err` drops the ids of the earlier rounds.
  prepend_ids : List ℕ → Acked → Acked
  prepend_ids ids none = none
  prepend_ids ids (some (q, rest, some e)) = some (q, [], some e)
  prepend_ids ids (some (q, rest, none)) = some (q, ids ++ rest, none)

  ack_ids : Queue → JobState → (ℕ → ℕ) → List ℕ → Acked
  unfolding ack_one prepend_ids
  ack_ids q state now [] = some (q, [], none)
  ack_ids q state now (id ∷ ids) = elim (ack_one q state now id) [
    | none ↦ none
    | some (q', done, some e) ↦ some (q', [], some e)
    | some (q', done, none) ↦ prepend_ids done (ack_ids q' state now ids)
  ]

  -- `none` where the call panics.
  pub acknowledge : Queue → (ℕ → ℕ) → JobState → List ℕ → Acked
  unfolding ack_ids allow_to_ack
  acknowledge q now state [] = some (q, [], none)
  acknowledge q now state (id ∷ ids) =
      if not (allow_to_ack state)
      then some (q, [], some not_supported)
      else ack_ids q state now (id ∷ ids)
