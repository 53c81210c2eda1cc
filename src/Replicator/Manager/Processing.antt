-- ===== src/Replicator/Manager/Processing.antt =====
-- How the replication manager answers for the events that it has taken from the queue.
use gitally.Prelude.{
  ℕ, ◌≡◌, ◌≢◌, refl, String, true, false, Option, none, some, List, [], ◌∷◌, ◌++◌, arith, length,
  All,
}
use gitally.Replication.Types.{
  JobState, ready, in_progress, completed, cancelled, failed, dead, ReplicationJob,
  ReplicationEvent,
}
use gitally.Replication.Queue.{Queue, has_id, dequeue}
use gitally.Replication.Queue.Acknowledge.{AckError, acknowledge}
use gitally.Replication.Queue.Acknowledge.Answers.{IsIn, Answers, acknowledge-Answers}
use gitally.Replicator
use gitally.Replicator.{Outside, Ended, done, failed_with, crashes}
use gitally.Replicator.Manager.{
  Nodes, same_state, IdsByState, handle_events, without, subtract_uint64, AckLog, ack_failed,
  not_acknowledged, log_difference, ack_logs, acknowledge_all, Handled, handled, after_events,
  handle_batch, handle_node,
}

without-subset : (r l : List ℕ) → All (IsIn r) l → without r l ≡ []
unfolding without
without-subset r [] h = refl
without-subset r (v ∷ l) h = rw h.0 (without-subset r l h.1)

subtract_uint64-subset : (l r : List ℕ) → All (IsIn r) l → subtract_uint64 l r ≡ []
unfolding subtract_uint64 has_id
subtract_uint64-subset [] r h = refl
subtract_uint64-subset (v ∷ l) [] h = absurd (no_id h.0)
  where
    no_id : false ≢ true
    no_id q = cc
subtract_uint64-subset (v ∷ l) (x ∷ r) h = without-subset (x ∷ r) (v ∷ l) h

-- A log of an error, not of a difference between the ids.
abbrev pub IsFailure : AckLog → Type 0
IsFailure (ack_failed state ids x) = Unit
IsFailure (not_acknowledged state ids) = ⊥

ack_logs-IsFailure :
    (state : JobState) (ids acked : List ℕ) (x : Option AckError)
    → All (IsIn ids) acked
    → All IsFailure (ack_logs state ids acked x)
unfolding ack_logs log_difference
ack_logs-IsFailure state ids acked (some x) h = (tt, tt)
ack_logs-IsFailure state ids acked none h = rw (subtract_uint64-subset acked ids h) tt

pub same_state-eq : (s t : JobState) → same_state s t ≡ true → s ≡ t
unfolding same_state
same_state-eq ready ready h = refl
same_state-eq in_progress in_progress h = refl
same_state-eq completed completed h = refl
same_state-eq cancelled cancelled h = refl
same_state-eq failed failed h = refl
same_state-eq dead dead h = refl
same_state-eq s t h = ground arith

abbrev Logged : Option (Queue × List AckLog) → Type 0
Logged none = Unit
Logged (some (q, logs)) = All IsFailure logs

All-append : (xs ys : List AckLog) → All IsFailure xs → All IsFailure ys → All IsFailure (xs ++ ys)
All-append [] ys h k = k
All-append (x ∷ xs) ys h k = (h.0, All-append xs ys h.1 k)

-- What the manager has logged of the acknowledgements, if it returns.
abbrev pub LogsFailures :
    {marshal : ReplicationJob → Option String} {now : ℕ → ℕ} {meanwhile : Queue → Queue}
    {ranged : IdsByState → IdsByState}
    → Option (Handled marshal now meanwhile ranged)
    → Type 0
LogsFailures none = Unit
LogsFailures (some r) = All IsFailure r.logs

module _ (marshal : ReplicationJob → Option String) (now : ℕ → ℕ) (meanwhile : Queue → Queue)
    (ranged : IdsByState → IdsByState) where
  elim-Logged :
      (a : Option (Queue × List AckLog)) (state : JobState) (ids acked : List ℕ)
      (x : Option AckError)
      → All (IsIn ids) acked
      → Logged a
      → Logged (elim a [
        | none ↦ none
        | some (q'', logs) ↦ some (q'', ack_logs state ids acked x ++ logs)
      ])
  elim-Logged none state ids acked x h k = tt
  elim-Logged (some (q, logs)) state ids acked x h k =
      All-append (ack_logs state ids acked x) logs (ack_logs-IsFailure state ids acked x h) k

  elim-Acked :
      (a : Option (Queue × List ℕ × Option AckError))
      (f : Queue → List ℕ → Option AckError → Option (Queue × List AckLog)) (ids : List ℕ)
      → Answers ids a
      → ((q : Queue) (acked : List ℕ) (x : Option AckError)
          → All (IsIn ids) acked
          → Logged (f q acked x))
      → Logged (elim a [ none ↦ none | some (q', acked, x) ↦ f q' acked x ])
  elim-Acked none f ids h k = tt
  elim-Acked (some (q, acked, x)) f ids h k = k q acked x h

  acknowledge_all-Logged :
      (q : Queue) (groups : IdsByState)
      → Logged (acknowledge_all marshal now meanwhile ranged q groups)
  unfolding acknowledge_all
  acknowledge_all-Logged q [] = tt
  acknowledge_all-Logged q ((state, ids) ∷ rest) =
      elim-Acked (acknowledge marshal (meanwhile q) now state ids) _ ids
        (acknowledge-Answers marshal (meanwhile q) now state ids)
        (λ q' acked x h.
          elim-Logged (acknowledge_all marshal now meanwhile ranged q' rest) state ids acked x h
            (acknowledge_all-Logged q' rest))

  handled-LogsFailures :
      (h : List Replicator.Call) (count : ℕ) (a : Option (Queue × List AckLog))
      → Logged a
      → LogsFailures (handled marshal now meanwhile ranged h count a)
  unfolding handled
  handled-LogsFailures h count none l = tt
  handled-LogsFailures h count (some (q, logs)) l = l

  after_events-LogsFailures :
      (q : Queue) (count : ℕ) (h : List Replicator.Call) (groups : Option IdsByState)
      → LogsFailures (after_events marshal now meanwhile ranged q count (h, groups))
  unfolding after_events
  after_events-LogsFailures q count h none = tt
  after_events-LogsFailures q count h (some groups) =
      handled-LogsFailures h count (acknowledge_all marshal now meanwhile ranged q (ranged groups))
        (acknowledge_all-Logged q (ranged groups))

  handle_batch-LogsFailures :
      (n : Nodes) (w : Outside) (q : Queue) (h : List Replicator.Call)
      (events : Option (List ReplicationEvent))
      → LogsFailures (handle_batch marshal now meanwhile ranged n w q h events)
  unfolding handle_batch
  handle_batch-LogsFailures n w q h none = tt
  handle_batch-LogsFailures n w q h (some []) = tt
  handle_batch-LogsFailures n w q h (some (e ∷ es)) =
      let (calls, groups) = handle_events n w (e ∷ es) [] h in
      after_events-LogsFailures q (length (e ∷ es)) calls groups

-- With the queue in memory, whatever other callers do to it, and in whatever order the states come,
-- `handleNode` never logs that events
-- were not acknowledged, as `subtractUint64` takes the ids asked for away from the acknowledged ones.
pub differences_are_never_logged :
    (marshal : ReplicationJob → Option String) (now : ℕ → ℕ) (meanwhile : Queue → Queue)
    (ranged : IdsByState → IdsByState) (n : Nodes) (w : Outside) (q : Queue)
    (h : List Replicator.Call) (virtual_storage storage : String) (batch : ℕ)
    → LogsFailures (handle_node marshal now meanwhile ranged n w q h virtual_storage storage batch)
unfolding handle_node
differences_are_never_logged marshal now meanwhile ranged n w q h virtual_storage storage batch =
    let (q', events) = dequeue marshal (meanwhile q) now virtual_storage storage batch in
    handle_batch-LogsFailures marshal now meanwhile ranged n w q' h events
