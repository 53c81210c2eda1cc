-- ===== src/Replication/Queue/Acknowledge/Acks.antt =====
-- `Acknowledge` keeps the queue sound, and does not panic.
use gitally.Prelude.{
  ℕ, ◌≡◌, ◌≢◌, refl, String, Bool, true, false, not, ◌&&◌, Option, none, some, List, [], ◌∷◌, arith,
  All, Bool-cases, inl, inr, if◌then◌else◌, ltb, ◌==◌, subst,
}
use gitally.Replication.Types.{
  JobState, ready, in_progress, completed, cancelled, failed, dead, ReplicationJob,
  ReplicationEvent, allow_to_ack,
}
use gitally.Replication.Queue.{Queue, enqueue, dequeue, Lasts, has_id, new_queue}
use gitally.Replication.Queue.Acknowledge.{
  Place, absent, found, behind, place, acked_event, is_in_progress, is_failed, is_completed,
  is_final, Remains, retain, remove_event, Likeness, compare_keys, remove_same, remove_later, Acked,
  finish_event, close_round, ack_found, ack_place, ack_one, prepend_ids, ack_ids, acknowledge,
  AckError,
}
use gitally.Replication.Queue.Attempts.{
  HasAttempts, IsSound, IsSoundQueue, All-append, enqueue-IsSoundQueue, dequeue-IsSoundQueue,
  new_queue-IsSoundQueue,
}

abbrev AllPlace : Place → Type 0
AllPlace absent = Unit
AllPlace (found before e after) = All IsSound before × IsSound e × All IsSound after

behind-AllPlace :
    (e : ReplicationEvent) (p : Place) → IsSound e → AllPlace p → AllPlace (behind e p)
unfolding behind
behind-AllPlace e absent h k = tt
behind-AllPlace e (found before x after) h (a, b, c) = ((h, a), b, c)

place-AllPlace : (id : ℕ) (es : List ReplicationEvent) → All IsSound es → AllPlace (place id es)
unfolding place
place-AllPlace id [] h = tt
place-AllPlace id (e ∷ es) h = elim (Bool-cases (e.id == id)) [
  | inl b ↦ rw b (tt, h.0, h.1)
  | inr b ↦ rw b (behind-AllPlace e (place id es) h.0 (place-AllPlace id es h.1))
]

-- An acknowledged event is sound, as one without attempts is not acknowledged as failed.
acked_event-IsSound :
    (s state : JobState) (n now : ℕ) (at : Option ℕ)
    → allow_to_ack state ≡ true
    → is_in_progress s ≡ true
    → (n == 0 && is_failed state) ≡ false
    → HasAttempts s n at
    → HasAttempts state n (some now)
unfolding allow_to_ack is_in_progress is_failed
acked_event-IsSound s ready n now at a p z h = ground arith
acked_event-IsSound s in_progress n now at a p z h = ground arith
acked_event-IsSound in_progress failed n now at a p z h = (ground (arith, z), omega (arith, h.0))
acked_event-IsSound ready failed n now at a p z h = ground arith
acked_event-IsSound failed failed n now at a p z h = ground arith
acked_event-IsSound completed failed n now at a p z h = ground arith
acked_event-IsSound cancelled failed n now at a p z h = ground arith
acked_event-IsSound dead failed n now at a p z h = ground arith
acked_event-IsSound s completed n now at a p z h = tt
acked_event-IsSound s cancelled n now at a p z h = tt
acked_event-IsSound s dead n now at a p z h = tt

in_progress-time :
    (s : JobState) (n : ℕ) (at : Option ℕ)
    → is_in_progress s ≡ true
    → HasAttempts s n at
    → at ≢ none
unfolding is_in_progress
in_progress-time in_progress n at p h = h.1
in_progress-time ready n at p h = ground arith
in_progress-time failed n at p h = ground arith
in_progress-time completed n at p h = ground arith
in_progress-time cancelled n at p h = ground arith
in_progress-time dead n at p h = ground arith

-- The call returns, and leaves a sound queue.
abbrev pub Returns : Option (Queue × List ℕ × Option AckError) → Type 0
Returns none = ⊥
Returns (some (q, ids, e)) = IsSoundQueue q

abbrev Left : Option Remains → Type 0
Left none = ⊥
Left (some r) = All IsSound r.events

abbrev Remain : Remains → Type 0
Remain r = All IsSound r.events

elim-Likeness :
    (l : Likeness) (a b c : Remains)
    → Remain a
    → Remain b
    → Remain c
    → Remain (elim l [ Likeness.unknown ↦ a | Likeness.other_job ↦ b | Likeness.same_job ↦ c ])
elim-Likeness Likeness.unknown a b c x y z = x
elim-Likeness Likeness.other_job a b c x y z = y
elim-Likeness Likeness.same_job a b c x y z = z

elim-Before :
    (b : Bool) (x y : Remains) → Remain x → Remain y → Remain (elim b [ true ↦ x | false ↦ y ])
elim-Before true x y p q = p
elim-Before false x y p q = q

module _ (marshal : ReplicationJob → Option String) where
  remove_same-Remain :
      (key : String) (at : ℕ) (skipping : Bool) (es : List ReplicationEvent)
      → All IsSound es
      → Remain (remove_same marshal key at skipping es)
  unfolding remove_same retain remove_event
  remove_same-Remain key at skipping [] h = tt
  remove_same-Remain key at true (e ∷ es) h = (h.0, remove_same-Remain key at false es h.1)
  remove_same-Remain key at false (e ∷ es) h = elim-Before (ltb at e.created_at) _ _ h (
      elim-Likeness (compare_keys key (marshal e.job)) _ _ _ h
        (h.0, remove_same-Remain key at false es h.1) (remove_same-Remain key at true es h.1))

  remove_later-Left :
      (key : Option String) (at : Option ℕ) (es : List ReplicationEvent)
      → at ≢ none
      → All IsSound es
      → Left (remove_later marshal key at es)
  unfolding remove_later
  remove_later-Left none at es a h = h
  remove_later-Left (some key) at [] a h = tt
  remove_later-Left (some key) none (e ∷ es) a h = absurd (a refl)
  remove_later-Left (some key) (some at) (e ∷ es) a h = remove_same-Remain key at false (e ∷ es) h

  close_round-Returns :
      (q : Queue) (state : JobState) (ls : Lasts) (before : List ReplicationEvent)
      (e : ReplicationEvent) (r : Option Remains)
      → All IsSound before
      → IsSound e
      → Left r
      → Returns (close_round marshal q state ls before e r)
  unfolding close_round finish_event
  close_round-Returns q state ls before e none b h l = l
  close_round-Returns q state ls before e (some r) b h l = elim (Bool-cases r.failed_at_json) [
    | inl j ↦ rw j (All-append IsSound before (e ∷ r.events) b (h, l))
    | inr j ↦ rw j (elim (Bool-cases (is_final state)) [
      | inl f ↦ rw f (All-append IsSound before r.events b l)
      | inr f ↦ rw f (All-append IsSound before (e ∷ r.events) b (h, l))
    ])
  ]

  elim-Acked :
      (a : Acked marshal) (f : Queue → List ℕ → Acked marshal)
      → Returns a
      → ((q : Queue) (ids : List ℕ) → IsSoundQueue q → Returns (f q ids))
      → Returns (elim a [
        | none ↦ none
        | some (q', done, some e) ↦ some (q', [], some e)
        | some (q', done, none) ↦ f q' done
      ])
  elim-Acked none f h k = h
  elim-Acked (some (q, ids, some e)) f h k = h
  elim-Acked (some (q, ids, none)) f h k = k q ids h

  prepend_ids-Returns :
      (ids : List ℕ) (a : Acked marshal) → Returns a → Returns (prepend_ids marshal ids a)
  unfolding prepend_ids
  prepend_ids-Returns ids none h = h
  prepend_ids-Returns ids (some (q, rest, some e)) h = h
  prepend_ids-Returns ids (some (q, rest, none)) h = h

  module _ (state : JobState) (now : ℕ → ℕ) (allowed : allow_to_ack state ≡ true) where
    progressed-Returns :
        (q : Queue) (at : ℕ) (before : List ReplicationEvent) (e : ReplicationEvent)
        (after : List ReplicationEvent) (ls : Lasts) (fully : Bool)
        → is_in_progress e.state ≡ true
        → (e.attempt == 0 && is_failed state) ≡ false
        → IsSoundQueue q
        → All IsSound before × IsSound e × All IsSound after
        → Returns (
            close_round marshal q state ls before (acked_event state at e) (
              if fully
              then remove_later marshal (marshal e.job) e.updated_at after
              else some (record { events = after; removed = []; failed_at_json = false })))
    unfolding acked_event
    progressed-Returns q at before e after ls fully p z h (b, s, a) =
        let sound = acked_event-IsSound e.state state e.attempt at e.updated_at allowed p z s in
        close_round-Returns q state ls before (acked_event state at e) _ b sound
          (elim (Bool-cases fully) [
            | inl c ↦ rw c (
                remove_later-Left (marshal e.job) e.updated_at after
                  (in_progress-time e.state e.attempt e.updated_at p s) a)
            | inr c ↦ rw c a
          ])

    place-Returns :
        (q : Queue) (p : Place)
        → IsSoundQueue q
        → AllPlace p
        → Returns (ack_place marshal q state now p)
    unfolding ack_place ack_found
    place-Returns q absent h a = h
    place-Returns q (found before e after) h a = elim (Bool-cases (is_in_progress e.state)) [
      | inr b ↦ rw b h
      | inl b ↦ rw b (elim (Bool-cases (e.attempt == 0 && is_failed state)) [
        | inl z ↦ rw z h
        | inr z ↦
            rw z (progressed-Returns q (now e.id) before e after _ (is_completed state) b z h a)
      ])
    ]

    ack_one-Returns :
        (q : Queue) (id : ℕ) → IsSoundQueue q → Returns (ack_one marshal q state now id)
    unfolding ack_one
    ack_one-Returns q id h = elim (Bool-cases (not (has_id id q.dequeued))) [
      | inl b ↦ rw b h
      | inr b ↦ rw b (place-Returns q (place id q.queued) h (place-AllPlace id q.queued h))
    ]

    ack_ids-Returns :
        (q : Queue) (ids : List ℕ) → IsSoundQueue q → Returns (ack_ids marshal q state now ids)
    unfolding ack_ids
    ack_ids-Returns q [] h = h
    ack_ids-Returns q (id ∷ ids) h =
        elim-Acked (ack_one marshal q state now id) _ (ack_one-Returns q id h)
          (λ q' done h'. prepend_ids-Returns done _ (ack_ids-Returns q' ids h'))

  acknowledge-Returns :
      (q : Queue) (now : ℕ → ℕ) (state : JobState) (ids : List ℕ)
      → IsSoundQueue q
      → Returns (acknowledge marshal q now state ids)
  unfolding acknowledge
  acknowledge-Returns q now state [] h = h
  acknowledge-Returns q now state (id ∷ ids) h = elim (Bool-cases (allow_to_ack state)) [
    | inl b ↦ rw b (ack_ids-Returns state now b q (id ∷ ids) h)
    | inr b ↦ rw b h
  ]

  -- The calls of a queue, one after the other.
  pub data Calls : Queue → Type 0 where
    starts : Calls new_queue
    enqueues : (q : Queue) (now : ℕ) (e : ReplicationEvent) → Calls q → Calls (enqueue q now e).0
    dequeues :
        (q : Queue) (now : ℕ → ℕ) (vs ns : String) (count : ℕ)
        → Calls q
        → Calls (dequeue marshal q now vs ns count).0
    acknowledges :
        (q q' : Queue) (now : ℕ → ℕ) (state : JobState) (ids done : List ℕ) (e : Option AckError)
        → Calls q
        → acknowledge marshal q now state ids ≡ some (q', done, e)
        → Calls q'

  Calls-IsSoundQueue : {q : Queue} → Calls q → IsSoundQueue q
  Calls-IsSoundQueue Calls.starts = new_queue-IsSoundQueue
  Calls-IsSoundQueue (Calls.enqueues q now e c) =
      enqueue-IsSoundQueue q now e (Calls-IsSoundQueue c)
  Calls-IsSoundQueue (Calls.dequeues q now vs ns count c) =
      dequeue-IsSoundQueue marshal q now vs ns count (Calls-IsSoundQueue c)
  Calls-IsSoundQueue (Calls.acknowledges q q' now state ids done e c h) =
      subst Returns h (acknowledge-Returns q now state ids (Calls-IsSoundQueue c))

  -- After any calls, errors included, each event that waits in the queue has one to three attempts
  -- left, and each event in progress has at most two and a time of its dequeueing; so `Dequeue` never
  -- takes an attempt that is not there, and `Acknowledge` never reads a time that is not there, which
  -- would panic.
  pub queue_is_sound :
      (q : Queue) (now : ℕ → ℕ) (state : JobState) (ids : List ℕ)
      → Calls q
      → IsSoundQueue q × (acknowledge marshal q now state ids ≢ none)
  queue_is_sound q now state ids c =
      let sound = Calls-IsSoundQueue c in
      (sound, λ h. subst Returns h (acknowledge-Returns q now state ids sound))
