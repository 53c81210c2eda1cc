-- ===== src/Replication/Queue/Acknowledge/Answers.antt =====
-- Which ids `Acknowledge` answers with.
use gitally.Prelude.{
  ℕ, ◌≡◌, subst, String, true, ◌&&◌, Option, none, some, List, [], ◌∷◌, ◌++◌, arith, ◌==◌,
  Bool-cases, inl, inr, All, All-map,
}
use gitally.Replication.Types.{JobState, ReplicationJob, ReplicationEvent, allow_to_ack}
use gitally.Replication.Queue.{Queue, Lasts, has_id}
use gitally.Replication.Queue.Acknowledge.{
  AckError, Place, absent, found, behind, place, acked_event, is_in_progress, is_failed, Remains,
  Acked, close_round, ack_found, ack_place, ack_one, prepend_ids, ack_ids, acknowledge,
}

abbrev pub IsIn : List ℕ → ℕ → Type 0
IsIn ids id = has_id id ids ≡ true

-- A call that returns answers with ids that it was asked for.
abbrev pub Answers : List ℕ → Option (Queue × List ℕ × Option AckError) → Type 0
Answers ids none = Unit
Answers ids (some (q, done, x)) = All (IsIn ids) done

has_id-head : (id : ℕ) (ids : List ℕ) → IsIn (id ∷ ids) id
unfolding has_id
has_id-head id ids = ground arith

has_id-tail : (id i : ℕ) (ids : List ℕ) → IsIn ids i → IsIn (id ∷ ids) i
unfolding has_id
has_id-tail id i ids h = ground (arith, h)

All-append {ℓ κ} :
    {A : Type ℓ} (P : A → Type κ) (xs ys : List A) → All P xs → All P ys → All P (xs ++ ys)
All-append P [] ys h k = k
All-append P (x ∷ xs) ys h k = (h.0, All-append P xs ys h.1 k)

-- The event that is found has the number that is looked for.
abbrev HasNumber : ℕ → Place → Type 0
HasNumber id absent = Unit
HasNumber id (found before e after) = e.id ≡ id

place-HasNumber : (id : ℕ) (es : List ReplicationEvent) → HasNumber id (place id es)
unfolding place behind
place-HasNumber id [] = tt
place-HasNumber id (e ∷ es) = elim (Bool-cases (e.id == id)) [
  | inl b ↦ rw b (ground (arith, b))
  | inr b ↦ rw b (behind-HasNumber (place id es) (place-HasNumber id es))
]
  where
    behind-HasNumber : (p : Place) → HasNumber id p → HasNumber id (behind e p)
    behind-HasNumber absent h = h
    behind-HasNumber (found before x after) h = h

module _ (marshal : ReplicationJob → Option String) where
  close_round-Answers :
      (q : Queue) (state : JobState) (ls : Lasts) (before : List ReplicationEvent)
      (e : ReplicationEvent) (r : Option Remains)
      → Answers (e.id ∷ []) (close_round marshal q state ls before e r)
  unfolding close_round
  close_round-Answers q state ls before e none = tt
  close_round-Answers q state ls before e (some r) = elim (Bool-cases r.failed_at_json) [
    | inl j ↦ rw j tt
    | inr j ↦ rw j (has_id-head e.id [], tt)
  ]

  ack_found-Answers :
      (q : Queue) (state : JobState) (now : ℕ) (before : List ReplicationEvent)
      (e : ReplicationEvent) (after : List ReplicationEvent)
      → Answers (e.id ∷ []) (ack_found marshal q state now before e after)
  unfolding ack_found acked_event
  ack_found-Answers q state now before e after = elim (Bool-cases (is_in_progress e.state)) [
    | inr b ↦ rw b tt
    | inl b ↦ rw b (elim (Bool-cases (e.attempt == 0 && is_failed state)) [
      | inl z ↦ rw z tt
      | inr z ↦ rw z (close_round-Answers q state _ before (acked_event state now e) _)
    ])
  ]

  ack_place-Answers :
      (q : Queue) (state : JobState) (now : ℕ → ℕ) (id : ℕ) (p : Place)
      → HasNumber id p
      → Answers (id ∷ []) (ack_place marshal q state now p)
  unfolding ack_place
  ack_place-Answers q state now id absent h = tt
  ack_place-Answers q state now id (found before e after) h =
      subst (λ i. Answers (i ∷ []) (ack_found marshal q state (now e.id) before e after)) h
        (ack_found-Answers q state (now e.id) before e after)

  ack_one-Answers :
      (q : Queue) (state : JobState) (now : ℕ → ℕ) (id : ℕ)
      → Answers (id ∷ []) (ack_one marshal q state now id)
  unfolding ack_one
  ack_one-Answers q state now id = elim (Bool-cases (has_id id q.dequeued)) [
    | inr b ↦ rw b tt
    | inl b ↦
        rw b (ack_place-Answers q state now id (place id q.queued) (place-HasNumber id q.queued))
  ]

  widen : (id : ℕ) (ids done : List ℕ) → All (IsIn (id ∷ [])) done → All (IsIn (id ∷ ids)) done
  unfolding has_id
  widen id ids done h = All-map (IsIn (id ∷ [])) (IsIn (id ∷ ids)) (λ i k. ground (arith, k)) done h

  prepend_ids-Answers :
      (id : ℕ) (ids done : List ℕ) (a : Acked marshal)
      → All (IsIn (id ∷ [])) done
      → Answers ids a
      → Answers (id ∷ ids) (prepend_ids marshal done a)
  unfolding prepend_ids
  prepend_ids-Answers id ids done none h k = tt
  prepend_ids-Answers id ids done (some (q, rest, some x)) h k = tt
  prepend_ids-Answers id ids done (some (q, rest, none)) h k =
      All-append (IsIn (id ∷ ids)) done rest (widen id ids done h)
        (All-map (IsIn ids) (IsIn (id ∷ ids)) (λ i. has_id-tail id i ids) rest k)

  elim-Answers :
      (id : ℕ) (ids : List ℕ) (a : Acked marshal) (f : Queue → List ℕ → Acked marshal)
      → Answers (id ∷ []) a
      → ((q : Queue) (done : List ℕ) → All (IsIn (id ∷ [])) done → Answers (id ∷ ids) (f q done))
      → Answers (id ∷ ids) (elim a [
        | none ↦ none
        | some (q', done, some e) ↦ some (q', [], some e)
        | some (q', done, none) ↦ f q' done
      ])
  elim-Answers id ids none f h k = tt
  elim-Answers id ids (some (q, done, some e)) f h k = tt
  elim-Answers id ids (some (q, done, none)) f h k = k q done h

  ack_ids-Answers :
      (q : Queue) (state : JobState) (now : ℕ → ℕ) (ids : List ℕ)
      → Answers ids (ack_ids marshal q state now ids)
  unfolding ack_ids
  ack_ids-Answers q state now [] = tt
  ack_ids-Answers q state now (id ∷ ids) =
      elim-Answers id ids (ack_one marshal q state now id) _ (ack_one-Answers q state now id)
        (λ q' done h. prepend_ids-Answers id ids done _ h (ack_ids-Answers q' state now ids))

  pub acknowledge-Answers :
      (q : Queue) (now : ℕ → ℕ) (state : JobState) (ids : List ℕ)
      → Answers ids (acknowledge marshal q now state ids)
  unfolding acknowledge
  acknowledge-Answers q now state [] = tt
  acknowledge-Answers q now state (id ∷ ids) = elim (Bool-cases (allow_to_ack state)) [
    | inl b ↦ rw b (ack_ids-Answers q state now (id ∷ ids))
    | inr b ↦ rw b tt
  ]
