-- ===== src/Replication/Queue/Acknowledge/Duplicates.antt =====
-- How many duplicates of a completed job stay in the queue.
use gitally.Prelude.{
  ℕ, ◌+◌, ◌/◌, ◌≤◌, ◌≡◌, refl, ap, ◌∙◌, String, Bool, true, false, Option, some, List, [], ◌∷◌,
  arith, All, length, if◌then◌else◌, ltb, eq_refl,
}
use gitally.Replication.Types.{ReplicationJob, ReplicationEvent}
use gitally.Replication.Queue.Acknowledge.{
  remove_same, retain, remove_event, compare_keys, Likeness,
}

-- An event of the same job that was there before the dequeueing.
abbrev pub IsDuplicate : (ReplicationJob → Option String) → String → ℕ → ReplicationEvent → Type 0
IsDuplicate marshal key at e = (marshal e.job ≡ some key) × (e.created_at ≤ at)

compare_keys-same : (key : String) → compare_keys key (some key) ≡ Likeness.same_job
unfolding compare_keys
compare_keys-same key = rw (eq_refl key) refl

module _ (marshal : ReplicationJob → Option String) (key : String) (at : ℕ) where
  remove_same-first :
      (e : ReplicationEvent) (es : List ReplicationEvent)
      → IsDuplicate marshal key at e
      → remove_same marshal key at false (e ∷ es)
        ≡ remove_event e (remove_same marshal key at true es)
  unfolding remove_same remove_event
  remove_same-first e es (k, old) =
      let before : ltb at e.created_at ≡ false = ground (arith, old) in
      rw (before, remove_same) (rw (k, remove_same) (rw (compare_keys-same key) refl))

  removed :
      (e : ReplicationEvent) (es : List ReplicationEvent)
      → length (remove_same marshal key at true es).events ≡ (length es + 1) / 2
      → length (remove_event e (remove_same marshal key at true es)).events
        ≡ (length (e ∷ es) + 0) / 2
  unfolding remove_event
  removed e es h = omega (arith, h)

  -- Of the events behind a completed one that are its duplicates, one after the other, `Acknowledge`
  -- removes only every second: half of them stay in the queue, although all were there before the
  -- dequeueing.
  pub half_of_duplicates :
      (skipping : Bool) (es : List ReplicationEvent)
      → All (IsDuplicate marshal key at) es
      → length (remove_same marshal key at skipping es).events
        ≡ (length es + (if skipping then 1 else 0)) / 2
  unfolding remove_same retain
  half_of_duplicates true [] h = omega arith
  half_of_duplicates false [] h = omega arith
  half_of_duplicates true (e ∷ es) h = omega (arith, half_of_duplicates false es h.1)
  half_of_duplicates false (e ∷ es) h =
      ap (λ r. length r.events) (remove_same-first e es h.0)
      ∙ removed e es (half_of_duplicates true es h.1)
