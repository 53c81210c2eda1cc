-- ===== src/Replication/Queue/Attempts.antt =====
-- No call brings the attempts of an event below 0, and no call reads a time that is not there.
use gitally.Prelude.{
  ℕ, ◌+◌, ◌-◌, ◌≤◌, ◌≡◌, ◌≢◌, refl, String, Bool, true, false, Option, none, some, List, [], ◌∷◌,
  ◌++◌, arith, All, leb,
}
use gitally.Replication.Types.{
  JobState, ready, in_progress, completed, cancelled, failed, dead, ReplicationJob,
  ReplicationEvent,
}
use gitally.Replication.Queue.{
  Queue, new_queue, ready_event, enqueue, is_ready_or_failed, Visit, taken_event, Dequeued, keep,
  return, halt, visit, dequeue_loop, dequeue, Lasts,
}

-- An event that waits has attempts left, one in progress has a time; there are at most 3 attempts.
abbrev pub HasAttempts : JobState → ℕ → Option ℕ → Type 0
HasAttempts ready n at = (1 ≤ n) × (n ≤ 3)
HasAttempts failed n at = (1 ≤ n) × (n ≤ 3)
HasAttempts in_progress n at = (n ≤ 2) × (at ≢ none)
HasAttempts _ n at = Unit

abbrev pub IsSound : ReplicationEvent → Type 0
IsSound e = HasAttempts e.state e.attempt e.updated_at

abbrev pub IsSoundQueue : Queue → Type 0
IsSoundQueue q = All IsSound q.queued

pub All-append :
    (P : ReplicationEvent → Type 0) (xs ys : List ReplicationEvent)
    → All P xs
    → All P ys
    → All P (xs ++ ys)
All-append P [] ys h k = k
All-append P (x ∷ xs) ys h k = (h.0, All-append P xs ys h.1 k)

pub new_queue-IsSoundQueue : IsSoundQueue new_queue
unfolding new_queue
new_queue-IsSoundQueue = tt

pub enqueue-IsSoundQueue :
    (q : Queue) (now : ℕ) (e : ReplicationEvent) → IsSoundQueue q → IsSoundQueue (enqueue q now e).0
unfolding enqueue ready_event
enqueue-IsSoundQueue q now e h = All-append IsSound q.queued _ h ((omega arith, omega arith), tt)

waiting-taken :
    (s : JobState) (n now : ℕ) (at : Option ℕ)
    → is_ready_or_failed s ≡ true
    → HasAttempts s n at
    → HasAttempts in_progress (n - 1) (some now)
unfolding is_ready_or_failed
waiting-taken ready n now at w h = (omega (arith, h.1), λ e. ground arith)
waiting-taken failed n now at w h = (omega (arith, h.1), λ e. ground arith)
waiting-taken in_progress n now at w h = ground arith
waiting-taken completed n now at w h = ground arith
waiting-taken cancelled n now at w h = ground arith
waiting-taken dead n now at w h = ground arith

abbrev IsSoundLoop : Dequeued → Type 0
IsSoundLoop d = All IsSound d.queued

pub elim-Visit :
    (P : Dequeued → Type 0) (v : Visit) (a b : Dequeued) (f : String → Dequeued)
    → (v ≡ Visit.skips → P a)
    → (v ≡ Visit.fails → P b)
    → ((k : String) → v ≡ Visit.takes k → P (f k))
    → P (elim v [ Visit.skips ↦ a | Visit.fails ↦ b | Visit.takes k ↦ f k ])
elim-Visit P Visit.skips a b f p q r = p refl
elim-Visit P Visit.fails a b f p q r = q refl
elim-Visit P (Visit.takes k) a b f p q r = r k refl

pub elim-Bool :
    (P : Dequeued → Type 0) (b : Bool) (x y : Dequeued)
    → P x
    → P y
    → P (elim b [ true ↦ x | false ↦ y ])
elim-Bool P true x y p q = p
elim-Bool P false x y p q = q

module _ (marshal : ReplicationJob → Option String) where
  visit-waits :
      (vs ns : String) (seen : List String) (e : ReplicationEvent) (k : String)
      → visit marshal vs ns seen e ≡ Visit.takes k
      → is_ready_or_failed e.state ≡ true
  unfolding visit
  visit-waits vs ns seen e k h = ground arith

  dequeue_loop-IsSound :
      (now : ℕ → ℕ) (vs ns : String) (count : ℕ) (seen : List String) (taken : ℕ) (ids : List ℕ)
      (ls : Lasts) (es : List ReplicationEvent)
      → All IsSound es
      → All IsSound (dequeue_loop marshal now vs ns count seen taken ids ls es).queued
  unfolding dequeue_loop keep return halt taken_event
  dequeue_loop-IsSound now vs ns count seen taken ids ls [] h = tt
  dequeue_loop-IsSound now vs ns count seen taken ids ls (e ∷ es) h =
      elim-Visit IsSoundLoop (visit marshal vs ns seen e) _ _ _
        (λ q. (h.0, dequeue_loop-IsSound now vs ns count seen taken ids ls es h.1)) (λ q. h)
        (λ k q. (
          waiting-taken e.state e.attempt (now e.id) e.updated_at (visit-waits vs ns seen e k q)
              h.0,
          elim-Bool IsSoundLoop (leb count (taken + 1)) _ _ h.1
              (dequeue_loop-IsSound now vs ns count (k ∷ seen) (taken + 1) _ _ es h.1),
        ))

  pub dequeue-IsSoundQueue :
      (q : Queue) (now : ℕ → ℕ) (vs ns : String) (count : ℕ)
      → IsSoundQueue q
      → IsSoundQueue (dequeue marshal q now vs ns count).0
  unfolding dequeue
  dequeue-IsSoundQueue q now vs ns count h =
      dequeue_loop-IsSound now vs ns count [] 0 _ _ q.queued h
