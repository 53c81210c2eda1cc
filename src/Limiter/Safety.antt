-- ===== src/Limiter/Safety.antt =====
-- What the limiter promises: no more than `max` functions of a key run, and nothing is left behind.
use gitally.Prelude.{
  ◌⊎◌, ℕ, ◌≤◌, ◌≡◌, ◌↔◌, refl, sym, ap, ◌∙◌, subst, String, Bool, true, false, Option, none, some,
  List, [], ◌∷◌, ◌++◌, arith, All, sum_by, sum_by-middle, ltb, ◌==◌, if◌then◌else◌, str_eq, eq_iff,
  Bool-cases, Option-cases, inl, inr,
}
use gitally.Limiter.{
  Limiter, Phase, arrived, unlimited, gone, waiting, running, leaving, Call, Outcome, blocks,
  panics, moves, limit, after_put, put_semaphore,
}
use gitally.Limiter.Invariant.{holds_phase, runs_phase, holds, runs, Points, PointsIn, IsConsistent}
use gitally.Limiter.Steps.{Keeps, limit-Keeps}
use gitally.Limiter.Runs.{World, Step, Reach, Reach-IsConsistent, front-IsConsistent}

-- 1 where a call of the key is in its function, and where it is between `getSemaphore` and
-- `putSemaphore`.
abbrev pub executing_phase : Phase → ℕ
executing_phase (running q) = 1
executing_phase unlimited = 1
executing_phase _ = 0

abbrev inside_phase : Phase → ℕ
inside_phase (waiting q) = 1
inside_phase (running q) = 1
inside_phase (leaving q) = 1
inside_phase _ = 0

abbrev pub executing : String → Call → ℕ
executing k c = if str_eq c.key k then executing_phase c.phase else 0

abbrev pub inside : String → Call → ℕ
inside k c = if str_eq c.key k then inside_phase c.phase else 0

abbrev free_phase : Phase → ℕ
free_phase unlimited = 1
free_phase _ = 0

abbrev free : Call → ℕ
free c = free_phase c.phase

limited_step :
    (max : ℕ) (l l' : Limiter) (k : String) (ph ph' : Phase) (d : Bool)
    → 1 ≤ max
    → limit max l k ph d ≡ moves l' ph'
    → free_phase ph' ≡ 0
unfolding limit after_put
limited_step max l l' k arrived ph' d m e = ground arith
limited_step max l l' k (waiting p) ph' true m e = ground arith
limited_step max l l' k (waiting p) ph' false m e = ground arith
limited_step max l l' k (running p) ph' d m e = ground arith
limited_step max l l' k (leaving p) ph' d m e = ground arith
limited_step max l l' k unlimited ph' d m e = ground arith
limited_step max l l' k gone ph' d m e = ground arith

no_call_is_free : (max : ℕ) {w : World} → 1 ≤ max → Reach max w → sum_by free w.calls ≡ 0
no_call_is_free max m Reach.start = refl
no_call_is_free max m (Reach.later w w' r (Step.arrives _ k)) =
    omega (arith, no_call_is_free max m r)
no_call_is_free max m (Reach.later w w' r (Step.steps _ _ xs c ys d l' ph e q eq)) =
    let before : sum_by free (xs ++ c ∷ ys) ≡ 0 =
      subst (λ cs. sum_by free cs ≡ 0) e (no_call_is_free max m r) in
    let after : sum_by free (xs ++ record { key = c.key; phase = ph } ∷ ys) ≡ 0 = omega (
      arith,
      before,
      sum_by-middle free xs c ys,
      sum_by-middle free xs (record { key = c.key; phase = ph }) ys,
      limited_step max w.limiter l' c.key c.phase ph d m q,
    ) in
    subst (λ v. sum_by free v.calls ≡ 0) (sym eq) after

-- A call of the key that runs has a token of the key's semaphore, and no other call has one.
executing-runs :
    (f : String → Option ℕ) (k : String) (p : ℕ) (j : String) (ph : Phase)
    → f k ≡ some p
    → ((q : ℕ) → f j ≡ some q → q ≡ p → j ≡ k)
    → Points (f j) ph
    → free_phase ph ≡ 0
    → (if str_eq j k then executing_phase ph else 0) ≡ runs_phase p ph
executing-runs f k p j (running q) e s h n =
    ground (arith, eq_iff j k, e, h, s q h, λ (g : j ≡ k). ap f g)
executing-runs f k p j (waiting q) e s h n = ground arith
executing-runs f k p j (leaving q) e s h n = ground arith
executing-runs f k p j arrived e s h n = ground arith
executing-runs f k p j gone e s h n = ground arith
executing-runs f k p j unlimited e s h n = ground arith

inside-holds :
    (f : String → Option ℕ) (k : String) (p : ℕ) (j : String) (ph : Phase)
    → f k ≡ some p
    → ((q : ℕ) → f j ≡ some q → q ≡ p → j ≡ k)
    → Points (f j) ph
    → (if str_eq j k then inside_phase ph else 0) ≡ holds_phase p ph
inside-holds f k p j (running q) e s h =
    ground (arith, eq_iff j k, e, h, s q h, λ (g : j ≡ k). ap f g)
inside-holds f k p j (waiting q) e s h =
    ground (arith, eq_iff j k, e, h, s q h, λ (g : j ≡ k). ap f g)
inside-holds f k p j (leaving q) e s h =
    ground (arith, eq_iff j k, e, h, s q h, λ (g : j ≡ k). ap f g)
inside-holds f k p j arrived e s h = ground arith
inside-holds f k p j gone e s h = ground arith
inside-holds f k p j unlimited e s h = ground arith

nobody_inside :
    (f : String → Option ℕ) (k j : String) (ph : Phase)
    → f k ≡ none
    → Points (f j) ph
    → (if str_eq j k then inside_phase ph else 0) ≡ 0
nobody_inside f k j (running q) e h = ground (arith, eq_iff j k, e, h, λ (g : j ≡ k). ap f g)
nobody_inside f k j (waiting q) e h = ground (arith, eq_iff j k, e, h, λ (g : j ≡ k). ap f g)
nobody_inside f k j (leaving q) e h = ground (arith, eq_iff j k, e, h, λ (g : j ≡ k). ap f g)
nobody_inside f k j arrived e h = ground arith
nobody_inside f k j gone e h = ground arith
nobody_inside f k j unlimited e h = ground arith

module _ (f : String → Option ℕ) (k : String) where
  nobody-inside : (cs : List Call) → f k ≡ none → All (PointsIn f) cs → sum_by (inside k) cs ≡ 0
  nobody-inside [] e h = refl
  nobody-inside (c ∷ cs) e h =
      omega (arith, nobody_inside f k c.key c.phase e h.0, nobody-inside cs e h.1)

  module _ (p : ℕ) (e : f k ≡ some p) (single : (j : String) → f j ≡ some p → j ≡ k) where
    only : (j : String) (q : ℕ) → f j ≡ some q → q ≡ p → j ≡ k
    only j q g h = single j (g ∙ ap some h)

    sum-executing :
        (cs : List Call)
        → All (PointsIn f) cs
        → sum_by free cs ≡ 0
        → sum_by (executing k) cs ≡ sum_by (runs p) cs
    sum-executing [] h n = refl
    sum-executing (c ∷ cs) h n = omega (
      arith,
      executing-runs f k p c.key c.phase e (only c.key) h.0 (omega (arith, n)),
      sum-executing cs h.1 (omega (arith, n)),
    )

    sum-inside : (cs : List Call) → All (PointsIn f) cs → sum_by (inside k) cs ≡ sum_by (holds p) cs
    sum-inside [] h = refl
    sum-inside (c ∷ cs) h =
        omega (arith, inside-holds f k p c.key c.phase e (only c.key) h.0, sum-inside cs h.1)

executing-le-inside_phase : (ph : Phase) → free_phase ph ≡ 0 → executing_phase ph ≤ inside_phase ph
executing-le-inside_phase ph h = ground arith

executing-le-inside :
    (k : String) (cs : List Call)
    → sum_by free cs ≡ 0
    → sum_by (executing k) cs ≤ sum_by (inside k) cs
executing-le-inside k [] n = omega arith
executing-le-inside k (c ∷ cs) n =
    let here : executing k c ≤ inside k c =
      ground (arith, executing-le-inside_phase c.phase (omega (arith, n))) in
    omega (arith, here, executing-le-inside k cs (omega (arith, n)))

-- With a positive limit, no more than `max` calls of one key run their functions at a time, whatever
-- calls arrive, wait, end and are canceled.
pub concurrency_is_bounded :
    (max : ℕ) (w : World) (k : String) → 1 ≤ max → Reach max w → sum_by (executing k) w.calls ≤ max
concurrency_is_bounded max w k m r =
    let c = Reach-IsConsistent max r in
    let free_of = no_call_is_free max m r in
    elim (Option-cases (w.limiter.semaphores k)) [
      | inl e ↦ omega (
        arith,
        executing-le-inside k w.calls free_of,
        nobody-inside w.limiter.semaphores k w.calls e c.pointed,
      )
      | inr (p, e) ↦ omega (
        arith,
        sum-executing w.limiter.semaphores k p e (λ j h. c.single j k p h e) w.calls c.pointed
            free_of,
        c.ran p,
        c.bounded p,
      )
    ]

-- The map holds a semaphore exactly for the keys that a call has got one for and has not yet put back:
-- nothing leaks, and nothing is dropped while it is used.
pub semaphores_are_released :
    (max : ℕ) (w : World) (k : String)
    → Reach max w
    → (w.limiter.semaphores k ≡ none) ↔ (sum_by (inside k) w.calls ≡ 0)
semaphores_are_released max w k r =
    let c = Reach-IsConsistent max r in
    (
      λ e. nobody-inside w.limiter.semaphores k w.calls e c.pointed,
      λ z. elim (Option-cases (w.limiter.semaphores k)) [
        | inl e ↦ e
        | inr (p, e) ↦ absurd (
            omega (
              arith,
              z,
              sum-inside w.limiter.semaphores k p e (λ j h. c.single j k p h e) w.calls c.pointed,
              c.counted p,
              c.used k p e,
            ))
      ],
    )

-- A step that does not panic, and blocks only for a call that is over or behind a full key.
abbrev pub Progresses : ℕ → World → String → Phase → Outcome → Type 0
Progresses max w k ph panics = ⊥
Progresses max w k ph blocks = (ph ≡ gone) ⊎ (sum_by (executing k) w.calls ≡ max)
Progresses max w k ph (moves l' ph') = Unit {0}

put-Progresses :
    (max : ℕ) (w : World) (k : String) (rest : List Call) (ph : Phase) (o : Option Limiter)
    → Keeps max w.limiter k rest (after_put o)
    → Progresses max w k ph (after_put o)
unfolding after_put
put-Progresses max w k rest ph none h = h
put-Progresses max w k rest ph (some l) h = tt

phase-Progresses :
    (max : ℕ) (w : World) (k : String) (rest : List Call) (ph : Phase) (d : Bool)
    → 1 ≤ max
    → IsConsistent max w.limiter w.calls
    → sum_by free w.calls ≡ 0
    → IsConsistent max w.limiter (record { key = k; phase = ph } ∷ rest)
    → Progresses max w k ph (limit max w.limiter k ph d)
unfolding limit
phase-Progresses max w k rest arrived d m c n h = elim (Bool-cases (max == 0)) [
  | inl b ↦ rw b tt
  | inr b ↦ rw b tt
]
phase-Progresses max w k rest (waiting p) true m c n h = tt
phase-Progresses max w k rest (waiting p) false m c n h =
    let e : w.limiter.semaphores k ≡ some p = h.pointed.0 in
    let full =
      sum-executing w.limiter.semaphores k p e (λ j g. c.single j k p g e) w.calls c.pointed n in
    elim (Bool-cases (ltb (w.limiter.objects p).tokens max)) [
      | inl b ↦ rw b tt
      | inr b ↦ rw b (inr (ground (arith, b, full, c.ran p, c.bounded p)))
    ]
phase-Progresses max w k rest (running p) d m c n h =
    elim (Bool-cases ((w.limiter.objects p).tokens == 0)) [
      | inl b ↦ absurd (ground (arith, b, h.ran p))
      | inr b ↦ rw b tt
    ]
phase-Progresses max w k rest (leaving p) d m c n h =
    put-Progresses max w k rest (leaving p) (put_semaphore w.limiter k)
      (unfold limit in limit-Keeps max w.limiter k rest (leaving p) d h)
phase-Progresses max w k rest unlimited d m c n h = tt
phase-Progresses max w k rest gone d m c n h = inl refl

-- With a positive limit, no step of a call panics; and a step blocks only when the call is over, or
-- when `max` functions of its key run.
pub calls_progress :
    (max : ℕ) (w : World) (xs : List Call) (c : Call) (ys : List Call) (ctx_done : Bool)
    → 1 ≤ max
    → Reach max w
    → w.calls ≡ xs ++ c ∷ ys
    → Progresses max w c.key c.phase (limit max w.limiter c.key c.phase ctx_done)
calls_progress max w xs c ys d m r e =
    let h = Reach-IsConsistent max r in
    phase-Progresses max w c.key (xs ++ ys) c.phase d m h (no_call_is_free max m r)
      (front-IsConsistent max w.limiter xs c ys (subst (IsConsistent max w.limiter) e h))
