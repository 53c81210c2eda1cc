-- ===== src/Limiter/Refinement.antt =====
-- The limiter is a counting semaphore for each key.
use gitally.Prelude.{
  ◌⊎◌, ◌≢◌, ℕ, suc, ◌+◌, ◌<◌, ◌≤◌, ◌≡◌, refl, sym, ap, ◌∙◌, subst, String, List, ◌∷◌, ◌++◌, arith,
  sum_by, sum_by-middle, str_eq, eq_iff, eq_refl, Bool-cases, inl, inr,
}
use gitally.Limiter.{Phase, arrived, unlimited, gone, waiting, running, leaving, Call}
use gitally.Limiter.Runs.{World, Step, Reach}
use gitally.Limiter.Safety.{executing_phase, executing, concurrency_is_bounded}

-- A step of the semaphores, of which each has at most `max` holders: nothing changes, or one key gets
-- a holder, or one key loses one.
pub data SemaphoreStep (max : ℕ) (n n' : String → ℕ) : Type 0 where
  stays : ((j : String) → n' j ≡ n j) → SemaphoreStep max n n'
  begins :
      (k : String)
      → n k < max
      → n' k ≡ suc (n k)
      → ((j : String) → j ≢ k → n' j ≡ n j)
      → SemaphoreStep max n n'
  ends :
      (k : String) → n k ≡ suc (n' k) → ((j : String) → j ≢ k → n' j ≡ n j) → SemaphoreStep max n n'

-- The holders are the calls in their functions.
abbrev pub holders : World → String → ℕ
holders w k = sum_by (executing k) w.calls

zero_or_one : (a : Phase) → (executing_phase a ≡ 0) ⊎ (executing_phase a ≡ 1)
zero_or_one (running p) = inr refl
zero_or_one unlimited = inr refl
zero_or_one arrived = inl refl
zero_or_one gone = inl refl
zero_or_one (waiting p) = inl refl
zero_or_one (leaving p) = inl refl

executing_phase-cases :
    (a b : Phase)
    → (executing_phase b ≡ executing_phase a)
      ⊎ (executing_phase b ≡ suc (executing_phase a))
      ⊎ (executing_phase a ≡ suc (executing_phase b))
executing_phase-cases a b = elim (zero_or_one a) [
  | inl p ↦ elim (zero_or_one b) [
    | inl q ↦ inl (omega (arith, p, q))
    | inr q ↦ inr (inl (omega (arith, p, q)))
  ]
  | inr p ↦ elim (zero_or_one b) [
    | inl q ↦ inr (inr (omega (arith, p, q)))
    | inr q ↦ inl (omega (arith, p, q))
  ]
]

executing-same :
    (k : String) (ph : Phase) → executing k (record { key = k; phase = ph }) ≡ executing_phase ph
executing-same k ph = rw (eq_refl k) refl

executing-other :
    (j k : String) (ph : Phase) → j ≢ k → executing j (record { key = k; phase = ph }) ≡ 0
executing-other j k ph d = ground (arith, eq_iff k j, d)

-- One call among others goes on to another phase.
moved :
    (k : String) (ph ph' : Phase) (xs ys : List Call) (j : String)
    → (j ≢ k
        → sum_by (executing j) (xs ++ record { key = k; phase = ph' } ∷ ys)
          ≡ sum_by (executing j) (xs ++ record { key = k; phase = ph } ∷ ys))
moved k ph ph' xs ys j d = omega (
  arith,
  sum_by-middle (executing j) xs (record { key = k; phase = ph }) ys,
  sum_by-middle (executing j) xs (record { key = k; phase = ph' }) ys,
  executing-other j k ph d,
  executing-other j k ph' d,
)

own :
    (k : String) (ph : Phase) (xs ys : List Call)
    → sum_by (executing k) (xs ++ record { key = k; phase = ph } ∷ ys)
      ≡ executing_phase ph + sum_by (executing k) (xs ++ ys)
own k ph xs ys =
    omega (
      arith,
      sum_by-middle (executing k) xs (record { key = k; phase = ph }) ys,
      executing-same k ph,
    )

-- With a positive limit, each step of any call from a state that calls have led to is a step of the
-- semaphores, whose holders are the calls in their functions; at first there is none.
pub limiter_refines :
    (max : ℕ) (w w' : World)
    → 1 ≤ max
    → Reach max w
    → Step max w w'
    → SemaphoreStep max (holders w) (holders w')
limiter_refines max w w' m r (Step.arrives _ k) = SemaphoreStep.stays (λ j. ground arith)
limiter_refines max w w' m r (Step.steps _ _ xs c ys d l' ph e q eq) =
    let before : (j : String) → holders w j ≡ sum_by (executing j) (xs ++ c ∷ ys) =
      λ j. ap (sum_by (executing j)) e in
    let after : (j : String)
        → holders w' j ≡ sum_by (executing j) (xs ++ record { key = c.key; phase = ph } ∷ ys) =
      λ j. ap (λ v. holders v j) eq in
    let others : (j : String) → j ≢ c.key → holders w' j ≡ holders w j =
      λ j g. after j ∙ moved c.key c.phase ph xs ys j g ∙ sym (before j) in
    let mine = before c.key ∙ own c.key c.phase xs ys in
    let mine' = after c.key ∙ own c.key ph xs ys in
    let bound =
      concurrency_is_bounded max w' c.key m
        (Reach.later w w' r (Step.steps w w' xs c ys d l' ph e q eq)) in
    elim (executing_phase-cases c.phase ph) [
      | inl same ↦ SemaphoreStep.stays (λ j. elim (Bool-cases (str_eq j c.key)) [
        | inl b ↦
            subst (λ i. holders w' i ≡ holders w i) (sym ((eq_iff j c.key).0 b))
              (omega (arith, mine, mine', same))
        | inr b ↦ others j (λ g. ground (arith, b, g, eq_iff j c.key))
      ])
      | inr (inl more) ↦
          SemaphoreStep.begins c.key (omega (arith, mine, mine', more, bound))
            (omega (arith, mine, mine', more)) others
      | inr (inr less) ↦ SemaphoreStep.ends c.key (omega (arith, mine, mine', less)) others
    ]
