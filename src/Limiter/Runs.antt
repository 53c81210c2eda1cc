-- ===== src/Limiter/Runs.antt =====
-- The calls of `Limit` that run side by side, in any interleaving of their steps.
use gitally.Prelude.{
  ℕ, ◌≡◌, refl, sym, ◌∙◌, subst, String, Bool, List, [], ◌∷◌, ◌++◌, arith, sum_by-middle,
  All-middle, All-insert,
}
use gitally.Limiter.{Limiter, new_limiter, Phase, arrived, Call, moves, limit}
use gitally.Limiter.Invariant.{holds, runs, PointsIn, IsConsistent}
use gitally.Limiter.Steps.{Keeps, limit-Keeps}

pub record World : Type 0 where
  pub limiter : Limiter
  pub calls : List Call

-- A call arrives, or one of the calls makes a step.
pub data Step (max : ℕ) : World → World → Type 0 where
  arrives :
      (w : World) (k : String)
      → Step max w
          (record { limiter = w.limiter; calls = record { key = k; phase = arrived } ∷ w.calls })
  steps :
      (w w' : World) (xs : List Call) (c : Call) (ys : List Call) (ctx_done : Bool) (l' : Limiter)
      (ph : Phase)
      → w.calls ≡ xs ++ c ∷ ys
      → limit max w.limiter c.key c.phase ctx_done ≡ moves l' ph
      → w' ≡ record { limiter = l'; calls = xs ++ record { key = c.key; phase = ph } ∷ ys }
      → Step max w w'

pub data Reach (max : ℕ) : World → Type 0 where
  start : Reach max (record { limiter = new_limiter; calls = [] })
  later : (w w' : World) → Reach max w → Step max w w' → Reach max w'

pub front-IsConsistent :
    (max : ℕ) (l : Limiter) (xs : List Call) (c : Call) (ys : List Call)
    → IsConsistent max l (xs ++ c ∷ ys)
    → IsConsistent max l (c ∷ xs ++ ys)
front-IsConsistent max l xs c ys h = record {
  counted = λ p. h.counted p ∙ sum_by-middle (holds p) xs c ys;
  ran = λ p. h.ran p ∙ sum_by-middle (runs p) xs c ys;
  bounded = h.bounded;
  pointed = All-middle (PointsIn l.semaphores) xs c ys h.pointed;
  made = h.made;
  used = h.used;
  single = h.single;
}

back-IsConsistent :
    (max : ℕ) (l : Limiter) (xs : List Call) (c : Call) (ys : List Call)
    → IsConsistent max l (c ∷ xs ++ ys)
    → IsConsistent max l (xs ++ c ∷ ys)
back-IsConsistent max l xs c ys h = record {
  counted = λ p. h.counted p ∙ sym (sum_by-middle (holds p) xs c ys);
  ran = λ p. h.ran p ∙ sym (sum_by-middle (runs p) xs c ys);
  bounded = h.bounded;
  pointed = All-insert (PointsIn l.semaphores) xs c ys h.pointed.0 h.pointed.1;
  made = h.made;
  used = h.used;
  single = h.single;
}

abbrev IsConsistentWorld : ℕ → World → Type 0
IsConsistentWorld max w = IsConsistent max w.limiter w.calls

Step-IsConsistent :
    (max : ℕ) {w w' : World} → Step max w w' → IsConsistentWorld max w → IsConsistentWorld max w'
Step-IsConsistent max (Step.arrives w k) h = record {
  counted = λ p. omega (arith, h.counted p);
  ran = λ p. omega (arith, h.ran p);
  bounded = h.bounded;
  pointed = (tt, h.pointed);
  made = h.made;
  used = h.used;
  single = h.single;
}
Step-IsConsistent max (Step.steps w w' xs c ys d l' ph e q r) h =
    let here : IsConsistent max w.limiter (c ∷ xs ++ ys) =
      front-IsConsistent max w.limiter xs c ys (subst (IsConsistent max w.limiter) e h) in
    let kept : IsConsistent max l' (record { key = c.key; phase = ph } ∷ xs ++ ys) =
      subst (Keeps max w.limiter c.key (xs ++ ys)) q
        (limit-Keeps max w.limiter c.key (xs ++ ys) c.phase d here) in
    subst (IsConsistentWorld max) (sym r) (back-IsConsistent max l' xs _ ys kept)

new-IsConsistent : (max : ℕ) → IsConsistent max new_limiter []
unfolding new_limiter
new-IsConsistent max = record {
  counted = λ p. refl;
  ran = λ p. refl;
  bounded = λ p. omega arith;
  pointed = tt;
  made = λ k p e. cc;
  used = λ k p e. cc;
  single = λ j k p e f. cc;
}

pub Reach-IsConsistent : (max : ℕ) {w : World} → Reach max w → IsConsistentWorld max w
Reach-IsConsistent max Reach.start = new-IsConsistent max
Reach-IsConsistent max (Reach.later w w' r s) = Step-IsConsistent max s (Reach-IsConsistent max r)
