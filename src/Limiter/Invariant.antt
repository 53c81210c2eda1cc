-- ===== src/Limiter/Invariant.antt =====
-- Counts, tokens and pointers of the semaphores agree with where the calls stand.
use gitally.Prelude.{
  ℕ, ◌≤◌, ◌<◌, ◌≡◌, ◌≢◌, refl, String, Option, some, List, [], ◌∷◌, arith, All, sum_by, ◌==◌,
  if◌then◌else◌,
}
use gitally.Limiter.{Limiter, Phase, arrived, unlimited, gone, waiting, running, leaving, Call}

-- 1 where a call holds the pointer, and where it holds a token of it.
abbrev pub holds_phase : ℕ → Phase → ℕ
holds_phase p (waiting q) = if q == p then 1 else 0
holds_phase p (running q) = if q == p then 1 else 0
holds_phase p (leaving q) = if q == p then 1 else 0
holds_phase p _ = 0

abbrev pub runs_phase : ℕ → Phase → ℕ
runs_phase p (running q) = if q == p then 1 else 0
runs_phase p _ = 0

abbrev pub holds : ℕ → Call → ℕ
holds p c = holds_phase p c.phase

abbrev pub runs : ℕ → Call → ℕ
runs p c = runs_phase p c.phase

-- The map still points to the semaphore that a call holds.
abbrev pub Points : Option ℕ → Phase → Type 0
Points o (waiting q) = o ≡ some q
Points o (running q) = o ≡ some q
Points o (leaving q) = o ≡ some q
Points o _ = Unit

abbrev pub PointsIn : (String → Option ℕ) → Call → Type 0
PointsIn f c = Points (f c.key) c.phase

pub record IsConsistent (max : ℕ) (l : Limiter) (calls : List Call) : Type 0 where
  pub counted : (p : ℕ) → (l.objects p).count ≡ sum_by (holds p) calls
  pub ran : (p : ℕ) → (l.objects p).tokens ≡ sum_by (runs p) calls
  pub bounded : (p : ℕ) → (l.objects p).tokens ≤ max
  pub pointed : All (PointsIn l.semaphores) calls
  pub made : (k : String) (p : ℕ) → l.semaphores k ≡ some p → p < l.next
  pub used : (k : String) (p : ℕ) → l.semaphores k ≡ some p → 1 ≤ (l.objects p).count
  pub single : (j k : String) (p : ℕ) → l.semaphores j ≡ some p → l.semaphores k ≡ some p → j ≡ k

Points-holds : (o : Option ℕ) (p : ℕ) (ph : Phase) → Points o ph → o ≢ some p → holds_phase p ph ≡ 0
Points-holds o p (waiting q) h n = ground (arith, h, n)
Points-holds o p (running q) h n = ground (arith, h, n)
Points-holds o p (leaving q) h n = ground (arith, h, n)
Points-holds o p arrived h n = refl
Points-holds o p unlimited h n = refl
Points-holds o p gone h n = refl

-- Nobody holds a pointer that is nowhere in the map.
pub unheld :
    (f : String → Option ℕ) (p : ℕ) (calls : List Call)
    → All (PointsIn f) calls
    → ((k : String) → f k ≢ some p)
    → sum_by (holds p) calls ≡ 0
unheld f p [] h n = refl
unheld f p (c ∷ cs) h n =
    omega (arith, Points-holds (f c.key) p c.phase h.0 (n c.key), unheld f p cs h.1 n)

runs-le-holds : (p : ℕ) (ph : Phase) → runs_phase p ph ≤ holds_phase p ph
runs-le-holds p ph = ground arith

pub sum-runs-le-holds : (p : ℕ) (calls : List Call) → sum_by (runs p) calls ≤ sum_by (holds p) calls
sum-runs-le-holds p [] = omega arith
sum-runs-le-holds p (c ∷ cs) = omega (arith, runs-le-holds p c.phase, sum-runs-le-holds p cs)
