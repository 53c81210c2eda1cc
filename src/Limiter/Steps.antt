-- ===== src/Limiter/Steps.antt =====
-- Each step of a call keeps the limiter consistent.
use gitally.Prelude.{
  ℕ, ◌+◌, ◌-◌, ◌<◌, ◌≡◌, ◌≢◌, refl, ap, String, Bool, true, false, Option, none, some, List, [],
  ◌∷◌, arith, All, All-map, sum_by, ltb, ◌==◌, eq_iff, eq_refl, Bool-cases, inl, inr,
}
use gitally.Limiter.{
  Limiter, write_object, write_key, lazy_create, set_object, get_semaphore, delete_key, put_at,
  put_semaphore, Phase, arrived, unlimited, gone, waiting, running, leaving, Call, Outcome, blocks,
  panics, moves, after_put, limit,
}
use gitally.Limiter.Invariant.{
  holds_phase, runs_phase, holds, runs, Points, PointsIn, IsConsistent, unheld, sum-runs-le-holds,
}

abbrev at : String → Phase → Call
at k ph = record { key = k; phase = ph }

Points-change :
    (o o' : Option ℕ) (ph : Phase)
    → ((q : ℕ) → o ≡ some q → o' ≡ some q)
    → Points o ph
    → Points o' ph
Points-change o o' (waiting q) f h = f q h
Points-change o o' (running q) f h = f q h
Points-change o o' (leaving q) f h = f q h
Points-change o o' arrived f h = tt
Points-change o o' unlimited f h = tt
Points-change o o' gone f h = tt

-- Without the key of a semaphore that nobody holds, the map points to all that is held.
deleted_elsewhere :
    (f : String → Option ℕ) (k : String) (p : ℕ) (j : String) (q : ℕ)
    → f k ≡ some p
    → (q ≡ p → ⊥)
    → f j ≡ some q
    → write_key k none f j ≡ some q
unfolding write_key
deleted_elsewhere f k p j q e n h = ground (arith, e, h, n, eq_iff j k, λ (g : j ≡ k). ap f g)

Points-deleted :
    (f : String → Option ℕ) (k : String) (p : ℕ) (j : String) (ph : Phase)
    → f k ≡ some p
    → holds_phase p ph ≡ 0
    → Points (f j) ph
    → Points (write_key k none f j) ph
Points-deleted f k p j (waiting q) e u h = deleted_elsewhere f k p j q e (λ g. ground (arith, u)) h
Points-deleted f k p j (running q) e u h = deleted_elsewhere f k p j q e (λ g. ground (arith, u)) h
Points-deleted f k p j (leaving q) e u h = deleted_elsewhere f k p j q e (λ g. ground (arith, u)) h
Points-deleted f k p j arrived e u h = tt
Points-deleted f k p j unlimited e u h = tt
Points-deleted f k p j gone e u h = tt

pointed-deleted :
    (f : String → Option ℕ) (k : String) (p : ℕ)
    → f k ≡ some p
    → (rest : List Call) → sum_by (holds p) rest ≡ 0
    → All (PointsIn f) rest
    → All (PointsIn (write_key k none f)) rest
pointed-deleted f k p e [] u h = tt
pointed-deleted f k p e (c ∷ cs) u h = (
  Points-deleted f k p c.key c.phase e (omega (arith, u)) h.0,
  pointed-deleted f k p e cs (omega (arith, u)) h.1,
)

module _ (max : ℕ) (l : Limiter) (k : String) (rest : List Call) where
  -- A call that holds nothing may be in any phase that holds nothing.
  idle-IsConsistent :
      (a b : Phase)
      → ((p : ℕ) → (holds_phase p a ≡ holds_phase p b) × (runs_phase p a ≡ runs_phase p b))
      → Points (l.semaphores k) b
      → IsConsistent max l (at k a ∷ rest)
      → IsConsistent max l (at k b ∷ rest)
  idle-IsConsistent a b same points c = record {
    counted = λ p. omega (arith, c.counted p, (same p).0);
    ran = λ p. omega (arith, c.ran p, (same p).1);
    bounded = c.bounded;
    pointed = (points, c.pointed.1);
    made = c.made;
    used = c.used;
    single = c.single;
  }

  -- `getSemaphore` where the key has a semaphore.
  shared-IsConsistent :
      (p : ℕ)
      → l.semaphores k ≡ some p
      → IsConsistent max l (at k arrived ∷ rest)
      → IsConsistent max
          (set_object l p (l.objects p).tokens ((l.objects p).count + 1))
          (at k (waiting p) ∷ rest)
  unfolding set_object write_object
  shared-IsConsistent p e c = record {
    counted = λ q. ground (arith, c.counted q, c.counted p);
    ran = λ q. ground (arith, c.ran q, c.ran p);
    bounded = λ q. ground (arith, c.bounded q, c.bounded p);
    pointed = (e, c.pointed.1);
    made = c.made;
    used = λ j q h. ground (arith, c.used j q h);
    single = c.single;
  }

  -- `getSemaphore` where it makes one.
  created-IsConsistent :
      l.semaphores k ≡ none
      → IsConsistent max l (at k arrived ∷ rest)
      → let l' = (lazy_create l k none).0 in
        IsConsistent max
          (set_object l' l.next (l'.objects l.next).tokens ((l'.objects l.next).count + 1))
          (at k (waiting l.next) ∷ rest)
  unfolding set_object write_object lazy_create write_key
  created-IsConsistent e c =
      let nobody : sum_by (holds l.next) rest ≡ 0 =
        unheld l.semaphores l.next rest c.pointed.1
          (λ j h. absurd (omega (arith, c.made j l.next h))) in
      let created_elsewhere : (j : String) (q : ℕ)
          → l.semaphores j ≡ some q
          → write_key k (some l.next) l.semaphores j ≡ some q =
        λ j q g. ground (arith, g, e, eq_iff j k, λ (h : j ≡ k). ap l.semaphores h) in
      let none_runs = sum-runs-le-holds l.next rest in
      record {
        counted = λ q.
            ground
              (arith, c.counted q, nobody, λ (e : q ≡ l.next). ap (λ p. sum_by (holds p) rest) e);
        ran = λ q. ground (
          arith,
          c.ran q,
          nobody,
          none_runs,
          λ (e : q ≡ l.next). ap (λ p. sum_by (runs p) rest) e,
        );
        bounded = λ q. ground (arith, c.bounded q);
        pointed = (
          ground (arith, eq_refl k),
          All-map (PointsIn l.semaphores) _
              (λ d h.
                Points-change (l.semaphores d.key) _ d.phase (λ q g. created_elsewhere d.key q g) h)
              rest c.pointed.1,
        );
        made = λ j q h. ground (arith, c.made j q, eq_iff j k);
        used = λ j q h. ground (arith, c.used j q, c.made j q, eq_iff j k);
        single = λ i j q h g.
            ground (arith, c.single i j q, c.made i q, c.made j q, eq_iff i k, eq_iff j k);
      }

  taken-IsConsistent :
      (p : ℕ)
      → (l.objects p).tokens < max
      → IsConsistent max l (at k (waiting p) ∷ rest)
      → IsConsistent max
          (set_object l p ((l.objects p).tokens + 1) (l.objects p).count)
          (at k (running p) ∷ rest)
  unfolding set_object write_object
  taken-IsConsistent p room c = record {
    counted = λ q. ground (arith, c.counted q, c.counted p);
    ran = λ q. ground (arith, c.ran q, c.ran p);
    bounded = λ q. ground (arith, c.bounded q, room);
    pointed = c.pointed;
    made = c.made;
    used = λ j q h. ground (arith, c.used j q h);
    single = c.single;
  }

  freed-IsConsistent :
      (p : ℕ)
      → IsConsistent max l (at k (running p) ∷ rest)
      → IsConsistent max
          (set_object l p ((l.objects p).tokens - 1) (l.objects p).count)
          (at k (leaving p) ∷ rest)
  unfolding set_object write_object
  freed-IsConsistent p c = record {
    counted = λ q. ground (arith, c.counted q, c.counted p);
    ran = λ q. ground (arith, c.ran q, c.ran p);
    bounded = λ q. ground (arith, c.bounded q, c.bounded p);
    pointed = c.pointed;
    made = c.made;
    used = λ j q h. ground (arith, c.used j q h);
    single = c.single;
  }

  -- `putSemaphore` where other calls hold the semaphore too.
  put_shared-IsConsistent :
      (p : ℕ)
      → l.semaphores k ≡ some p
      → (l.objects p).count ≢ 1
      → IsConsistent max l (at k (leaving p) ∷ rest)
      → IsConsistent max
          (set_object l p (l.objects p).tokens ((l.objects p).count - 1))
          (at k gone ∷ rest)
  unfolding set_object write_object
  put_shared-IsConsistent p e more c = record {
    counted = λ q. ground (arith, c.counted q, c.counted p);
    ran = λ q. ground (arith, c.ran q, c.ran p);
    bounded = λ q. ground (arith, c.bounded q, c.bounded p);
    pointed = (tt, c.pointed.1);
    made = c.made;
    used = λ j q h. ground (arith, c.used j q h, c.used k p e);
    single = c.single;
  }

  -- `putSemaphore` of the last call of a key.
  put_last-IsConsistent :
      (p : ℕ)
      → l.semaphores k ≡ some p
      → (l.objects p).count ≡ 1
      → IsConsistent max l (at k (leaving p) ∷ rest)
      → IsConsistent max
          (delete_key (set_object l p (l.objects p).tokens ((l.objects p).count - 1)) k)
          (at k gone ∷ rest)
  unfolding set_object write_object delete_key write_key
  put_last-IsConsistent p e last c =
      let unheld_rest : sum_by (holds p) rest ≡ 0 = ground (arith, c.counted p, last) in
      record {
        counted = λ q. ground (arith, c.counted q, c.counted p);
        ran = λ q. ground (arith, c.ran q, c.ran p);
        bounded = λ q. ground (arith, c.bounded q, c.bounded p);
        pointed = (tt, pointed-deleted l.semaphores k p e rest unheld_rest c.pointed.1);
        made = λ j q h. ground (arith, c.made j q, eq_iff j k);
        used = λ j q h. ground (arith, c.used j q, c.single j k p, eq_iff j k);
        single = λ i j q h g. ground (arith, c.single i j q, eq_iff i k, eq_iff j k);
      }

  -- A consistent limiter beside the call, unless the step panics.
  abbrev pub Keeps : Outcome → Type 0
  Keeps blocks = Unit
  Keeps panics = ⊥
  Keeps (moves l' ph) = IsConsistent max l' (at k ph ∷ rest)

  got-Keeps :
      (o : Option ℕ)
      → l.semaphores k ≡ o
      → IsConsistent max l (at k arrived ∷ rest)
      → let (l', p) = lazy_create l k o in
        Keeps (moves (set_object l' p (l'.objects p).tokens ((l'.objects p).count + 1)) (waiting p))
  unfolding lazy_create
  got-Keeps none e c = created-IsConsistent e c
  got-Keeps (some p) e c = shared-IsConsistent p e c

  put-Keeps :
      (p : ℕ)
      → IsConsistent max l (at k (leaving p) ∷ rest)
      → Keeps (after_put (put_at l k (some p)))
  unfolding after_put put_at
  put-Keeps p c =
      let e : l.semaphores k ≡ some p = c.pointed.0 in
      elim (Bool-cases ((l.objects p).count == 0)) [
        | inl z ↦ absurd (ground (arith, z, c.used k p e))
        | inr z ↦ rw z (elim (Bool-cases ((l.objects p).count == 1)) [
          | inl b ↦ rw b (put_last-IsConsistent p e (ground (arith, b)) c)
          | inr b ↦ rw b (put_shared-IsConsistent p e (ground (arith, b)) c)
        ])
      ]

  -- A step of `Limit` does not panic, and keeps the limiter consistent.
  pub limit-Keeps :
      (ph : Phase) (ctx_done : Bool)
      → IsConsistent max l (at k ph ∷ rest)
      → Keeps (limit max l k ph ctx_done)
  unfolding limit get_semaphore put_semaphore
  limit-Keeps arrived d c = elim (Bool-cases (max == 0)) [
    | inl b ↦ rw b (idle-IsConsistent arrived unlimited (λ p. (refl, refl)) tt c)
    | inr b ↦ rw b (got-Keeps (l.semaphores k) refl c)
  ]
  limit-Keeps (waiting p) true c =
      idle-IsConsistent (waiting p) (leaving p) (λ q. (refl, refl)) c.pointed.0 c
  limit-Keeps (waiting p) false c = elim (Bool-cases (ltb (l.objects p).tokens max)) [
    | inl b ↦ rw b (taken-IsConsistent p (ground (arith, b)) c)
    | inr b ↦ rw b tt
  ]
  limit-Keeps (running p) d c = elim (Bool-cases ((l.objects p).tokens == 0)) [
    | inl b ↦ rw b tt
    | inr b ↦ rw b (freed-IsConsistent p c)
  ]
  limit-Keeps (leaving p) d c = rw (c.pointed.0) (put-Keeps p c)
  limit-Keeps unlimited d c = idle-IsConsistent unlimited gone (λ p. (refl, refl)) tt c
  limit-Keeps gone d c = tt
