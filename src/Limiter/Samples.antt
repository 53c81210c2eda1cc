-- ===== src/Limiter/Samples.antt =====
-- One call of a key that runs under a limit of one, and a second one behind it.
use gitally.Prelude.{◌≡◌, ◌↔◌, refl, false, none, List, [], ◌∷◌, arith, sum_by}
use gitally.Limiter.{
  Limiter, new_limiter, get_semaphore, lazy_create, set_object, Phase, arrived, waiting, running,
  Call, limit,
}
use gitally.Limiter.Runs.{World, Step, Reach}
use gitally.Limiter.Safety.{inside, semaphores_are_released, Progresses, calls_progress}
use gitally.Limiter.Refinement.{SemaphoreStep, holders, limiter_refines}

abbrev call : Phase → Call
call ph = record { key = "repo"; phase = ph }

abbrev got : Limiter
got = (get_semaphore new_limiter "repo").0

abbrev taken : Limiter
taken = set_object got 0 1 1

abbrev world : Limiter → List Call → World
world l cs = record { limiter = l; calls = cs }

one_waits : Reach 1 (world got (call (waiting 0) ∷ []))
unfolding limit get_semaphore lazy_create new_limiter
one_waits =
    Reach.later (world new_limiter (call arrived ∷ [])) _
      (Reach.later (world new_limiter []) _ Reach.start (Step.arrives _ "repo"))
      (Step.steps _ _ [] (call arrived) [] false got (waiting 0) refl refl refl)

one_runs : Reach 1 (world taken (call (running 0) ∷ []))
unfolding limit get_semaphore lazy_create new_limiter set_object
one_runs =
    Reach.later (world got (call (waiting 0) ∷ [])) _ one_waits
      (Step.steps _ _ [] (call (waiting 0)) [] false taken (running 0) refl refl refl)

semaphores_are_released_example :
    (taken.semaphores "repo" ≡ none) ↔ (sum_by (inside "repo") (call (running 0) ∷ []) ≡ 0)
semaphores_are_released_example =
    semaphores_are_released 1 (world taken (call (running 0) ∷ [])) "repo" one_runs

calls_progress_example :
    Progresses 1
      (world got (call (waiting 0) ∷ []))
      "repo"
      (waiting 0)
      (limit 1 got "repo" (waiting 0) false)
calls_progress_example =
    calls_progress 1 (world got (call (waiting 0) ∷ [])) [] (call (waiting 0)) [] false
      (omega arith) one_waits refl

limiter_refines_example :
    SemaphoreStep 1
      (holders (world got (call (waiting 0) ∷ [])))
      (holders (world taken (call (running 0) ∷ [])))
unfolding limit get_semaphore lazy_create new_limiter set_object
limiter_refines_example =
    limiter_refines 1 (world got (call (waiting 0) ∷ [])) (world taken (call (running 0) ∷ []))
      (omega arith) one_waits
      (Step.steps _ _ [] (call (waiting 0)) [] false taken (running 0) refl refl refl)
