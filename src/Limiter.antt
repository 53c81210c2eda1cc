-- ===== src/Limiter.antt =====
-- internal/middleware/limithandler/concurrency_limiter.go: how many calls run at a time for a key.
-- A semaphore is an object that the map points to; a call keeps the pointer that it has got. The
-- monitor is left out. `max` is 0 for all values that are not positive.
pub mod Invariant
pub mod Steps
pub mod Runs
pub mod Safety
pub mod Refinement
pub mod Samples
use gitally.Prelude.{
  ℕ, zero, suc, ◌+◌, ◌-◌, String, Bool, true, false, Option, none, some, List, [], ◌∷◌, ltb, ◌==◌,
  if◌then◌else◌, str_eq,
}

-- `tokens` is how many values the channel holds.
pub record Semaphore : Type 0 where
  pub tokens : ℕ
  pub count : ℕ

-- The objects by their pointers, the next free pointer, and the map `semaphores`.
pub record Limiter : Type 0 where
  pub objects : ℕ → Semaphore
  pub next : ℕ
  pub semaphores : String → Option ℕ

pub new_limiter : Limiter
new_limiter = record {
  objects = λ p. record { tokens = 0; count = 0 };
  next = 0;
  semaphores = λ k. none;
}

unfoldable pub write_object : ℕ → Semaphore → (ℕ → Semaphore) → ℕ → Semaphore
write_object p s f q = if q == p then s else f q

unfoldable pub write_key : String → Option ℕ → (String → Option ℕ) → String → Option ℕ
write_key k o f j = if str_eq j k then o else f j

-- `make(chan struct{}, c.max)` behind a new pointer.
lazy_create : Limiter → String → Option ℕ → Limiter × ℕ
unfolding write_object write_key
lazy_create l k (some p) = (l, p)
lazy_create l k none = (
  record {
    objects = write_object l.next (record { tokens = 0; count = 0 }) l.objects;
    next = l.next + 1;
    semaphores = write_key k (some l.next) l.semaphores;
  },
  l.next,
)

set_object : Limiter → ℕ → ℕ → ℕ → Limiter
unfolding write_object
set_object l p tokens count = record {
  objects = write_object p (record { tokens = tokens; count = count }) l.objects;
  next = l.next;
  semaphores = l.semaphores;
}

pub get_semaphore : Limiter → String → Limiter × ℕ
unfolding lazy_create set_object
get_semaphore l k =
    let (l', p) = lazy_create l k (l.semaphores k) in
    (set_object l' p (l'.objects p).tokens ((l'.objects p).count + 1), p)

delete_key : Limiter → String → Limiter
unfolding write_key
delete_key l k = record {
  objects = l.objects;
  next = l.next;
  semaphores = write_key k none l.semaphores;
}

-- `none` where the code panics.
put_at : Limiter → String → Option ℕ → Option Limiter
unfolding set_object delete_key
put_at l k none = none
put_at l k (some p) =
    let l' = set_object l p (l.objects p).tokens ((l.objects p).count - 1) in
    if (l.objects p).count == 0
    then none
    else some (if (l.objects p).count == 1 then delete_key l' k else l')

pub put_semaphore : Limiter → String → Option Limiter
unfolding put_at
put_semaphore l k = put_at l k (l.semaphores k)

-- Where a call of `Limit` stands: before `getSemaphore`, in `acquire`, in its function with a token,
-- before `putSemaphore`, in its function without a limit, and behind it.
pub data Phase : Type 0 where
  arrived unlimited gone : Phase
  waiting running leaving : ℕ → Phase

pub record Call : Type 0 where
  pub key : String
  pub phase : Phase

pub data Outcome : Type 0 where
  blocks panics : Outcome
  moves : Limiter → Phase → Outcome

after_put : Option Limiter → Outcome
after_put none = panics
after_put (some l) = moves l gone

-- The next step of a call of `Limit`; `ctx_done` says that its context is done, and that `select` has
-- taken that case.
pub limit : ℕ → Limiter → String → Phase → Bool → Outcome
unfolding after_put set_object
limit max l k arrived ctx_done =
    let (l', p) = get_semaphore l k in if max == 0 then moves l unlimited else moves l' (waiting p)
limit max l k (waiting p) true = moves l (leaving p)
limit max l k (waiting p) false =
    if ltb (l.objects p).tokens max
    then moves (set_object l p ((l.objects p).tokens + 1) (l.objects p).count) (running p)
    else blocks
limit max l k (running p) ctx_done =
    if (l.objects p).tokens == 0
    then blocks
    else moves (set_object l p ((l.objects p).tokens - 1) (l.objects p).count) (leaving p)
limit max l k (leaving p) ctx_done = after_put (put_semaphore l k)
limit max l k unlimited ctx_done = moves l gone
limit max l k gone ctx_done = blocks
