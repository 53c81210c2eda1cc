-- ===== src/Prelude/Lists.antt =====
-- Lists measured by native numbers, predicates on every element, and neighbours swapped.
use Prim.Native.Nat.{ℕ, zero, suc, ◌+◌}
use mathlib.Core.Path.{◌≡◌, refl}
use mathlib.Core.Option.{Option, none, some}
use mathlib.Core.List.{List, [], ◌∷◌, ◌++◌}
use native.Mathlib.Omega.{arith}

module _ {ℓ} {A : Type ℓ} where
  abbrev pub length : List A → ℕ
  length [] = 0
  length (x ∷ xs) = suc (length xs)

  abbrev pub get_elem? : List A → ℕ → Option A
  get_elem? [] i = none
  get_elem? (x ∷ xs) zero = some x
  get_elem? (x ∷ xs) (suc i) = get_elem? xs i

  abbrev pub take : ℕ → List A → List A
  take zero xs = []
  take (suc n) [] = []
  take (suc n) (x ∷ xs) = x ∷ take n xs

  abbrev pub drop : ℕ → List A → List A
  drop zero xs = xs
  drop (suc n) [] = []
  drop (suc n) (x ∷ xs) = drop n xs

  pub length-append : (xs ys : List A) → length (xs ++ ys) ≡ length xs + length ys
  length-append [] ys = omega arith
  length-append (x ∷ xs) ys = omega (arith, length-append xs ys)

abbrev pub All {ℓ κ} : {A : Type ℓ} → (A → Type κ) → List A → Type κ
All P [] = Unit
All P (x ∷ xs) = P x × All P xs

pub All-map {ℓ κ} :
    {A : Type ℓ} (P Q : A → Type κ) → ((x : A) → P x → Q x) → (xs : List A) → All P xs → All Q xs
All-map P Q f [] h = tt
All-map P Q f (x ∷ xs) h = (f x h.0, All-map P Q f xs h.1)

-- Two lists that differ by one swap of neighbours.
pub data Swapped {ℓ} {A : Type ℓ} : List A → List A → Type ℓ where
  here : (x y : A) (r : List A) → Swapped (x ∷ y ∷ r) (y ∷ x ∷ r)
  there : (x : A) {xs ys : List A} → Swapped xs ys → Swapped (x ∷ xs) (x ∷ ys)

pub All-Swapped {ℓ κ} :
    {A : Type ℓ} (P : A → Type κ) {xs ys : List A} → Swapped xs ys → All P xs → All P ys
All-Swapped P (here x y r) h = (h.1.0, (h.0, h.1.1))
All-Swapped P (there x s) h = (h.0, All-Swapped P s h.1)

-- Two lists that differ by swaps of neighbours.
pub data Permuted {ℓ} {A : Type ℓ} : List A → List A → Type ℓ where
  unmoved : (xs : List A) → Permuted xs xs
  moved : {xs ys zs : List A} → Swapped xs ys → Permuted ys zs → Permuted xs zs

pub Permuted-there {ℓ} :
    {A : Type ℓ} (x : A) {xs ys : List A} → Permuted xs ys → Permuted (x ∷ xs) (x ∷ ys)
Permuted-there x (unmoved xs) = Permuted.unmoved (x ∷ xs)
Permuted-there x (moved s p) = Permuted.moved (Swapped.there x s) (Permuted-there x p)

-- The first element moved into the middle.
pub Permuted-middle {ℓ} :
    {A : Type ℓ} (x : A) (xs ys : List A) → Permuted (x ∷ xs ++ ys) (xs ++ x ∷ ys)
Permuted-middle x [] ys = Permuted.unmoved (x ∷ ys)
Permuted-middle x (y ∷ xs) ys =
    Permuted.moved (Swapped.here x y (xs ++ ys)) (Permuted-there y (Permuted-middle x xs ys))

pub Permuted-trans {ℓ} :
    {A : Type ℓ} {xs ys zs : List A} → Permuted xs ys → Permuted ys zs → Permuted xs zs
Permuted-trans (unmoved xs) q = q
Permuted-trans (moved s p) q = Permuted.moved s (Permuted-trans p q)

abbrev pub sum_by {ℓ} : {A : Type ℓ} → (A → ℕ) → List A → ℕ
sum_by f [] = 0
sum_by f (x ∷ xs) = f x + sum_by f xs

-- The element in the middle taken out.
pub sum_by-middle {ℓ} :
    {A : Type ℓ} (f : A → ℕ) (xs : List A) (y : A) (ys : List A)
    → sum_by f (xs ++ y ∷ ys) ≡ f y + sum_by f (xs ++ ys)
sum_by-middle f [] y ys = refl
sum_by-middle f (x ∷ xs) y ys = omega (arith, sum_by-middle f xs y ys)

pub All-middle {ℓ κ} :
    {A : Type ℓ} (P : A → Type κ) (xs : List A) (y : A) (ys : List A)
    → All P (xs ++ y ∷ ys)
    → P y × All P (xs ++ ys)
All-middle P [] y ys h = h
All-middle P (x ∷ xs) y ys h = let (p, r) = All-middle P xs y ys h.1 in (p, (h.0, r))

pub All-insert {ℓ κ} :
    {A : Type ℓ} (P : A → Type κ) (xs : List A) (y : A) (ys : List A)
    → P y
    → All P (xs ++ ys)
    → All P (xs ++ y ∷ ys)
All-insert P [] y ys p h = (p, h)
All-insert P (x ∷ xs) y ys p h = (h.0, All-insert P xs y ys p h.1)
