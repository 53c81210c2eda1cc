-- ===== src/Router/Distinct.antt =====
-- Distinct storages of a virtual storage: the others, shuffled, cut and divided.
use gitally.Prelude.{
  ℕ, zero, suc, ◌≡◌, refl, sym, ap, ◌∙◌, String, true, false, List, [], ◌∷◌, ◌++◌, map, take,
  length, arith, str_eq, eq_iff, Bool-cases, inl, inr, All, All-map, Swapped, here, there,
  All-Swapped, Permuted, unmoved, moved, Permuted-there, Permuted-middle, Permuted-trans,
}
use gitally.Coordinator.{RouterNode}
use gitally.Router.{has, has_node, others, split_healthy}
use gitally.Router.Composition.{Once}

abbrev pub names : List RouterNode → List String
names = map (λ n. n.storage)

abbrev pub AreIn : List String → List String → Type 0
AreIn conns = All (λ s. has s conns ≡ true)

-- Distinct storages of `conns`, other than `p`.
abbrev pub AreOthers : List String → String → List String → Type 0
AreOthers conns p ss = Once (p ∷ ss) × AreIn conns ss

module _ (x : String) where
  others-absent_too :
      (p : String) (ss : List String) → has x ss ≡ false → has x (names (others p ss)) ≡ false
  unfolding has others
  others-absent_too p [] h = refl
  others-absent_too p (s ∷ ss) h = ground (arith, h, others-absent_too p ss)

  take-absent :
      (n : ℕ) (ns : List RouterNode) → has x (names ns) ≡ false → has x (names (take n ns)) ≡ false
  unfolding has
  take-absent zero ns h = refl
  take-absent (suc n) [] h = refl
  take-absent (suc n) (m ∷ ns) h = ground (arith, h, take-absent n ns)

  has-Swapped : {ss ts : List String} → Swapped ss ts → has x ss ≡ has x ts
  unfolding has
  has-Swapped (here a b r) = ground arith
  has-Swapped (there a s) = ground (arith, has-Swapped s)

others-primary : (p : String) (ss : List String) → has p (names (others p ss)) ≡ false
unfolding has others
others-primary p [] = refl
others-primary p (s ∷ ss) = ground (arith, others-primary p ss)

others-Once : (p : String) (ss : List String) → Once ss → Once (names (others p ss))
unfolding others
others-Once p [] h = tt
others-Once p (s ∷ ss) h = elim (Bool-cases (str_eq s p)) [
  | inl b ↦ rw b (others-Once p ss h.1)
  | inr b ↦ rw b (others-absent_too s p ss h.0, others-Once p ss h.1)
]

others-AreIn :
    (conns : List String) (p : String) (ss : List String)
    → AreIn conns ss
    → AreIn conns (names (others p ss))
unfolding others
others-AreIn conns p [] h = tt
others-AreIn conns p (s ∷ ss) h = elim (Bool-cases (str_eq s p)) [
  | inl b ↦ rw b (others-AreIn conns p ss h.1)
  | inr b ↦ rw b (h.0, others-AreIn conns p ss h.1)
]

AreIn-refl : (ss : List String) → AreIn ss ss
unfolding has
AreIn-refl [] = tt
AreIn-refl (s ∷ ss) = (
  ground (arith, eq_iff s s),
  All-map (λ t. has t ss ≡ true) (λ t. has t (s ∷ ss) ≡ true) (λ t h. ground (arith, h)) ss
      (AreIn-refl ss),
)

pub others-AreOthers :
    (conns : List String) (p : String) → Once conns → AreOthers conns p (names (others p conns))
others-AreOthers conns p once = (
  (others-primary p conns, others-Once p conns once),
  others-AreIn conns p conns (AreIn-refl conns),
)

pub nobody-AreOthers : (conns : List String) (p : String) → AreOthers conns p []
unfolding has
nobody-AreOthers conns p = ((refl, tt), tt)

Once-take : (n : ℕ) (ns : List RouterNode) → Once (names ns) → Once (names (take n ns))
Once-take zero ns h = tt
Once-take (suc n) [] h = tt
Once-take (suc n) (m ∷ ns) h = (take-absent m.storage n ns h.0, Once-take n ns h.1)

AreIn-take :
    (conns : List String) (n : ℕ) (ns : List RouterNode)
    → AreIn conns (names ns)
    → AreIn conns (names (take n ns))
AreIn-take conns zero ns h = tt
AreIn-take conns (suc n) [] h = tt
AreIn-take conns (suc n) (m ∷ ns) h = (h.0, AreIn-take conns n ns h.1)

pub AreOthers-take :
    (conns : List String) (p : String) (n : ℕ) (ns : List RouterNode)
    → AreOthers conns p (names ns)
    → AreOthers conns p (names (take n ns))
AreOthers-take conns p n ns ((a, o), i) =
    ((take-absent p n ns a, Once-take n ns o), AreIn-take conns n ns i)

Once-Swapped : {ss ts : List String} → Swapped ss ts → Once ss → Once ts
unfolding has
Once-Swapped (here a b r) h =
    (ground (arith, h.0, h.1.0, eq_iff a b, eq_iff b a), (ground (arith, h.0), h.1.1))
Once-Swapped (there a s) h = (sym (has-Swapped a s) ∙ h.0, Once-Swapped s h.1)

pub AreOthers-Permuted :
    (conns : List String) (p : String) {ss ts : List String}
    → Permuted ss ts
    → AreOthers conns p ss
    → AreOthers conns p ts
AreOthers-Permuted conns p (unmoved ss) h = h
AreOthers-Permuted conns p (moved s q) ((a, o), i) =
    AreOthers-Permuted conns p q
      ((sym (has-Swapped p s) ∙ a, Once-Swapped s o), All-Swapped (λ x. has x conns ≡ true) s i)

names-Swapped : {ns ms : List RouterNode} → Swapped ns ms → Swapped (names ns) (names ms)
names-Swapped (here a b r) = Swapped.here a.storage b.storage (names r)
names-Swapped (there a s) = Swapped.there a.storage (names-Swapped s)

pub names-Permuted : {ns ms : List RouterNode} → Permuted ns ms → Permuted (names ns) (names ms)
names-Permuted (unmoved ns) = Permuted.unmoved (names ns)
names-Permuted (moved s q) = Permuted.moved (names-Swapped s) (names-Permuted q)

length-Swapped {ℓ} : {A : Type ℓ} {ns ms : List A} → Swapped ns ms → length ns ≡ length ms
length-Swapped (here a b r) = refl
length-Swapped (there a s) = ap suc (length-Swapped s)

pub length-Permuted {ℓ} : {A : Type ℓ} {ns ms : List A} → Permuted ns ms → length ns ≡ length ms
length-Permuted (unmoved ns) = refl
length-Permuted (moved s q) = length-Swapped s ∙ length-Permuted q

-- The division loses no node and makes none.
pub split_healthy-Permuted :
    (healthy ns : List RouterNode)
    → let parts = split_healthy healthy ns in Permuted (names ns) (names parts.0 ++ parts.1)
unfolding split_healthy
split_healthy-Permuted healthy [] = Permuted.unmoved []
split_healthy-Permuted healthy (n ∷ ns) =
    let parts = split_healthy healthy ns in
    let rest = Permuted-there n.storage (split_healthy-Permuted healthy ns) in
    elim (Bool-cases (has_node n.storage healthy)) [
      | inl b ↦ rw b rest
      | inr b ↦ rw b (Permuted-trans rest (Permuted-middle n.storage (names parts.0) parts.1))
    ]
