-- ===== src/Router/Accessors.antt =====
-- Which node a call that only reads a repository goes to.
use gitally.Prelude.{
  ◌≢◌, ℕ, zero, suc, some_eq, ◌≡◌, refl, sym, ap, ◌∙◌, subst, String, Bool, true, false, none, some,
  List, [], ◌∷◌, ◌<◌, arith, length, get_elem?, str_eq, eq_iff, eq_refl, Bool-cases, Option-cases,
  inl, inr,
}
use gitally.Coordinator.{RouterNode}
use gitally.Router.{
  get_primary_failed, consistent_storages_failed, routed, answer, wrap, PerRepositoryRouter, has,
  has_node, healthy_nodes, pick_at, pick_random, find_primary, filter_consistent, accessor_among,
  route_repository_accessor,
}
use gitally.Router.Mutators.{routed_then, routed_eq, wrap_inv}

-- A number below `n` is what `Intn(n)` answers for a positive `n`.
abbrev pub IsRandom : (ℕ → ℕ) → Type 0
IsRandom intn = (n : ℕ) → intn (suc n) < suc n

pub get_elem?-has_node :
    (ns : List RouterNode) (i : ℕ) (n : RouterNode)
    → get_elem? ns i ≡ some n
    → has_node n.storage ns ≡ true
unfolding has_node
get_elem?-has_node [] i n h = cc
get_elem?-has_node (m ∷ ns) zero n h =
    subst (λ k. has_node k.storage (m ∷ ns) ≡ true) (some_eq m n h) (rw (eq_refl m.storage) refl)
get_elem?-has_node (m ∷ ns) (suc i) n h = ground (arith, get_elem?-has_node ns i n h)

pub get_elem?-some :
    (ns : List RouterNode) (i : ℕ) → i < length ns → (n : RouterNode) × (get_elem? ns i ≡ some n)
get_elem?-some [] i h = absurd (omega (arith, h))
get_elem?-some (m ∷ ns) zero h = (m, refl)
get_elem?-some (m ∷ ns) (suc i) h = get_elem?-some ns i (omega (arith, h))

pub pick_random-has_node :
    (r : PerRepositoryRouter) (ns : List RouterNode) (n : RouterNode)
    → pick_random r ns ≡ routed n
    → has_node n.storage ns ≡ true
unfolding pick_random pick_at
pick_random-has_node r [] n h = cc
pick_random-has_node r (m ∷ ns) n h =
    let i = r.intn (length (m ∷ ns)) in
    elim (Option-cases (get_elem? (m ∷ ns) i)) [
      | inl e ↦ absurd (clash (subst (λ o. pick_at o ≡ routed n) e h))
      | inr (k, e) ↦
          get_elem?-has_node (m ∷ ns) i n
            (e ∙ ap some (routed_eq k n (subst (λ o. pick_at o ≡ routed n) e h)))
    ]
  where
    clash : pick_at none ≢ routed n
    clash q = cc

find_primary-has_node :
    (primary : String) (ns : List RouterNode) (n : RouterNode)
    → find_primary primary ns ≡ routed n
    → (n.storage ≡ primary) × (has_node n.storage ns ≡ true)
unfolding find_primary has_node
find_primary-has_node primary [] n h = cc
find_primary-has_node primary (m ∷ ns) n h = elim (Bool-cases (str_eq m.storage primary)) [
  | inl b ↦
      let q : m ≡ n = routed_eq m n (sym (rw b refl) ∙ h) in
      subst (λ k. (k.storage ≡ primary) × (has_node k.storage (m ∷ ns) ≡ true)) q
        ((eq_iff m.storage primary).0 b, rw (eq_refl m.storage) refl)
  | inr b ↦
      let (e, k) = find_primary-has_node primary ns n (sym (rw b refl) ∙ h) in
      (e, ground (arith, k))
]

filter_consistent-has_node :
    (consistent : List String) (ns : List RouterNode) (s : String)
    → has_node s (filter_consistent consistent ns) ≡ true
    → (has_node s ns ≡ true) × (has s consistent ≡ true)
unfolding filter_consistent has_node
filter_consistent-has_node consistent [] s h = cc
filter_consistent-has_node consistent (m ∷ ns) s h =
    let again = filter_consistent-has_node consistent ns s in
    elim (Bool-cases (has m.storage consistent)) [
      | inr b ↦
          let (here, there) = again (sym (rw (filter_consistent, b) refl) ∙ h) in
          (ground (arith, here), there)
      | inl b ↦ first again b (sym (rw b refl) ∙ h)
    ]
  where
    first :
        (has_node s (filter_consistent consistent ns) ≡ true
          → (has_node s ns ≡ true) × (has s consistent ≡ true))
        → has m.storage consistent ≡ true
        → has_node s (m ∷ filter_consistent consistent ns) ≡ true
        → (has_node s (m ∷ ns) ≡ true) × (has s consistent ≡ true)
    first again b k = elim (Bool-cases (str_eq m.storage s)) [
      | inl c ↦ (rw c refl, subst (λ x. has x consistent ≡ true) ((eq_iff m.storage s).0 c) b)
      | inr c ↦ let (here, there) = again (sym (rw c refl) ∙ k) in (rw c here, there)
    ]

-- What makes a node fit for the call.
abbrev pub Serves : PerRepositoryRouter → String → String → Bool → RouterNode → Type 0
Serves r vs path true n = r.primary vs path ≡ answer n.storage
Serves r vs path false n =
    (consistent : List String) × (r.consistent vs path ≡ answer consistent)
    × (has n.storage consistent ≡ true)

accessor_among-Serves :
    (r : PerRepositoryRouter) (vs path : String) (force : Bool) (healthy : List RouterNode)
    (n : RouterNode)
    → accessor_among r vs path force healthy ≡ routed n
    → (has_node n.storage healthy ≡ true) × Serves r vs path force n
unfolding accessor_among
accessor_among-Serves r vs path true healthy n h =
    routed_then (wrap get_primary_failed (r.primary vs path)) _ n h λ primary e k.
      let (same, here) = find_primary-has_node primary healthy n k in
      (here, rw same (wrap_inv get_primary_failed (r.primary vs path) primary e))
accessor_among-Serves r vs path false healthy n h =
    routed_then (wrap consistent_storages_failed (r.consistent vs path)) _ n h λ consistent e k.
      let (here, has_it) =
        filter_consistent-has_node consistent healthy n.storage (pick_random-has_node r _ n k) in
      (
        here,
        (
          consistent,
          wrap_inv consistent_storages_failed (r.consistent vs path) consistent e,
          has_it,
        ),
      )

-- When `RouteRepositoryAccessor` gives a node, it is one of the healthy nodes, and with `forcePrimary`
-- it is the primary of the repository, and without it has the latest changes of the repository.
pub route_repository_accessor_lem :
    (r : PerRepositoryRouter) (vs path : String) (force : Bool) (n : RouterNode)
    → route_repository_accessor r vs path force ≡ routed n
    → (healthy : List RouterNode) × (healthy_nodes r vs ≡ routed healthy)
      × (has_node n.storage healthy ≡ true)
      × Serves r vs path force n
unfolding route_repository_accessor
route_repository_accessor_lem r vs path force n h =
    routed_then (healthy_nodes r vs) _ n h λ healthy e k.
      let (here, serves) = accessor_among-Serves r vs path force healthy n k in
      (healthy, e, here, serves)
