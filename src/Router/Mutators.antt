-- ===== src/Router/Mutators.antt =====
-- Which part each assigned storage gets in a call that changes a repository.
use gitally.Prelude.{
  ℕ, ◌≡◌, ◌≢◌, refl, sym, ap, ◌∙◌, subst, String, Bool, true, false, not, ◌||◌, none, some, List,
  [], ◌∷◌, arith, if◌then◌else◌, str_eq, eq_iff, Bool-cases, Option-cases, some_eq, inl, inr,
}
use gitally.Coordinator.{RouterNode, RepositoryMutatorRoute}
use gitally.Router.{
  RouterError, get_primary_failed, primary_not_healthy, consistent_storages_failed,
  repository_read_only, host_assignments_failed, repository_id_failed, Routed, routed, refused,
  panics, ◌>>=◌, Answer, answer, failure, wrap, PerRepositoryRouter, node, has, has_node,
  healthy_nodes, check, Assigned, with_secondary, with_target, with_primary, assign, finish_route,
  assigned_route, route_repository_mutator,
}

-- A storage that takes part: it is healthy and has the latest changes.
abbrev pub IsReady : List RouterNode → List String → String → Type 0
IsReady healthy consistent s = (has_node s healthy ≡ true) × (has s consistent ≡ true)

-- Each assigned storage is the primary, or a secondary that is ready, or a replication target that is
-- not ready, in order.
pub data Sorts (healthy : List RouterNode) (consistent : List String) (primary : String)
    : List String → List RouterNode → List String → Type 0 where
  nobody : Sorts healthy consistent primary [] [] []
  leads :
      (s : String) {ss : List String} {ns : List RouterNode} {ts : List String}
      → s ≡ primary
      → Sorts healthy consistent primary ss ns ts
      → Sorts healthy consistent primary (s ∷ ss) ns ts
  joins :
      (s : String) {ss : List String} {ns : List RouterNode} {ts : List String}
      → s ≢ primary
      → IsReady healthy consistent s
      → Sorts healthy consistent primary ss ns ts
      → Sorts healthy consistent primary (s ∷ ss) (node s ∷ ns) ts
  lags :
      (s : String) {ss : List String} {ns : List RouterNode} {ts : List String}
      → s ≢ primary
      → ¬ IsReady healthy consistent s
      → Sorts healthy consistent primary ss ns ts
      → Sorts healthy consistent primary (s ∷ ss) ns (s ∷ ts)

pub record IsRoute (r : PerRepositoryRouter) (vs path : String) (route : RepositoryMutatorRoute)
    : Type 0 where
  pub healthy : List RouterNode
  pub consistent : List String
  pub assigned : List String
  pub healthy_eq : healthy_nodes r vs ≡ routed healthy
  pub consistent_eq : r.consistent vs path ≡ answer consistent
  pub assigned_eq : r.assignments vs path ≡ answer assigned
  pub primary_eq : r.primary vs path ≡ answer route.primary.storage
  pub id_eq : r.repository_id vs path ≡ answer route.repository_id
  pub ready : IsReady healthy consistent route.primary.storage
  pub is_assigned : has route.primary.storage assigned ≡ true
  pub sorts :
      Sorts healthy consistent route.primary.storage assigned route.secondaries
        route.replication_targets

assign-Sorts :
    (healthy : List RouterNode) (consistent : List String) (primary : String) (ss : List String)
    → let a = assign healthy consistent primary ss in
      Sorts healthy consistent primary ss a.secondaries a.replication_targets
unfolding assign with_primary with_target with_secondary
assign-Sorts healthy consistent primary [] = Sorts.nobody
assign-Sorts healthy consistent primary (s ∷ ss) =
    let rest = assign-Sorts healthy consistent primary ss in
    elim (Bool-cases (str_eq s primary)) [
      | inl b ↦ rw b (Sorts.leads s ((eq_iff s primary).0 b) rest)
      | inr b ↦ rw b (elim (Bool-cases (has_node s healthy)) [
        | inr h ↦ rw h (elim (Bool-cases (has "" consistent)) [
          | inl c ↦ rw c (Sorts.lags s (λ e. ground (arith, b, eq_iff s primary)) (λ g. cc) rest)
          | inr c ↦ rw c (Sorts.lags s (λ e. ground (arith, b, eq_iff s primary)) (λ g. cc) rest)
        ])
        | inl h ↦ rw h (elim (Bool-cases (has s consistent)) [
          | inl c ↦ rw c (Sorts.joins s (λ e. ground (arith, b, eq_iff s primary)) (h, c) rest)
          | inr c ↦ rw c (Sorts.lags s (λ e. ground (arith, b, eq_iff s primary)) (λ g. cc) rest)
        ])
      ])
    ]

-- A query that succeeded, and a check that passed, in the chain of a route.
pub routed_then {ℓ κ μ} :
    {A : Type ℓ} {B : Type κ} {C : Type μ} (m : Routed A) (f : A → Routed B) (b : B)
    → (m >>= f) ≡ routed b
    → ((a : A) → m ≡ routed a → f a ≡ routed b → C)
    → C
routed_then (routed a) f b h k = k a refl h
routed_then (refused e) f b h k = absurd cc
routed_then panics f b h k = absurd cc

pub wrap_inv {ℓ} :
    {A : Type ℓ} (f : ℕ → RouterError) (q : Answer A) (a : A) → wrap f q ≡ routed a → q ≡ answer a
wrap_inv f (answer b) a h = cc
wrap_inv f (failure e) a h = cc

pub routed_eq {ℓ} : {A : Type ℓ} (a b : A) → routed a ≡ routed b → a ≡ b
routed_eq a b h = cc

check_inv : (b : Bool) (e : RouterError) (u : Unit {0}) → check b e ≡ routed u → b ≡ true
check_inv true e u h = refl
check_inv false e u h = cc

-- A route that is finished has the primary that the loop has met.
assigned_route_inv :
    (id : ℕ) (a : Assigned) (route : RepositoryMutatorRoute)
    → assigned_route id a ≡ routed route
    → (a.primary ≡ some route.primary)
      × (route.repository_id ≡ id)
      × (route.secondaries ≡ a.secondaries)
      × (route.replication_targets ≡ a.replication_targets)
unfolding assigned_route finish_route
assigned_route_inv id a route h = elim (Option-cases a.primary) [
  | inl e ↦ absurd (clash (subst (λ o. finish_route id o a ≡ routed route) e h))
  | inr (p, e) ↦ fields p e (subst (λ o. finish_route id o a ≡ routed route) e h)
]
  where
    clash : finish_route id none a ≢ routed route
    clash h = cc

    fields :
        (p : RouterNode)
        → a.primary ≡ some p
        → finish_route id (some p) a ≡ routed route
        → (a.primary ≡ some route.primary)
          × (route.repository_id ≡ id)
          × (route.secondaries ≡ a.secondaries)
          × (route.replication_targets ≡ a.replication_targets)
    fields p e h =
        let q = routed_eq _ _ h in
        (
          e ∙ ap (λ x. some x.primary) q,
          ap (λ x. x.repository_id) (sym q),
          ap (λ x. x.secondaries) (sym q),
          ap (λ x. x.replication_targets) (sym q),
        )

if-primary :
    (b : Bool) (x y z : Assigned)
    → x.primary ≡ z.primary
    → y.primary ≡ z.primary
    → (if b then x else y).primary ≡ z.primary
if-primary true x y z e f = e
if-primary false x y z e f = f

assign-here :
    (healthy : List RouterNode) (consistent : List String) (primary s : String) (ss : List String)
    → str_eq s primary ≡ true
    → (assign healthy consistent primary (s ∷ ss)).primary ≡ some (node s)
unfolding assign with_primary
assign-here healthy consistent primary s ss b = rw b refl

assign-next :
    (healthy : List RouterNode) (consistent : List String) (primary s : String) (ss : List String)
    → str_eq s primary ≡ false
    → (assign healthy consistent primary (s ∷ ss)).primary
      ≡ (assign healthy consistent primary ss).primary
unfolding assign with_target with_secondary
assign-next healthy consistent primary s ss b =
    let rest = assign healthy consistent primary ss in
    rw b (
      if-primary
        (not (has (if has_node s healthy then s else "") consistent) || not (has_node s healthy))
        (with_target s rest) (with_secondary s rest) rest refl refl)

assign-primary :
    (healthy : List RouterNode) (consistent : List String) (primary : String) (ss : List String)
    (n : RouterNode)
    → (assign healthy consistent primary ss).primary ≡ some n
    → (n ≡ node primary) × (has primary ss ≡ true)
unfolding assign with_primary with_target with_secondary has
assign-primary healthy consistent primary [] n h = cc
assign-primary healthy consistent primary (s ∷ ss) n h = elim (Bool-cases (str_eq s primary)) [
  | inl b ↦ (first b, rw b refl)
  | inr b ↦
      let (e, there) = assign-primary healthy consistent primary ss n (later b) in (e, rw b there)
]
  where
    later : str_eq s primary ≡ false → (assign healthy consistent primary ss).primary ≡ some n
    later b = sym (assign-next healthy consistent primary s ss b) ∙ h

    first : str_eq s primary ≡ true → n ≡ node primary
    first b =
        some_eq n (node s) (sym h ∙ assign-here healthy consistent primary s ss b)
        ∙ ap node ((eq_iff s primary).0 b)

-- When `RouteRepositoryMutator` gives a route, each query has succeeded, the primary is healthy, has
-- the latest changes and is assigned, and each other assigned storage is, in order, a secondary if it
-- is healthy and has the latest changes, and a replication target if not.
pub route_repository_mutator_lem :
    (r : PerRepositoryRouter) (vs path : String) (route : RepositoryMutatorRoute)
    → route_repository_mutator r vs path ≡ routed route
    → IsRoute r vs path route
unfolding route_repository_mutator
route_repository_mutator_lem r vs path route h =
    routed_then (healthy_nodes r vs) _ route h λ healthy eh h1.
      routed_then (wrap get_primary_failed (r.primary vs path)) _ route h1 λ primary ep h2.
        routed_then (check (has_node primary healthy) primary_not_healthy) _ route h2 λ u er h3.
          routed_then (wrap consistent_storages_failed (r.consistent vs path)) _ route h3
            λ consistent ec h4.
              routed_then (check (has primary consistent) repository_read_only) _ route h4
                λ v el h5.
                  routed_then (wrap host_assignments_failed (r.assignments vs path)) _ route h5
                    λ assigned ea h6.
                      routed_then (wrap repository_id_failed (r.repository_id vs path)) _ route h6
                        λ id ei h7.
                          let a = assign healthy consistent primary assigned in
                          let (met, same_id, same_secondaries, same_targets) =
                            assigned_route_inv id a route h7 in
                          let (p, is_in) =
                            assign-primary healthy consistent primary assigned route.primary met in
                          let q : route.primary.storage ≡ primary = ap (λ n. n.storage) p in
                          record {
                            healthy = healthy;
                            consistent = consistent;
                            assigned = assigned;
                            healthy_eq = eh;
                            consistent_eq =
                                wrap_inv consistent_storages_failed (r.consistent vs path)
                                  consistent ec;
                            assigned_eq =
                                wrap_inv host_assignments_failed (r.assignments vs path) assigned
                                  ea;
                            primary_eq =
                                rw q (wrap_inv get_primary_failed (r.primary vs path) primary ep);
                            id_eq =
                                rw same_id
                                  (wrap_inv repository_id_failed (r.repository_id vs path) id ei);
                            ready = rw q (
                              check_inv (has_node primary healthy) primary_not_healthy u er,
                              check_inv (has primary consistent) repository_read_only v el,
                            );
                            is_assigned = rw q is_in;
                            sorts =
                                rw (q, same_secondaries, same_targets)
                                  (assign-Sorts healthy consistent primary assigned);
                          }
