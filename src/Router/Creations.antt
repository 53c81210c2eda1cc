-- ===== src/Router/Creations.antt =====
-- Which nodes a call that creates a repository goes to.
use gitally.Prelude.{
  ◌≢◌, ℕ, zero, suc, ◌≡◌, refl, sym, ap, ◌∙◌, subst, String, true, false, some, List, [], ◌∷◌, ◌++◌,
  ◌≤◌, arith, length, take, leb, ◌==◌, str_eq, eq_iff, Bool-cases, inl, inr, All, Permuted,
}
use gitally.Coordinator.{RouterNode, RepositoryMutatorRoute}
use gitally.Router.{
  no_connection, reserve_id_failed, routed, refused, answer, wrap, PerRepositoryRouter, node, has,
  has_node, storages_of, connected, connect, connect_all, some_healthy, healthy_nodes, pick_random,
  others, others_of, slice, select_secondaries, split_healthy, created_route, create_among,
  route_repository_creation,
}
use gitally.Router.Mutators.{routed_then, routed_eq, wrap_inv}
use gitally.Router.Accessors.{pick_random-has_node}
use gitally.Router.Composition.{Once}
use gitally.Router.Distinct.{
  names, AreOthers, others-AreOthers, nobody-AreOthers, AreOthers-take, AreOthers-Permuted,
  names-Permuted, length-Permuted, split_healthy-Permuted,
}

-- The storages on which the repository is to be.
abbrev pub replicas : RepositoryMutatorRoute → List String
replicas route = route.primary.storage ∷ names route.secondaries ++ route.replication_targets

-- Distinct storages of the virtual storage.
abbrev pub AreDistinct : List String → RepositoryMutatorRoute → Type 0
AreDistinct conns route = Once (replicas route) × All (λ s. has s conns ≡ true) (replicas route)

length-take : (n : ℕ) (xs : List RouterNode) → n ≤ length xs → length (take n xs) ≡ n
length-take zero xs h = refl
length-take (suc n) [] h = absurd (omega (arith, h))
length-take (suc n) (x ∷ xs) h = ap suc (length-take n xs (omega (arith, h)))

length-names : (ns : List RouterNode) → length (names ns) ≡ length ns
length-names [] = refl
length-names (n ∷ ns) = ap suc (length-names ns)

split_healthy-All :
    (healthy ns : List RouterNode)
    → let parts = split_healthy healthy ns in
      All (λ n. has_node n.storage healthy ≡ true) parts.0
      × All (λ s. has_node s healthy ≡ false) parts.1
unfolding split_healthy
split_healthy-All healthy [] = (tt, tt)
split_healthy-All healthy (n ∷ ns) =
    let (secondaries, targets) = split_healthy-All healthy ns in
    elim (Bool-cases (has_node n.storage healthy)) [
      | inl b ↦ rw b ((b, secondaries), targets)
      | inr b ↦ rw b (secondaries, (b, targets))
    ]

others-absent :
    (p : String) (ss : List String) → has p ss ≡ false → length (others p ss) ≡ length ss
unfolding others has
others-absent p [] h = refl
others-absent p (s ∷ ss) h = ground (arith, h, others-absent p ss)

-- All the storages but one.
pub others-length :
    (p : String) (ss : List String)
    → Once ss
    → has p ss ≡ true
    → suc (length (others p ss)) ≡ length ss
unfolding others has
others-length p [] o h = cc
others-length p (s ∷ ss) o h = elim (Bool-cases (str_eq s p)) [
  | inl b ↦ rw b (ap suc (others-absent p ss (sym (ap (λ x. has x ss) ((eq_iff s p).0 b)) ∙ o.0)))
  | inr b ↦ rw b (ap suc (others-length p ss o.1 (sym (rw b refl) ∙ h)))
]

connect-has :
    (conns ss : List String) (ns : List RouterNode) (x : String)
    → connect conns ss ≡ routed ns
    → has_node x ns ≡ true
    → has x conns ≡ true
unfolding connect connected has_node
connect-has conns [] ns x h k =
    absurd (false_true (subst (λ l. has_node x l ≡ true) (sym (routed_eq [] ns h)) k))
  where
    false_true : false ≢ true
    false_true q = cc
connect-has conns (s ∷ ss) ns x h k = elim (Bool-cases (has s conns)) [
  | inr b ↦ absurd (clash (sym h ∙ rw b refl))
  | inl b ↦ routed_then (connect conns ss) _ ns (sym (rw b refl) ∙ h) λ rest e q.
      let again = connect-has conns ss rest x e in
      let k' = subst (λ l. has_node x l ≡ true) (sym (routed_eq (node s ∷ rest) ns q)) k in
      elim (Bool-cases (str_eq s x)) [
        | inl c ↦ subst (λ y. has y conns ≡ true) ((eq_iff s x).0 c) b
        | inr c ↦ again (sym (rw c refl) ∙ k')
      ]
]
  where
    clash : routed ns ≢ refused (no_connection s)
    clash q = cc

-- A healthy node is one that is configured.
pub healthy_nodes-has :
    (r : PerRepositoryRouter) (vs : String) (conns : List String) (ns : List RouterNode)
    (x : String)
    → storages_of vs r.conns ≡ some conns
    → healthy_nodes r vs ≡ routed ns
    → has_node x ns ≡ true
    → has x conns ≡ true
unfolding healthy_nodes connect_all some_healthy
healthy_nodes-has r vs conns ns x e h k =
    let h' = subst (λ o. connect_all o (r.healthy vs) ≡ routed ns) e h in
    routed_then (connect conns (r.healthy vs)) some_healthy ns h'
      λ found f q. connect-has conns (r.healthy vs) found x f (some_healthy-same found q)
  where
    some_healthy-same :
        (found : List RouterNode) → some_healthy found ≡ routed ns → has_node x found ≡ true
    some_healthy-same [] q = cc
    some_healthy-same (n ∷ found) q =
        subst (λ l. has_node x l ≡ true) (sym (routed_eq (n ∷ found) ns q)) k

-- The nodes of a route that are asked now are healthy, those that are replicated to are not.
abbrev pub IsSplit : List RouterNode → RepositoryMutatorRoute → Type 0
IsSplit healthy route =
    All (λ n. has_node n.storage healthy ≡ true) route.secondaries
    × All (λ s. has_node s healthy ≡ false) route.replication_targets

created_route_lem :
    (id : ℕ) (primary : RouterNode) (healthy ns : List RouterNode) (conns : List String)
    (route : RepositoryMutatorRoute)
    → has primary.storage conns ≡ true
    → AreOthers conns primary.storage (names ns)
    → routed (created_route id primary (split_healthy healthy ns)) ≡ routed route
    → (route.primary ≡ primary)
      × (route.repository_id ≡ id)
      × (length (replicas route) ≡ suc (length ns))
      × AreDistinct conns route
      × IsSplit healthy route
unfolding created_route
created_route_lem id primary healthy ns conns route here others' h =
    let made = created_route id primary (split_healthy healthy ns) in
    let q : made ≡ route = routed_eq made route h in
    let parts = split_healthy-Permuted healthy ns in
    let (once, are) = AreOthers-Permuted conns primary.storage parts others' in
    (
      ap (λ x. x.primary) (sym q),
      ap (λ x. x.repository_id) (sym q),
      ap (λ x. length (replicas x)) (sym q)
          ∙ ap suc (sym (length-Permuted parts) ∙ length-names ns),
      subst (AreDistinct conns) q (once, (here, are)),
      subst (IsSplit healthy) q (split_healthy-All healthy ns),
    )

-- The number of nodes that the replication factor asks for.
abbrev pub wanted : ℕ → List String → ℕ
wanted zero conns = length conns
wanted (suc n) conns = suc n

-- A shuffle swaps nodes.
abbrev pub Shuffles : (List RouterNode → List RouterNode) → Type 0
Shuffles shuffle = (ns : List RouterNode) → Permuted ns (shuffle ns)

module _ (r : PerRepositoryRouter) (vs : String) (conns : List String) (healthy : List RouterNode)
    (configured : storages_of vs r.conns ≡ some conns) (once : Once conns)
    (shuffles : Shuffles r.shuffle) (fits : r.default_replication_factors vs ≤ length conns) where
  create_among_lem :
      (id : ℕ) (primary : RouterNode) (route : RepositoryMutatorRoute) (factor : ℕ)
      → r.default_replication_factors vs ≡ factor
      → has primary.storage conns ≡ true
      → create_among r vs id primary healthy ≡ routed route
      → (route.primary ≡ primary)
        × (route.repository_id ≡ id)
        × (length (replicas route) ≡ wanted factor conns)
        × AreDistinct conns route
        × IsSplit healthy route
  unfolding create_among select_secondaries others_of split_healthy slice
  create_among_lem id primary route zero e k h =
      let nodes = others primary.storage conns in
      let h' = sym (rw (e, configured) refl) ∙ h in
      let (p, i, n, d, s) =
        created_route_lem id primary healthy nodes conns route k
          (others-AreOthers conns primary.storage once) h' in
      (p, i, n ∙ others-length primary.storage conns once k, d, s)
  create_among_lem id primary route (suc zero) e k h =
      created_route_lem id primary healthy [] conns route k (nobody-AreOthers conns primary.storage)
        (sym (rw (create_among, e) refl) ∙ h)
  create_among_lem id primary route (suc (suc g)) e k h =
      let p = primary.storage in
      let nodes = others p conns in
      let shuffled = r.shuffle nodes in
      let more : (suc (suc g) == 1) ≡ false = ground arith in
      let enough : suc g ≤ length shuffled =
        omega (arith, e, fits, length-Permuted (shuffles nodes), others-length p conns once k) in
      let whole : leb (suc g) (length shuffled) ≡ true = ground (arith, enough) in
      let chosen = take (suc g) shuffled in
      let are = AreOthers-take conns p (suc g) shuffled (
        AreOthers-Permuted conns p (names-Permuted (shuffles nodes))
          (others-AreOthers conns p once)) in
      let (q, i, n, d, s) =
        created_route_lem id primary healthy chosen conns route k are
          (sym (rw (create_among, e, configured, more, whole) refl) ∙ h) in
      (q, i, n ∙ ap suc (length-take (suc g) shuffled enough), d, s)

-- When `RouteRepositoryCreation` gives a route, and the storages of the virtual storage are distinct,
-- `Shuffle` only swaps nodes, and the default replication factor is at most the number of the storages,
-- then the primary is healthy, the secondaries are healthy, the replication targets are not, and all
-- these are distinct storages of the virtual storage, as many as the factor says, or all when it is 0.
pub route_repository_creation_lem :
    (r : PerRepositoryRouter) (vs path : String) (conns : List String)
    (route : RepositoryMutatorRoute)
    → storages_of vs r.conns ≡ some conns
    → Once conns
    → Shuffles r.shuffle
    → r.default_replication_factors vs ≤ length conns
    → route_repository_creation r vs path ≡ routed route
    → (healthy : List RouterNode) × (healthy_nodes r vs ≡ routed healthy)
      × (has_node route.primary.storage healthy ≡ true)
      × (r.reserve_id vs path ≡ answer route.repository_id)
      × (length (replicas route) ≡ wanted (r.default_replication_factors vs) conns)
      × AreDistinct conns route
      × IsSplit healthy route
unfolding route_repository_creation
route_repository_creation_lem r vs path conns route configured once shuffles fits h =
    routed_then (healthy_nodes r vs) _ route h λ healthy e h1.
      routed_then (pick_random r healthy) _ route h1 λ primary f h2.
        routed_then (wrap reserve_id_failed (r.reserve_id vs path)) _ route h2 λ id g h3.
          let here = pick_random-has_node r healthy primary f in
          let factor = r.default_replication_factors vs in
          let (p, i, n, d, s) =
            create_among_lem r vs conns healthy configured once shuffles fits id primary route
              factor refl (healthy_nodes-has r vs conns healthy primary.storage configured e here)
              h3 in
          (
            healthy,
            e,
            rw p here,
            rw i (wrap_inv reserve_id_failed (r.reserve_id vs path) id g),
            n,
            d,
            s,
          )
