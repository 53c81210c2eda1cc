-- ===== src/Router/Panics.antt =====
-- When an index or a slice of the router is in range.
use gitally.Prelude.{
  ◌≢◌, ℕ, zero, suc, ◌≡◌, refl, String, true, false, Option, none, some, List, [], ◌∷◌, ◌≤◌, arith,
  length, leb, ◌==◌, Bool-cases, inl, inr,
}
use gitally.Coordinator.{RouterNode}
use gitally.Router.{
  RouterError, reserve_id_failed, Routed, routed, refused, panics, ◌>>=◌, Answer, answer, failure,
  wrap, PerRepositoryRouter, has, storages_of, connected, connect, connect_all, some_healthy,
  healthy_nodes, pick_at, pick_random, others, others_of, slice, select_secondaries, create_among,
  route_repository_creation,
}
use gitally.Router.Accessors.{IsRandom, get_elem?-some, pick_random-has_node}
use gitally.Router.Composition.{Once}
use gitally.Router.Creations.{others-length, healthy_nodes-has}

chain {ℓ κ} :
    {A : Type ℓ} {B : Type κ} (m : Routed A) (f : A → Routed B)
    → m ≢ panics
    → ((a : A) → m ≡ routed a → f a ≢ panics)
    → (m >>= f) ≢ panics
chain (routed a) f h k = k a refl
chain (refused e) f h k = λ q. cc
chain panics f h k = λ q. h refl

wrap_returns {ℓ} : {A : Type ℓ} (f : ℕ → RouterError) (q : Answer A) → wrap f q ≢ panics
wrap_returns f (answer a) = λ q. cc
wrap_returns f (failure e) = λ q. cc

routed_returns {ℓ} : {A : Type ℓ} (a : A) → routed a ≢ panics
routed_returns a q = cc

refused_returns {ℓ} : {A : Type ℓ} (e : RouterError) → ◌≢◌ {A = Routed A} (refused e) panics
refused_returns e q = cc

connect_returns : (conns ss : List String) → connect conns ss ≢ panics
unfolding connect connected
connect_returns conns [] = routed_returns []
connect_returns conns (s ∷ ss) = elim (Bool-cases (has s conns)) [
  | inl b ↦ rw b (chain (connect conns ss) _ (connect_returns conns ss) (λ a e. routed_returns _))
  | inr b ↦ rw b (refused_returns _)
]

some_healthy_returns : (ns : List RouterNode) → some_healthy ns ≢ panics
unfolding some_healthy
some_healthy_returns [] = refused_returns _
some_healthy_returns (n ∷ ns) = routed_returns _

connect_all_returns : (o : Option (List String)) (ss : List String) → connect_all o ss ≢ panics
unfolding connect_all
connect_all_returns none ss = refused_returns _
connect_all_returns (some conns) ss =
    chain (connect conns ss) some_healthy (connect_returns conns ss) (λ a e. some_healthy_returns a)

pick_random_returns :
    (r : PerRepositoryRouter) (ns : List RouterNode) → IsRandom r.intn → pick_random r ns ≢ panics
unfolding pick_random pick_at
pick_random_returns r [] h = refused_returns _
pick_random_returns r (n ∷ ns) h =
    let (m, e) = get_elem?-some (n ∷ ns) (r.intn (length (n ∷ ns))) (h (length ns)) in
    rw e (routed_returns m)

-- A shuffle moves nodes and makes none.
abbrev pub IsShuffle : (List RouterNode → List RouterNode) → Type 0
IsShuffle shuffle = (ns : List RouterNode) → length (shuffle ns) ≡ length ns

module _ (r : PerRepositoryRouter) (vs : String) (conns : List String)
    (configured : storages_of vs r.conns ≡ some conns) (once : Once conns)
    (shuffles : IsShuffle r.shuffle) (fits : r.default_replication_factors vs ≤ length conns) where
  create_among_returns :
      (id : ℕ) (primary : RouterNode) (healthy : List RouterNode) (factor : ℕ)
      → r.default_replication_factors vs ≡ factor
      → has primary.storage conns ≡ true
      → create_among r vs id primary healthy ≢ panics
  unfolding create_among select_secondaries others_of slice
  create_among_returns id primary healthy zero e k = rw (e, configured) (routed_returns _)
  create_among_returns id primary healthy (suc zero) e k = rw (create_among, e) (routed_returns _)
  create_among_returns id primary healthy (suc (suc g)) e k =
      let more : (suc (suc g) == 1) ≡ false = ground arith in
      let nodes = others primary.storage conns in
      let short : leb (suc g) (length (r.shuffle nodes)) ≡ true =
        ground (arith, e, fits, shuffles nodes, others-length primary.storage conns once k) in
      rw (create_among, e, configured, more, short) (routed_returns _)

-- `RouteRepositoryCreation` does not panic when `Intn(n)` is below `n`, `Shuffle` keeps the number of
-- nodes, the storages of the virtual storage are distinct, and the default replication factor is at
-- most their number, which the validation of the configuration asks for.
pub creation_returns :
    (r : PerRepositoryRouter) (vs path : String) (conns : List String)
    → storages_of vs r.conns ≡ some conns
    → Once conns
    → IsShuffle r.shuffle
    → r.default_replication_factors vs ≤ length conns
    → IsRandom r.intn
    → route_repository_creation r vs path ≢ panics
unfolding route_repository_creation healthy_nodes
creation_returns r vs path conns configured once shuffles fits random =
    chain (healthy_nodes r vs) _ (connect_all_returns (storages_of vs r.conns) (r.healthy vs))
      λ healthy e.
        chain (pick_random r healthy) _ (pick_random_returns r healthy random) λ primary f.
          chain (wrap reserve_id_failed (r.reserve_id vs path)) _ (wrap_returns _ _) λ id g.
            create_among_returns r vs conns configured once shuffles fits id primary healthy
              (r.default_replication_factors vs) refl
              (healthy_nodes-has r vs conns healthy primary.storage configured e
                (pick_random-has_node r healthy primary f))
