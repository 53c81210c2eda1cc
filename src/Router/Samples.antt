-- ===== src/Router/Samples.antt =====
-- A virtual storage of four nodes, one of them unhealthy, and the theorems at it.
use gitally.Prelude.{
  ℕ, ◌≡◌, ◌≢◌, refl, String, true, false, Option, some, List, [], ◌∷◌, arith, length, Permuted,
}
use gitally.Transactions.Types.{Vote, committed}
use gitally.Transactions.Subtransaction.{find_voter}
use gitally.Transactions.Subtransaction.Samples.{primary_voted, after_primary}
use gitally.Coordinator.{RouterNode, RepositoryMutatorRoute, voters_of, threshold_of, new_voter}
use gitally.Router.{
  routed, panics, Answer, answer, PerRepositoryRouter, node, has, has_node, storages_of, connected,
  connect, connect_all, some_healthy, healthy_nodes, pick_at, pick_random, filter_consistent,
  accessor_among, route_repository_accessor, assign, with_primary, with_secondary, with_target,
  finish_route, assigned_route, route_repository_mutator, others, others_of, slice,
  select_secondaries, split_healthy, created_route, create_among, route_repository_creation,
}
use gitally.Router.Mutators.{IsRoute, route_repository_mutator_lem}
use gitally.Router.Accessors.{Serves, route_repository_accessor_lem}
use gitally.Router.Creations.{replicas, AreDistinct, wanted, IsSplit, route_repository_creation_lem}
use gitally.Router.Panics.{creation_returns}
use gitally.Router.Composition.{routed_commit_agrees}

abbrev storages : List String
storages = "a" ∷ "b" ∷ "c" ∷ "d" ∷ []

abbrev first_of : ℕ → ℕ
first_of n = 0

abbrev unshuffled : List RouterNode → List RouterNode
unshuffled ns = ns

-- Four replicas are asked for, and the repository is up to date everywhere.
abbrev router : PerRepositoryRouter
router = record {
  conns = ("default", storages) ∷ [];
  healthy = λ vs. "a" ∷ "b" ∷ "c" ∷ [];
  primary = λ vs path. answer "a";
  consistent = λ vs path. answer storages;
  assignments = λ vs path. answer storages;
  repository_id = λ vs path. answer 1;
  reserve_id = λ vs path. answer 2;
  intn = first_of;
  shuffle = unshuffled;
  capacity = λ n. n;
  default_replication_factors = λ vs. 4;
}

abbrev nodes : List RouterNode
nodes = node "a" ∷ node "b" ∷ node "c" ∷ []

abbrev route : ℕ → RepositoryMutatorRoute
route id = record {
  repository_id = id;
  primary = node "a";
  secondaries = node "b" ∷ node "c" ∷ [];
  replication_targets = "d" ∷ [];
}

routed_mutator : route_repository_mutator router "default" "repo" ≡ routed (route 1)
unfolding route_repository_mutator healthy_nodes connect_all storages_of connect connected
    some_healthy has has_node assign with_primary with_secondary with_target assigned_route
    finish_route
routed_mutator = refl

routed_creation : route_repository_creation router "default" "repo" ≡ routed (route 2)
unfolding route_repository_creation healthy_nodes connect_all storages_of connect connected
    some_healthy has has_node pick_random pick_at create_among others_of others select_secondaries
    slice split_healthy created_route
routed_creation = refl

routed_accessor : route_repository_accessor router "default" "repo" false ≡ routed (node "a")
unfolding route_repository_accessor accessor_among healthy_nodes connect_all storages_of connect
    connected some_healthy has has_node pick_random pick_at filter_consistent
routed_accessor = refl

found : storages_of "default" router.conns ≡ some storages
unfolding storages_of
found = refl

route_repository_mutator_lem_example : IsRoute router "default" "repo" (route 1)
route_repository_mutator_lem_example =
    route_repository_mutator_lem router "default" "repo" (route 1) routed_mutator

route_repository_accessor_lem_example :
    (healthy : List RouterNode) × (healthy_nodes router "default" ≡ routed healthy)
    × (has_node "a" healthy ≡ true)
    × Serves router "default" "repo" false (node "a")
route_repository_accessor_lem_example =
    route_repository_accessor_lem router "default" "repo" false (node "a") routed_accessor

route_repository_creation_lem_example :
    (healthy : List RouterNode) × (healthy_nodes router "default" ≡ routed healthy)
    × (has_node "a" healthy ≡ true)
    × (◌≡◌ {A = Answer ℕ} (answer 2) (answer 2))
    × (length (replicas (route 2)) ≡ wanted 4 storages)
    × AreDistinct storages (route 2)
    × IsSplit healthy (route 2)
unfolding has
route_repository_creation_lem_example =
    route_repository_creation_lem router "default" "repo" storages (route 2) found
      (refl, (refl, (refl, (refl, tt)))) Permuted.unmoved (omega arith) routed_creation

creation_returns_example : route_repository_creation router "default" "repo" ≢ panics
unfolding has
creation_returns_example =
    creation_returns router "default" "repo" storages found (refl, (refl, (refl, (refl, tt))))
      (λ ns. refl) (omega arith) (λ n. omega arith)

routed_commit_agrees_example :
    (w : Vote) × (◌≡◌ {A = Option Vote} (some 7) (some w))
    × (◌≡◌ {A = Option Vote} (some 7) (some w))
unfolding voters_of new_voter threshold_of find_voter has
routed_commit_agrees_example =
    routed_commit_agrees router "default" "repo" (route 1) storages primary_voted "b"
      (record { name = "b"; votes = 1; vote = some 7; result = committed })
      (record { name = "a"; votes = 3; vote = some 7; result = committed }) routed_mutator refl
      (refl, (refl, (refl, (refl, tt)))) (omega arith) after_primary refl refl refl
