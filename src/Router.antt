-- ===== src/Router.antt =====
-- internal/praefect/router_per_repository.go: which nodes a call goes to. A connection is left out of
-- a node: there is one for each configured storage. The health checker, the assignments, the primaries
-- and the repository store are fields that say what they answer.
pub mod Mutators
pub mod Accessors
pub mod Distinct
pub mod Creations
pub mod Panics
pub mod Composition
pub mod Samples
use gitally.Prelude.{
  ℕ, zero, suc, ◌-◌, String, Bool, true, false, not, ◌||◌, Option, none, some, List, [], ◌∷◌, ◌++◌,
  ltb, leb, ◌==◌, if◌then◌else◌, str_eq, length, get_elem?, take,
}
use gitally.Coordinator.{RouterNode, RepositoryMutatorRoute}

pub data RouterError : Type 0 where
  virtual_storage_not_exist no_healthy_nodes no_suitable_node primary_not_healthy : RouterError
  repository_read_only primary_unassigned not_implemented : RouterError
  no_connection : String → RouterError
  get_primary_failed consistent_storages_failed host_assignments_failed : ℕ → RouterError
  repository_id_failed reserve_id_failed : ℕ → RouterError

-- `panics` is an index or a slice out of range.
pub data Routed {ℓ} (A : Type ℓ) : Type ℓ where
  routed : A → Routed A
  refused : RouterError → Routed A
  panics : Routed A

infixl 5 ◌>>=◌
abbrev pub ◌>>=◌ {ℓ κ} : {A : Type ℓ} {B : Type κ} → Routed A → (A → Routed B) → Routed B
routed a >>= f = f a
refused e >>= f = refused e
panics >>= f = panics

-- What a query of the database answers.
pub data Answer {ℓ} (A : Type ℓ) : Type ℓ where
  answer : A → Answer A
  failure : ℕ → Answer A

abbrev pub wrap {ℓ} : {A : Type ℓ} → (ℕ → RouterError) → Answer A → Routed A
wrap f (answer a) = routed a
wrap f (failure e) = refused (f e)

-- `conns` has the storages of each virtual storage, in the order of iteration. A replication factor
-- that is not configured is 0. `capacity` is that of a slice that so many calls of append have made.
pub record PerRepositoryRouter : Type 0 where
  pub conns : List (String × List String)
  pub healthy : String → List String
  pub primary : String → String → Answer String
  pub consistent : String → String → Answer (List String)
  pub assignments : String → String → Answer (List String)
  pub repository_id : String → String → Answer ℕ
  pub reserve_id : String → String → Answer ℕ
  pub intn : ℕ → ℕ
  pub shuffle : List RouterNode → List RouterNode
  pub capacity : ℕ → ℕ
  pub default_replication_factors : String → ℕ

abbrev pub node : String → RouterNode
node s = record { storage = s }

unfoldable pub has : String → List String → Bool
has s [] = false
has s (t ∷ ts) = if str_eq t s then true else has s ts

unfoldable pub has_node : String → List RouterNode → Bool
has_node s [] = false
has_node s (n ∷ ns) = if str_eq n.storage s then true else has_node s ns

pub storages_of : String → List (String × List String) → Option (List String)
storages_of vs [] = none
storages_of vs ((k, ss) ∷ rest) = if str_eq k vs then some ss else storages_of vs rest

connected : RouterNode → Routed (List RouterNode) → Routed (List RouterNode)
connected n r = r >>= λ ns. routed (n ∷ ns)

connect : List String → List String → Routed (List RouterNode)
unfolding connected has
connect conns [] = routed []
connect conns (s ∷ ss) =
    let rest = connected (node s) (connect conns ss) in
    if has s conns then rest else refused (no_connection s)

some_healthy : List RouterNode → Routed (List RouterNode)
some_healthy [] = refused no_healthy_nodes
some_healthy (n ∷ ns) = routed (n ∷ ns)

connect_all : Option (List String) → List String → Routed (List RouterNode)
unfolding connect some_healthy
connect_all none healthy = refused virtual_storage_not_exist
connect_all (some conns) healthy = connect conns healthy >>= some_healthy

pub healthy_nodes : PerRepositoryRouter → String → Routed (List RouterNode)
unfolding connect_all storages_of
healthy_nodes r vs = connect_all (storages_of vs r.conns) (r.healthy vs)

pick_at : Option RouterNode → Routed RouterNode
pick_at none = panics
pick_at (some n) = routed n

pub pick_random : PerRepositoryRouter → List RouterNode → Routed RouterNode
unfolding pick_at
pick_random r [] = refused no_suitable_node
pick_random r (n ∷ ns) = pick_at (get_elem? (n ∷ ns) (r.intn (length (n ∷ ns))))

pub route_storage_accessor : PerRepositoryRouter → String → Routed RouterNode
route_storage_accessor r vs = do healthy ← healthy_nodes r vs; pick_random r healthy

-- The loop that looks for the primary among the healthy nodes.
find_primary : String → List RouterNode → Routed RouterNode
find_primary primary [] = refused primary_not_healthy
find_primary primary (n ∷ ns) =
    if str_eq n.storage primary then routed n else find_primary primary ns

filter_consistent : List String → List RouterNode → List RouterNode
unfolding has
filter_consistent consistent [] = []
filter_consistent consistent (n ∷ ns) =
    let rest = filter_consistent consistent ns in
    if has n.storage consistent then n ∷ rest else rest

accessor_among : PerRepositoryRouter → String → String → Bool → List RouterNode → Routed RouterNode
unfolding find_primary filter_consistent
accessor_among r vs path true healthy = do
  primary ← wrap get_primary_failed (r.primary vs path)
  find_primary primary healthy
accessor_among r vs path false healthy = do
  consistent ← wrap consistent_storages_failed (r.consistent vs path)
  pick_random r (filter_consistent consistent healthy)

pub route_repository_accessor : PerRepositoryRouter → String → String → Bool → Routed RouterNode
unfolding accessor_among
route_repository_accessor r vs path force_primary = do
  healthy ← healthy_nodes r vs
  accessor_among r vs path force_primary healthy

pub route_storage_mutator : PerRepositoryRouter → String → Routed RouterNode
route_storage_mutator r vs = refused not_implemented

abbrev pub check : Bool → RouterError → Routed (Unit {0})
check true e = routed tt
check false e = refused e

-- What the loop over the assigned storages makes; no primary is the zero value.
pub record Assigned : Type 0 where
  pub primary : Option RouterNode
  pub secondaries : List RouterNode
  pub replication_targets : List String

with_secondary : String → Assigned → Assigned
with_secondary s a = record {
  primary = a.primary;
  secondaries = node s ∷ a.secondaries;
  replication_targets = a.replication_targets;
}

with_target : String → Assigned → Assigned
with_target s a = record {
  primary = a.primary;
  secondaries = a.secondaries;
  replication_targets = s ∷ a.replication_targets;
}

-- A later assignment of the primary would be written last, with the same node.
with_primary : String → Assigned → Assigned
with_primary s a = record {
  primary = some (node s);
  secondaries = a.secondaries;
  replication_targets = a.replication_targets;
}

-- The node of an unhealthy storage is the zero value, whose storage is "".
assign : List RouterNode → List String → String → List String → Assigned
unfolding with_secondary with_target with_primary has has_node
assign healthy consistent primary [] = record {
  primary = none;
  secondaries = [];
  replication_targets = [];
}
assign healthy consistent primary (s ∷ ss) =
    let rest = assign healthy consistent primary ss in
    let healthy_here = has_node s healthy in
    if str_eq s primary
    then with_primary s rest
    else if not (has (if healthy_here then s else "") consistent) || not healthy_here
    then with_target s rest
    else with_secondary s rest

finish_route : ℕ → Option RouterNode → Assigned → Routed RepositoryMutatorRoute
finish_route id none a = refused primary_unassigned
finish_route id (some p) a = routed (record {
  repository_id = id;
  primary = p;
  secondaries = a.secondaries;
  replication_targets = a.replication_targets;
})

assigned_route : ℕ → Assigned → Routed RepositoryMutatorRoute
unfolding finish_route
assigned_route id a = finish_route id a.primary a

pub route_repository_mutator : PerRepositoryRouter → String → String → Routed RepositoryMutatorRoute
unfolding assign assigned_route has has_node
route_repository_mutator r vs path = do
  healthy ← healthy_nodes r vs
  primary ← wrap get_primary_failed (r.primary vs path)
  _ ← check (has_node primary healthy) primary_not_healthy
  consistent ← wrap consistent_storages_failed (r.consistent vs path)
  _ ← check (has primary consistent) repository_read_only
  assigned ← wrap host_assignments_failed (r.assignments vs path)
  id ← wrap repository_id_failed (r.repository_id vs path)
  assigned_route id (assign healthy consistent primary assigned)

-- The other storages of the virtual storage; a key that is missing ranges over nothing.
pub others : String → List String → List RouterNode
others primary [] = []
others primary (s ∷ ss) =
    let rest = others primary ss in if str_eq s primary then rest else node s ∷ rest

others_of : String → Option (List String) → List RouterNode
unfolding others
others_of primary none = []
others_of primary (some conns) = others primary conns

-- A slice up to an end behind the length but within the capacity shows zero values.
zero_nodes : ℕ → List RouterNode
zero_nodes zero = []
zero_nodes (suc n) = node "" ∷ zero_nodes n

slice : ℕ → ℕ → List RouterNode → Routed (List RouterNode)
unfolding zero_nodes
slice capacity n xs =
    if leb n (length xs)
    then routed (take n xs)
    else if leb n capacity
    then routed (xs ++ zero_nodes (n - length xs))
    else panics

select_secondaries : PerRepositoryRouter → ℕ → List RouterNode → Routed (List RouterNode)
unfolding slice
select_secondaries r zero nodes = routed nodes
select_secondaries r (suc n) nodes = slice (r.capacity (length nodes)) n (r.shuffle nodes)

-- A zero value is not healthy, as it has no connection: no storage is named "".
pub split_healthy : List RouterNode → List RouterNode → List RouterNode × List String
unfolding has_node
split_healthy healthy [] = ([], [])
split_healthy healthy (n ∷ ns) =
    let (secondaries, targets) = split_healthy healthy ns in
    if has_node n.storage healthy
    then (n ∷ secondaries, targets)
    else (secondaries, n.storage ∷ targets)

created_route : ℕ → RouterNode → List RouterNode × List String → RepositoryMutatorRoute
created_route id primary (secondaries, targets) = record {
  repository_id = id;
  primary = primary;
  secondaries = secondaries;
  replication_targets = targets;
}

create_among :
    PerRepositoryRouter → String → ℕ → RouterNode → List RouterNode → Routed RepositoryMutatorRoute
unfolding others_of select_secondaries created_route split_healthy storages_of
create_among r vs id primary healthy = do
  let factor = r.default_replication_factors vs
  let nodes = others_of primary.storage (storages_of vs r.conns)
  let selected = select_secondaries r factor nodes >>= λ secondaries.
      routed (created_route id primary (split_healthy healthy secondaries))
  if factor == 1 then routed (created_route id primary ([], [])) else selected

pub route_repository_creation :
    PerRepositoryRouter → String → String → Routed RepositoryMutatorRoute
unfolding create_among
route_repository_creation r vs path = do
  healthy ← healthy_nodes r vs
  primary ← pick_random r healthy
  id ← wrap reserve_id_failed (r.reserve_id vs path)
  create_among r vs id primary healthy
