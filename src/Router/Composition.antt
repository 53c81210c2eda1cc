-- ===== src/Router/Composition.antt =====
-- The transaction that the coordinator registers for a route of the router.
use gitally.Prelude.{
  ◌≡◌, refl, sym, ◌∙◌, subst, String, false, none, some, List, [], ◌∷◌, ◌<◌, ◌≤◌, ◌^◌, arith, map,
  length, eq_iff,
}
use gitally.Transactions.Types.{committed, Voter, Vote}
use gitally.Transactions.Subtransaction.{Subtransaction, find_voter, new_subtransaction}
use gitally.Transactions.Subtransaction.Runs.{Reach, HasNames}
use gitally.Coordinator.{RouterNode, RepositoryMutatorRoute, voters_of, threshold_of, new_voter}
use gitally.Coordinator.Quorum.{HasStorages, committed_with_primary}
use gitally.Router.{routed, answer, PerRepositoryRouter, has, route_repository_mutator}
use gitally.Router.Mutators.{Sorts, route_repository_mutator_lem}

-- No storage is assigned twice.
abbrev pub Once : List String → Type 0
Once [] = Unit
Once (s ∷ ss) = (has s ss ≡ false) × Once ss

module _ (healthy : List RouterNode) (consistent : List String) (primary : String) where
  Sorts-absent :
      (x : String) {ss : List String} {ns : List RouterNode} {ts : List String}
      → Sorts healthy consistent primary ss ns ts
      → has x ss ≡ false
      → find_voter x (map (new_voter 1) ns) ≡ none
  unfolding find_voter new_voter has
  Sorts-absent x Sorts.nobody h = refl
  Sorts-absent x (Sorts.leads s e r) h = Sorts-absent x r (ground (arith, h))
  Sorts-absent x (Sorts.joins s e k r) h = ground (arith, h, Sorts-absent x r)
  Sorts-absent x (Sorts.lags s e k r) h = Sorts-absent x r (ground (arith, h))

  Sorts-primary :
      {ss : List String} {ns : List RouterNode} {ts : List String}
      → Sorts healthy consistent primary ss ns ts
      → find_voter primary (map (new_voter 1) ns) ≡ none
  unfolding find_voter new_voter
  Sorts-primary Sorts.nobody = refl
  Sorts-primary (Sorts.leads s e r) = Sorts-primary r
  Sorts-primary (Sorts.joins s e k r) = ground (arith, e, Sorts-primary r, eq_iff s primary)
  Sorts-primary (Sorts.lags s e k r) = Sorts-primary r

  Sorts-HasNames :
      {ss : List String} {ns : List RouterNode} {ts : List String}
      → Sorts healthy consistent primary ss ns ts
      → Once ss
      → HasNames (map (new_voter 1) ns)
  unfolding new_voter
  Sorts-HasNames Sorts.nobody h = tt
  Sorts-HasNames (Sorts.leads s e r) h = Sorts-HasNames r h.1
  Sorts-HasNames (Sorts.joins s e k r) h = (Sorts-absent s r h.0, Sorts-HasNames r h.1)
  Sorts-HasNames (Sorts.lags s e k r) h = Sorts-HasNames r h.1

  Sorts-length :
      {ss : List String} {ns : List RouterNode} {ts : List String}
      → Sorts healthy consistent primary ss ns ts
      → length ns ≤ length ss
  Sorts-length Sorts.nobody = omega arith
  Sorts-length (Sorts.leads s e r) = omega (arith, Sorts-length r)
  Sorts-length (Sorts.joins s e k r) = omega (arith, Sorts-length r)
  Sorts-length (Sorts.lags s e k r) = omega (arith, Sorts-length r)

answer_eq {ℓ} : {A : Type ℓ} (a b : A) → answer a ≡ answer b → a ≡ b
answer_eq a b h = cc

-- When `RouteRepositoryMutator` gives a route, and the assigned storages are distinct and fewer than
-- 2^62, then in a subtransaction of the transaction that the coordinator registers for the route a
-- node that has committed voted for what the primary voted for.
pub routed_commit_agrees :
    (r : PerRepositoryRouter) (vs path : String) (route : RepositoryMutatorRoute)
    (assigned : List String) (s : Subtransaction) (name : String) (v u : Voter)
    → route_repository_mutator r vs path ≡ routed route
    → r.assignments vs path ≡ answer assigned
    → Once assigned
    → length assigned < 2 ^ 62
    → Reach
        (new_subtransaction
          (voters_of route.primary route.secondaries)
          (threshold_of route.secondaries))
        s
    → find_voter name s.voters ≡ some v
    → v.result ≡ committed
    → find_voter route.primary.storage s.voters ≡ some u
    → (w : Vote) × (v.vote ≡ some w) × (u.vote ≡ some w)
unfolding voters_of new_voter
routed_commit_agrees r vs path route assigned s name v u h e once few reach at c pat =
    let i = route_repository_mutator_lem r vs path route h in
    let same : i.assigned ≡ assigned = answer_eq i.assigned assigned (sym i.assigned_eq ∙ e) in
    let few' : length i.assigned < 2 ^ 62 = rw same few in
    let once' = subst Once (sym same) once in
    let names : HasStorages route.primary route.secondaries = (
      Sorts-primary i.healthy i.consistent route.primary.storage i.sorts,
      Sorts-HasNames i.healthy i.consistent route.primary.storage i.sorts once',
    ) in
    committed_with_primary route.primary route.secondaries
      (omega (arith, few', Sorts-length i.healthy i.consistent route.primary.storage i.sorts)) names
      s name v u reach at c pat
