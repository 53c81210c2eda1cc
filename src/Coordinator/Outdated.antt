-- ===== src/Coordinator/Outdated.antt =====
-- Which secondaries `getUpdatedAndOutdatedSecondaries` takes for updated.
use gitally.Prelude.{
  ℕ, ◌≡◌, ◌≢◌, refl, String, Bool, true, false, not, Option, none, some, List, [], ◌∷◌, ◌++◌, arith,
  All, map, length, ap, inl, inr, Bool-cases, if◌then◌else◌, ◌==◌, is_some, ◌&&◌,
}
use gitally.Transactions.Types.{VoteResult, Voter, committed, is_committed}
use gitally.Transactions.Transaction.{
  Transaction, TransactionState, state, state_of, initial_result, did_vote, count_subtransactions,
}
use gitally.Transactions.Subtransaction.{Subtransaction}
use gitally.Coordinator.{
  RouterNode, RepositoryMutatorRoute, error_of, same_error, result_of, router_nodes_to_storages,
  is_updated, split_secondaries, Verdict, get_updated_and_outdated_secondaries,
}

-- Every element of the third list is in exactly one of the others, in the same order.
pub data Divides : List String → List String → List String → Type 0 where
  nobody : Divides [] [] []
  to_first : (n : String) {xs ys zs : List String} → Divides xs ys zs → Divides (n ∷ xs) ys (n ∷ zs)
  to_second :
      (n : String) {xs ys zs : List String} → Divides xs ys zs → Divides xs (n ∷ ys) (n ∷ zs)

all_second : (ns : List String) → Divides [] ns ns
all_second [] = Divides.nobody
all_second (n ∷ ns) = Divides.to_second n (all_second ns)

-- A storage that has committed together with the primary, with the same error from both.
abbrev pub IsUpToDate : RepositoryMutatorRoute → Transaction → List (String × ℕ) → String → Type 0
IsUpToDate route t errors n =
    (result_of n (state t) ≡ committed)
    × (result_of route.primary.storage (state t) ≡ committed)
    × (error_of n errors ≡ error_of route.primary.storage errors)

-- What a verdict on a dirtied primary says of the secondaries.
pub record IsSorted (route : RepositoryMutatorRoute) (t : Transaction) (errors : List (String × ℕ))
    (v : Verdict) : Type 0 where
  pub rest : List String
  pub targets : v.outdated ≡ route.replication_targets ++ rest
  pub divides : Divides v.updated rest (router_nodes_to_storages route.secondaries)
  pub sound : All (IsUpToDate route t errors) v.updated
  pub complete : All (λ n. ¬ IsUpToDate route t errors n) rest

same_error_lem : (a b : Option ℕ) → same_error a b ≡ true → a ≡ b
unfolding same_error
same_error_lem none none h = refl
same_error_lem none (some e) h = cc
same_error_lem (some e) none h = cc
same_error_lem (some e) (some f) h = ap some (ground arith)

same_error_refl : (a : Option ℕ) → same_error a a ≡ true
unfolding same_error
same_error_refl none = refl
same_error_refl (some e) = ground arith

is_committed_lem : (r : VoteResult) → is_committed r ≡ true → r ≡ committed
is_committed_lem r h = ground arith

is_committed-true : (r : VoteResult) → not (is_committed r) ≡ false → r ≡ committed
is_committed-true r h = ground arith

is_committed-false : (r : VoteResult) → not (is_committed r) ≡ true → r ≢ committed
is_committed-false r h e = ground arith

All-always : (P : String → Type 0) → ((n : String) → P n) → (ns : List String) → All P ns
All-always P h [] = tt
All-always P h (n ∷ ns) = (h n, All-always P h ns)

initial-uncommitted :
    (n : String) (r : VoteResult) (vs : List Voter)
    → r ≢ committed
    → result_of n (map (λ v. (v.name, r)) vs) ≢ committed
unfolding result_of
initial-uncommitted n r [] h e = ground arith
initial-uncommitted n r (v ∷ vs) h e = ground (arith, initial-uncommitted n r vs)

initial_result-uncommitted : (s : TransactionState) → initial_result s ≢ committed
unfolding initial_result
initial_result-uncommitted s e = ground arith

-- Without subtransactions nobody is committed.
uncommitted :
    (n : String) (t : Transaction) (ss : List Subtransaction)
    → length ss ≡ 0
    → result_of n (state_of t ss) ≢ committed
unfolding state_of
uncommitted n t [] h =
    initial-uncommitted n (initial_result t.state) t.voters (initial_result-uncommitted t.state)
uncommitted n t (s ∷ ss) h = absurd (omega (arith, h))

-- To show a predicate of a conditional on both branches.
pub if-cases {ℓ} :
    {A : Type ℓ} (P : A → Type 0) (b : Bool) (x y : A)
    → (b ≡ true → P x)
    → (b ≡ false → P y)
    → P (if b then x else y)
if-cases P true x y f g = f refl
if-cases P false x y f g = g refl

module _ (route : RepositoryMutatorRoute) (t : Transaction) (errors : List (String × ℕ)) where
  updated-IsUpToDate :
      (n : String)
      → result_of route.primary.storage (state t) ≡ committed
      → is_updated errors (error_of route.primary.storage errors) (state t) n ≡ true
      → IsUpToDate route t errors n
  unfolding is_updated
  updated-IsUpToDate n c h = (
    is_committed_lem (result_of n (state t)) (ground arith),
    c,
    same_error_lem (error_of n errors) (error_of route.primary.storage errors) (ground arith),
  )

  outdated-IsUpToDate :
      (n : String)
      → is_updated errors (error_of route.primary.storage errors) (state t) n ≡ false
      → ¬ IsUpToDate route t errors n
  unfolding is_updated
  outdated-IsUpToDate n h (a, b, e) =
      ground (arith, e, a, same_error_refl (error_of route.primary.storage errors))

  secondaries-IsSorted :
      (ns : List RouterNode)
      → result_of route.primary.storage (state t) ≡ committed
      → let s = split_secondaries errors (error_of route.primary.storage errors) (state t) ns in
        Divides s.0 s.1 (router_nodes_to_storages ns)
        × All (IsUpToDate route t errors) s.0
        × All (λ n. ¬ IsUpToDate route t errors n) s.1
  unfolding split_secondaries router_nodes_to_storages
  secondaries-IsSorted [] c = (Divides.nobody, tt, tt)
  secondaries-IsSorted (n ∷ ns) c =
      let (d, sound, complete) = secondaries-IsSorted ns c in
      elim (Bool-cases
        (is_updated errors (error_of route.primary.storage errors) (state t) n.storage)) [
          | inl b ↦
              rw b
                (Divides.to_first n.storage d, (updated-IsUpToDate n.storage c b, sound), complete)
          | inr b ↦
              rw b
                (Divides.to_second n.storage d, sound, (outdated-IsUpToDate n.storage b, complete))
        ]

  everyone-IsSorted :
      result_of route.primary.storage (state t) ≢ committed
      → IsSorted route t errors (record {
        primary_dirtied = true;
        updated = [];
        outdated = route.replication_targets ++ router_nodes_to_storages route.secondaries;
      })
  everyone-IsSorted h = record {
    rest = router_nodes_to_storages route.secondaries;
    targets = refl;
    divides = all_second _;
    sound = tt;
    complete = All-always (λ n. ¬ IsUpToDate route t errors n) (λ n (a, b, e). h b) _;
  }

  compared-IsSorted :
      result_of route.primary.storage (state t) ≡ committed
      → let primary_err = error_of route.primary.storage errors in
        let s = split_secondaries errors primary_err (state t) route.secondaries in
        IsSorted route t errors (record {
          primary_dirtied = true;
          updated = s.0;
          outdated = route.replication_targets ++ s.1;
        })
  compared-IsSorted c =
      let (d, sound, complete) = secondaries-IsSorted route.secondaries c in
      record { rest = _; targets = refl; divides = d; sound = sound; complete = complete }

  abbrev Claim : Verdict → Type 0
  Claim v = v.primary_dirtied ≡ true → IsSorted route t errors v

  clean : Claim (record { primary_dirtied = false; updated = []; outdated = [] })
  clean h = ground arith

  uncommitted-primary :
      count_subtransactions t == 0 ≡ true → result_of route.primary.storage (state t) ≢ committed
  unfolding count_subtransactions state
  uncommitted-primary b = uncommitted route.primary.storage t t.subtransactions (ground (arith, b))

  -- When `getUpdatedAndOutdatedSecondaries` takes the primary for dirtied, then every replication
  -- target is outdated, every secondary is either updated or outdated and not both, and the
  -- updated ones are exactly those that have committed together with a primary that has committed,
  -- with the same error as the primary.
  pub get_updated_and_outdated_secondaries_lem :
      (get_updated_and_outdated_secondaries route t errors).primary_dirtied ≡ true
      → IsSorted route t errors (get_updated_and_outdated_secondaries route t errors)
  unfolding get_updated_and_outdated_secondaries count_subtransactions
  get_updated_and_outdated_secondaries_lem =
      if-cases Claim
        (count_subtransactions t == 0 && is_some (error_of route.primary.storage errors)) _ _
        (λ b. clean)
        (λ b0.
          if-cases Claim (count_subtransactions t == 1 && not (did_vote t route.primary.storage)) _
            _ (λ b. clean)
            (λ b1.
              if-cases Claim _ _ _ (λ b h. everyone-IsSorted (uncommitted-primary b))
                (λ b2.
                  if-cases Claim _ _ _ (λ b h. everyone-IsSorted (is_committed-false _ b))
                    (λ b h. compared-IsSorted (is_committed-true _ b)))))
