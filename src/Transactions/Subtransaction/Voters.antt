-- ===== src/Transactions/Subtransaction/Voters.antt =====
-- Sums and predicates over the voters of a subtransaction.
use gitally.Prelude.{
  ℕ, ◌+◌, ◌≤◌, ◌<◌, ◌≡◌, refl, String, true, false, Option, none, some, List, [], ◌∷◌, arith, ltb,
  ◌==◌, ◌^◌, if◌then◌else◌, str_eq, eq_iff, subst, inl, inr, Bool-cases, ◌⊎◌, map, is_some, All,
  Swapped, here, there, u64,
}
use gitally.Transactions.Types.{Vote, Voter, VoteResult, undecided, committed, failed}
use gitally.Transactions.Subtransaction.{find_voter, write_voter, decide_voters, outstanding_loop}

abbrev pub sum_by : (Voter → ℕ) → List Voter → ℕ
sum_by f [] = 0
sum_by f (v ∷ vs) = f v + sum_by f vs

pub find_voter-cons :
    (node : String) (w : Voter) (vs : List Voter) (v : Voter)
    → find_voter node (w ∷ vs) ≡ some v
    → ((w.name ≡ node) × (w ≡ v)) ⊎ ((str_eq w.name node ≡ false) × (find_voter node vs ≡ some v))
unfolding find_voter
find_voter-cons node w vs v h = ground (arith, eq_iff w.name node)

pub find_voter-name :
    (node : String) (vs : List Voter) (v : Voter) → find_voter node vs ≡ some v → v.name ≡ node
unfolding find_voter
find_voter-name node [] v h = cc
find_voter-name node (w ∷ vs) v h = elim (find_voter-cons node w vs v h) [
  | inl (n, e) ↦ subst (λ (u : Voter). u.name ≡ node) e n
  | inr (_, e) ↦ find_voter-name node vs v e
]

pub sum_by-write_voter :
    (f : Voter → ℕ) (node : String) (v' : Voter) (vs : List Voter) (v : Voter)
    → find_voter node vs ≡ some v
    → sum_by f (write_voter node v' vs) + f v ≡ sum_by f vs + f v'
unfolding find_voter write_voter
sum_by-write_voter f node v' [] v h = cc
sum_by-write_voter f node v' (w ∷ vs) v h = ground (arith, sum_by-write_voter f node v' vs v)

module _ (P : Voter → Type 0) where
  pub All-write_voter :
      (node : String) (v' : Voter) (vs : List Voter)
      → All P vs
      → P v'
      → All P (write_voter node v' vs)
  unfolding write_voter
  All-write_voter node v' [] h p = tt
  All-write_voter node v' (w ∷ vs) h p = elim (Bool-cases (str_eq w.name node)) [
    | inl b ↦ rw b (p, h.1)
    | inr b ↦ rw b (h.0, All-write_voter node v' vs h.1 p)
  ]

  pub All-find_voter :
      (node : String) (vs : List Voter) (v : Voter) → All P vs → find_voter node vs ≡ some v → P v
  unfolding find_voter
  All-find_voter node [] v h e = cc
  All-find_voter node (w ∷ vs) v h e = elim (find_voter-cons node w vs v e) [
    | inl (_, q) ↦ subst P q h.0
    | inr (_, q) ↦ All-find_voter node vs v h.1 q
  ]

pub sum_by-Swapped :
    (f : Voter → ℕ) {xs ys : List Voter} → Swapped xs ys → sum_by f xs ≡ sum_by f ys
sum_by-Swapped f (here x y r) = omega arith
sum_by-Swapped f (there x s) = omega (arith, sum_by-Swapped f s)

pub sum_by_mono :
    (f g : Voter → ℕ) → ((v : Voter) → f v ≤ g v) → (vs : List Voter) → sum_by f vs ≤ sum_by g vs
sum_by_mono f g h [] = omega arith
sum_by_mono f g h (v ∷ vs) = omega (arith, h v, sum_by_mono f g h vs)

pub sum_by-mapped :
    (f : Voter → ℕ) (u : Voter → Voter)
    → ((v : Voter) → f (u v) ≡ f v)
    → (vs : List Voter) → sum_by f (map u vs) ≡ sum_by f vs
sum_by-mapped f u h [] = refl
sum_by-mapped f u h (v ∷ vs) = omega (arith, h v, sum_by-mapped f u h vs)

pub sum_by-mapped-le :
    (f : Voter → ℕ) (u : Voter → Voter)
    → ((v : Voter) → f (u v) ≤ f v)
    → (vs : List Voter) → sum_by f (map u vs) ≤ sum_by f vs
sum_by-mapped-le f u h [] = omega arith
sum_by-mapped-le f u h (v ∷ vs) = omega (arith, h v, sum_by-mapped-le f u h vs)

-- What the last loop makes of one voter, where it reads no missing majority vote.
abbrev pub agrees : Option Vote → Vote → VoteResult
agrees none w = failed
agrees (some m) w = if w == m then committed else failed

unfoldable pub decision : ℕ → Option Vote → ℕ → Voter → Voter
decision threshold best n v = elim v.result [
  | undecided ↦ elim v.vote [
    | none ↦ v
    | some w ↦ record v { result = if ltb n threshold then failed else agrees best w }
  ]
  | _ ↦ v
]

pub decide_voters-decision :
    (threshold : ℕ) (best : Option Vote) (n : ℕ) (vs : List Voter)
    → (n < threshold) ⊎ (is_some best ≡ true)
    → decide_voters threshold best n vs ≡ some (map (decision threshold best n) vs)
unfolding decide_voters decision
decide_voters-decision threshold best n [] h = refl
decide_voters-decision threshold best n (v ∷ vs) h =
    ground (arith, decide_voters-decision threshold best n vs h)

pub All-mapped :
    (P Q : Voter → Type 0) (u : Voter → Voter)
    → ((v : Voter) → P v → Q (u v))
    → (vs : List Voter) → All P vs
    → All Q (map u vs)
All-mapped P Q u f [] h = tt
All-mapped P Q u f (v ∷ vs) h = (f v h.0, All-mapped P Q u f vs h.1)

-- The sum of the votes that are not cast yet.
abbrev pub outstanding_of : Voter → ℕ
outstanding_of v = if is_some v.vote then 0 else v.votes

pub outstanding_loop_lem :
    (n : ℕ) (vs : List Voter)
    → n + sum_by outstanding_of vs < 2 ^ 64
    → outstanding_loop n vs ≡ n + sum_by outstanding_of vs
unfolding outstanding_loop
outstanding_loop_lem n [] h = omega arith
outstanding_loop_lem n (v ∷ vs) h =
    ground (arith, outstanding_loop_lem (if is_some v.vote then n else u64 (n + v.votes)) vs)
