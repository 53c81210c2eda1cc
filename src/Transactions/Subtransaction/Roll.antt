-- ===== src/Transactions/Subtransaction/Roll.antt =====
-- No call changes who the voters are, how many votes each has, or the threshold.
use gitally.Prelude.{
  ℕ, ◌+◌, ◌≡◌, refl, String, Option, some, List, [], ◌∷◌, arith, subst, sym, ap, ◌∙◌, str_eq,
  eq_iff, if◌then◌else◌, some_eq, inl, inr,
}
use gitally.Transactions.Types.{Vote, Voter, VoteResult, Error}
use gitally.Transactions.Subtransaction.{
  Subtransaction, find_voter, decide_voter, decide_voters, cancel_voter, stop_voters, stop_from,
}
use gitally.Transactions.Subtransaction.Voters.{
  sum_by, sum_by-write_voter, sum_by-mapped, sum_by-Swapped, find_voter-name, find_voter-cons,
}
use gitally.Transactions.Subtransaction.Closed.{IsClosed, Finds, Finds-call, Call, call}
use gitally.Transactions.Subtransaction.Outcomes.{prepend-some}
use gitally.Transactions.Subtransaction.Ending.{cancel_lem}
use gitally.Transactions.Subtransaction.Runs.{Step, Reach}

decide_voter-roll :
    (threshold : ℕ) (best : Option Vote) (k : ℕ) (v u : Voter)
    → decide_voter threshold best k v ≡ some u
    → (u.name ≡ v.name) × (u.votes ≡ v.votes)
unfolding decide_voter
decide_voter-roll threshold best k v u e = (ground arith, ground arith)

module _ (f : Voter → ℕ)
    (weigh : (u v : Voter) → u.name ≡ v.name → u.votes ≡ v.votes → f u ≡ f v) where
  sum_by-decide_voters :
      (threshold : ℕ) (best : Option Vote) (k : ℕ) (vs us : List Voter)
      → decide_voters threshold best k vs ≡ some us
      → sum_by f us ≡ sum_by f vs
  unfolding decide_voters
  sum_by-decide_voters threshold best k [] us e = sym (ap (sum_by f) (some_eq _ _ e))
  sum_by-decide_voters threshold best k (v ∷ vs) us e =
      let (u, us', p, q, same) = prepend-some _ _ us e in
      let (name, votes) = decide_voter-roll threshold best k v u p in
      sym (ap (sum_by f) same)
      ∙ (let ih : sum_by f us' ≡ sum_by f vs = sum_by-decide_voters threshold best k vs us' q in
          omega (arith, ih, weigh u v name votes))

  cancel_voter-weigh : (v : Voter) → f (cancel_voter v) ≡ f v
  unfolding cancel_voter
  cancel_voter-weigh v = weigh _ v (ground arith) (ground arith)

  sum_by-stop_from :
      (r : VoteResult) (v : Voter) (vs : List Voter) (rest : List Voter × Option Error)
      → sum_by f rest.0 ≡ sum_by f vs
      → sum_by f (stop_from r v vs rest).0 ≡ sum_by f (v ∷ vs)
  unfolding stop_from
  sum_by-stop_from VoteResult.canceled v vs rest h = refl
  sum_by-stop_from VoteResult.stopped v vs rest h = refl
  sum_by-stop_from VoteResult.undecided v vs (us, e) h =
      omega (arith, h, weigh (record v { result = VoteResult.stopped }) v refl refl)
  sum_by-stop_from VoteResult.committed v vs (us, e) h = omega (arith, h)
  sum_by-stop_from VoteResult.failed v vs (us, e) h = omega (arith, h)

  sum_by-stop_voters : (vs : List Voter) → sum_by f (stop_voters vs).0 ≡ sum_by f vs
  unfolding stop_voters
  sum_by-stop_voters [] = refl
  sum_by-stop_voters (v ∷ vs) = sum_by-stop_from v.result v vs _ (sum_by-stop_voters vs)

  module _ (c : ℕ) where
    abbrev Sums : List Voter → Type 0
    Sums vs = sum_by f vs ≡ c

    Sums-IsClosed : IsClosed Sums
    Sums-IsClosed = record {
      written = λ m x x' vs found u name votes h. omega (
        arith,
        h,
        sum_by-write_voter f m x' vs x found,
        weigh x' x (name ∙ sym (find_voter-name m vs x found)) votes,
      );
      settles = λ threshold best k vs us e h. sum_by-decide_voters threshold best k vs us e ∙ h;
      cancels_all = λ vs h. sum_by-mapped f cancel_voter cancel_voter-weigh vs ∙ h;
      stops_all = λ vs h. sum_by-stop_voters vs ∙ h;
    }

    -- The threshold is `k`, and the weights of the voters add up to `c`.
    abbrev Rolls : ℕ → Subtransaction → Type 0
    Rolls k t = (t.threshold ≡ k) × Sums t.voters

    Step-Rolls : (k : ℕ) {t t' : Subtransaction} → Step t t' → Rolls k t → Rolls k t'
    unfolding call
    Step-Rolls k {t} (Step.votes node w e q) h =
        subst (Finds k Sums Sums-IsClosed) q
          (Finds-call k Sums Sums-IsClosed t (Call.votes node w) h)
    Step-Rolls k {t} (Step.collects ctx_done node e voted woken q) h =
        subst (Finds k Sums Sums-IsClosed) q
          (Finds-call k Sums Sums-IsClosed t (Call.collects ctx_done node) h)
    Step-Rolls k {t} (Step.cancels q) h =
        subst (Rolls k) (some_eq _ _ (sym (cancel_lem t) ∙ q))
          (h.0, sum_by-mapped f cancel_voter cancel_voter-weigh t.voters ∙ h.1)
    Step-Rolls k {t} (Step.stops e q) h =
        subst (Finds k Sums Sums-IsClosed) q (Finds-call k Sums Sums-IsClosed t Call.stops h)
    Step-Rolls k {t} (Step.reorders_voters vs s q) h =
        subst (Rolls k) (sym q) (h.0, sym (sum_by-Swapped f s) ∙ h.1)
    Step-Rolls k {t} (Step.reorders_counts cs s q) h = subst (Rolls k) (sym q) h

    Reach-Rolls : (k : ℕ) {s t : Subtransaction} → Rolls k s → Reach s t → Rolls k t
    Reach-Rolls k h Reach.start = h
    Reach-Rolls k h (Reach.later r st) = Step-Rolls k st (Reach-Rolls k h r)

  -- A weight that depends on names and numbers of votes alone adds up to the same, and the
  -- threshold stays, through every run.
  pub Reach-sum_by :
      {s t : Subtransaction}
      → Reach s t
      → (t.threshold ≡ s.threshold) × (sum_by f t.voters ≡ sum_by f s.voters)
  Reach-sum_by {s} r = Reach-Rolls (sum_by f s.voters) s.threshold (refl, refl) r

abbrev pub named : String → Voter → ℕ
named n v = if str_eq v.name n then 1 else 0

-- A weight where the name is `n`, and where it is not.
abbrev pub at : String → (Voter → ℕ) → Voter → ℕ
at n g v = if str_eq v.name n then g v else 0

abbrev pub off : String → (Voter → ℕ) → Voter → ℕ
off n g v = if str_eq v.name n then 0 else g v

pub sum_by-split :
    (n : String) (g : Voter → ℕ) (vs : List Voter)
    → sum_by g vs ≡ sum_by (at n g) vs + sum_by (off n g) vs
sum_by-split n g [] = refl
sum_by-split n g (v ∷ vs) = ground (arith, sum_by-split n g vs)

unnamed :
    (n : String) (g : Voter → ℕ) (vs : List Voter)
    → sum_by (named n) vs ≡ 0
    → sum_by (at n g) vs ≡ 0
unnamed n g [] h = refl
unnamed n g (v ∷ vs) h = ground (arith, unnamed n g vs)

-- With one voter of a name, its weight is all the weight at that name.
pub sum_by-at :
    (n : String) (g : Voter → ℕ) (vs : List Voter) (u : Voter)
    → sum_by (named n) vs ≡ 1
    → find_voter n vs ≡ some u
    → sum_by (at n g) vs ≡ g u
unfolding find_voter
sum_by-at n g [] u h e = cc
sum_by-at n g (v ∷ vs) u h e = elim (find_voter-cons n v vs u e) [
  | inl (name, same) ↦ ground (arith, eq_iff v.name n, unnamed n g vs, ap g same)
  | inr (other, rest) ↦ ground (arith, sum_by-at n g vs u)
]
