-- ===== src/Transactions/Subtransaction/Agreement.antt =====
-- What every interleaving of calls on one subtransaction guarantees.
use gitally.Prelude.{
  ℕ, ◌≤◌, ◌<◌, ◌+◌, ◌≡◌, ◌≢◌, inl, inr, refl, Bool, true, false, Option, none, some, List, [], ◌∷◌,
  arith, String, subst, ◌==◌, Bool-cases, All, All-map, is_some, sum_by, if◌then◌else◌,
}
use gitally.Transactions.Types.{Vote, Voter, undecided, committed, undecided_voter, is_undecided}
use gitally.Transactions.Subtransaction.{
  Subtransaction, new_subtransaction, find_voter, vote, collect_votes, collected, cancel, stop,
}
use gitally.Transactions.Subtransaction.Counts.{count_of_two, top}
use gitally.Transactions.Subtransaction.Voters.{All-find_voter}
use gitally.Transactions.Subtransaction.Invariant.{
  Inv, IsDecided, IsSettled, HasQuorum, outstanding, weight,
}
use gitally.Transactions.Subtransaction.Calls.{Kept, HasVoted, vote-Kept, collect_votes-Kept}
use gitally.Transactions.Subtransaction.Ending.{cancel_lem, stop-Kept}
use gitally.Transactions.Subtransaction.Runs.{
  Reach, Reach-Inv, IsAcceptable, new_subtransaction-Inv,
}

-- Two quorums are for the same vote.
quorum_unique :
    (t : Subtransaction) (o p : Option Vote)
    → Inv t
    → HasQuorum t.threshold t.vote_counts o
    → HasQuorum t.threshold t.vote_counts p
    → o ≡ p
quorum_unique t none p inv h k = absurd h
quorum_unique t (some x) none inv h k = absurd k
quorum_unique t (some x) (some y) inv h k = elim (Bool-cases (x == y)) [
  | inl e ↦ ground arith
  | inr n ↦
      ground (arith, inv.core.room, inv.core.bounded, count_of_two x y t.vote_counts (ground arith))
]

collected-undecided :
    (t : Subtransaction) (node : String) (v : Voter) (w : Vote)
    → v.vote ≡ some w
    → v.result ≢ undecided
    → collected t node v ≢ some (undecided_voter node)
unfolding collected
collected-undecided t node v w q u e = ground arith

collect_found :
    (t : Subtransaction) (node : String) (v : Voter)
    → find_voter node t.voters ≡ some v
    → collect_votes t false node ≡ some (t, some (undecided_voter node))
    → collected t node v ≡ some (undecided_voter node)
unfolding collect_votes
collect_found t node v p e = ground (arith, p)

-- The votes of a node that has not voted and is undecided, so that it can still vote.
abbrev pub votes_to_come : Voter → ℕ
votes_to_come v = if is_some v.vote then 0 else if is_undecided v.result then v.votes else 0

-- The votes of a node that has not voted and has a result, so that it can vote no more.
abbrev pub votes_barred : Voter → ℕ
votes_barred v = if is_some v.vote then 0 else if is_undecided v.result then 0 else v.votes

outstanding-parts :
    (vs : List Voter) → outstanding vs ≡ sum_by votes_to_come vs + sum_by votes_barred vs
outstanding-parts [] = omega arith
outstanding-parts (v ∷ vs) = ground (arith, outstanding-parts vs)

module _ (voters : List Voter) (threshold : ℕ) (ok : IsAcceptable voters threshold) where
  reached : {t : Subtransaction} → Reach (new_subtransaction voters threshold) t → Inv t
  reached = Reach-Inv (new_subtransaction-Inv voters threshold ok)

  -- In a subtransaction of acceptable voters, whatever calls were made and in whatever order the
  -- maps were iterated, two voters that have committed have cast the same vote.
  pub agreement :
      (t : Subtransaction) (a b : String) (u v : Voter)
      → Reach (new_subtransaction voters threshold) t
      → find_voter a t.voters ≡ some u
      → find_voter b t.voters ≡ some v
      → u.result ≡ committed
      → v.result ≡ committed
      → u.vote ≡ v.vote
  agreement t a b u v r p q cu cv =
      let inv : Inv t = reached r in
      quorum_unique t u.vote v.vote inv (All-find_voter _ a t.voters u inv.core.justified p cu)
        (All-find_voter _ b t.voters v inv.core.justified q cv)

  HasQuorum-weight :
      (t : Subtransaction) (o : Option Vote)
      → Inv t
      → HasQuorum t.threshold t.vote_counts o
      → (w : Vote) × (o ≡ some w) × (t.threshold ≤ weight w t.voters)
  HasQuorum-weight t none inv h = absurd h
  HasQuorum-weight t (some w) inv h = (w, refl, omega (arith, inv.core.backed w))

  -- A voter that has committed has cast a vote, and the voters that have cast this vote have
  -- together at least as many votes as the threshold asks for.
  pub committed_has_quorum :
      (t : Subtransaction) (node : String) (v : Voter)
      → Reach (new_subtransaction voters threshold) t
      → find_voter node t.voters ≡ some v
      → v.result ≡ committed
      → (w : Vote) × (v.vote ≡ some w) × (t.threshold ≤ weight w t.voters)
  committed_has_quorum t node v r p c =
      let inv : Inv t = reached r in
      HasQuorum-weight t v.vote inv (All-find_voter _ node t.voters v inv.core.justified p c)

  -- No call panics, that is, closes a closed channel or reads a missing vote: not a vote, nor the
  -- end of the transaction, nor the collection of votes by a node that has voted.
  pub no_panic :
      (t : Subtransaction) (node : String) (w : Vote) (ctx_done : Bool) (voted : String)
      → Reach (new_subtransaction voters threshold) t
      → HasVoted t voted
      → (vote t node w ≢ none)
        × (collect_votes t ctx_done voted ≢ none)
        × (cancel t ≢ none)
        × (stop t ≢ none)
  no_panic t node w ctx_done voted r h =
      let inv : Inv t = reached r in
      (
        λ q. subst Kept q (vote-Kept t node w inv),
        λ q. subst Kept q (collect_votes-Kept t ctx_done voted inv h),
        λ q. cc (cancel_lem t),
        λ q. subst Kept q (stop-Kept t inv),
      )

  done-IsSettled : (t : Subtransaction) → Inv t → t.done ≡ true → All IsSettled t.voters
  done-IsSettled t inv d = elim (inv.core.awake d) [
    | inl q ↦ elim inv.calm [ inl o ↦ absurd (omega (arith, o, q)) | inr a ↦ a ]
    | inr a ↦ All-map IsDecided IsSettled (λ v h. ground arith) t.voters a
  ]

  -- A node that has voted and waits for the channel gets a decision: once the channel is closed its
  -- result is not undecided, and `collectVotes` does not complain of an undecided voter.
  pub woken_is_decided :
      (t : Subtransaction) (node : String) (v : Voter) (w : Vote)
      → Reach (new_subtransaction voters threshold) t
      → t.done ≡ true
      → find_voter node t.voters ≡ some v
      → v.vote ≡ some w
      → (v.result ≢ undecided)
        × (collect_votes t false node ≢ some (t, some (undecided_voter node)))
  woken_is_decided t node v w r d p q =
      let inv : Inv t = reached r in
      let settled : IsSettled v =
        All-find_voter IsSettled node t.voters v (done-IsSettled t inv d) p in
      let decided : v.result ≢ undecided = λ u. ground (arith, settled) in
      (decided, λ e. collected-undecided t node v w q decided (collect_found t node v p e))

  -- While a node's vote is cast and undecided, the channel is open, no vote has a quorum, and the
  -- threshold is at most the votes of the leader together with those of the nodes that can still vote
  -- and of the nodes that were stopped or canceled before they had voted, which the code counts too.
  pub waiting_is_bounded :
      (t : Subtransaction) (node : String) (v : Voter) (w : Vote)
      → Reach (new_subtransaction voters threshold) t
      → find_voter node t.voters ≡ some v
      → v.vote ≡ some w
      → v.result ≡ undecided
      → (t.done ≡ false)
        × (top t.vote_counts < t.threshold)
        × (t.threshold
            ≤ top t.vote_counts + sum_by votes_to_come t.voters + sum_by votes_barred t.voters)
  waiting_is_bounded t node v w r p q u =
      let inv : Inv t = reached r in
      elim inv.calm [
        | inl o ↦ (
          elim (Bool-cases t.done) [
            | inl d ↦ absurd (
                ground (arith, All-find_voter IsSettled node t.voters v (done-IsSettled t inv d) p))
            | inr d ↦ d
          ],
          o.0,
          omega (arith, o.1, outstanding-parts t.voters),
        )
        | inr a ↦ absurd (ground (arith, All-find_voter IsSettled node t.voters v a p))
      ]
