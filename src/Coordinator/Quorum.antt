-- ===== src/Coordinator/Quorum.antt =====
-- The votes that the coordinator hands out let no quorum form without the primary.
use gitally.Prelude.{
  ◌==◌, Bool-cases, Option-cases, ℕ, true, false, String, ◌⊎◌, ◌^◌, ◌≤◌, ◌<◌, ◌≡◌, ◌≢◌, refl,
  String, false, Option, none, some, List, [], ◌∷◌, arith, All, map, length, ap, ◌∙◌, eq_refl, inl,
  inr,
}
use gitally.Transactions.Types.{Vote, Voter, committed}
use gitally.Transactions.Subtransaction.{Subtransaction, new_subtransaction, find_voter}
use gitally.Transactions.Subtransaction.Invariant.{total, weight, weight_of, is_for}
use gitally.Transactions.Subtransaction.Voters.{sum_by, sum_by_mono}
use gitally.Transactions.Subtransaction.Runs.{
  Reach, IsFresh, HasNames, IsAcceptable, new_subtransaction_lem,
}
use gitally.Transactions.Subtransaction.Roll.{named, off, sum_by-split, sum_by-at, Reach-sum_by}
use gitally.Transactions.Subtransaction.Agreement.{committed_has_quorum}
use gitally.Coordinator.{
  RouterNode, RepositoryMutatorRoute, voters_of, threshold_of, new_voter,
  get_updated_and_outdated_secondaries,
}
use gitally.Transactions.Transaction.{Transaction, did_vote, did_vote_first, count_subtransactions}
use gitally.Transactions.Subtransaction.{get_vote}

-- No storage appears twice.
abbrev pub HasStorages : RouterNode → List RouterNode → Type 0
HasStorages primary secondaries = HasNames (voters_of primary secondaries)

total-secondaries : (ns : List RouterNode) → total (map (new_voter 1) ns) ≡ length ns
unfolding new_voter
total-secondaries [] = refl
total-secondaries (n ∷ ns) = omega (arith, total-secondaries ns)

secondaries-IsFresh : (ns : List RouterNode) → All IsFresh (map (new_voter 1) ns)
unfolding new_voter
secondaries-IsFresh [] = tt
secondaries-IsFresh (n ∷ ns) = ((refl, refl), secondaries-IsFresh ns)

-- Names that are nowhere have no weight.
named-absent : (n : String) (vs : List Voter) → find_voter n vs ≡ none → sum_by (named n) vs ≡ 0
unfolding find_voter
named-absent n [] h = refl
named-absent n (v ∷ vs) h = ground (arith, named-absent n vs)

new_voters-off :
    (n : String) (ns : List RouterNode)
    → sum_by (off n (λ v. v.votes)) (map (new_voter 1) ns) ≤ length ns
unfolding new_voter
new_voters-off n [] = omega arith
new_voters-off n (m ∷ ns) = ground (arith, new_voters-off n ns)

off-weight_of : (n : String) (w : Vote) (v : Voter) → off n (weight_of w) v ≤ off n (λ u. u.votes) v
off-weight_of n w v = ground arith

casts : (w : Vote) (o : Option Vote) → (o ≡ some w) ⊎ (is_for w o ≡ false)
casts w none = inr refl
casts w (some x) = elim (Bool-cases (x == w)) [
  | inl b ↦ inl (ap some (ground (arith, b)))
  | inr b ↦ inr b
]

weight_of-other : (w : Vote) (u : Voter) → is_for w u.vote ≡ false → weight_of w u ≡ 0
weight_of-other w u h = rw h refl

did_vote_first-voted :
    (s : Subtransaction) (node : String) (u : Voter) (w : Vote)
    → find_voter node s.voters ≡ some u
    → u.vote ≡ some w
    → did_vote_first node (s ∷ []) ≡ true
unfolding did_vote_first get_vote
did_vote_first-voted s node u w p e = rw (p, get_vote, e) refl

clean-unvoted :
    (route : RepositoryMutatorRoute) (t : Transaction) (errors : List (String × ℕ))
    (s : Subtransaction)
    → t.subtransactions ≡ s ∷ []
    → (get_updated_and_outdated_secondaries route t errors).primary_dirtied ≡ false
    → did_vote_first route.primary.storage (s ∷ []) ≡ false
unfolding get_updated_and_outdated_secondaries count_subtransactions did_vote
clean-unvoted route t errors s one h =
    let counted = ap length one in
    let voted = ap (did_vote_first route.primary.storage) one in ground (arith, counted, voted, h)

module _ (primary : RouterNode) (secondaries : List RouterNode) (few : length secondaries < 2 ^ 62)
    (names : HasStorages primary secondaries) where
  -- The votes and the threshold of the coordinator are acceptable: the threshold can be reached, and
  -- asks for more than half of all votes.
  pub voters_of-IsAcceptable :
      IsAcceptable (voters_of primary secondaries) (threshold_of secondaries)
  unfolding voters_of threshold_of
  voters_of-IsAcceptable = record {
    reachable = ground (arith, total-secondaries secondaries);
    room = ground (arith, total-secondaries secondaries);
    wide = omega (arith, total-secondaries secondaries);
    fresh = ((refl, refl), secondaries-IsFresh secondaries);
    names = names;
  }

  own : sum_by (named primary.storage) (voters_of primary secondaries) ≡ 1
  unfolding voters_of new_voter
  own =
      rw (eq_refl primary.storage)
        (omega (arith, named-absent primary.storage (map (new_voter 1) secondaries) names.0))

  others :
      sum_by (off primary.storage (λ v. v.votes)) (voters_of primary secondaries)
      ≤ length secondaries
  unfolding voters_of new_voter
  others = rw (eq_refl primary.storage) (omega (arith, new_voters-off primary.storage secondaries))

  threshold-above : length secondaries < threshold_of secondaries
  unfolding threshold_of
  threshold-above = ground arith

  -- The votes of a quorum do not all come from the secondaries.
  quorum-primary :
      (t : Subtransaction) (u : Voter) (w : Vote)
      → Reach (new_subtransaction (voters_of primary secondaries) (threshold_of secondaries)) t
      → find_voter primary.storage t.voters ≡ some u
      → t.threshold ≤ weight w t.voters
      → is_for w u.vote ≢ false
  quorum-primary t u w r q quorum other =
      let n = primary.storage in
      let started =
        new_subtransaction_lem (voters_of primary secondaries) (threshold_of secondaries) names in
      let (kept, here) = Reach-sum_by (named n) (λ a b e f. rw e refl) r in
      let (kept', away) = Reach-sum_by (off n (λ v. v.votes)) (λ a b e f. rw (e, f) refl) r in
      let one : sum_by (named n) t.voters ≡ 1 =
        here ∙ ap (λ s. sum_by (named n) s.voters) started ∙ own in
      let outside : sum_by (off n (λ v. v.votes)) t.voters ≤ length secondaries =
        rw (away ∙ ap (λ s. sum_by (off n (λ v. v.votes)) s.voters) started) others in
      let threshold : t.threshold ≡ threshold_of secondaries =
        kept ∙ ap (λ s. s.threshold) started in
      omega (
        arith,
        quorum,
        outside,
        threshold,
        threshold-above,
        sum_by-split n (weight_of w) t.voters,
        sum_by-at n (weight_of w) t.voters u one q,
        weight_of-other w u other,
        sum_by_mono (off n (weight_of w)) (off n (λ v. v.votes)) (off-weight_of n w) t.voters,
      )

  -- With distinct storages and fewer than 2^62 secondaries, and in whatever way the nodes vote, a
  -- node of a transaction that the coordinator has registered commits a subtransaction only if the
  -- primary has cast the same vote.
  pub committed_with_primary :
      (t : Subtransaction) (node : String) (v u : Voter)
      → Reach (new_subtransaction (voters_of primary secondaries) (threshold_of secondaries)) t
      → find_voter node t.voters ≡ some v
      → v.result ≡ committed
      → find_voter primary.storage t.voters ≡ some u
      → (w : Vote) × (v.vote ≡ some w) × (u.vote ≡ some w)
  committed_with_primary t node v u r p c q =
      let (w, e, quorum) =
        committed_has_quorum (voters_of primary secondaries) (threshold_of secondaries)
          voters_of-IsAcceptable t node v r p c in
      elim (casts w u.vote) [
        | inl same ↦ (w, e, same)
        | inr other ↦ absurd (quorum-primary t u w r q quorum other)
      ]

  primary-once :
      (t : Subtransaction)
      → Reach (new_subtransaction (voters_of primary secondaries) (threshold_of secondaries)) t
      → sum_by (named primary.storage) t.voters ≡ 1
  primary-once t r =
      let (_, here) = Reach-sum_by (named primary.storage) (λ a b e f. rw e refl) r in
      let started =
        new_subtransaction_lem (voters_of primary secondaries) (threshold_of secondaries) names in
      here ∙ ap (λ s. sum_by (named primary.storage) s.voters) started ∙ own

  -- With distinct storages and fewer than 2^62 secondaries: when `getUpdatedAndOutdatedSecondaries`
  -- takes the primary for clean although there was one subtransaction, with the voters of the
  -- coordinator, then no node has committed it.
  pub clean_is_uncommitted :
      (route : RepositoryMutatorRoute) (t : Transaction) (errors : List (String × ℕ))
      (s : Subtransaction) (node : String) (v : Voter)
      → route.primary ≡ primary
      → t.subtransactions ≡ s ∷ []
      → Reach (new_subtransaction (voters_of primary secondaries) (threshold_of secondaries)) s
      → (get_updated_and_outdated_secondaries route t errors).primary_dirtied ≡ false
      → find_voter node s.voters ≡ some v
      → v.result ≢ committed
  clean_is_uncommitted route t errors s node v same one r clean p c =
      elim (Option-cases (find_voter primary.storage s.voters)) [
        | inl q ↦ absurd (omega (arith, named-absent primary.storage s.voters q, primary-once s r))
        | inr (u, q) ↦
            let (w, e, e') = committed_with_primary s node v u r p c q in
            let voted = did_vote_first-voted s primary.storage u w q e' in
            let unvoted = clean-unvoted route t errors s one clean in
            ground (arith, voted, unvoted, same)
      ]
