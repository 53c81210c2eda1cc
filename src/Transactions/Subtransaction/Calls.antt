-- ===== src/Transactions/Subtransaction/Calls.antt =====
-- Every call keeps the invariant, and none of them panics.
use gitally.Prelude.{
  ◌≡◌, inl, inr, Bool, true, false, Option, none, some, arith, if◌then◌else◌, is_some, Bool-cases,
  Option-cases, String, subst, sym, ap,
}
use gitally.Transactions.Types.{Vote, Voter, VoteResult, undecided, already_finished, Error, Ran}
use gitally.Transactions.Subtransaction.{
  Subtransaction, find_voter, cast_vote, withdraw_vote, check_undecided, wrap_error, withdraw_from,
  after_withdrawal, update_voter_state, vote, collect_votes,
}
use gitally.Transactions.Subtransaction.Voters.{find_voter-name}
use gitally.Transactions.Subtransaction.Recount.{cast-Core, withdraw-Core}
use gitally.Transactions.Subtransaction.Invariant.{Inv, Good, settle-Good}

-- The call does not panic, and leaves a state that satisfies the invariant.
abbrev pub Kept : Ran Subtransaction → Type 0
Kept none = ⊥
Kept (some (t, e)) = Inv t

Good-Kept : (r : Ran Subtransaction) → Good r → Kept r
Good-Kept r (t, q, i) = subst Kept (sym q) i

wrap_error-Kept : (f : Error → Error) (r : Ran Subtransaction) → Kept r → Kept (wrap_error f r)
unfolding wrap_error
wrap_error-Kept f none k = k
wrap_error-Kept f (some (s, none)) k = k
wrap_error-Kept f (some (s, some e)) k = k

after_withdrawal-Kept : (r : Ran Subtransaction) → Kept r → Kept (after_withdrawal r)
unfolding after_withdrawal
after_withdrawal-Kept none k = k
after_withdrawal-Kept (some (s, none)) k = k
after_withdrawal-Kept (some (s, some e)) k = k

check_undecided-none : (r : VoteResult) → check_undecided r ≡ none → r ≡ undecided
unfolding check_undecided
check_undecided-none r h = ground arith

module _ (t : Subtransaction) (inv : Inv t) (node : String) (v : Voter)
    (found : find_voter node t.voters ≡ some v) where
  self_found : find_voter v.name t.voters ≡ some v
  self_found =
      subst (λ (n : String). find_voter n t.voters ≡ some v)
        (sym (find_voter-name node t.voters v found)) found

  cast_vote-Kept : (w : Vote) → v.result ≡ undecided → v.vote ≡ none → Kept (cast_vote t v w)
  unfolding cast_vote
  cast_vote-Kept w still fresh =
      let b : is_some v.vote ≡ false = ap is_some fresh in
      rw b (Good-Kept _ (settle-Good _ (cast-Core t inv v self_found still w fresh)))

  update_voter_state-vote : (w : Vote) → v.vote ≡ none → Kept (update_voter_state t v (some w))
  unfolding update_voter_state
  update_voter_state-vote w fresh = elim (Option-cases (check_undecided v.result)) [
    | inl e ↦ rw (e, update_voter_state) (cast_vote-Kept w (check_undecided-none v.result e) fresh)
    | inr (x, e) ↦ rw (e, update_voter_state) inv
  ]

  withdraw_vote-Kept :
      (w : Vote) → v.result ≡ undecided → v.vote ≡ some w → Kept (withdraw_vote t v)
  unfolding withdraw_vote
  withdraw_vote-Kept w still cast = elim (Bool-cases t.done) [
    | inl d ↦
        subst (λ b. Kept (if b then some (t, some already_finished) else withdraw_from t v v.vote))
          (sym d) inv
    | inr d ↦
        subst (λ b. Kept (if b then some (t, some already_finished) else withdraw_from t v v.vote))
          (sym d)
          (subst (λ (o : Option Vote). Kept (withdraw_from t v o)) (sym cast)
            (unfold withdraw_from in
              Good-Kept _ (settle-Good _ (withdraw-Core t inv v self_found still w cast d))))
  ]

  update_voter_state-nil : (w : Vote) → v.vote ≡ some w → Kept (update_voter_state t v none)
  unfolding update_voter_state
  update_voter_state-nil w cast = elim (Option-cases (check_undecided v.result)) [
    | inl e ↦
        rw (e, update_voter_state) (withdraw_vote-Kept w (check_undecided-none v.result e) cast)
    | inr (x, e) ↦ rw (e, update_voter_state) inv
  ]

-- The node has cast its vote.
abbrev pub HasVoted : Subtransaction → String → Type 0
HasVoted t node = (v : Voter) × (w : Vote) × (find_voter node t.voters ≡ some v) × (v.vote ≡ some w)

pub vote-Kept : (t : Subtransaction) (node : String) (w : Vote) → Inv t → Kept (vote t node w)
unfolding vote
vote-Kept t node w inv = elim (Option-cases (find_voter node t.voters)) [
  | inl e ↦ rw (e, vote) inv
  | inr (v, e) ↦
      rw (e, vote)
        (elim (Option-cases v.vote) [
          | inl f ↦
              let b : is_some v.vote ≡ false = ap is_some f in
              rw b (wrap_error-Kept _ _ (update_voter_state-vote t inv node v e w f))
          | inr (x, f) ↦ let b : is_some v.vote ≡ true = ap is_some f in rw b inv
        ])
]

pub collect_votes-Kept :
    (t : Subtransaction) (ctx_done : Bool) (node : String)
    → Inv t
    → HasVoted t node
    → Kept (collect_votes t ctx_done node)
unfolding collect_votes
collect_votes-Kept t true node inv (v, w, e, f) =
    rw (e, collect_votes) (after_withdrawal-Kept _ (update_voter_state-nil t inv node v e w f))
collect_votes-Kept t false node inv (v, w, e, f) = rw (e, collect_votes) inv
