-- ===== src/Transactions/Subtransaction/Samples.antt =====
-- One vote among three nodes, and the theorems at its states.
use gitally.Prelude.{
  sum_by, ℕ, ◌≡◌, ◌≢◌, ◌≤◌, ◌<◌, ◌+◌, refl, Bool, true, false, Option, none, some, List, [], ◌∷◌,
  ◌++◌, arith, String, map,
}
use gitally.Transactions.Types.{
  Vote, Voter, VoteResult, undecided, committed, failed, canceled, undecided_voter,
  transaction_canceled,
}
use gitally.Transactions.Subtransaction.{
  Subtransaction, new_subtransaction, put_voters, put_voter, find_voter, write_voter, count_of,
  put_count, close_done, majority, majority_loop, outstanding_loop, any_quorum, any_undecided,
  must_signal_voters, signal_voters, decide_voter, decide_voters, prepend, settle, check_undecided,
  cast_vote, withdraw_from, withdraw_vote, update_voter_state, wrap_error, vote, collected,
  after_withdrawal, collect_votes, stop, cancel,
}
use gitally.Transactions.Subtransaction.Counts.{top}
use gitally.Transactions.Subtransaction.Invariant.{weight}
use gitally.Transactions.Subtransaction.Ending.{stop_voter, stop_midway}
use gitally.Transactions.Subtransaction.Runs.{Step, Reach, IsAcceptable}
use gitally.Transactions.Subtransaction.Closed.{Call, call}
use gitally.Transactions.Subtransaction.Outcomes.{decided_is_final}
use gitally.Transactions.Subtransaction.Agreement.{
  committed_has_quorum, no_panic, woken_is_decided, waiting_is_bounded, votes_to_come, votes_barred,
}

abbrev node : String → Option Vote → VoteResult → Voter
node n w r = record { name = n; votes = 1; vote = w; result = r }

abbrev pub three : List Voter
three = node "a" none undecided ∷ node "b" none undecided ∷ node "c" none undecided ∷ []

pub three-IsAcceptable : IsAcceptable three 2
unfolding find_voter
three-IsAcceptable = record {
  reachable = omega arith;
  room = omega arith;
  wide = omega arith;
  fresh = ((refl, refl), ((refl, refl), ((refl, refl), tt)));
  names = (refl, (refl, (refl, tt)));
}

-- After the vote 7 of "a", and after that of "b" too.
abbrev pub one_vote : Subtransaction
one_vote = record {
  done = false;
  threshold = 2;
  voters = node "a" (some 7) undecided ∷ node "b" none undecided ∷ node "c" none undecided ∷ [];
  vote_counts = (7, 1) ∷ [];
}

abbrev pub two_votes : Subtransaction
two_votes = record {
  done = true;
  threshold = 2;
  voters = node "a" (some 7) committed ∷ node "b" (some 7) committed ∷ node "c" none undecided ∷ [];
  vote_counts = (7, 2) ∷ [];
}

-- Opens all that a vote runs through.
all_open : ℕ
unfolding new_subtransaction put_voters put_voter find_voter write_voter count_of put_count
    close_done majority majority_loop outstanding_loop any_quorum any_undecided must_signal_voters
    signal_voters decide_voter decide_voters prepend settle check_undecided cast_vote withdraw_from
    withdraw_vote update_voter_state wrap_error vote collected after_withdrawal collect_votes
all_open = 0

pub vote_a : vote (new_subtransaction three 2) "a" 7 ≡ some (one_vote, none)
unfolding all_open
vote_a = refl

pub vote_b : vote one_vote "b" 7 ≡ some (two_votes, none)
unfolding all_open
vote_b = refl

after_one : Reach (new_subtransaction three 2) one_vote
after_one = Reach.later Reach.start (Step.votes "a" 7 none vote_a)

after_both : Reach (new_subtransaction three 2) two_votes
after_both = Reach.later after_one (Step.votes "b" 7 none vote_b)

committed_has_quorum_example :
    (w : Vote) × (◌≡◌ {A = Option Vote} (some 7) (some w)) × (2 ≤ weight w two_votes.voters)
unfolding find_voter
committed_has_quorum_example =
    committed_has_quorum three 2 three-IsAcceptable two_votes "a" (node "a" (some 7) committed)
      after_both refl refl

no_panic_example :
    (vote two_votes "c" 8 ≢ none)
    × (collect_votes two_votes true "a" ≢ none)
    × (cancel two_votes ≢ none)
    × (stop two_votes ≢ none)
unfolding find_voter
no_panic_example =
    no_panic three 2 three-IsAcceptable two_votes "c" 8 true "a" after_both
      (node "a" (some 7) committed, 7, refl, refl)

woken_is_decided_example :
    (committed ≢ undecided)
    × (collect_votes two_votes false "a" ≢ some (two_votes, some (undecided_voter "a")))
unfolding find_voter
woken_is_decided_example =
    woken_is_decided three 2 three-IsAcceptable two_votes "a" (node "a" (some 7) committed) 7
      after_both refl refl refl

waiting_is_bounded_example :
    (◌≡◌ {A = Bool} false false)
    × (top one_vote.vote_counts < 2)
    × (2
        ≤ top one_vote.vote_counts
          + sum_by votes_to_come one_vote.voters
          + sum_by votes_barred one_vote.voters)
unfolding find_voter
waiting_is_bounded_example =
    waiting_is_bounded three 2 three-IsAcceptable one_vote "a" (node "a" (some 7) undecided) 7
      after_one refl refl refl

abbrev three_votes : Subtransaction
three_votes = record two_votes {
  voters =
      node "a" (some 7) committed ∷ node "b" (some 7) committed ∷ node "c" (some 8) failed ∷ [];
  vote_counts = (7, 2) ∷ (8, 1) ∷ [];
}

vote_c : call two_votes (Call.votes "c" 8) ≡ some (three_votes, none)
unfolding all_open call
vote_c = refl

decided_is_final_example : find_voter "a" three_votes.voters ≡ some (node "a" (some 7) committed)
unfolding find_voter
decided_is_final_example =
    decided_is_final two_votes three_votes (Call.votes "c" 8) none "a" (node "a" (some 7) committed)
      refl refl vote_c

-- "a" has withdrawn its vote, "b" has voted, and the iteration meets "b" first.
abbrev withdrawn : Subtransaction
withdrawn = record {
  done = false;
  threshold = 2;
  voters = node "b" (some 7) undecided ∷ node "a" (some 7) canceled ∷ node "c" none undecided ∷ [];
  vote_counts = (7, 1) ∷ [];
}

stop_midway_example :
    stop withdrawn
    ≡ some (
      record withdrawn {
        voters =
            map stop_voter (node "b" (some 7) undecided ∷ [])
            ++ node "a" (some 7) canceled ∷ node "c" none undecided ∷ [];
      },
      some transaction_canceled,
    )
stop_midway_example =
    stop_midway withdrawn (node "b" (some 7) undecided ∷ []) (node "c" none undecided ∷ [])
      (node "a" (some 7) canceled) refl ((λ p. cc, λ p. cc), tt) refl

-- A primary "a" with three votes, which no quorum of four can do without.
abbrev pub weighted : List Voter
weighted =
    record { name = "a"; votes = 3; vote = none; result = undecided }
    ∷ node "b" none undecided
    ∷ node "c" none undecided
    ∷ []

abbrev pub secondary_voted : Subtransaction
secondary_voted = record {
  done = false;
  threshold = 4;
  voters =
      record { name = "a"; votes = 3; vote = none; result = undecided }
      ∷ node "b" (some 7) undecided
      ∷ node "c" none undecided
      ∷ [];
  vote_counts = (7, 1) ∷ [];
}

abbrev pub primary_voted : Subtransaction
primary_voted = record {
  done = true;
  threshold = 4;
  voters =
      record { name = "a"; votes = 3; vote = some 7; result = committed }
      ∷ node "b" (some 7) committed
      ∷ node "c" none undecided
      ∷ [];
  vote_counts = (7, 4) ∷ [];
}

weighted_b : vote (new_subtransaction weighted 4) "b" 7 ≡ some (secondary_voted, none)
unfolding all_open
weighted_b = refl

weighted_a : vote secondary_voted "a" 7 ≡ some (primary_voted, none)
unfolding all_open
weighted_a = refl

pub after_secondary : Reach (new_subtransaction weighted 4) secondary_voted
after_secondary = Reach.later Reach.start (Step.votes "b" 7 none weighted_b)

pub after_primary : Reach (new_subtransaction weighted 4) primary_voted
after_primary = Reach.later after_secondary (Step.votes "a" 7 none weighted_a)
