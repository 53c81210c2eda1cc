-- ===== src/Transactions/Transaction/Samples.antt =====
-- A transaction of three nodes, and the theorems at its states.
use gitally.Prelude.{
  ◌≡◌, ◌≢◌, ◌↔◌, ◌≤◌, ◌<◌, ◌*◌, refl, Option, none, some, List, [], ◌∷◌, arith, String,
}
use gitally.Transactions.Types.{Vote, Voter, committed, Error, ok, err}
use gitally.Transactions.Subtransaction.{Subtransaction, new_subtransaction, find_voter}
use gitally.Transactions.Subtransaction.Samples.{three, one_vote, two_votes, vote_a, vote_b}
use gitally.Transactions.Subtransaction.Runs.{HasNames}
use gitally.Transactions.Subtransaction.Invariant.{total}
use gitally.Transactions.Transaction
use gitally.Transactions.Transaction.{
  Transaction, TransactionState, transaction_open, new_transaction, sum_votes, check_threshold,
  has_name, find_subtransaction, create_if_none, get_or_create, get_or_create_subtransaction,
  vote_on, within, on_subtransaction, state, did_vote, count_subtransactions,
}
use gitally.Transactions.Transaction.Creation.{new_transaction_iff}
use gitally.Transactions.Transaction.Sequence.{Selects, get_or_create_subtransaction-Selects}
use gitally.Transactions.Transaction.Runs.{Move, Run, transaction_agreement}

abbrev pub with_subtransactions : List Subtransaction → Transaction
with_subtransactions ss = record {
  id = 1;
  threshold = 2;
  voters = three;
  state = transaction_open;
  subtransactions = ss;
}

pub new_three : new_transaction 1 three 2 ≡ ok (with_subtransactions [])
unfolding new_transaction sum_votes check_threshold has_name
new_three = refl

-- A threshold of one vote of three would allow for three quorums.
new_three_refused : new_transaction 1 three 1 ≡ err Error.invalid_threshold
unfolding new_transaction sum_votes check_threshold has_name
new_three_refused = refl

pub canceled_transaction :
    Transaction.cancel (with_subtransactions [])
    ≡ some (record (with_subtransactions []) { state = TransactionState.transaction_canceled })
unfolding Transaction.cancel Transaction.cancel_all Transaction.mark_canceled
canceled_transaction = refl

created :
    get_or_create_subtransaction (with_subtransactions []) "a"
    ≡ (with_subtransactions (new_subtransaction three 2 ∷ []), ok 0)
unfolding get_or_create_subtransaction find_subtransaction
created = refl

voted_a :
    vote_on (with_subtransactions (new_subtransaction three 2 ∷ [])) 0 "a" 7
    ≡ some (with_subtransactions (one_vote ∷ []), none)
unfolding vote_on on_subtransaction
voted_a = rw (vote_a, within)

voted_b :
    vote_on (with_subtransactions (one_vote ∷ [])) 0 "b" 7
    ≡ some (with_subtransactions (two_votes ∷ []), none)
unfolding vote_on on_subtransaction
voted_b = rw (vote_b, within)

after_both : Run (with_subtransactions []) (with_subtransactions (two_votes ∷ []))
after_both =
    Run.later
      (Run.later (Run.later Run.start (Move.creates "a" (ok 0) created))
        (Move.votes 0 "a" 7 none voted_a))
      (Move.votes 0 "b" 7 none voted_b)

new_transaction_iff_example :
    ((t : Transaction) × (new_transaction 1 three 2 ≡ ok t))
    ↔ ((three ≢ []) × HasNames three × (2 ≤ total three) × (total three < 2 * 2))
new_transaction_iff_example =
    new_transaction_iff 1 three 2 (omega arith) (omega arith)
      ((refl, refl), ((refl, refl), ((refl, refl), tt)))

get_or_create_subtransaction-Selects_example :
    Selects
      (with_subtransactions (two_votes ∷ []))
      "a"
      (get_or_create_subtransaction (with_subtransactions (two_votes ∷ [])) "a")
get_or_create_subtransaction-Selects_example =
    get_or_create_subtransaction-Selects (with_subtransactions (two_votes ∷ [])) "a"

abbrev committed_node : String → Voter
committed_node n = record { name = n; votes = 1; vote = some 7; result = committed }

transaction_agreement_example : ◌≡◌ {A = Option Vote} (some 7) (some 7)
unfolding find_voter
transaction_agreement_example =
    transaction_agreement 1 three 2 (with_subtransactions [])
      (with_subtransactions (two_votes ∷ [])) 0 two_votes "a" "b" (committed_node "a")
      (committed_node "b") (omega arith) ((refl, refl), ((refl, refl), ((refl, refl), tt)))
      new_three after_both refl refl refl refl refl
