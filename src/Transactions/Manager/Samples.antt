-- ===== src/Transactions/Manager/Samples.antt =====
-- A manager in use.
use gitally.Prelude.{◌≡◌, refl, some, [], ◌∷◌}
use gitally.Transactions.Types.{err, not_found}
use gitally.Transactions.Subtransaction.Samples.{one_vote}
use gitally.Transactions.Transaction.{Transaction, state as results}
use gitally.Transactions.Transaction.Cancels.{IsCanceledFrom}
use gitally.Transactions.Transaction.Samples.{with_subtransactions}
use gitally.Transactions.Manager.{
  Manager, load, find_transaction, cancel_transaction, count_committed,
}
use gitally.Transactions.Manager.Laws.{cancel_transaction_removes}

-- One transaction, in which a node waits for the others.
abbrev voted : Transaction
voted = with_subtransactions (one_vote ∷ [])

abbrev one : Manager
one = record { id_sequence = 1; transactions = 1 ∷ []; heap = (1, voted) ∷ [] }

cancel_transaction_removes_example :
    (m : Manager) × (t : Transaction) × (cancel_transaction one 1
      ≡ some (m, count_committed (results t)))
    × (find_transaction m 1 ≡ err not_found)
    × (load 1 m.heap ≡ some t)
    × IsCanceledFrom voted t
unfolding load
cancel_transaction_removes_example = cancel_transaction_removes one voted refl
