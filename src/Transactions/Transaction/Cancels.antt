-- ===== src/Transactions/Transaction/Cancels.antt =====
-- What `cancel` leaves of a transaction.
use gitally.Prelude.{◌≡◌, refl, some, List, [], ◌∷◌}
use gitally.Transactions.Subtransaction.{Subtransaction}
use gitally.Transactions.Subtransaction.Cancels.{Cancels, cancel-Cancels}
use gitally.Transactions.Transaction.{
  Transaction, TransactionState, cancel_all, mark_canceled, cancel,
}

abbrev pub CancelsAll : List Subtransaction → List Subtransaction → Type 0
CancelsAll [] [] = Unit
CancelsAll (s ∷ ss) (s' ∷ ss') = Cancels s s' × CancelsAll ss ss'
CancelsAll _ _ = ⊥

cancel_all-CancelsAll :
    (ss : List Subtransaction)
    → (ss' : List Subtransaction) × (cancel_all ss ≡ some ss') × CancelsAll ss ss'
unfolding cancel_all
cancel_all-CancelsAll [] = ([], refl, tt)
cancel_all-CancelsAll (s ∷ ss) =
    let (ss', e, c) = cancel_all-CancelsAll ss in
    let (s', q, d) = cancel-Cancels s in (s' ∷ ss', rw (q, e, cancel_all), (d, c))

-- The state is the canceled one, and every subtransaction is canceled.
abbrev pub IsCanceledFrom : Transaction → Transaction → Type 0
IsCanceledFrom t t' =
    (t'.state ≡ TransactionState.transaction_canceled)
    × CancelsAll t.subtransactions t'.subtransactions

pub cancel-IsCanceledFrom :
    (t : Transaction) → (t' : Transaction) × (cancel t ≡ some t') × IsCanceledFrom t t'
unfolding cancel mark_canceled
cancel-IsCanceledFrom t =
    let (ss, e, c) = cancel_all-CancelsAll t.subtransactions in
    (
      record t { subtransactions = ss; state = TransactionState.transaction_canceled },
      rw e refl,
      (refl, c),
    )
