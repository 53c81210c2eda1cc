-- ===== src/Transactions/Manager/Laws.antt =====
-- A transaction can be used from its registration to its cancellation.
use gitally.Prelude.{
  ℕ, ◌+◌, ◌≤◌, ◌<◌, ◌^◌, ◌≡◌, refl, false, some, List, [], ◌∷◌, arith, u64, All, All-map, ap, ◌∙◌,
}
use gitally.Transactions.Types.{Voter, ok, err, not_found}
use gitally.Transactions.Transaction.{Transaction, new_transaction, cancel, state as results}
use gitally.Transactions.Transaction.Cancels.{IsCanceledFrom, cancel-IsCanceledFrom}
use gitally.Transactions.Manager.{
  Manager, is_registered, delete_key, load, store, add_transaction, register_transaction,
  store_canceled, count_committed, cancel_transaction, find_transaction,
}

-- The keys were drawn from the sequence.
abbrev pub AreDrawn : Manager → Type 0
AreDrawn m = All (λ k. k ≤ m.id_sequence) m.transactions

is_registered_above :
    (id n : ℕ) (ks : List ℕ) → All (λ k. k ≤ n) ks → n < id → is_registered id ks ≡ false
unfolding is_registered
is_registered_above id n [] h b = refl
is_registered_above id n (k ∷ ks) h b = ground (arith, is_registered_above id n ks)

is_registered-delete_key : (id : ℕ) (ks : List ℕ) → is_registered id (delete_key id ks) ≡ false
unfolding is_registered delete_key
is_registered-delete_key id [] = refl
is_registered-delete_key id (k ∷ ks) = ground (arith, is_registered-delete_key id ks)

load-store : (a : ℕ) (t : Transaction) (h : List (ℕ × Transaction)) → load a (store a t h) ≡ some t
unfolding load store
load-store a t [] = ground arith
load-store a t ((b, u) ∷ h) = ground (arith, load-store a t h)

abbrev registered : Manager → ℕ → Transaction → Manager
registered m n t = record {
  id_sequence = n;
  transactions = n ∷ m.transactions;
  heap = store n t m.heap;
}

module _ (m : Manager) (voters : List Voter) (threshold : ℕ) (t : Transaction) (drawn : AreDrawn m)
    (room : m.id_sequence + 1 < 2 ^ 64)
    (made : new_transaction (m.id_sequence + 1) voters threshold ≡ ok t) where
  abbrev n : ℕ
  n = m.id_sequence + 1

  add_transaction_ok :
      add_transaction (record m { id_sequence = n }) (ok t) ≡ (registered m n t, ok n)
  unfolding add_transaction
  add_transaction_ok = rw (is_registered_above n m.id_sequence m.transactions drawn (omega arith))

  register_transaction_ok : register_transaction m voters threshold ≡ (registered m n t, ok n)
  unfolding register_transaction
  register_transaction_ok =
      ap (λ k. add_transaction (record m { id_sequence = k }) (new_transaction k voters threshold))
        (let e : u64 (m.id_sequence + 1) ≡ n = omega arith in e)
      ∙ ap (add_transaction (record m { id_sequence = n })) made
      ∙ add_transaction_ok

  -- As long as the sequence does not wrap, registration fails only if `newTransaction` refuses;
  -- else the new transaction is found under the next number, which is the result, and the keys of
  -- the map still are numbers that were drawn.
  pub register_transaction_succeeds :
      ((register_transaction m voters threshold).1 ≡ ok n)
      × (find_transaction (register_transaction m voters threshold).0 n ≡ ok n)
      × (load n (register_transaction m voters threshold).0.heap ≡ some t)
      × AreDrawn (register_transaction m voters threshold).0
  register_transaction_succeeds = rw register_transaction_ok (
    refl,
    unfold find_transaction is_registered in ground arith,
    load-store n t m.heap,
    (
      omega arith,
      All-map (λ k. k ≤ m.id_sequence) (λ k. k ≤ n) (λ k h. omega arith) m.transactions drawn,
    ),
  )

cancel_transaction_from :
    (m : Manager) (t t' : Transaction)
    → load t.id m.heap ≡ some t
    → cancel t ≡ some t'
    → cancel_transaction m t.id
      ≡ some (
        record m { transactions = delete_key t.id m.transactions; heap = store t.id t' m.heap },
        count_committed (results t'),
      )
unfolding cancel_transaction store_canceled
cancel_transaction_from m t t' h e = rw (h, e, cancel_transaction)

-- A transaction at the address of its number is always canceled, without a panic. After that it is not
-- found any more, so that later calls of `VoteTransaction` and `StopTransaction` with its number fail.
-- Who has its address finds it in the canceled state; all its subtransactions have woken the nodes that
-- wait, each voter that had no result is canceled, and the others are as they were.
pub cancel_transaction_removes :
    (m : Manager) (t : Transaction)
    → load t.id m.heap ≡ some t
    → (m' : Manager) × (t' : Transaction) × (cancel_transaction m t.id
        ≡ some (m', count_committed (results t')))
      × (find_transaction m' t.id ≡ err not_found)
      × (load t.id m'.heap ≡ some t')
      × IsCanceledFrom t t'
cancel_transaction_removes m t h =
    let (t', e, is) = cancel-IsCanceledFrom t in
    let keys = delete_key t.id m.transactions in
    (
      record m { transactions = keys; heap = store t.id t' m.heap },
      t',
      cancel_transaction_from m t t' h e,
      unfold find_transaction in rw (is_registered-delete_key t.id m.transactions) refl,
      load-store t.id t' m.heap,
      is,
    )
