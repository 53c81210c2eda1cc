-- ===== src/Transactions/Manager.antt =====
-- internal/praefect/transactions/manager.go: the transactions that are registered.
-- `heap` holds every transaction by its address, `transactions` the keys of the map of the same
-- name. `RegisterTransaction` makes the transaction with the number `id`, whose address is `id`
-- too, and stores it under the key `id`; who has its address keeps it after it is removed. Metrics
-- and log lines are left out, but for the label under which `VoteTransaction` counts an error.
pub mod Laws
pub mod Samples
use gitally.Prelude.{
  ℕ, ◌+◌, String, Bool, true, false, Option, none, some, List, [], ◌∷◌, ◌==◌, if◌then◌else◌, u64,
}
use gitally.Transactions.Types.{
  Vote, VoteResult, committed, is_committed, Voter, Error, transaction_failed, transaction_canceled,
  transaction_stopped, not_found, exists_already, failed_no_vote, failed_votes, updating_state,
  cancel_vote, Ran, Result, ok, err,
}
use gitally.Transactions.Transaction
use gitally.Transactions.Transaction.{
  Transaction, state, new_transaction, get_or_create_subtransaction,
}

pub record Manager : Type 0 where
  pub id_sequence : ℕ
  pub transactions : List ℕ
  pub heap : List (ℕ × Transaction)

pub new_manager : Manager
new_manager = record { id_sequence = 0; transactions = []; heap = [] }

unfoldable pub is_registered : ℕ → List ℕ → Bool
is_registered id [] = false
is_registered id (k ∷ ks) = if k == id then true else is_registered id ks

pub delete_key : ℕ → List ℕ → List ℕ
delete_key id [] = []
delete_key id (k ∷ ks) = let rest = delete_key id ks in if k == id then rest else k ∷ rest

pub load : ℕ → List (ℕ × Transaction) → Option Transaction
load a [] = none
load a ((b, t) ∷ h) = if b == a then some t else load a h

pub store : ℕ → Transaction → List (ℕ × Transaction) → List (ℕ × Transaction)
store a t [] = (a, t) ∷ []
store a t ((b, u) ∷ h) = if b == a then (a, t) ∷ h else (b, u) ∷ store a t h

-- What is left to do once the transaction is made, or was refused. The result is the address.
add_transaction : Manager → Result Transaction → Manager × Result ℕ
add_transaction m (err e) = (m, err e)
add_transaction m (ok t) =
    if is_registered m.id_sequence m.transactions then (m, err exists_already) else (
      record m {
        transactions = m.id_sequence ∷ m.transactions;
        heap = store m.id_sequence t m.heap;
      },
      ok m.id_sequence,
    )

-- The number is drawn also for a transaction that is refused.
pub register_transaction : Manager → List Voter → ℕ → Manager × Result ℕ
unfolding add_transaction
register_transaction m voters threshold =
    let n = u64 (m.id_sequence + 1) in
    add_transaction (record m { id_sequence = n }) (new_transaction n voters threshold)

pub count_committed : List (String × VoteResult) → ℕ
count_committed [] = 0
count_committed ((n, r) ∷ rs) =
    if is_committed r then count_committed rs + 1 else count_committed rs

store_canceled : Manager → ℕ → Option Transaction → Option (Manager × ℕ)
store_canceled m a none = none
store_canceled m a (some t) = some (record m { heap = store a t m.heap }, count_committed (state t))

-- `cancelTransaction` at an address; with the new state the number of nodes that it logs as
-- committed. `none` is a panic.
pub cancel_transaction : Manager → ℕ → Option (Manager × ℕ)
unfolding store_canceled
cancel_transaction m a = elim (load a m.heap) [
  | none ↦ none
  | some t ↦
      store_canceled (record m { transactions = delete_key t.id m.transactions }) a
        (Transaction.cancel t)
]

-- `mgr.transactions[transactionID]`
pub find_transaction : Manager → ℕ → Result ℕ
unfolding is_registered
find_transaction m id = if is_registered id m.transactions then ok id else err not_found

write_back : Manager → ℕ → Ran Transaction → Ran Manager
write_back m a none = none
write_back m a (some (t, e)) = some (record m { heap = store a t m.heap }, e)

-- The calls that `voteTransaction` makes on the transaction at an address, in turn.
pub select_subtransaction : Manager → ℕ → String → Option (Manager × Result ℕ)
select_subtransaction m a node = elim (load a m.heap) [
  | none ↦ none
  | some t ↦
      let (t', r) = get_or_create_subtransaction t node in
      some (record m { heap = store a t' m.heap }, r)
]

pub vote_transaction : Manager → ℕ → ℕ → String → Vote → Ran Manager
unfolding write_back
vote_transaction m a i node w = elim (load a m.heap) [
  | none ↦ none
  | some t ↦ write_back m a (Transaction.vote_on t i node w)
]

pub collect_transaction : Manager → ℕ → ℕ → Bool → String → Ran Manager
unfolding write_back
collect_transaction m a i ctx_done node = elim (load a m.heap) [
  | none ↦ none
  | some t ↦ write_back m a (Transaction.collect_on t i ctx_done node)
]

pub stop_transaction : Manager → ℕ → Ran Manager
unfolding write_back
stop_transaction m id = elim (find_transaction m id) [
  | err e ↦ some (m, some e)
  | ok a ↦ elim (load a m.heap) [ none ↦ none | some t ↦ write_back m a (Transaction.stop t) ]
]

-- `errors.Is(err, target)` for the three errors that `VoteTransaction` asks for: the error itself,
-- or one that wraps it.
pub data Label : Type 0 where
  label_stopped label_failed label_canceled label_invalid : Label

pub counter_label : Error → Label
counter_label transaction_stopped = label_stopped
counter_label transaction_failed = label_failed
counter_label failed_no_vote = label_failed
counter_label (failed_votes got threshold w) = label_failed
counter_label transaction_canceled = label_canceled
counter_label (updating_state node e) = counter_label e
counter_label (cancel_vote e) = counter_label e
counter_label _ = label_invalid
