-- ===== src/Transactions/Transaction.antt =====
-- internal/praefect/transactions/transaction.go: a sequence of subtransactions with one set of
-- voters. A pointer to a subtransaction is its index.
pub mod Creation
pub mod Sequence
pub mod Runs
pub mod Cancels
pub mod Samples
use gitally.Prelude.{
  ℕ, zero, suc, ◌+◌, ◌*◌, String, Bool, true, false, Option, none, some, List, [], ◌∷◌, ◌++◌, ltb,
  leb, if◌then◌else◌, u64, str_eq, is_some, map, length, get_elem?,
}
use gitally.Transactions.Types.{
  Vote, VoteResult, undecided, committed, failed, canceled, stopped, Voter, Error, duplicate_nodes,
  missing_nodes, invalid_threshold, transaction_failed, Ran, Result, ok, err,
}
use gitally.Transactions.Subtransaction
use gitally.Transactions.Subtransaction.{Subtransaction, new_subtransaction, get_result, get_vote}

pub data TransactionState : Type 0 where
  transaction_open transaction_canceled transaction_stopped : TransactionState

pub record Transaction : Type 0 where
  pub id : ℕ
  pub threshold : ℕ
  pub voters : List Voter
  pub state : TransactionState
  pub subtransactions : List Subtransaction

pub has_name : String → List String → Bool
has_name n [] = false
has_name n (m ∷ ms) = if str_eq m n then true else has_name n ms

-- The loop of `newTransaction`: the names met so far, and the votes summed so far.
pub sum_votes : List String → ℕ → List Voter → Result ℕ
sum_votes seen n [] = ok n
sum_votes seen n (v ∷ vs) =
    let rest = sum_votes (v.name ∷ seen) (u64 (n + v.votes)) vs in
    if has_name v.name seen then err duplicate_nodes else rest

check_threshold : ℕ → List Voter → ℕ → Result ℕ → Result Transaction
check_threshold id voters threshold (err e) = err e
check_threshold id voters threshold (ok total_votes) =
    if ltb total_votes threshold
    then err invalid_threshold
    else if leb (u64 (threshold * 2)) total_votes
    then err invalid_threshold
    else ok (record {
      id = id;
      threshold = threshold;
      voters = voters;
      state = transaction_open;
      subtransactions = [];
    })

pub new_transaction : ℕ → List Voter → ℕ → Result Transaction
new_transaction id [] threshold = err missing_nodes
new_transaction id (v ∷ vs) threshold =
    check_threshold id (v ∷ vs) threshold (sum_votes [] 0 (v ∷ vs))

-- Each method on every subtransaction; `none` is a panic.
cancel_all : List Subtransaction → Option (List Subtransaction)
cancel_all [] = some []
cancel_all (s ∷ ss) =
    let rest = cancel_all ss in
    elim (Subtransaction.cancel s) [
      | none ↦ none
      | some s' ↦ elim rest [ none ↦ none | some ss' ↦ some (s' ∷ ss') ]
    ]

mark_canceled : Transaction → Option (List Subtransaction) → Option Transaction
mark_canceled t none = none
mark_canceled t (some ss) = some (record t { subtransactions = ss; state = transaction_canceled })

pub cancel : Transaction → Option Transaction
cancel t = mark_canceled t (cancel_all t.subtransactions)

-- An error ends the loop of `stop`: the later subtransactions are left as they are.
stop_all : List Subtransaction → Ran (List Subtransaction)
stop_all [] = some ([], none)
stop_all (s ∷ ss) =
    let rest = stop_all ss in
    elim (Subtransaction.stop s) [
      | none ↦ none
      | some (s', some e) ↦ some (s' ∷ ss, some e)
      | some (s', none) ↦ elim rest [ none ↦ none | some (ss', e) ↦ some (s' ∷ ss', e) ]
    ]

mark_stopped : Transaction → Ran (List Subtransaction) → Ran Transaction
mark_stopped t none = none
mark_stopped t (some (ss, some e)) = some (record t { subtransactions = ss }, some e)
mark_stopped t (some (ss, none)) =
    some (record t { subtransactions = ss; state = transaction_stopped }, none)

pub stop : Transaction → Ran Transaction
stop t = mark_stopped t (stop_all t.subtransactions)

unfoldable pub initial_result : TransactionState → VoteResult
initial_result transaction_open = undecided
initial_result transaction_canceled = canceled
initial_result transaction_stopped = stopped

unfoldable pub last_state : Subtransaction → List Subtransaction → List (String × VoteResult)
last_state s [] = Subtransaction.state s
last_state s (s' ∷ ss) = last_state s' ss

unfoldable pub state_of : Transaction → List Subtransaction → List (String × VoteResult)
unfolding initial_result last_state
state_of t [] = map (λ v. (v.name, initial_result t.state)) t.voters
state_of t (s ∷ ss) = last_state s ss

-- `State()`. Its error, an invalid transaction state, is none of the three states.
unfoldable pub state : Transaction → List (String × VoteResult)
unfolding state_of
state t = state_of t t.subtransactions

unfoldable pub count_subtransactions : Transaction → ℕ
count_subtransactions t = length t.subtransactions

unfoldable pub did_vote_first : String → List Subtransaction → Bool
did_vote_first node [] = false
did_vote_first node (s ∷ ss) =
    let (v, e) = get_vote s node in if is_some e then false else is_some v

unfoldable pub did_vote : Transaction → String → Bool
unfolding did_vote_first
did_vote t node = did_vote_first node t.subtransactions

-- What one round of the loop of `getOrCreateSubtransaction` says of a result and an error.
pub data Verdict : Type 0 where
  vote_here go_on : Verdict
  give_up : Error → Verdict

pub verdict : VoteResult × Option Error → Verdict
verdict (r, some e) = give_up e
verdict (undecided, none) = vote_here
verdict (committed, none) = go_on
verdict (failed, none) = give_up transaction_failed
verdict (canceled, none) = give_up Error.transaction_canceled
verdict (stopped, none) = give_up Error.transaction_stopped

-- The loop, from the subtransaction with index `i` on; with `ok none` it came to its end.
pub find_subtransaction : String → ℕ → List Subtransaction → Result (Option ℕ)
find_subtransaction node i [] = ok none
find_subtransaction node i (s ∷ ss) =
    let rest = find_subtransaction node (suc i) ss in
    elim (verdict (get_result s node)) [
      | vote_here ↦ ok (some i)
      | go_on ↦ rest
      | give_up e ↦ err e
    ]

-- The new subtransaction is appended, and its index returned.
create_if_none : Transaction → Result (Option ℕ) → Transaction × Result ℕ
create_if_none t (err e) = (t, err e)
create_if_none t (ok (some i)) = (t, ok i)
create_if_none t (ok none) = (
  record t { subtransactions = t.subtransactions ++ new_subtransaction t.voters t.threshold ∷ [] },
  ok (length t.subtransactions),
)

get_or_create : TransactionState → Transaction → String → Transaction × Result ℕ
get_or_create transaction_open t node =
    create_if_none t (find_subtransaction node 0 t.subtransactions)
get_or_create transaction_canceled t node = (t, err Error.transaction_canceled)
get_or_create transaction_stopped t node = (t, err Error.transaction_stopped)

pub get_or_create_subtransaction : Transaction → String → Transaction × Result ℕ
unfolding get_or_create create_if_none
get_or_create_subtransaction t node = get_or_create t.state t node

-- A call on the subtransaction with the given index.
pub on_subtransaction :
    (Subtransaction → Ran Subtransaction) → ℕ → List Subtransaction → Ran (List Subtransaction)
on_subtransaction f i [] = none
on_subtransaction f zero (s ∷ ss) = elim (f s) [ none ↦ none | some (s', e) ↦ some (s' ∷ ss, e) ]
on_subtransaction f (suc i) (s ∷ ss) = elim (on_subtransaction f i ss) [
  | none ↦ none
  | some (ss', e) ↦ some (s ∷ ss', e)
]

within : Transaction → Ran (List Subtransaction) → Ran Transaction
within t none = none
within t (some (ss, e)) = some (record t { subtransactions = ss }, e)

-- The second and the third call of `vote`. Other calls may come between the three.
pub vote_on : Transaction → ℕ → String → Vote → Ran Transaction
unfolding within
vote_on t i node w =
    within t (on_subtransaction (λ s. Subtransaction.vote s node w) i t.subtransactions)

pub collect_on : Transaction → ℕ → Bool → String → Ran Transaction
unfolding within
collect_on t i ctx_done node =
    within t
      (on_subtransaction (λ s. Subtransaction.collect_votes s ctx_done node) i t.subtransactions)
