-- ===== src/Transactions/Transaction/Sequence.antt =====
-- The order in which a node goes through the subtransactions of a transaction.
use gitally.Prelude.{
  ℕ, zero, suc, ◌+◌, ◌≡◌, ◌⊎◌, inl, inr, refl, String, Option, none, some, List, [], ◌∷◌, ◌++◌,
  arith, All, length, subst,
}
use gitally.Transactions.Types.{VoteResult, undecided, committed, Error, Result, ok, err}
use gitally.Transactions.Subtransaction.{Subtransaction, new_subtransaction, get_result}
use gitally.Transactions.Transaction.{
  Transaction, TransactionState, transaction_open, transaction_canceled, transaction_stopped,
  Verdict, vote_here, go_on, give_up, verdict, find_subtransaction, create_if_none, get_or_create,
  get_or_create_subtransaction,
}

abbrev pub HasCommitted : String → Subtransaction → Type 0
HasCommitted node s = get_result s node ≡ (committed, none)

-- The node has committed the subtransactions before the one with index `i`, and `P` holds of that.
abbrev pub Reaches : (Subtransaction → Type 0) → String → ℕ → List Subtransaction → Type 0
Reaches P node i [] = ⊥
Reaches P node zero (s ∷ ss) = P s
Reaches P node (suc i) (s ∷ ss) = HasCommitted node s × Reaches P node i ss

-- The error that a result gives rise to.
abbrev pub FailsWith : String → Error → Subtransaction → Type 0
FailsWith node e s = verdict (get_result s node) ≡ give_up e

abbrev pub IsWaiting : String → Subtransaction → Type 0
IsWaiting node s = get_result s node ≡ (undecided, none)

abbrev Explains : String → ℕ → List Subtransaction → Result (Option ℕ) → Type 0
Explains node k ss (err e) = (i : ℕ) × Reaches (FailsWith node e) node i ss
Explains node k ss (ok none) = All (HasCommitted node) ss
Explains node k ss (ok (some m)) = (i : ℕ) × (m ≡ k + i) × Reaches (IsWaiting node) node i ss

verdict-go_on : (r : VoteResult × Option Error) → verdict r ≡ go_on → r ≡ (committed, none)
unfolding verdict
verdict-go_on (r, some e) h = cc
verdict-go_on (r, none) h = ground arith

verdict-vote_here : (r : VoteResult × Option Error) → verdict r ≡ vote_here → r ≡ (undecided, none)
unfolding verdict
verdict-vote_here (r, some e) h = cc
verdict-vote_here (r, none) h = ground arith

Explains-cons :
    (node : String) (k : ℕ) (s : Subtransaction) (ss : List Subtransaction) (r : Result (Option ℕ))
    → HasCommitted node s
    → Explains node (suc k) ss r
    → Explains node k (s ∷ ss) r
Explains-cons node k s ss (err e) c (i, h) = (suc i, (c, h))
Explains-cons node k s ss (ok none) c h = (c, h)
Explains-cons node k s ss (ok (some m)) c (i, q, h) = (suc i, omega arith, (c, h))

verdict-cases : (v : Verdict) → (v ≡ vote_here) ⊎ (v ≡ go_on) ⊎ ((e : Error) × (v ≡ give_up e))
verdict-cases vote_here = inl refl
verdict-cases go_on = inr (inl refl)
verdict-cases (give_up e) = inr (inr (e, refl))

find_subtransaction-Explains :
    (node : String) (k : ℕ) (ss : List Subtransaction)
    → Explains node k ss (find_subtransaction node k ss)
unfolding find_subtransaction
find_subtransaction-Explains node k [] = tt
find_subtransaction-Explains node k (s ∷ ss) = elim (verdict-cases (verdict (get_result s node))) [
  | inl h ↦ rw (h, Explains) (0, omega arith, verdict-vote_here _ h)
  | inr (inl h) ↦
      rw (h, Explains)
        (Explains-cons node k s ss _ (verdict-go_on _ h)
          (find_subtransaction-Explains node (suc k) ss))
  | inr (inr (e, h)) ↦ rw (h, Explains) (0, h)
]

-- What is promised of a call: the index of a subtransaction at which the node has to vote, which
-- stands there already or is new, or an error that the first subtransaction gave rise to which the
-- node has not committed, or that the end of the transaction gave rise to.
abbrev pub Selects : Transaction → String → Transaction × Result ℕ → Type 0
Selects t node (t', ok i) =
    (t.state ≡ transaction_open)
    × (((t' ≡ t) × Reaches (IsWaiting node) node i t.subtransactions)
        ⊎ ((i ≡ length t.subtransactions)
            × All (HasCommitted node) t.subtransactions
            × (t' ≡ record t {
              subtransactions = t.subtransactions ++ new_subtransaction t.voters t.threshold ∷ [];
            })))
Selects t node (t', err e) =
    (t' ≡ t)
    × (((t.state ≡ transaction_open)
          × ((i : ℕ) × Reaches (FailsWith node e) node i t.subtransactions))
        ⊎ (((t.state ≡ transaction_canceled) × (e ≡ Error.transaction_canceled))
            ⊎ ((t.state ≡ transaction_stopped) × (e ≡ Error.transaction_stopped))))

create_if_none-Selects :
    (t : Transaction) (node : String) (r : Result (Option ℕ))
    → t.state ≡ transaction_open
    → Explains node 0 t.subtransactions r
    → Selects t node (create_if_none t r)
unfolding create_if_none
create_if_none-Selects t node (err e) o h = (refl, inl (o, h))
create_if_none-Selects t node (ok none) o h = (o, inr (refl, h, refl))
create_if_none-Selects t node (ok (some m)) o (i, q, h) = (
  o,
  inl (refl, subst (λ (j : ℕ). Reaches (IsWaiting node) node j t.subtransactions) (omega arith) h),
)

get_or_create-Selects :
    (s : TransactionState) (t : Transaction) (node : String)
    → t.state ≡ s
    → Selects t node (get_or_create s t node)
unfolding get_or_create
get_or_create-Selects transaction_open t node o =
    create_if_none-Selects t node _ o (find_subtransaction-Explains node 0 t.subtransactions)
get_or_create-Selects transaction_canceled t node o = (refl, inr (inl (o, refl)))
get_or_create-Selects transaction_stopped t node o = (refl, inr (inr (o, refl)))

-- A node votes on the subtransactions in order. The call returns the first subtransaction on which
-- the node is undecided, if it has committed all before it; a new one at the end, if it has
-- committed all there are; and else an error that changes nothing: that of the first subtransaction
-- that the node neither committed nor can vote on, or that of a transaction that has ended.
pub get_or_create_subtransaction-Selects :
    (t : Transaction) (node : String) → Selects t node (get_or_create_subtransaction t node)
unfolding get_or_create_subtransaction
get_or_create_subtransaction-Selects t node = get_or_create-Selects t.state t node refl
