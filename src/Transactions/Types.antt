-- ===== src/Transactions/Types.antt =====
-- The data of internal/praefect/transactions: vote results, voters and errors.
use gitally.Prelude.{ℕ, String, Bool, true, false, Option}

-- A vote is an array of 20 bytes, read here as the number that these spell. The code compares
-- votes and does nothing else with them.
abbrev pub Vote : Type 0
Vote = ℕ

pub data VoteResult : Type 0 where
  undecided committed failed canceled stopped : VoteResult

abbrev pub is_undecided : VoteResult → Bool
is_undecided undecided = true
is_undecided _ = false

abbrev pub is_committed : VoteResult → Bool
is_committed committed = true
is_committed _ = false

pub record Voter : Type 0 where
  pub name : String
  pub votes : ℕ
  pub vote : Option Vote
  pub result : VoteResult

-- Errors that are wrapped by `%w` keep what they wrap.
pub data Error : Type 0 where
  duplicate_nodes missing_nodes invalid_threshold : Error
  transaction_failed transaction_canceled transaction_stopped : Error
  not_found exists_already context_canceled : Error
  invalid_node node_already_voted undecided_voter : String → Error
  change_committed change_vote already_finished : Error
  invalid_voter_state : VoteResult → Error
  failed_no_vote : Error
  failed_votes : ℕ → ℕ → Vote → Error
  updating_state : String → Error → Error
  cancel_vote : Error → Error

-- What a method that returns an error leaves: `none` is a panic, else the new state and the error.
abbrev pub Ran {ℓ} : Type ℓ → Type ℓ
Ran S = Option (S × Option Error)

pub data Result {ℓ} (A : Type ℓ) : Type ℓ where
  ok : A → Result A
  err : Error → Result A
