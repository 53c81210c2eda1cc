-- ===== src/Transactions/Subtransaction.antt =====
-- internal/praefect/transactions/subtransaction.go: one session of voting.
-- A Go map is a list of its entries in the order in which the next loop meets them. A closed
-- channel that is closed once more, and a nil pointer that is read, are panics, `none`.
pub mod Counts
pub mod Voters
pub mod Invariant
pub mod Recount
pub mod Calls
pub mod Ending
pub mod Cancels
pub mod Runs
pub mod Agreement
pub mod Closed
pub mod Outcomes
pub mod Roll
pub mod Samples
use gitally.Prelude.{
  ℕ, ◌+◌, String, Bool, true, false, not, ◌&&◌, Option, none, some, List, [], ◌∷◌, ltb, leb, ◌==◌,
  if◌then◌else◌, u64, sub64, str_eq, is_some, map,
}
use gitally.Transactions.Types.{
  Vote, VoteResult, undecided, committed, failed, canceled, stopped, is_undecided, Voter, Error,
  transaction_canceled, transaction_stopped, context_canceled, invalid_node, node_already_voted,
  undecided_voter, change_committed, change_vote, already_finished, invalid_voter_state,
  failed_no_vote, failed_votes, updating_state, cancel_vote, Ran,
}

pub record Subtransaction : Type 0 where
  pub done : Bool
  pub threshold : ℕ
  pub voters : List Voter
  pub vote_counts : List (Vote × ℕ)

-- `votersByNode[voter.Name] = &voter`
pub put_voter : Voter → List Voter → List Voter
put_voter v [] = v ∷ []
put_voter v (w ∷ ws) = if str_eq w.name v.name then v ∷ ws else w ∷ put_voter v ws

pub put_voters : List Voter → List Voter → List Voter
unfolding put_voter
put_voters [] acc = acc
put_voters (v ∷ vs) acc = put_voters vs (put_voter v acc)

pub new_subtransaction : List Voter → ℕ → Subtransaction
unfolding put_voters
new_subtransaction voters threshold = record {
  done = false;
  threshold = threshold;
  voters = put_voters voters [];
  vote_counts = [];
}

-- `t.votersByNode[node]`
unfoldable pub find_voter : String → List Voter → Option Voter
find_voter node [] = none
find_voter node (v ∷ vs) = if str_eq v.name node then some v else find_voter node vs

-- What is written through the pointer that `t.votersByNode[node]` returned.
pub write_voter : String → Voter → List Voter → List Voter
write_voter node v' [] = []
write_voter node v' (v ∷ vs) = if str_eq v.name node then v' ∷ vs else v ∷ write_voter node v' vs

-- `t.voteCounts[v]`, 0 where there is no entry.
pub count_of : Vote → List (Vote × ℕ) → ℕ
count_of v [] = 0
count_of v ((w, c) ∷ cs) = if w == v then c else count_of v cs

-- `t.voteCounts[v] = c`
pub put_count : Vote → ℕ → List (Vote × ℕ) → List (Vote × ℕ)
put_count v c [] = (v, c) ∷ []
put_count v c ((w, d) ∷ cs) = if w == v then (w, c) ∷ cs else (w, d) ∷ put_count v c cs

-- `close(t.doneCh)`
close_done : Subtransaction → Option Subtransaction
close_done t = if t.done then none else some (record t { done = true })

pub close_if_open : Subtransaction → Option Subtransaction
unfolding close_done
close_if_open t = if not t.done then close_done t else some t

pub cancel_voter : Voter → Voter
cancel_voter v = if is_undecided v.result then record v { result = canceled } else v

pub cancel : Subtransaction → Option Subtransaction
unfolding cancel_voter close_if_open
cancel t = close_if_open (record t { voters = map cancel_voter t.voters })

-- One round of the loop of `stop`, at a voter with the given result, before the voters `vs`, where
-- the later rounds make `rest`. An error ends the loop, and what was written stays written.
stop_from : VoteResult → Voter → List Voter → List Voter × Option Error → List Voter × Option Error
stop_from canceled v vs rest = (v ∷ vs, some transaction_canceled)
stop_from stopped v vs rest = (v ∷ vs, some transaction_stopped)
stop_from undecided v vs (us, e) = (record v { result = stopped } ∷ us, e)
stop_from committed v vs (us, e) = (v ∷ us, e)
stop_from failed v vs (us, e) = (v ∷ us, e)

pub stop_voters : List Voter → List Voter × Option Error
unfolding stop_from
stop_voters [] = ([], none)
stop_voters (v ∷ vs) = stop_from v.result v vs (stop_voters vs)

-- After the loop of `stop`.
close_stopped : Subtransaction → List Voter × Option Error → Ran Subtransaction
unfolding close_if_open
close_stopped t (vs, some e) = some (record t { voters = vs }, some e)
close_stopped t (vs, none) = elim (close_if_open (record t { voters = vs })) [
  | none ↦ none
  | some u ↦ some (u, none)
]

pub stop : Subtransaction → Ran Subtransaction
stop t = close_stopped t (stop_voters t.voters)

unfoldable pub state : Subtransaction → List (String × VoteResult)
state t = map (λ v. (v.name, v.result)) t.voters

-- The loop over `t.voteCounts` that finds the vote with most support.
pub majority_loop : Option Vote → ℕ → List (Vote × ℕ) → Option Vote × ℕ
majority_loop best n [] = (best, n)
majority_loop best n ((v, c) ∷ cs) =
    majority_loop (if ltb n c then some v else best) (if ltb n c then c else n) cs

pub majority : List (Vote × ℕ) → Option Vote × ℕ
majority counts = majority_loop none 0 counts

pub outstanding_loop : ℕ → List Voter → ℕ
outstanding_loop n [] = n
outstanding_loop n (v ∷ vs) = outstanding_loop (if is_some v.vote then n else u64 (n + v.votes)) vs

pub any_quorum : ℕ → List (Vote × ℕ) → Bool
any_quorum threshold [] = false
any_quorum threshold ((v, c) ∷ cs) = if leb threshold c then true else any_quorum threshold cs

pub any_undecided : List Voter → Bool
any_undecided [] = false
any_undecided (v ∷ vs) = if is_undecided v.result then true else any_undecided vs

pub must_signal_voters : Subtransaction → Bool
unfolding any_quorum any_undecided
must_signal_voters t =
    if t.done
    then false
    else if any_quorum t.threshold t.vote_counts
    then true
    else not (any_undecided t.voters)

-- The deferred function of `updateVoterState`, and its return with no error.
pub signal_voters : Subtransaction → Ran Subtransaction
signal_voters t =
    if must_signal_voters t
    then elim (close_done t) [ none ↦ none | some u ↦ some (u, none) ]
    else some (t, none)

-- The body of the last loop; `none` if the majority vote is read where there is none.
decide_voter : ℕ → Option Vote → ℕ → Voter → Option Voter
decide_voter threshold best n v = elim v.result [
  | undecided ↦ elim v.vote [
    | none ↦ some v
    | some w ↦ if ltb n threshold then some (record v { result = failed }) else elim best [
      | none ↦ none
      | some m ↦ some (record v { result = if w == m then committed else failed })
    ]
  ]
  | _ ↦ some v
]

pub prepend : Option Voter → Option (List Voter) → Option (List Voter)
prepend none rest = none
prepend (some v) none = none
prepend (some v) (some vs) = some (v ∷ vs)

pub decide_voters : ℕ → Option Vote → ℕ → List Voter → Option (List Voter)
unfolding decide_voter prepend
decide_voters threshold best n [] = some []
decide_voters threshold best n (v ∷ vs) =
    prepend (decide_voter threshold best n v) (decide_voters threshold best n vs)

-- From the count of the majority to the end of `updateVoterState`.
pub settle : Subtransaction → Ran Subtransaction
settle t =
    let (best, n) = majority t.vote_counts in
    let outstanding = outstanding_loop 0 t.voters in
    if ltb n t.threshold && leb t.threshold (u64 (n + outstanding))
    then signal_voters t
    else elim (decide_voters t.threshold best n t.voters) [
      | none ↦ none
      | some vs ↦ signal_voters (record t { voters = vs })
    ]

-- The first `switch` of `updateVoterState`.
check_undecided : VoteResult → Option Error
check_undecided undecided = none
check_undecided canceled = some transaction_canceled
check_undecided stopped = some transaction_stopped
check_undecided committed = some change_committed
check_undecided failed = some (invalid_voter_state failed)

-- The second `switch`, at a vote: it is counted and kept.
pub cast_vote : Subtransaction → Voter → Vote → Ran Subtransaction
cast_vote t v w =
    if is_some v.vote
    then some (t, some change_vote)
    else settle (record t {
      vote_counts = put_count w (u64 (count_of w t.vote_counts + v.votes)) t.vote_counts;
      voters = write_voter v.name (record v { vote = some w }) t.voters;
    })

-- The second `switch`, at nil: the support for `*voter.vote` is withdrawn.
withdraw_from : Subtransaction → Voter → Option Vote → Ran Subtransaction
withdraw_from t v none = none
withdraw_from t v (some w) = settle (record t {
  vote_counts = put_count w (sub64 (count_of w t.vote_counts) v.votes) t.vote_counts;
  voters = write_voter v.name (record v { result = canceled }) t.voters;
})

pub withdraw_vote : Subtransaction → Voter → Ran Subtransaction
withdraw_vote t v = if t.done then some (t, some already_finished) else withdraw_from t v v.vote

pub update_voter_state : Subtransaction → Voter → Option Vote → Ran Subtransaction
update_voter_state t v vote = elim (check_undecided v.result) [
  | some e ↦ some (t, some e)
  | none ↦ elim vote [ some w ↦ cast_vote t v w | none ↦ withdraw_vote t v ]
]

wrap_error {ℓ} : {S : Type ℓ} → (Error → Error) → Ran S → Ran S
wrap_error f none = none
wrap_error f (some (s, none)) = some (s, none)
wrap_error f (some (s, some e)) = some (s, some (f e))

pub vote : Subtransaction → String → Vote → Ran Subtransaction
vote t node w = elim (find_voter node t.voters) [
  | none ↦ some (t, some (invalid_node node))
  | some v ↦
      if is_some v.vote
      then some (t, some (node_already_voted node))
      else wrap_error (updating_state node) (update_voter_state t v (some w))
]

-- The last `switch` of `collectVotes`.
collected : Subtransaction → String → Voter → Option Error
collected t node v = elim v.result [
  | committed ↦ none
  | failed ↦ elim v.vote [
    | none ↦ some failed_no_vote
    | some w ↦ some (failed_votes (count_of w t.vote_counts) t.threshold w)
  ]
  | canceled ↦ some transaction_canceled
  | stopped ↦ some transaction_stopped
  | undecided ↦ some (undecided_voter node)
]

-- `cancel vote: …` if the withdrawal is refused, else the error of the context.
after_withdrawal : Ran Subtransaction → Ran Subtransaction
after_withdrawal none = none
after_withdrawal (some (t, none)) = some (t, some context_canceled)
after_withdrawal (some (t, some e)) = some (t, some (cancel_vote e))

-- `collectVotes` once its `select` has returned; `ctx_done` says that `ctx.Err()` is not nil.
pub collect_votes : Subtransaction → Bool → String → Ran Subtransaction
collect_votes t ctx_done node = elim (find_voter node t.voters) [
  | none ↦ some (t, some (invalid_node node))
  | some v ↦
      if ctx_done
      then after_withdrawal (update_voter_state t v none)
      else some (t, collected t node v)
]

-- The value and the error of `getResult`.
pub get_result : Subtransaction → String → VoteResult × Option Error
unfolding find_voter
get_result t node = elim (find_voter node t.voters) [
  | none ↦ (canceled, some (invalid_node node))
  | some v ↦ (v.result, none)
]

unfoldable pub get_vote : Subtransaction → String → Option Vote × Option Error
unfolding find_voter
get_vote t node = elim (find_voter node t.voters) [
  | none ↦ (none, some (invalid_node node))
  | some v ↦ (v.vote, none)
]
