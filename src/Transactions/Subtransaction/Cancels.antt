-- ===== src/Transactions/Subtransaction/Cancels.antt =====
-- What `cancel` leaves of a subtransaction.
use gitally.Prelude.{◌≡◌, ◌≢◌, refl, true, some, List, [], ◌∷◌, arith, map}
use gitally.Transactions.Types.{Voter, undecided, canceled}
use gitally.Transactions.Subtransaction.{Subtransaction, cancel_voter, cancel}
use gitally.Transactions.Subtransaction.Ending.{cancel_lem}

-- A voter without a result is canceled, and one with a result keeps all that it has.
abbrev pub CancelsVoter : Voter → Voter → Type 0
CancelsVoter v v' =
    (v'.name ≡ v.name)
    × (v'.votes ≡ v.votes)
    × (v'.vote ≡ v.vote)
    × (v.result ≡ undecided → v'.result ≡ canceled)
    × (v.result ≢ undecided → v'.result ≡ v.result)

abbrev pub CancelsVoters : List Voter → List Voter → Type 0
CancelsVoters [] [] = Unit
CancelsVoters (v ∷ vs) (v' ∷ vs') = CancelsVoter v v' × CancelsVoters vs vs'
CancelsVoters _ _ = ⊥

-- The nodes that wait are woken, and the voters are canceled.
abbrev pub Cancels : Subtransaction → Subtransaction → Type 0
Cancels s s' = (s'.done ≡ true) × CancelsVoters s.voters s'.voters

cancel_voter-CancelsVoter : (v : Voter) → CancelsVoter v (cancel_voter v)
unfolding cancel_voter
cancel_voter-CancelsVoter v =
    (ground arith, ground arith, ground arith, λ u. ground arith, λ u. ground arith)

map-CancelsVoters : (vs : List Voter) → CancelsVoters vs (map cancel_voter vs)
map-CancelsVoters [] = tt
map-CancelsVoters (v ∷ vs) = (cancel_voter-CancelsVoter v, map-CancelsVoters vs)

pub cancel-Cancels :
    (s : Subtransaction) → (s' : Subtransaction) × (cancel s ≡ some s') × Cancels s s'
cancel-Cancels s = (
  record s { done = true; voters = map cancel_voter s.voters },
  cancel_lem s,
  (refl, map-CancelsVoters s.voters),
)
