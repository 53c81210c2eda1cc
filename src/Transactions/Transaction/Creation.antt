-- ===== src/Transactions/Transaction/Creation.antt =====
-- Which voters and thresholds `newTransaction` accepts.
use gitally.Prelude.{
  ℕ, ◌+◌, ◌*◌, ◌^◌, ◌≤◌, ◌<◌, ◌≡◌, ◌≢◌, ◌↔◌, refl, String, false, none, List, [], ◌∷◌, arith, All,
  u64, str_eq, eq_iff, ap, ◌∙◌,
}
use gitally.Transactions.Types.{Voter, Result, ok, err}
use gitally.Transactions.Subtransaction.{find_voter}
use gitally.Transactions.Subtransaction.Invariant.{total}
use gitally.Transactions.Subtransaction.Runs.{HasNames, IsFresh, IsAcceptable}
use gitally.Transactions.Transaction.{
  Transaction, transaction_open, has_name, sum_votes, check_threshold, new_transaction,
}

abbrev Unseen : List String → List Voter → Type 0
Unseen seen vs = All (λ v. has_name v.name seen ≡ false) vs

Unseen-cons :
    (n : String) (seen : List String) (vs : List Voter)
    → Unseen (n ∷ seen) vs
    → Unseen seen vs × (find_voter n vs ≡ none)
unfolding has_name find_voter
Unseen-cons n seen [] h = (tt, refl)
Unseen-cons n seen (v ∷ vs) h =
    let (rest, away) = Unseen-cons n seen vs h.1 in
    let (first, this) = split in ((first, rest), ground (arith, away, this))
  where
    split : (has_name v.name seen ≡ false) × (str_eq v.name n ≡ false)
    split = ground (arith, h.0, eq_iff n v.name, eq_iff v.name n)

Unseen-extend :
    (n : String) (seen : List String) (vs : List Voter)
    → Unseen seen vs
    → find_voter n vs ≡ none
    → Unseen (n ∷ seen) vs
unfolding has_name find_voter
Unseen-extend n seen [] h f = tt
Unseen-extend n seen (v ∷ vs) h f = (
  ground (arith, h.0, eq_iff n v.name, eq_iff v.name n),
  Unseen-extend n seen vs h.1 (ground arith),
)

sum_votes-cons :
    (seen : List String) (n : ℕ) (v : Voter) (vs : List Voter) (m : ℕ)
    → sum_votes seen n (v ∷ vs) ≡ ok m
    → (has_name v.name seen ≡ false) × (sum_votes (v.name ∷ seen) (u64 (n + v.votes)) vs ≡ ok m)
unfolding sum_votes
sum_votes-cons seen n v vs m h = ground arith

sum_votes-ok :
    (seen : List String) (n : ℕ) (vs : List Voter) (m : ℕ)
    → n + total vs < 2 ^ 64
    → sum_votes seen n vs ≡ ok m
    → HasNames vs × Unseen seen vs × (m ≡ n + total vs)
sum_votes-ok seen n [] m b h = (tt, tt, unfold sum_votes in ground arith)
sum_votes-ok seen n (v ∷ vs) m b h =
    let (e, rest) = sum_votes-cons seen n v vs m h in
    let (names, unseen, sum) =
      sum_votes-ok (v.name ∷ seen) (u64 (n + v.votes)) vs m (omega arith) rest in
    let (unseen', away) = Unseen-cons v.name seen vs unseen in
    ((away, names), (e, unseen'), omega (arith, sum))

sum_votes-distinct :
    (seen : List String) (n : ℕ) (vs : List Voter)
    → n + total vs < 2 ^ 64
    → HasNames vs
    → Unseen seen vs
    → sum_votes seen n vs ≡ ok (n + total vs)
unfolding sum_votes
sum_votes-distinct seen n [] b h u = ap ok (omega arith)
sum_votes-distinct seen n (v ∷ vs) b h u = rw u.0 (
    sum_votes-distinct (v.name ∷ seen) (u64 (n + v.votes)) vs (omega arith) h.1
      (Unseen-extend v.name seen vs u.1 h.0)
    ∙ ap ok (omega arith))

check_threshold-ok :
    (id : ℕ) (voters : List Voter) (threshold : ℕ) (r : Result ℕ) (t : Transaction)
    → check_threshold id voters threshold r ≡ ok t
    → (n : ℕ) × (r ≡ ok n)
      × (threshold ≤ n)
      × (n < 2 * threshold)
      × (t ≡ record {
        id = id;
        threshold = threshold;
        voters = voters;
        state = transaction_open;
        subtransactions = [];
      })
unfolding check_threshold
check_threshold-ok id voters threshold (err e) t h = cc
check_threshold-ok id voters threshold (ok n) t h =
    (n, refl, ground arith, ground arith, ground arith)

-- `newTransaction` accepts only voters with distinct names and a threshold that asks for more than
-- half of the votes and for no more than there are, if the votes add up to less than 2^64.
pub new_transaction-IsAcceptable :
    (id : ℕ) (voters : List Voter) (threshold : ℕ) (t : Transaction)
    → total voters < 2 ^ 64
    → All IsFresh voters
    → new_transaction id voters threshold ≡ ok t
    → IsAcceptable voters threshold
      × (t ≡ record {
        id = id;
        threshold = threshold;
        voters = voters;
        state = transaction_open;
        subtransactions = [];
      })
unfolding new_transaction
new_transaction-IsAcceptable id [] threshold t b f h = cc
new_transaction-IsAcceptable id (v ∷ vs) threshold t b f h =
    let (n, sum, reach, room, same) = check_threshold-ok id (v ∷ vs) threshold _ t h in
    let (names, _, q) = sum_votes-ok [] 0 (v ∷ vs) n (omega arith) sum in
    (
      record {
        reachable = omega (arith, q, reach);
        room = omega (arith, q, room);
        wide = b;
        fresh = f;
        names = names;
      },
      same,
    )

Unseen-nil : (vs : List Voter) → Unseen [] vs
unfolding has_name
Unseen-nil [] = tt
Unseen-nil (v ∷ vs) = (refl, Unseen-nil vs)

-- With fewer than 2^64 votes and a threshold below 2^63, `newTransaction` accepts exactly the
-- nonempty lists of voters with distinct names whose threshold is reachable, and more than half of
-- all votes.
pub new_transaction_iff :
    (id : ℕ) (voters : List Voter) (threshold : ℕ)
    → total voters < 2 ^ 64
    → threshold < 2 ^ 63
    → All IsFresh voters
    → ((t : Transaction) × (new_transaction id voters threshold ≡ ok t)) ↔ (
        (voters ≢ [])
        × HasNames voters
        × (threshold ≤ total voters)
        × (total voters < 2 * threshold))
new_transaction_iff id [] threshold b c f =
    (λ p. unfold new_transaction in cc (p.1), λ p. absurd (p.0 refl))
new_transaction_iff id (v ∷ vs) threshold b c f = (
  λ (t, h).
      let (a, _) = new_transaction-IsAcceptable id (v ∷ vs) threshold t b f h in
      (λ q. cc, a.names, a.reachable, a.room),
  λ (_, names, reach, room). (
    record {
      id = id;
      threshold = threshold;
      voters = v ∷ vs;
      state = transaction_open;
      subtransactions = [];
    },
    unfold new_transaction in
        ap (check_threshold id (v ∷ vs) threshold)
          (sum_votes-distinct [] 0 (v ∷ vs) (omega arith) names (Unseen-nil (v ∷ vs)))
        ∙ unfold check_threshold in ground arith,
  ),
)
