-- ===== src/Transactions/Subtransaction/Outcomes.antt =====
-- Results are final, whatever is called later.
use gitally.Prelude.{
  ℕ, ◌≡◌, refl, false, Option, none, some, List, [], ◌∷◌, arith, String, subst, eq_iff, map,
  some_eq,
}
use gitally.Transactions.Types.{Vote, Voter, undecided, is_undecided, Error}
use gitally.Transactions.Subtransaction.{
  Subtransaction, find_voter, write_voter, decide_voter, decide_voters, prepend, cancel_voter,
  stop_voters, stop_from,
}
use gitally.Transactions.Subtransaction.Closed.{IsClosed, Finds, Finds-call, Call, call}

pub prepend-some :
    (o : Option Voter) (r : Option (List Voter)) (us : List Voter)
    → prepend o r ≡ some us
    → (u : Voter) × (us' : List Voter) × (o ≡ some u) × (r ≡ some us') × (u ∷ us' ≡ us)
unfolding prepend
prepend-some none r us e = cc
prepend-some (some u) none us e = cc
prepend-some (some u) (some us') us e = (u, us', refl, refl, some_eq _ _ e)

module _ (n : String) (v : Voter) (decided : is_undecided v.result ≡ false) where
  abbrev Has : List Voter → Type 0
  Has vs = find_voter n vs ≡ some v

  Has-write_voter :
      (m : String) (x x' : Voter) (vs : List Voter)
      → find_voter m vs ≡ some x
      → x.result ≡ undecided
      → x'.name ≡ m
      → Has vs
      → Has (write_voter m x' vs)
  unfolding find_voter write_voter
  Has-write_voter m x x' [] f u e h = cc
  Has-write_voter m x x' (w ∷ ws) f u e h =
      ground (arith, eq_iff w.name m, eq_iff w.name n, eq_iff x'.name n, Has-write_voter m x x' ws)

  decide_voter_keeps :
      (threshold : ℕ) (best : Option Vote) (k : ℕ) (w u : Voter)
      → decide_voter threshold best k w ≡ some u
      → (u.name ≡ w.name) × (is_undecided w.result ≡ false → u ≡ w)
  unfolding decide_voter
  decide_voter_keeps threshold best k w u e = (ground arith, λ d. ground arith)

  Has-prepend :
      (w u : Voter) (ws us : List Voter)
      → u.name ≡ w.name
      → (is_undecided w.result ≡ false → u ≡ w)
      → (Has ws → Has us)
      → Has (w ∷ ws)
      → Has (u ∷ us)
  unfolding find_voter
  Has-prepend w u ws us e f g h = ground (arith, eq_iff u.name n, eq_iff w.name n)

  Has-decide_voters :
      (threshold : ℕ) (best : Option Vote) (k : ℕ) (vs us : List Voter)
      → decide_voters threshold best k vs ≡ some us
      → Has vs
      → Has us
  unfolding decide_voters
  Has-decide_voters threshold best k [] us e h = ground arith
  Has-decide_voters threshold best k (w ∷ ws) us e h =
      let (u, us', p, q, same) =
        prepend-some (decide_voter threshold best k w) (decide_voters threshold best k ws) us e in
      let (name, kept) = decide_voter_keeps threshold best k w u p in
      subst Has same
        (Has-prepend w u ws us' name kept (Has-decide_voters threshold best k ws us' q) h)

  Has-cancel_voters : (vs : List Voter) → Has vs → Has (map cancel_voter vs)
  unfolding find_voter cancel_voter
  Has-cancel_voters [] h = h
  Has-cancel_voters (w ∷ ws) h = ground (arith, Has-cancel_voters ws)

  Has-stop_voters : (vs : List Voter) → Has vs → Has (stop_voters vs).0
  unfolding find_voter stop_voters stop_from
  Has-stop_voters [] h = h
  Has-stop_voters (w ∷ ws) h = ground (arith, Has-stop_voters ws)

  Has-IsClosed : IsClosed Has
  Has-IsClosed = record {
    written = λ m x x' vs f u e w h. Has-write_voter m x x' vs f u e h;
    settles = Has-decide_voters;
    cancels_all = Has-cancel_voters;
    stops_all = Has-stop_voters;
  }

-- Once a voter is decided, no call changes its vote, its result or its number of votes, whatever
-- the state is in which the call is made.
pub decided_is_final :
    (t t' : Subtransaction) (c : Call) (e : Option Error) (node : String) (v : Voter)
    → find_voter node t.voters ≡ some v
    → is_undecided v.result ≡ false
    → call t c ≡ some (t', e)
    → find_voter node t'.voters ≡ some v
decided_is_final t t' c e node v found decided q =
    (subst (Finds t.threshold (Has node v decided) (Has-IsClosed node v decided)) q (
      Finds-call t.threshold (Has node v decided) (Has-IsClosed node v decided) t c
        (refl, found))).1
