-- ===== src/Transactions/Subtransaction/Closed.antt =====
-- Predicates on the voters that no call breaks.
use gitally.Prelude.{
  ℕ, ◌≡◌, inl, inr, refl, Bool, true, false, Option, none, some, List, arith, String, subst, sym,
  if◌then◌else◌, Bool-cases, Option-cases, is_some, map, ltb, leb, u64, ◌+◌, ◌&&◌,
}
use gitally.Transactions.Types.{Vote, Voter, VoteResult, undecided, Error, Ran}
use gitally.Transactions.Subtransaction.{
  Subtransaction, find_voter, write_voter, decide_voters, signal_voters, must_signal_voters,
  close_done, settle, cast_vote, withdraw_vote, withdraw_from, check_undecided, update_voter_state,
  wrap_error, vote, after_withdrawal, collect_votes, cancel, cancel_voter, stop, stop_voters,
  close_stopped, majority, outstanding_loop,
}
use gitally.Transactions.Subtransaction.Voters.{find_voter-name}
use gitally.Transactions.Subtransaction.Ending.{cancel_lem, close_if_open_lem}

-- The methods that change a subtransaction.
pub data Call : Type 0 where
  votes : String → Vote → Call
  collects : Bool → String → Call
  cancels stops : Call

unfoldable pub call : Subtransaction → Call → Ran Subtransaction
call t (votes node w) = vote t node w
call t (collects ctx_done node) = collect_votes t ctx_done node
call t cancels = elim (cancel t) [ none ↦ none | some u ↦ some (u, none) ]
call t stops = stop t

-- The test of `updateVoterState` that lets voters wait.
abbrev waits : Subtransaction → Bool
waits t =
    ltb (majority t.vote_counts).1 t.threshold
    && leb t.threshold (u64 ((majority t.vote_counts).1 + outstanding_loop 0 t.voters))

check_undecided-none : (r : VoteResult) → check_undecided r ≡ none → r ≡ undecided
unfolding check_undecided
check_undecided-none r h = ground arith

-- The ways in which the calls change the voters.
pub record IsClosed (P : List Voter → Type 0) : Type 0 where
  pub written :
      (m : String) (x x' : Voter) (vs : List Voter)
      → find_voter m vs ≡ some x
      → x.result ≡ undecided
      → x'.name ≡ m
      → x'.votes ≡ x.votes
      → P vs
      → P (write_voter m x' vs)
  pub settles :
      (threshold : ℕ) (best : Option Vote) (k : ℕ) (vs us : List Voter)
      → decide_voters threshold best k vs ≡ some us
      → P vs
      → P us
  pub cancels_all : (vs : List Voter) → P vs → P (map cancel_voter vs)
  pub stops_all : (vs : List Voter) → P vs → P (stop_voters vs).0

module _ (k : ℕ) (P : List Voter → Type 0) (closed : IsClosed P) where
  abbrev Has : Subtransaction → Type 0
  Has t = (t.threshold ≡ k) × P t.voters

  -- It holds of the state that the call leaves, if it returns.
  abbrev pub Finds : Ran Subtransaction → Type 0
  Finds none = Unit
  Finds (some (t, e)) = Has t

  Finds-if : (b : Bool) (r s : Ran Subtransaction) → Finds r → Finds s → Finds (if b then r else s)
  Finds-if true r s h k = h
  Finds-if false r s h k = k

  Finds-signal_voters : (t : Subtransaction) → Has t → Finds (signal_voters t)
  unfolding signal_voters close_done
  Finds-signal_voters t h = elim (Bool-cases (must_signal_voters t)) [
    | inl e ↦ elim (Bool-cases t.done) [ inl d ↦ rw (e, d, Finds) tt | inr d ↦ rw (e, d, Finds) h ]
    | inr e ↦ rw (e, Finds) h
  ]

  Finds-settle : (t : Subtransaction) → Has t → Finds (settle t)
  unfolding settle
  Finds-settle t h = elim (Bool-cases (waits t)) [
    | inl e ↦ rw (e, Finds) (Finds-signal_voters t h)
    | inr e ↦
        elim (Option-cases (
          decide_voters t.threshold (majority t.vote_counts).0 (majority t.vote_counts).1
            t.voters)) [
              | inl p ↦ rw (e, p, Finds) tt
              | inr (us, p) ↦
                  rw (e, p, Finds)
                    (Finds-signal_voters (record t { voters = us })
                      (h.0, closed.settles _ _ _ t.voters us p h.1))
            ]
  ]

  module _ (t : Subtransaction) (h : Has t) (m : String) (x : Voter)
      (found : find_voter m t.voters ≡ some x) where
    self_found : find_voter x.name t.voters ≡ some x
    self_found =
        subst (λ (k : String). find_voter k t.voters ≡ some x)
          (sym (find_voter-name m t.voters x found)) found

    Finds-cast_vote : (w : Vote) → x.result ≡ undecided → Finds (cast_vote t x w)
    unfolding cast_vote
    Finds-cast_vote w u = elim (Bool-cases (is_some x.vote)) [
      | inl e ↦ rw (e, Finds) h
      | inr e ↦
          rw (e, Finds)
            (Finds-settle _ (h.0, closed.written x.name x _ t.voters self_found u refl refl h.1))
    ]

    Finds-withdraw_from : (o : Option Vote) → x.result ≡ undecided → Finds (withdraw_from t x o)
    unfolding withdraw_from
    Finds-withdraw_from none u = tt
    Finds-withdraw_from (some w) u =
        Finds-settle _ (h.0, closed.written x.name x _ t.voters self_found u refl refl h.1)

    Finds-withdraw_vote : x.result ≡ undecided → Finds (withdraw_vote t x)
    unfolding withdraw_vote
    Finds-withdraw_vote u = Finds-if t.done _ _ h (Finds-withdraw_from x.vote u)

    Finds-update_voter_state : (o : Option Vote) → Finds (update_voter_state t x o)
    unfolding update_voter_state
    Finds-update_voter_state o = elim (Option-cases (check_undecided x.result)) [
      | inr (e, p) ↦ rw (p, update_voter_state, Finds) h
      | inl p ↦ rw (p, update_voter_state, Finds) (branch o (check_undecided-none x.result p))
    ]
      where
        branch :
            (o : Option Vote)
            → x.result ≡ undecided
            → Finds (elim o [ some w ↦ cast_vote t x w | none ↦ withdraw_vote t x ])
        branch none u = Finds-withdraw_vote u
        branch (some w) u = Finds-cast_vote w u

  Finds-wrap_error : (f : Error → Error) (r : Ran Subtransaction) → Finds r → Finds (wrap_error f r)
  unfolding wrap_error
  Finds-wrap_error f none k = k
  Finds-wrap_error f (some (s, none)) k = k
  Finds-wrap_error f (some (s, some e)) k = k

  Finds-after_withdrawal : (r : Ran Subtransaction) → Finds r → Finds (after_withdrawal r)
  unfolding after_withdrawal
  Finds-after_withdrawal none k = k
  Finds-after_withdrawal (some (s, none)) k = k
  Finds-after_withdrawal (some (s, some e)) k = k

  Finds-close_stopped :
      (t : Subtransaction) (r : List Voter × Option Error)
      → t.threshold ≡ k
      → P r.0
      → Finds (close_stopped t r)
  unfolding close_stopped
  Finds-close_stopped t (vs, some e) q h = (q, h)
  Finds-close_stopped t (vs, none) q h =
      rw (close_if_open_lem (record t { voters = vs }), Finds) (q, h)

  pub Finds-call : (t : Subtransaction) (c : Call) → Has t → Finds (call t c)
  unfolding call vote collect_votes stop
  Finds-call t (votes m w) h = elim (Option-cases (find_voter m t.voters)) [
    | inl e ↦ rw (e, vote, Finds) h
    | inr (x, e) ↦ elim (Bool-cases (is_some x.vote)) [
      | inl b ↦ rw (e, vote, Finds) (rw (b, Finds) h)
      | inr b ↦
          rw (e, vote, Finds)
            (rw (b, Finds) (Finds-wrap_error _ _ (Finds-update_voter_state t h m x e (some w))))
    ]
  ]
  Finds-call t (collects true m) h = elim (Option-cases (find_voter m t.voters)) [
    | inl e ↦ rw (e, collect_votes, Finds) h
    | inr (x, e) ↦
        rw (e, collect_votes, Finds)
          (Finds-after_withdrawal _ (Finds-update_voter_state t h m x e none))
  ]
  Finds-call t (collects false m) h = elim (Option-cases (find_voter m t.voters)) [
    | inl e ↦ rw (e, collect_votes, Finds) h
    | inr (x, e) ↦ rw (e, collect_votes, Finds) h
  ]
  Finds-call t cancels h = rw (cancel_lem t, Finds) (h.0, closed.cancels_all t.voters h.1)
  Finds-call t stops h = Finds-close_stopped t _ h.0 (closed.stops_all t.voters h.1)
