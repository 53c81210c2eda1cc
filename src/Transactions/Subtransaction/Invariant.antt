-- ===== src/Transactions/Subtransaction/Invariant.antt =====
-- What holds of a subtransaction between two calls.
use gitally.Prelude.{
  ℕ, ◌+◌, ◌*◌, ◌^◌, ◌≤◌, ◌<◌, ◌≡◌, ◌⊎◌, inl, inr, Bool, true, false, ◌&&◌, Option, none, some, List,
  [], ◌∷◌, arith, ltb, leb, ◌==◌, if◌then◌else◌, is_some, All, u64, map, Bool-cases, Option-cases,
}
use gitally.Transactions.Types.{Vote, Voter, committed, is_undecided, Error}
use gitally.Transactions.Subtransaction.{
  Subtransaction, count_of, majority, any_quorum, any_undecided, must_signal_voters, signal_voters,
  close_done, settle, outstanding_loop,
}
use gitally.Transactions.Subtransaction.Counts.{
  sum_counts, IsUnique, top, top_attained, count_of-le-sum_counts, majority-some, majority-none,
  any_quorum-top,
}
use gitally.Transactions.Subtransaction.Voters.{
  sum_by, outstanding_of, outstanding_loop_lem, decision, decide_voters-decision, All-mapped,
  sum_by-mapped, sum_by-mapped-le,
}

abbrev pub total : List Voter → ℕ
total = sum_by (λ v. v.votes)

abbrev pub outstanding : List Voter → ℕ
outstanding = sum_by outstanding_of

abbrev pub is_for : Vote → Option Vote → Bool
is_for w none = false
is_for w (some x) = x == w

-- The votes of the voters that cast `w`, and of those of them that still wait.
abbrev pub weight_of : Vote → Voter → ℕ
weight_of w v = if is_for w v.vote then v.votes else 0

abbrev pub pending_of : Vote → Voter → ℕ
pending_of w v = if is_for w v.vote && is_undecided v.result then v.votes else 0

abbrev pub weight : Vote → List Voter → ℕ
weight w = sum_by (weight_of w)

abbrev pub pending : Vote → List Voter → ℕ
pending w = sum_by (pending_of w)

abbrev pub IsDecided : Voter → Type 0
IsDecided v = is_undecided v.result ≡ false

-- Who has voted is decided.
abbrev pub IsSettled : Voter → Type 0
IsSettled v = (is_some v.vote && is_undecided v.result) ≡ false

abbrev pub HasQuorum : ℕ → List (Vote × ℕ) → Option Vote → Type 0
HasQuorum threshold counts none = ⊥
HasQuorum threshold counts (some w) = threshold ≤ count_of w counts

-- Who has committed, did so with a quorum.
abbrev pub Justified : ℕ → List (Vote × ℕ) → Voter → Type 0
Justified threshold counts v = v.result ≡ committed → HasQuorum threshold counts v.vote

-- What holds also before the last loop of `updateVoterState`.
pub record Core (t : Subtransaction) : Type 0 where
  pub room : total t.voters < 2 * t.threshold
  pub wide : total t.voters < 2 ^ 64
  pub unique : IsUnique t.vote_counts
  pub bounded : sum_counts t.vote_counts + outstanding t.voters ≤ total t.voters
  pub backed :
      (w : Vote)
      → (pending w t.voters ≤ count_of w t.vote_counts)
        × (count_of w t.vote_counts ≤ weight w t.voters)
  pub justified : All (Justified t.threshold t.vote_counts) t.voters
  pub awake : t.done ≡ true → (t.threshold ≤ top t.vote_counts) ⊎ All IsDecided t.voters

-- The votes that are outstanding may still bring a quorum.
abbrev pub IsOpen : Subtransaction → Type 0
IsOpen t =
    (top t.vote_counts < t.threshold) × (t.threshold ≤ top t.vote_counts + outstanding t.voters)

-- As long as the outcome is open voters may wait; else nobody who voted waits.
abbrev pub IsCalm : Subtransaction → Type 0
IsCalm t = IsOpen t ⊎ All IsSettled t.voters

pub record Inv (t : Subtransaction) : Type 0 where
  pub core : Core t
  pub calm : IsCalm t

-- The call returns without an error, in a state that satisfies the invariant.
abbrev pub Good : Option (Subtransaction × Option Error) → Type 0
Good r = (t : Subtransaction) × (r ≡ some (t, none)) × Inv t

any_undecided-IsDecided : (vs : List Voter) → any_undecided vs ≡ false → All IsDecided vs
unfolding any_undecided
any_undecided-IsDecided [] h = tt
any_undecided-IsDecided (v ∷ vs) h = ground (arith, any_undecided-IsDecided vs)

must_signal_voters_why :
    (t : Subtransaction)
    → must_signal_voters t ≡ true
    → (t.done ≡ false)
      × ((any_quorum t.threshold t.vote_counts ≡ true) ⊎ (any_undecided t.voters ≡ false))
unfolding must_signal_voters
must_signal_voters_why t h = ground arith

-- Closing the channel is sound once there is a quorum or nobody is undecided.
pub closed-Core :
    (t : Subtransaction)
    → Core t
    → (t.threshold ≤ top t.vote_counts) ⊎ All IsDecided t.voters
    → Core (record t { done = true })
closed-Core t c why = record {
  room = c.room;
  wide = c.wide;
  unique = c.unique;
  bounded = c.bounded;
  backed = c.backed;
  justified = c.justified;
  awake = λ _. why;
}

signal_voters-Good : (t : Subtransaction) → Core t → IsCalm t → Good (signal_voters t)
unfolding signal_voters close_done
signal_voters-Good t c calm = elim (Bool-cases (must_signal_voters t)) [
  | inl e ↦
      let (still, why) = must_signal_voters_why t e in
      (
        record t { done = true },
        rw (e, still),
        record {
          core = closed-Core t c (elim why [
            | inl q ↦ inl (ground (arith, any_quorum-top t.threshold t.vote_counts))
            | inr u ↦ inr (any_undecided-IsDecided t.voters u)
          ]);
          calm = calm;
        },
      )
  | inr e ↦ (t, rw e, record { core = c; calm = calm })
]

decision-Justified :
    (threshold : ℕ) (best : Option Vote) (counts : List (Vote × ℕ))
    → ((m : Vote) → best ≡ some m → count_of m counts ≡ top counts)
    → (v : Voter) → Justified threshold counts v
    → Justified threshold counts (decision threshold best (top counts) v)
unfolding decision
decision-Justified threshold none counts h v j = ground arith
decision-Justified threshold (some m) counts h v j = ground (arith, h m)

decision-IsSettled :
    (threshold : ℕ) (best : Option Vote) (n : ℕ) (v : Voter)
    → IsSettled (decision threshold best n v)
unfolding decision
decision-IsSettled threshold none n v = ground arith
decision-IsSettled threshold (some m) n v = ground arith

decision-IsDecided :
    (threshold : ℕ) (best : Option Vote) (n : ℕ) (v : Voter)
    → IsDecided v
    → IsDecided (decision threshold best n v)
unfolding decision
decision-IsDecided threshold best n v h = ground arith

module _ (threshold : ℕ) (best : Option Vote) (n : ℕ) where
  decision-votes : (v : Voter) → (decision threshold best n v).votes ≡ v.votes
  unfolding decision
  decision-votes v = ground arith

  decision-vote : (v : Voter) → (decision threshold best n v).vote ≡ v.vote
  unfolding decision
  decision-vote v = ground arith

  decision-pending_of :
      (w : Vote) (v : Voter) → pending_of w (decision threshold best n v) ≤ pending_of w v
  decision-pending_of w v =
      ground (arith, decision-votes v, decision-vote v, decision-IsSettled threshold best n v)

  decision-weight_of :
      (w : Vote) (v : Voter) → weight_of w (decision threshold best n v) ≡ weight_of w v
  decision-weight_of w v = ground (arith, decision-votes v, decision-vote v)

  decision-outstanding_of :
      (v : Voter) → outstanding_of (decision threshold best n v) ≡ outstanding_of v
  decision-outstanding_of v = ground (arith, decision-votes v, decision-vote v)

  total-decision : (vs : List Voter) → total (map (decision threshold best n) vs) ≡ total vs
  total-decision = sum_by-mapped (λ v. v.votes) (decision threshold best n) decision-votes

  outstanding-decision :
      (vs : List Voter) → outstanding (map (decision threshold best n) vs) ≡ outstanding vs
  outstanding-decision =
      sum_by-mapped outstanding_of (decision threshold best n) decision-outstanding_of

  weight-decision :
      (w : Vote) (vs : List Voter) → weight w (map (decision threshold best n) vs) ≡ weight w vs
  weight-decision w = sum_by-mapped (weight_of w) (decision threshold best n) (decision-weight_of w)

  pending-decision :
      (w : Vote) (vs : List Voter) → pending w (map (decision threshold best n) vs) ≤ pending w vs
  pending-decision w =
      sum_by-mapped-le (pending_of w) (decision threshold best n) (decision-pending_of w)

-- The voters after the last loop.
abbrev settled : Subtransaction → List Voter
settled t = map (decision t.threshold (majority t.vote_counts).0 (top t.vote_counts)) t.voters

module _ (t : Subtransaction) (c : Core t) where
  settled-Core : Core (record t { voters = settled t })
  settled-Core = record {
    room = rw (total-decision thr best n t.voters) c.room;
    wide = rw (total-decision thr best n t.voters) c.wide;
    unique = c.unique;
    bounded = omega (
      arith,
      c.bounded,
      total-decision thr best n t.voters,
      outstanding-decision thr best n t.voters,
    );
    backed = λ w. (
      omega (arith, c.backed w, pending-decision thr best n w t.voters),
      omega (arith, c.backed w, weight-decision thr best n w t.voters),
    );
    justified =
        All-mapped _ _ _
          (decision-Justified thr best t.vote_counts (λ m. majority-some t.vote_counts m c.unique))
          t.voters c.justified;
    awake = λ d. elim (c.awake d) [
      | inl q ↦ inl q
      | inr a ↦ inr (All-mapped _ _ _ (decision-IsDecided thr best n) t.voters a)
    ];
  }
    where
      thr : ℕ
      thr = t.threshold

      best : Option Vote
      best = (majority t.vote_counts).0

      n : ℕ
      n = top t.vote_counts

  settled-calm : All IsSettled (settled t)
  settled-calm = All-mapped _ IsSettled _ (λ v _. decision-IsSettled _ _ _ v) t.voters c.justified

  -- The last loop reads no missing majority vote.
  majority_read : (top t.vote_counts < t.threshold) ⊎ (is_some (majority t.vote_counts).0 ≡ true)
  majority_read = elim (Option-cases (majority t.vote_counts).0) [
    | inl e ↦ inl (omega (arith, c.room, majority-none t.vote_counts c.unique e))
    | inr (m, e) ↦ inr (rw e)
  ]

  waits : Bool
  waits =
      ltb (top t.vote_counts) t.threshold
      && leb t.threshold (u64 (top t.vote_counts + outstanding_loop 0 t.voters))

  settle-waits : waits ≡ true → settle t ≡ signal_voters t
  unfolding settle waits top
  settle-waits h = rw h

  settle-decides : waits ≡ false → settle t ≡ signal_voters (record t { voters = settled t })
  unfolding settle waits top
  settle-decides h = rw (h, decide_voters-decision _ _ _ t.voters majority_read)

  top-le-sum_counts : top t.vote_counts ≤ sum_counts t.vote_counts
  top-le-sum_counts = elim (top_attained t.vote_counts c.unique) [
    | inl e ↦ omega (arith, e)
    | inr (m, e) ↦ omega (arith, e, count_of-le-sum_counts m t.vote_counts)
  ]

  waits-IsOpen : waits ≡ true → IsOpen t
  unfolding waits
  waits-IsOpen h =
      ground (arith, c.bounded, c.wide, top-le-sum_counts, outstanding_loop_lem 0 t.voters)

  pub settle-Good : Good (settle t)
  settle-Good = elim (Bool-cases waits) [
    | inl h ↦ rw (settle-waits h) (signal_voters-Good t c (inl (waits-IsOpen h)))
    | inr h ↦ rw (settle-decides h) (signal_voters-Good _ settled-Core (inr settled-calm))
  ]
