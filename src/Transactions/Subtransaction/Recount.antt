-- ===== src/Transactions/Subtransaction/Recount.antt =====
-- A vote that is cast or withdrawn: the counts stay backed by the voters, and do not wrap.
use gitally.Prelude.{
  ℕ, ◌+◌, ◌-◌, ◌≤◌, ◌<◌, ◌≡◌, ◌⊎◌, inl, inr, true, false, Option, none, some, List, arith, All,
  All-map, u64, sub64,
}
use gitally.Transactions.Types.{Vote, Voter, undecided, canceled}
use gitally.Transactions.Subtransaction.{
  Subtransaction, find_voter, write_voter, count_of, put_count,
}
use gitally.Transactions.Subtransaction.Counts.{
  sum_counts, IsUnique, top, top_attained, count_of-le-top, count_of-put_count, put_count-IsUnique,
  sum_counts-put_count, count_of-le-sum_counts,
}
use gitally.Transactions.Subtransaction.Voters.{
  sum_by, outstanding_of, sum_by-write_voter, All-write_voter, All-find_voter,
}
use gitally.Transactions.Subtransaction.Invariant.{
  Core, Inv, IsDecided, IsSettled, HasQuorum, Justified, total, outstanding, weight, pending,
  weight_of, pending_of,
}

-- Raising a count raises the greatest one.
top-put_count :
    (w : Vote) (c : ℕ) (cs : List (Vote × ℕ))
    → IsUnique cs
    → count_of w cs ≤ c
    → top cs ≤ top (put_count w c cs)
top-put_count w c cs u h = elim (top_attained cs u) [
  | inl e ↦ omega (arith, e)
  | inr (m, e) ↦ ground (arith, count_of-put_count w m c cs, count_of-le-top m (put_count w c cs))
]

module _ (t : Subtransaction) (inv : Inv t) (v : Voter)
    (found : find_voter v.name t.voters ≡ some v) (still : v.result ≡ undecided) where
  open (inv.core) use {room, wide, unique, bounded, backed, justified, awake}

  module _ (w : Vote) (fresh : v.vote ≡ none) where
    abbrev pub after_cast : List Voter
    after_cast = write_voter v.name (record v { vote = some w }) t.voters

    abbrev pub counts_after_cast : List (Vote × ℕ)
    counts_after_cast = put_count w (u64 (count_of w t.vote_counts + v.votes)) t.vote_counts

    cast_sum :
        (f : Voter → ℕ)
        → sum_by f after_cast + f v ≡ sum_by f t.voters + f (record v { vote = some w })
    cast_sum f = sum_by-write_voter f v.name _ t.voters v found

    cast_total : total after_cast ≡ total t.voters
    cast_total = omega (arith, cast_sum (λ u. u.votes))

    cast_outstanding : outstanding after_cast + v.votes ≡ outstanding t.voters
    cast_outstanding = ground (arith, cast_sum outstanding_of)

    -- The count does not wrap.
    cast_count : u64 (count_of w t.vote_counts + v.votes) ≡ count_of w t.vote_counts + v.votes
    cast_count =
        omega (arith, wide, bounded, cast_outstanding, count_of-le-sum_counts w t.vote_counts)

    cast_bounded : sum_counts counts_after_cast + outstanding after_cast ≤ total after_cast
    cast_bounded = omega (
      arith,
      bounded,
      cast_total,
      cast_outstanding,
      cast_count,
      sum_counts-put_count w (u64 (count_of w t.vote_counts + v.votes)) t.vote_counts,
    )

    cast_grows : (x : Vote) → count_of x t.vote_counts ≤ count_of x counts_after_cast
    cast_grows x = ground (
      arith,
      cast_count,
      count_of-put_count w x (u64 (count_of w t.vote_counts + v.votes)) t.vote_counts,
    )

    cast_backed :
        (x : Vote)
        → (pending x after_cast ≤ count_of x counts_after_cast)
          × (count_of x counts_after_cast ≤ weight x after_cast)
    cast_backed x = ground (
      arith,
      backed x,
      cast_count,
      cast_sum (pending_of x),
      cast_sum (weight_of x),
      count_of-put_count w x (u64 (count_of w t.vote_counts + v.votes)) t.vote_counts,
    )

    HasQuorum-cast :
        (o : Option Vote)
        → HasQuorum t.threshold t.vote_counts o
        → HasQuorum t.threshold counts_after_cast o
    HasQuorum-cast none h = h
    HasQuorum-cast (some x) h = omega (arith, cast_grows x)

    cast_awake : t.done ≡ true → (t.threshold ≤ top counts_after_cast) ⊎ All IsDecided after_cast
    cast_awake d = elim (awake d) [
      | inl q ↦ inl (
          omega (
            arith,
            top-put_count w (u64 (count_of w t.vote_counts + v.votes)) t.vote_counts unique
                (omega (arith, cast_count)),
          ))
      | inr a ↦ absurd (ground (arith, All-find_voter IsDecided v.name t.voters v a found))
    ]

    pub cast-Core : Core (record t { vote_counts = counts_after_cast; voters = after_cast })
    cast-Core = record {
      room = omega (arith, room, cast_total);
      wide = omega (arith, wide, cast_total);
      unique = put_count-IsUnique w _ t.vote_counts unique;
      bounded = cast_bounded;
      backed = cast_backed;
      justified =
          All-write_voter (Justified t.threshold counts_after_cast) v.name _ t.voters
            (All-map (Justified t.threshold t.vote_counts) (Justified t.threshold counts_after_cast)
              (λ u j c. HasQuorum-cast u.vote (j c)) t.voters justified)
            (λ c. cc);
      awake = cast_awake;
    }

  module _ (w : Vote) (cast : v.vote ≡ some w) (running : t.done ≡ false) where
    abbrev pub after_withdraw : List Voter
    after_withdraw = write_voter v.name (record v { result = canceled }) t.voters

    abbrev pub counts_after_withdraw : List (Vote × ℕ)
    counts_after_withdraw = put_count w (sub64 (count_of w t.vote_counts) v.votes) t.vote_counts

    withdraw_sum :
        (f : Voter → ℕ)
        → sum_by f after_withdraw + f v ≡ sum_by f t.voters + f (record v { result = canceled })
    withdraw_sum f = sum_by-write_voter f v.name _ t.voters v found

    withdraw_total : total after_withdraw ≡ total t.voters
    withdraw_total = omega (arith, withdraw_sum (λ u. u.votes))

    withdraw_outstanding : outstanding after_withdraw ≡ outstanding t.voters
    withdraw_outstanding = ground (arith, withdraw_sum outstanding_of)

    -- The count covers the votes that are withdrawn.
    withdraw_covered : v.votes ≤ count_of w t.vote_counts
    withdraw_covered = ground (arith, backed w, withdraw_sum (pending_of w))

    withdraw_count : sub64 (count_of w t.vote_counts) v.votes ≡ count_of w t.vote_counts - v.votes
    withdraw_count =
        omega (arith, wide, bounded, withdraw_covered, count_of-le-sum_counts w t.vote_counts)

    withdraw_bounded :
        sum_counts counts_after_withdraw + outstanding after_withdraw ≤ total after_withdraw
    withdraw_bounded = omega (
      arith,
      bounded,
      withdraw_total,
      withdraw_outstanding,
      withdraw_count,
      sum_counts-put_count w (sub64 (count_of w t.vote_counts) v.votes) t.vote_counts,
    )

    withdraw_backed :
        (x : Vote)
        → (pending x after_withdraw ≤ count_of x counts_after_withdraw)
          × (count_of x counts_after_withdraw ≤ weight x after_withdraw)
    withdraw_backed x = ground (
      arith,
      backed x,
      withdraw_count,
      withdraw_sum (pending_of x),
      withdraw_sum (weight_of x),
      count_of-put_count w x (sub64 (count_of w t.vote_counts) v.votes) t.vote_counts,
    )

    -- A voter still waits, so that there is no quorum.
    withdraw_no_quorum : top t.vote_counts < t.threshold
    withdraw_no_quorum = elim inv.calm [
      | inl h ↦ h.0
      | inr a ↦ absurd (ground (arith, All-find_voter IsSettled v.name t.voters v a found))
    ]

    HasQuorum-withdraw :
        (o : Option Vote)
        → HasQuorum t.threshold t.vote_counts o
        → HasQuorum t.threshold counts_after_withdraw o
    HasQuorum-withdraw none h = h
    HasQuorum-withdraw (some x) h =
        absurd (omega (arith, withdraw_no_quorum, count_of-le-top x t.vote_counts))

    pub withdraw-Core :
        Core (record t { vote_counts = counts_after_withdraw; voters = after_withdraw })
    withdraw-Core = record {
      room = omega (arith, room, withdraw_total);
      wide = omega (arith, wide, withdraw_total);
      unique = put_count-IsUnique w _ t.vote_counts unique;
      bounded = withdraw_bounded;
      backed = withdraw_backed;
      justified =
          All-write_voter (Justified t.threshold counts_after_withdraw) v.name _ t.voters
            (All-map (Justified t.threshold t.vote_counts)
              (Justified t.threshold counts_after_withdraw)
              (λ u j c. HasQuorum-withdraw u.vote (j c)) t.voters justified)
            (λ c. cc);
      awake = λ d. cc;
    }
