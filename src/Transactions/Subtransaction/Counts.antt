-- ===== src/Transactions/Subtransaction/Counts.antt =====
-- The vote counts: sums, entries and the majority.
use gitally.Prelude.{
  ℕ, ◌+◌, ◌≤◌, ◌<◌, ◌≡◌, ◌≢◌, ◌⊎◌, inl, inr, refl, Bool, true, false, Option, none, some, List, [],
  ◌∷◌, arith, ltb, leb, ◌==◌, if◌then◌else◌, Option-cases,
}
use gitally.Transactions.Types.{Vote}
use gitally.Transactions.Subtransaction.{count_of, put_count, majority_loop, majority, any_quorum}

abbrev pub sum_counts : List (Vote × ℕ) → ℕ
sum_counts [] = 0
sum_counts ((v, c) ∷ cs) = c + sum_counts cs

abbrev pub has_count : Vote → List (Vote × ℕ) → Bool
has_count v [] = false
has_count v ((w, c) ∷ cs) = if w == v then true else has_count v cs

-- No vote has two entries.
abbrev pub IsUnique : List (Vote × ℕ) → Type 0
IsUnique [] = Unit
IsUnique ((v, c) ∷ cs) = (has_count v cs ≡ false) × IsUnique cs

-- The greatest count.
unfoldable pub top : List (Vote × ℕ) → ℕ
top counts = (majority counts).1

pub sum_counts-put_count :
    (v : Vote) (c : ℕ) (cs : List (Vote × ℕ))
    → sum_counts (put_count v c cs) + count_of v cs ≡ sum_counts cs + c
unfolding put_count count_of
sum_counts-put_count v c [] = omega arith
sum_counts-put_count v c ((w, d) ∷ cs) = ground (arith, sum_counts-put_count v c cs)

pub count_of-put_count :
    (v w : Vote) (c : ℕ) (cs : List (Vote × ℕ))
    → count_of w (put_count v c cs) ≡ (if v == w then c else count_of w cs)
unfolding put_count count_of
count_of-put_count v w c [] = refl
count_of-put_count v w c ((u, d) ∷ cs) = ground (arith, count_of-put_count v w c cs)

has_count-put_count :
    (v w : Vote) (c : ℕ) (cs : List (Vote × ℕ))
    → has_count w (put_count v c cs) ≡ (if v == w then true else has_count w cs)
unfolding put_count
has_count-put_count v w c [] = refl
has_count-put_count v w c ((u, d) ∷ cs) = ground (arith, has_count-put_count v w c cs)

pub put_count-IsUnique :
    (v : Vote) (c : ℕ) (cs : List (Vote × ℕ)) → IsUnique cs → IsUnique (put_count v c cs)
unfolding put_count
put_count-IsUnique v c [] h = (refl, tt)
put_count-IsUnique v c ((u, d) ∷ cs) h =
    ground (arith, put_count-IsUnique v c cs h.1, has_count-put_count v u c cs)

pub count_of-le-sum_counts : (v : Vote) (cs : List (Vote × ℕ)) → count_of v cs ≤ sum_counts cs
unfolding count_of
count_of-le-sum_counts v [] = omega arith
count_of-le-sum_counts v ((w, c) ∷ cs) = ground (arith, count_of-le-sum_counts v cs)

-- Two votes share the sum.
pub count_of_two :
    (v w : Vote) (cs : List (Vote × ℕ)) → v ≢ w → count_of v cs + count_of w cs ≤ sum_counts cs
unfolding count_of
count_of_two v w [] h = omega arith
count_of_two v w ((u, c) ∷ cs) h =
    ground (arith, count_of_two v w cs h, count_of-le-sum_counts v cs, count_of-le-sum_counts w cs)

count_of_absent : (v : Vote) (cs : List (Vote × ℕ)) → has_count v cs ≡ false → count_of v cs ≡ 0
unfolding count_of
count_of_absent v [] h = refl
count_of_absent v ((w, c) ∷ cs) h = ground (arith, count_of_absent v cs)

-- What the loop returns: what it started with, or an entry above that.
abbrev Picks : List (Vote × ℕ) → Option Vote → ℕ → Option Vote × ℕ → Type 0
Picks cs best n (some m, k) = ((best ≡ some m) × (k ≡ n)) ⊎ ((count_of m cs ≡ k) × (n < k))
Picks cs best n (none, k) = (best ≡ none) × (k ≡ n)

pub count_of-le-majority_loop :
    (v : Vote) (best : Option Vote) (n : ℕ) (cs : List (Vote × ℕ))
    → (n ≤ (majority_loop best n cs).1) × (count_of v cs ≤ (majority_loop best n cs).1)
unfolding majority_loop count_of
count_of-le-majority_loop v best n [] = omega arith
count_of-le-majority_loop v best n ((w, c) ∷ cs) = ground (
  arith,
  count_of-le-majority_loop v (if ltb n c then some w else best) (if ltb n c then c else n) cs,
)

pub count_of-le-top : (v : Vote) (cs : List (Vote × ℕ)) → count_of v cs ≤ top cs
unfolding top majority
count_of-le-top v cs = (count_of-le-majority_loop v none 0 cs).1

Picks-cons :
    (w : Vote) (c : ℕ) (cs : List (Vote × ℕ)) (best : Option Vote) (n : ℕ) (r : Option Vote × ℕ)
    → has_count w cs ≡ false
    → Picks cs (if ltb n c then some w else best) (if ltb n c then c else n) r
    → Picks ((w, c) ∷ cs) best n r
unfolding count_of
Picks-cons w c cs best n (none, k) a h = ground arith
Picks-cons w c cs best n (some m, k) a h = ground (arith, count_of_absent m cs)

majority_loop-Picks :
    (best : Option Vote) (n : ℕ) (cs : List (Vote × ℕ))
    → IsUnique cs
    → Picks cs best n (majority_loop best n cs)
unfolding majority_loop
majority_loop-Picks none n [] u = (refl, refl)
majority_loop-Picks (some m) n [] u = inl (refl, refl)
majority_loop-Picks best n ((w, c) ∷ cs) u =
    Picks-cons w c cs best n _ u.0
      (majority_loop-Picks (if ltb n c then some w else best) (if ltb n c then c else n) cs u.1)

Picks-start :
    (cs : List (Vote × ℕ)) (r : Option Vote × ℕ) (m : Vote)
    → Picks cs none 0 r
    → ((r.0 ≡ some m → count_of m cs ≡ r.1) × (r.0 ≡ none → r.1 ≡ 0))
Picks-start cs (none, k) m h = ground arith
Picks-start cs (some x, k) m h = ground arith

-- The majority vote has the greatest count.
pub majority-some :
    (cs : List (Vote × ℕ)) (m : Vote)
    → IsUnique cs
    → (majority cs).0 ≡ some m
    → count_of m cs ≡ top cs
unfolding top majority
majority-some cs m u = (Picks-start cs _ m (majority_loop-Picks none 0 cs u)).0

-- With no majority vote there is no support at all.
pub majority-none : (cs : List (Vote × ℕ)) → IsUnique cs → (majority cs).0 ≡ none → top cs ≡ 0
unfolding top majority
majority-none cs u = (Picks-start cs _ 0 (majority_loop-Picks none 0 cs u)).1

-- The greatest count is the count of a vote, if it is not 0.
pub top_attained :
    (cs : List (Vote × ℕ)) → IsUnique cs → (top cs ≡ 0) ⊎ ((m : Vote) × (count_of m cs ≡ top cs))
top_attained cs u = elim (Option-cases (majority cs).0) [
  | inl e ↦ inl (majority-none cs u e)
  | inr (m, e) ↦ inr (m, majority-some cs m u e)
]

majority_loop-any_quorum :
    (threshold : ℕ) (best : Option Vote) (n : ℕ) (cs : List (Vote × ℕ))
    → leb threshold (majority_loop best n cs).1
      ≡ (if leb threshold n then true else any_quorum threshold cs)
unfolding majority_loop any_quorum
majority_loop-any_quorum threshold best n [] = ground arith
majority_loop-any_quorum threshold best n ((w, c) ∷ cs) = ground (
  arith,
  majority_loop-any_quorum threshold (if ltb n c then some w else best) (if ltb n c then c else n)
      cs,
)

-- A quorum is there exactly when the greatest count reaches the threshold.
pub any_quorum-top :
    (threshold : ℕ) (cs : List (Vote × ℕ))
    → 0 < threshold
    → any_quorum threshold cs ≡ leb threshold (top cs)
unfolding top majority
any_quorum-top threshold cs h = ground (arith, majority_loop-any_quorum threshold none 0 cs)
