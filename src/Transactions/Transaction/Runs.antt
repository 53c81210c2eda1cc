-- ===== src/Transactions/Transaction/Runs.antt =====
-- The interleavings of the calls on a transaction: in each subtransaction they are a run of it.
use gitally.Prelude.{
  ℕ, zero, suc, ◌^◌, ◌<◌, ◌≡◌, ◌⊎◌, inl, inr, refl, String, Bool, true, Option, none, some, List,
  [], ◌∷◌, ◌++◌, All, get_elem?, subst, sym, ◌∙◌, some_eq, Option-cases, Swapped, All-middle,
  All-insert,
}
use gitally.Transactions.Types.{Vote, committed, Voter, Error, Ran, Result, ok, err}
use gitally.Transactions.Subtransaction
use gitally.Transactions.Subtransaction.{Subtransaction, new_subtransaction, find_voter}
use gitally.Transactions.Subtransaction.Invariant.{total}
use gitally.Transactions.Subtransaction.Calls.{HasVoted}
use gitally.Transactions.Subtransaction.Runs.{Step, Reach, IsFresh, IsAcceptable}
use gitally.Transactions.Subtransaction.Agreement.{agreement}
use gitally.Transactions.Transaction.{
  Transaction, TransactionState, new_transaction, cancel_all, cancel, stop_all, stop,
  create_if_none, mark_canceled, mark_stopped, get_or_create, get_or_create_subtransaction,
  on_subtransaction, within, vote_on, collect_on,
}
use gitally.Transactions.Transaction.Creation.{new_transaction-IsAcceptable}

-- Two neighbours change places in a map of a subtransaction.
abbrev pub Reorders : Subtransaction → Subtransaction → Type 0
Reorders s s' =
    ((vs : List Voter) × Swapped s.voters vs × (s' ≡ record s { voters = vs }))
    ⊎ ((cs : List (Vote × ℕ)) × Swapped s.vote_counts cs × (s' ≡ record s { vote_counts = cs }))

-- One call, or a map in another order. Between the three calls of `vote` others may come, and a node collects the votes of a
-- subtransaction on which it has voted, once its context or the channel wakes it.
pub data Move (t t' : Transaction) : Type 0 where
  creates :
      (node : String) (r : Result ℕ) → get_or_create_subtransaction t node ≡ (t', r) → Move t t'
  votes :
      (i : ℕ) (node : String) (w : Vote) (e : Option Error)
      → vote_on t i node w ≡ some (t', e)
      → Move t t'
  collects :
      (i : ℕ) (ctx_done : Bool) (node : String) (e : Option Error) (s : Subtransaction)
      → get_elem? t.subtransactions i ≡ some s
      → HasVoted s node
      → (ctx_done ≡ true) ⊎ (s.done ≡ true)
      → collect_on t i ctx_done node ≡ some (t', e)
      → Move t t'
  cancels : cancel t ≡ some t' → Move t t'
  stops : (e : Option Error) → stop t ≡ some (t', e) → Move t t'
  reorders :
      (before after : List Subtransaction) (s s' : Subtransaction)
      → t.subtransactions ≡ before ++ s ∷ after
      → Reorders s s'
      → t' ≡ record t { subtransactions = before ++ s' ∷ after }
      → Move t t'

pub data Run (s : Transaction) : Transaction → Type 0 where
  start : Run s s
  later : {t u : Transaction} → Run s t → Move t u → Run s u

-- Each subtransaction is reached from a new one.
pub record AllReached (t : Transaction) : Type 0 where
  pub acceptable : IsAcceptable t.voters t.threshold
  pub reached : All (Reach (new_subtransaction t.voters t.threshold)) t.subtransactions

module _ (n : Subtransaction) where
  abbrev Reached : List Subtransaction → Type 0
  Reached ss = All (Reach n) ss

  Reached-snoc : (ss : List Subtransaction) → Reached ss → Reached (ss ++ n ∷ [])
  Reached-snoc [] h = (Reach.start, tt)
  Reached-snoc (s ∷ ss) h = (h.0, Reached-snoc ss h.1)

  -- The result of a call, if it returns, is reached.
  abbrev Returns : Ran (List Subtransaction) → Type 0
  Returns none = Unit
  Returns (some (ss, e)) = Reached ss

  on_subtransaction-Returns :
      (f : Subtransaction → Ran Subtransaction) (i : ℕ) (ss : List Subtransaction)
      → ((s s' : Subtransaction) (e : Option Error)
          → get_elem? ss i ≡ some s
          → f s ≡ some (s', e)
          → Step s s')
      → Reached ss
      → Returns (on_subtransaction f i ss)
  unfolding on_subtransaction
  on_subtransaction-Returns f i [] g h = tt
  on_subtransaction-Returns f zero (s ∷ ss) g h = elim (Option-cases (f s)) [
    | inl e ↦ rw (e, Returns) tt
    | inr ((s', o), e) ↦ rw (e, Returns) (Reach.later h.0 (g s s' o refl e), h.1)
  ]
  on_subtransaction-Returns f (suc i) (s ∷ ss) g h =
      elim (Option-cases (on_subtransaction f i ss)) [
        | inl e ↦ rw (e, Returns) tt
        | inr ((ss', o), e) ↦
            rw (e, Returns) (h.0, subst Returns e (on_subtransaction-Returns f i ss g h.1))
      ]

  abbrev Canceled : Option (List Subtransaction) → Type 0
  Canceled none = Unit
  Canceled (some ss) = Reached ss

  cancel_all-Canceled : (ss : List Subtransaction) → Reached ss → Canceled (cancel_all ss)
  unfolding cancel_all
  cancel_all-Canceled [] h = tt
  cancel_all-Canceled (s ∷ ss) h = elim (Option-cases (Subtransaction.cancel s)) [
    | inl e ↦ rw (e, Canceled) tt
    | inr (s', e) ↦ elim (Option-cases (cancel_all ss)) [
      | inl q ↦ rw (e, q, Canceled) tt
      | inr (ss', q) ↦
          rw (e, q, Canceled)
            (Reach.later h.0 (Step.cancels e), subst Canceled q (cancel_all-Canceled ss h.1))
    ]
  ]

  stop_all-Returns : (ss : List Subtransaction) → Reached ss → Returns (stop_all ss)
  unfolding stop_all
  stop_all-Returns [] h = tt
  stop_all-Returns (s ∷ ss) h = elim (Option-cases (Subtransaction.stop s)) [
    | inl e ↦ rw (e, Returns) tt
    | inr ((s', some x), e) ↦ rw (e, Returns) (Reach.later h.0 (Step.stops (some x) e), h.1)
    | inr ((s', none), e) ↦ elim (Option-cases (stop_all ss)) [
      | inl q ↦ rw (e, q, Returns) tt
      | inr ((ss', x), q) ↦
          rw (e, q, Returns)
            (Reach.later h.0 (Step.stops none e), subst Returns q (stop_all-Returns ss h.1))
    ]
  ]

-- A transaction of which only the subtransactions, all of them reached, and the state changed.
abbrev Follows : Transaction → Transaction → Type 0
Follows t t' =
    (t'.voters ≡ t.voters)
    × (t'.threshold ≡ t.threshold)
    × All (Reach (new_subtransaction t.voters t.threshold)) t'.subtransactions

Follows-AllReached : (t t' : Transaction) → AllReached t → Follows t t' → AllReached t'
Follows-AllReached t t' a (v, k, r) = record {
  acceptable =
      subst (λ vs. IsAcceptable vs t'.threshold) (sym v)
        (subst (IsAcceptable t.voters) (sym k) a.acceptable);
  reached =
      subst (λ vs. All (Reach (new_subtransaction vs t'.threshold)) t'.subtransactions) (sym v)
        (subst (λ n. All (Reach (new_subtransaction t.voters n)) t'.subtransactions) (sym k) r);
}

abbrev FollowsR : Transaction → Ran Transaction → Type 0
FollowsR t none = Unit
FollowsR t (some (t', e)) = Follows t t'

module _ (t : Transaction) (a : AllReached t) where
  abbrev new : Subtransaction
  new = new_subtransaction t.voters t.threshold

  within-Follows : (r : Ran (List Subtransaction)) → Returns new r → FollowsR t (within t r)
  unfolding within
  within-Follows none h = tt
  within-Follows (some (ss, e)) h = (refl, refl, h)

  create-Follows : (r : Result (Option ℕ)) → Follows t (create_if_none t r).0
  unfolding create_if_none
  create-Follows (err e) = (refl, refl, a.reached)
  create-Follows (ok (some i)) = (refl, refl, a.reached)
  create-Follows (ok none) = (refl, refl, Reached-snoc new t.subtransactions a.reached)

  get_or_create-Follows :
      (s : TransactionState) (node : String) → Follows t (get_or_create s t node).0
  unfolding get_or_create
  get_or_create-Follows TransactionState.transaction_open node = create-Follows _
  get_or_create-Follows TransactionState.transaction_canceled node = (refl, refl, a.reached)
  get_or_create-Follows TransactionState.transaction_stopped node = (refl, refl, a.reached)

  abbrev FollowsC : Option Transaction → Type 0
  FollowsC none = Unit
  FollowsC (some t') = Follows t t'

  cancel-Follows : FollowsC (cancel t)
  unfolding cancel mark_canceled
  cancel-Follows = go _ (cancel_all-Canceled new t.subtransactions a.reached)
    where
      go : (o : Option (List Subtransaction)) → Canceled new o → FollowsC (mark_canceled t o)
      go none h = tt
      go (some ss) h = (refl, refl, h)

  stop-Follows : FollowsR t (stop t)
  unfolding stop mark_stopped
  stop-Follows = go _ (stop_all-Returns new t.subtransactions a.reached)
    where
      go : (r : Ran (List Subtransaction)) → Returns new r → FollowsR t (mark_stopped t r)
      go none h = tt
      go (some (ss, none)) h = (refl, refl, h)
      go (some (ss, some e)) h = (refl, refl, h)

  vote_on-Follows : (i : ℕ) (node : String) (w : Vote) → FollowsR t (vote_on t i node w)
  unfolding vote_on
  vote_on-Follows i node w = within-Follows _ (
      on_subtransaction-Returns new (λ s. Subtransaction.vote s node w) i t.subtransactions
        (λ s s' o _ p. Step.votes node w o p) a.reached)

  collect_on-Follows :
      (i : ℕ) (ctx_done : Bool) (node : String) (s : Subtransaction)
      → get_elem? t.subtransactions i ≡ some s
      → HasVoted s node
      → (ctx_done ≡ true) ⊎ (s.done ≡ true)
      → FollowsR t (collect_on t i ctx_done node)
  unfolding collect_on
  collect_on-Follows i ctx_done node s found voted woken = within-Follows _ (
      on_subtransaction-Returns new (λ u. Subtransaction.collect_votes u ctx_done node) i
        t.subtransactions
        (λ u u' o f p.
          subst (λ x. Step x u') (some_eq s u (sym found ∙ f))
            (Step.collects ctx_done node o voted woken (
              subst (λ x. Subtransaction.collect_votes x ctx_done node ≡ some (u', o))
                (some_eq u s (sym f ∙ found)) p)))
        a.reached)

Reorders-Step : (s s' : Subtransaction) → Reorders s s' → Step s s'
Reorders-Step s s' (inl (vs, swapped, e)) = Step.reorders_voters vs swapped e
Reorders-Step s s' (inr (cs, swapped, e)) = Step.reorders_counts cs swapped e

reordered-AllReached :
    (t : Transaction) (before after : List Subtransaction) (s s' : Subtransaction)
    → AllReached t
    → t.subtransactions ≡ before ++ s ∷ after
    → Reorders s s'
    → AllReached (record t { subtransactions = before ++ s' ∷ after })
reordered-AllReached t before after s s' a q r =
    let P = Reach (new_subtransaction t.voters t.threshold) in
    let (here, others) = All-middle P before s after (subst (All P) q a.reached) in
    record {
      acceptable = a.acceptable;
      reached = All-insert P before s' after (Reach.later here (Reorders-Step s s' r)) others;
    }

Move-AllReached : (t t' : Transaction) → Move t t' → AllReached t → AllReached t'
Move-AllReached t t' (creates node r q) a = Follows-AllReached t t' a (
    subst (λ p. Follows t p.0) q
      (unfold get_or_create_subtransaction in get_or_create-Follows t a t.state node))
Move-AllReached t t' (votes i node w e q) a =
    Follows-AllReached t t' a (subst (FollowsR t) q (vote_on-Follows t a i node w))
Move-AllReached t t' (collects i ctx_done node e s found voted woken q) a =
    Follows-AllReached t t' a
      (subst (FollowsR t) q (collect_on-Follows t a i ctx_done node s found voted woken))
Move-AllReached t t' (cancels q) a =
    Follows-AllReached t t' a (subst (FollowsC t a) q (cancel-Follows t a))
Move-AllReached t t' (stops e q) a =
    Follows-AllReached t t' a (subst (FollowsR t) q (stop-Follows t a))
Move-AllReached t t' (reorders before after s s' q r e) a =
    subst AllReached (sym e) (reordered-AllReached t before after s s' a q r)

Run-AllReached : {s t : Transaction} → AllReached s → Run s t → AllReached t
Run-AllReached a start = a
Run-AllReached a (later {t = t} {u = u} r m) = Move-AllReached t u m (Run-AllReached a r)

All-get_elem? :
    (P : Subtransaction → Type 0) (ss : List Subtransaction) (i : ℕ) (s : Subtransaction)
    → All P ss
    → get_elem? ss i ≡ some s
    → P s
All-get_elem? P [] i s h e = cc
All-get_elem? P (x ∷ ss) zero s h e = subst P (some_eq x s e) h.0
All-get_elem? P (x ∷ ss) (suc i) s h e = All-get_elem? P ss i s h.1 e

-- In a transaction that `newTransaction` accepted for fresh voters with fewer than 2^64 votes,
-- whatever calls were made and in whatever order the maps were walked, two voters that have committed the same subtransaction have voted for
-- the same.
pub transaction_agreement :
    (id : ℕ) (voters : List Voter) (threshold : ℕ) (t0 t : Transaction) (i : ℕ) (s : Subtransaction)
    (a b : String) (u v : Voter)
    → total voters < 2 ^ 64
    → All IsFresh voters
    → new_transaction id voters threshold ≡ ok t0
    → Run t0 t
    → get_elem? t.subtransactions i ≡ some s
    → find_voter a s.voters ≡ some u
    → find_voter b s.voters ≡ some v
    → u.result ≡ committed
    → v.result ≡ committed
    → u.vote ≡ v.vote
transaction_agreement id voters threshold t0 t i s a b u v wide fresh made run at p q cu cv =
    let (acc, same) = new_transaction-IsAcceptable id voters threshold t0 wide fresh made in
    let r : AllReached t =
      Run-AllReached (subst AllReached (sym same) (record { acceptable = acc; reached = tt }))
        run in
    agreement t.voters t.threshold r.acceptable s a b u v
      (All-get_elem? _ t.subtransactions i s r.reached at) p q cu cv
