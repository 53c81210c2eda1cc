-- ===== src/Transactions/Subtransaction/Ending.antt =====
-- `cancel` and `stop` end the vote of the voters that are undecided.
use gitally.Prelude.{
  ℕ, ◌≤◌, ◌≡◌, ◌≢◌, ◌⊎◌, inl, inr, refl, true, false, Option, none, some, List, [], ◌∷◌, arith,
  if◌then◌else◌, All, All-map, map, ◌++◌, subst, sym, ◌∙◌, ap,
}
use gitally.Transactions.Types.{
  Vote, Voter, VoteResult, undecided, committed, failed, canceled, stopped, is_undecided, Error,
  transaction_canceled,
}
use gitally.Transactions.Subtransaction.{
  Subtransaction, cancel, stop, stop_voters, stop_from, close_stopped, cancel_voter, close_if_open,
}
use gitally.Transactions.Subtransaction.Invariant.{
  Inv, IsDecided, IsSettled, Justified, HasQuorum, total, outstanding, weight, pending, closed-Core,
}
use gitally.Transactions.Subtransaction.Calls.{Kept}

-- A voter stays as it is, or goes from undecided to a result other than committed.
abbrev Resolves : Voter → Voter → Type 0
Resolves v u =
    (u.votes ≡ v.votes)
    × (u.vote ≡ v.vote)
    × ((u.result ≡ v.result)
        ⊎ ((v.result ≡ undecided) × (is_undecided u.result ≡ false) × (u.result ≢ committed)))

abbrev AllResolve : List Voter → List Voter → Type 0
AllResolve [] [] = Unit
AllResolve [] (u ∷ us) = ⊥
AllResolve (v ∷ vs) [] = ⊥
AllResolve (v ∷ vs) (u ∷ us) = Resolves v u × AllResolve vs us

AllResolve-sums :
    (vs us : List Voter)
    → AllResolve vs us
    → (total us ≡ total vs) × (outstanding us ≡ outstanding vs)
AllResolve-sums [] [] h = (refl, refl)
AllResolve-sums [] (u ∷ us) h = absurd h
AllResolve-sums (v ∷ vs) [] h = absurd h
AllResolve-sums (v ∷ vs) (u ∷ us) h = ground (arith, AllResolve-sums vs us h.1)

AllResolve-backing :
    (w : Vote) (vs us : List Voter)
    → AllResolve vs us
    → (pending w us ≤ pending w vs) × (weight w us ≡ weight w vs)
AllResolve-backing w [] [] h = omega arith
AllResolve-backing w [] (u ∷ us) h = absurd h
AllResolve-backing w (v ∷ vs) [] h = absurd h
AllResolve-backing w (v ∷ vs) (u ∷ us) h = ground (arith, AllResolve-backing w vs us h.1)

-- A predicate that a resolved voter keeps.
AllResolve-All :
    (P : Voter → Type 0)
    → ((v u : Voter) → Resolves v u → P v → P u)
    → (vs us : List Voter) → AllResolve vs us
    → All P vs
    → All P us
AllResolve-All P f [] [] h a = tt
AllResolve-All P f [] (u ∷ us) h a = absurd h
AllResolve-All P f (v ∷ vs) [] h a = absurd h
AllResolve-All P f (v ∷ vs) (u ∷ us) h a = (f v u h.0 a.0, AllResolve-All P f vs us h.1 a.1)

Justified-Resolves :
    (threshold : ℕ) (counts : List (Vote × ℕ)) (v u : Voter)
    → Resolves v u
    → Justified threshold counts v
    → Justified threshold counts u
Justified-Resolves threshold counts v u (_, same, inl r) j c =
    subst (HasQuorum threshold counts) (sym same) (j (sym r ∙ c))
Justified-Resolves threshold counts v u (_, same, inr (_, _, n)) j c = absurd (n c)

resolved-Inv :
    (t : Subtransaction) (us : List Voter)
    → AllResolve t.voters us
    → Inv t
    → Inv (record t { voters = us })
resolved-Inv t us h inv = record {
  core = record {
    room = omega (arith, room, AllResolve-sums t.voters us h);
    wide = omega (arith, wide, AllResolve-sums t.voters us h);
    unique = unique;
    bounded = omega (arith, bounded, AllResolve-sums t.voters us h);
    backed = λ w. omega (arith, backed w, AllResolve-backing w t.voters us h);
    justified =
        AllResolve-All _ (Justified-Resolves t.threshold t.vote_counts) t.voters us h justified;
    awake = λ d. elim (awake d) [
      | inl q ↦ inl q
      | inr a ↦ inr (AllResolve-All IsDecided (λ v u r i. ground arith) t.voters us h a)
    ];
  };
  calm = elim inv.calm [
    | inl q ↦ inl (omega (arith, q, AllResolve-sums t.voters us h))
    | inr a ↦ inr (AllResolve-All IsSettled (λ v u r i. ground arith) t.voters us h a)
  ];
}
  where
    open (inv.core) use {room, wide, unique, bounded, backed, justified, awake}

cancel_voters-AllResolve : (vs : List Voter) → AllResolve vs (map cancel_voter vs)
unfolding cancel_voter
cancel_voters-AllResolve [] = tt
cancel_voters-AllResolve (v ∷ vs) = (ground arith, cancel_voters-AllResolve vs)

cancel_voters-IsDecided : (vs : List Voter) → All IsDecided (map cancel_voter vs)
unfolding cancel_voter
cancel_voters-IsDecided [] = tt
cancel_voters-IsDecided (v ∷ vs) = (ground arith, cancel_voters-IsDecided vs)

pub close_if_open_lem : (t : Subtransaction) → close_if_open t ≡ some (record t { done = true })
unfolding close_if_open
close_if_open_lem t = ground arith

pub ended-Inv :
    (t : Subtransaction) → Inv t → All IsDecided t.voters → Inv (record t { done = true })
ended-Inv t inv a = record {
  core = closed-Core t inv.core (inr a);
  calm = inr (All-map IsDecided IsSettled (λ v h. ground arith) t.voters a);
}

-- `cancel` cancels who is undecided, closes the channel, and keeps everything else.
pub cancel_lem :
    (t : Subtransaction)
    → cancel t ≡ some (record t { done = true; voters = map cancel_voter t.voters })
unfolding cancel
cancel_lem t = close_if_open_lem (record t { voters = map cancel_voter t.voters })

pub cancel-Inv :
    (t : Subtransaction)
    → Inv t
    → Inv (record t { done = true; voters = map cancel_voter t.voters })
cancel-Inv t inv =
    ended-Inv (record t { voters = map cancel_voter t.voters })
      (resolved-Inv t _ (cancel_voters-AllResolve t.voters) inv) (cancel_voters-IsDecided t.voters)

Resolves-refl : (v : Voter) → Resolves v v
Resolves-refl v = (refl, refl, inl refl)

AllResolve-refl : (vs : List Voter) → AllResolve vs vs
AllResolve-refl [] = tt
AllResolve-refl (v ∷ vs) = (Resolves-refl v, AllResolve-refl vs)

stop_from-AllResolve :
    (r : VoteResult) (v : Voter) (vs : List Voter) (rest : List Voter × Option Error)
    → v.result ≡ r
    → AllResolve vs rest.0
    → AllResolve (v ∷ vs) (stop_from r v vs rest).0
unfolding stop_from
stop_from-AllResolve canceled v vs rest e h = (Resolves-refl v, AllResolve-refl vs)
stop_from-AllResolve stopped v vs rest e h = (Resolves-refl v, AllResolve-refl vs)
stop_from-AllResolve undecided v vs (us, o) e h = ((refl, refl, inr (e, refl, λ p. cc)), h)
stop_from-AllResolve committed v vs (us, o) e h = (Resolves-refl v, h)
stop_from-AllResolve failed v vs (us, o) e h = (Resolves-refl v, h)

stop_voters-AllResolve : (vs : List Voter) → AllResolve vs (stop_voters vs).0
unfolding stop_voters
stop_voters-AllResolve [] = tt
stop_voters-AllResolve (v ∷ vs) =
    stop_from-AllResolve v.result v vs (stop_voters vs) refl (stop_voters-AllResolve vs)

stop_from-IsDecided :
    (r : VoteResult) (v : Voter) (vs : List Voter) (rest : List Voter × Option Error)
    → v.result ≡ r
    → (rest.1 ≡ none → All IsDecided rest.0)
    → (stop_from r v vs rest).1 ≡ none
    → All IsDecided (stop_from r v vs rest).0
unfolding stop_from
stop_from-IsDecided canceled v vs rest e h n = cc
stop_from-IsDecided stopped v vs rest e h n = cc
stop_from-IsDecided undecided v vs (us, o) e h n = (refl, h n)
stop_from-IsDecided committed v vs (us, o) e h n = (ap is_undecided e, h n)
stop_from-IsDecided failed v vs (us, o) e h n = (ap is_undecided e, h n)

-- If the loop of `stop` meets no error, nobody is left undecided.
pub stop_voters-IsDecided :
    (vs : List Voter) → (stop_voters vs).1 ≡ none → All IsDecided (stop_voters vs).0
unfolding stop_voters
stop_voters-IsDecided [] h = tt
stop_voters-IsDecided (v ∷ vs) h =
    stop_from-IsDecided v.result v vs (stop_voters vs) refl (stop_voters-IsDecided vs) h

close_stopped-Kept :
    (t : Subtransaction) (r : List Voter × Option Error)
    → Inv (record t { voters = r.0 })
    → (r.1 ≡ none → All IsDecided r.0)
    → Kept (close_stopped t r)
unfolding close_stopped
close_stopped-Kept t (vs, some e) inv a = inv
close_stopped-Kept t (vs, none) inv a =
    rw (close_if_open_lem (record t { voters = vs }), Kept)
      (ended-Inv (record t { voters = vs }) inv (a refl))

pub stop-Kept : (t : Subtransaction) → Inv t → Kept (stop t)
unfolding stop
stop-Kept t inv =
    close_stopped-Kept t (stop_voters t.voters)
      (resolved-Inv t _ (stop_voters-AllResolve t.voters) inv) (stop_voters-IsDecided t.voters)

-- What `stop` makes of a voter that it passes.
pub stop_voter : Voter → Voter
stop_voter v = if is_undecided v.result then record v { result = stopped } else v

abbrev pub CanStop : Voter → Type 0
CanStop v = (v.result ≢ canceled) × (v.result ≢ stopped)

stop_from-CanStop :
    (r : VoteResult) (v : Voter) (vs us : List Voter) (e : Option Error)
    → v.result ≡ r
    → CanStop v
    → stop_from r v vs (us, e) ≡ (stop_voter v ∷ us, e)
unfolding stop_from stop_voter
stop_from-CanStop canceled v vs us e q c = absurd (c.0 q)
stop_from-CanStop stopped v vs us e q c = absurd (c.1 q)
stop_from-CanStop undecided v vs us e q c = ground (arith, q)
stop_from-CanStop committed v vs us e q c = ground (arith, q)
stop_from-CanStop failed v vs us e q c = ground (arith, q)

stop_voters-append :
    (pre vs : List Voter)
    → All CanStop pre
    → stop_voters (pre ++ vs) ≡ (map stop_voter pre ++ (stop_voters vs).0, (stop_voters vs).1)
unfolding stop_voters
stop_voters-append [] vs a = refl
stop_voters-append (v ∷ pre) vs a =
    ap (stop_from v.result v (pre ++ vs)) (stop_voters-append pre vs a.1)
    ∙ stop_from-CanStop v.result v (pre ++ vs) _ _ refl a.0

stop_voters_canceled :
    (c : Voter) (rest : List Voter)
    → c.result ≡ canceled
    → stop_voters (c ∷ rest) ≡ (c ∷ rest, some transaction_canceled)
unfolding stop_voters stop_from
stop_voters_canceled c rest h = ap (λ (r : VoteResult). stop_from r c rest (stop_voters rest)) h

stop_voters_unhindered :
    (vs : List Voter) → All CanStop vs → stop_voters vs ≡ (map stop_voter vs, none)
unfolding stop_voters
stop_voters_unhindered [] a = refl
stop_voters_unhindered (v ∷ vs) a =
    ap (stop_from v.result v vs) (stop_voters_unhindered vs a.1)
    ∙ stop_from-CanStop v.result v vs _ _ refl a.0

close_stopped-none :
    (t : Subtransaction) (vs : List Voter)
    → close_stopped t (vs, none) ≡ some (record t { done = true; voters = vs }, none)
unfolding close_stopped
close_stopped-none t vs = rw (close_if_open_lem (record t { voters = vs }), close_stopped)

-- With no voter canceled or stopped, `stop` stops the undecided voters, keeps the others, closes
-- the channel and returns no error.
pub stop_succeeds :
    (t : Subtransaction)
    → All CanStop t.voters
    → stop t ≡ some (record t { done = true; voters = map stop_voter t.voters }, none)
unfolding stop
stop_succeeds t a =
    ap (close_stopped t) (stop_voters_unhindered t.voters a)
    ∙ close_stopped-none t (map stop_voter t.voters)

-- If `stop` meets a canceled voter, it returns that the transaction is canceled, but the undecided
-- voters that the iteration met before are stopped all the same, and the channel is not closed.
pub stop_midway :
    (t : Subtransaction) (pre rest : List Voter) (c : Voter)
    → t.voters ≡ pre ++ c ∷ rest
    → All CanStop pre
    → c.result ≡ canceled
    → stop t
      ≡ some (record t { voters = map stop_voter pre ++ c ∷ rest }, some transaction_canceled)
unfolding stop close_stopped
stop_midway t pre rest c q a h =
    ap (λ vs. close_stopped t (stop_voters vs)) q
    ∙ ap (close_stopped t) (stop_voters-append pre (c ∷ rest) a)
    ∙ ap (λ r. close_stopped t (map stop_voter pre ++ r.0, r.1)) (stop_voters_canceled c rest h)
