-- ===== src/Transactions/Subtransaction/Runs.antt =====
-- The interleavings of the calls on one subtransaction.
-- Every method holds the lock, so that a run is a sequence of whole calls. `collectVotes` first
-- waits for its context or for the channel. Between two calls the iteration order of the maps may
-- change.
use gitally.Prelude.{
  ℕ, ◌*◌, ◌^◌, ◌≤◌, ◌<◌, ◌≡◌, ◌⊎◌, inl, inr, refl, Bool, true, false, Option, none, some, List, [],
  ◌∷◌, arith, All, All-map, All-Swapped, Swapped, here, there, String, subst, sym, ◌∙◌, str_eq,
  eq_iff, some_eq, ◌++◌, append_assoc, append-nil,
}
use gitally.Transactions.Types.{Vote, Voter, undecided, Error, Ran}
use gitally.Transactions.Subtransaction.{
  Subtransaction, new_subtransaction, find_voter, put_voter, put_voters, vote, collect_votes,
  cancel, stop, count_of, majority, majority_loop,
}
use gitally.Transactions.Subtransaction.Counts.{
  sum_counts, IsUnique, has_count, top, top_attained, count_of-le-top,
}
use gitally.Transactions.Subtransaction.Voters.{sum_by-Swapped, outstanding_of}
use gitally.Transactions.Subtransaction.Invariant.{
  Inv, IsDecided, IsSettled, HasQuorum, Justified, total, outstanding, pending, weight_of,
  pending_of,
}
use gitally.Transactions.Subtransaction.Calls.{Kept, HasVoted, vote-Kept, collect_votes-Kept}
use gitally.Transactions.Subtransaction.Ending.{cancel_lem, cancel-Inv, stop-Kept}

pub data Step (t t' : Subtransaction) : Type 0 where
  votes : (node : String) (w : Vote) (e : Option Error) → vote t node w ≡ some (t', e) → Step t t'
  collects :
      (ctx_done : Bool) (node : String) (e : Option Error)
      → HasVoted t node
      → (ctx_done ≡ true) ⊎ (t.done ≡ true)
      → collect_votes t ctx_done node ≡ some (t', e)
      → Step t t'
  cancels : cancel t ≡ some t' → Step t t'
  stops : (e : Option Error) → stop t ≡ some (t', e) → Step t t'
  reorders_voters :
      (vs : List Voter) → Swapped t.voters vs → t' ≡ record t { voters = vs } → Step t t'
  reorders_counts :
      (cs : List (Vote × ℕ))
      → Swapped t.vote_counts cs
      → t' ≡ record t { vote_counts = cs }
      → Step t t'

pub data Reach (s : Subtransaction) : Subtransaction → Type 0 where
  start : Reach s s
  later : {t u : Subtransaction} → Reach s t → Step t u → Reach s u

-- Voters as they are registered.
abbrev pub IsFresh : Voter → Type 0
IsFresh v = (v.vote ≡ none) × (v.result ≡ undecided)

-- No two voters have the same name.
abbrev pub HasNames : List Voter → Type 0
HasNames [] = Unit
HasNames (v ∷ vs) = (find_voter v.name vs ≡ none) × HasNames vs

put_voter_absent :
    (v : Voter) (vs : List Voter) → find_voter v.name vs ≡ none → put_voter v vs ≡ vs ++ v ∷ []
unfolding find_voter put_voter
put_voter_absent v [] h = refl
put_voter_absent v (w ∷ ws) h = ground (arith, put_voter_absent v ws)

-- The names of `vs` are not in `acc`.
abbrev AreNew : List Voter → List Voter → Type 0
AreNew acc vs = All (λ v. find_voter v.name acc ≡ none) vs

find_voter_snoc :
    (n : String) (acc : List Voter) (v : Voter)
    → find_voter n acc ≡ none
    → str_eq v.name n ≡ false
    → find_voter n (acc ++ v ∷ []) ≡ none
unfolding find_voter
find_voter_snoc n [] v h e = rw e
find_voter_snoc n (w ∷ ws) v h e = ground (arith, find_voter_snoc n ws v)

AreNew-snoc :
    (acc : List Voter) (v : Voter) (vs : List Voter)
    → find_voter v.name vs ≡ none
    → AreNew acc vs
    → AreNew (acc ++ v ∷ []) vs
unfolding find_voter
AreNew-snoc acc v [] h a = tt
AreNew-snoc acc v (u ∷ us) h a = (
  find_voter_snoc u.name acc v a.0 (ground (arith, eq_iff u.name v.name, eq_iff v.name u.name)),
  AreNew-snoc acc v us (ground arith) a.1,
)

put_voters-append :
    (vs acc : List Voter) → HasNames vs → AreNew acc vs → put_voters vs acc ≡ acc ++ vs
unfolding put_voters
put_voters-append [] acc h a = sym (append-nil acc)
put_voters-append (v ∷ vs) acc h a = rw (put_voter_absent v acc a.0) (
    put_voters-append vs (acc ++ v ∷ []) h.1 (AreNew-snoc acc v vs h.0 a.1)
    ∙ append_assoc acc (v ∷ []) vs)

AreNew-nil : (vs : List Voter) → AreNew [] vs
unfolding find_voter
AreNew-nil [] = tt
AreNew-nil (v ∷ vs) = (refl, AreNew-nil vs)

fresh_sums :
    (w : Vote) (vs : List Voter) → All IsFresh vs → (outstanding vs ≡ total vs) × (pending w vs ≡ 0)
fresh_sums w [] h = (refl, refl)
fresh_sums w (v ∷ vs) h = ground (arith, fresh_sums w vs h.1)

-- What `newTransaction` makes sure of.
pub record IsAcceptable (voters : List Voter) (threshold : ℕ) : Type 0 where
  pub reachable : threshold ≤ total voters
  pub room : total voters < 2 * threshold
  pub wide : total voters < 2 ^ 64
  pub fresh : All IsFresh voters
  pub names : HasNames voters

-- A new subtransaction has exactly the voters of its transaction.
pub new_subtransaction_lem :
    (voters : List Voter) (threshold : ℕ)
    → HasNames voters
    → new_subtransaction voters threshold
      ≡ record { done = false; threshold = threshold; voters = voters; vote_counts = [] }
unfolding new_subtransaction
new_subtransaction_lem voters threshold h = rw (put_voters-append voters [] h (AreNew-nil voters))

pub new_subtransaction-Inv :
    (voters : List Voter) (threshold : ℕ)
    → IsAcceptable voters threshold
    → Inv (new_subtransaction voters threshold)
new_subtransaction-Inv voters threshold a =
    rw (new_subtransaction_lem voters threshold a.names) (record {
      core = record {
        room = a.room;
        wide = a.wide;
        unique = tt;
        bounded = omega (arith, fresh_sums 0 voters a.fresh);
        backed = λ w. unfold count_of in omega (arith, fresh_sums w voters a.fresh);
        justified = All-map IsFresh (Justified threshold []) (λ v f c. cc) voters a.fresh;
        awake = λ d. cc;
      };
      calm = inl (
          unfold top majority majority_loop in
          omega (arith, a.room, a.reachable, fresh_sums 0 voters a.fresh));
    })

Kept-some :
    (r : Ran Subtransaction) {t : Subtransaction} {e : Option Error}
    → Kept r
    → r ≡ some (t, e)
    → Inv t
Kept-some r k q = subst Kept q k

reordered_voters-Inv :
    (t : Subtransaction) (vs : List Voter)
    → Swapped t.voters vs
    → Inv t
    → Inv (record t { voters = vs })
reordered_voters-Inv t vs s inv = record {
  core = record {
    room = omega (arith, room, sum_by-Swapped (λ v. v.votes) s);
    wide = omega (arith, wide, sum_by-Swapped (λ v. v.votes) s);
    unique = unique;
    bounded =
        omega (arith, bounded, sum_by-Swapped (λ v. v.votes) s, sum_by-Swapped outstanding_of s);
    backed = λ w.
        omega (arith, backed w, sum_by-Swapped (pending_of w) s, sum_by-Swapped (weight_of w) s);
    justified = All-Swapped (Justified t.threshold t.vote_counts) s justified;
    awake = λ d. elim (awake d) [ inl q ↦ inl q | inr a ↦ inr (All-Swapped IsDecided s a) ];
  };
  calm = elim inv.calm [
    | inl q ↦ inl (omega (arith, q, sum_by-Swapped outstanding_of s))
    | inr a ↦ inr (All-Swapped IsSettled s a)
  ];
}
  where
    open (inv.core) use {room, wide, unique, bounded, backed, justified, awake}

-- In a map without double entries the order decides nothing.
count_of-Swapped :
    {cs ds : List (Vote × ℕ)} (w : Vote)
    → Swapped cs ds
    → IsUnique cs
    → count_of w cs ≡ count_of w ds
unfolding count_of
count_of-Swapped w (here (v, c) (u, d) r) h = ground arith
count_of-Swapped w (there (v, c) s) h = ground (arith, count_of-Swapped w s h.1)

has_count-Swapped :
    {cs ds : List (Vote × ℕ)} (w : Vote) → Swapped cs ds → has_count w cs ≡ has_count w ds
has_count-Swapped w (here (v, c) (u, d) r) = ground arith
has_count-Swapped w (there (v, c) s) = ground (arith, has_count-Swapped w s)

sum_counts-Swapped : {cs ds : List (Vote × ℕ)} → Swapped cs ds → sum_counts cs ≡ sum_counts ds
sum_counts-Swapped (here (v, c) (u, d) r) = omega arith
sum_counts-Swapped (there (v, c) s) = omega (arith, sum_counts-Swapped s)

IsUnique-Swapped : {cs ds : List (Vote × ℕ)} → Swapped cs ds → IsUnique cs → IsUnique ds
IsUnique-Swapped (here (v, c) (u, d) r) h = ground arith
IsUnique-Swapped (there (v, c) s) h = (sym (has_count-Swapped v s) ∙ h.0, IsUnique-Swapped s h.1)

top-le-Swapped : {cs ds : List (Vote × ℕ)} → Swapped cs ds → IsUnique cs → top cs ≤ top ds
top-le-Swapped {cs} {ds} s u = elim (top_attained cs u) [
  | inl e ↦ omega (arith, e)
  | inr (m, e) ↦ omega (arith, e, count_of-Swapped m s u, count_of-le-top m ds)
]

Swapped-sym {ℓ} : {A : Type ℓ} {xs ys : List A} → Swapped xs ys → Swapped ys xs
Swapped-sym (here x y r) = here y x r
Swapped-sym (there x s) = there x (Swapped-sym s)

reordered_counts-Inv :
    (t : Subtransaction) (cs : List (Vote × ℕ))
    → Swapped t.vote_counts cs
    → Inv t
    → Inv (record t { vote_counts = cs })
reordered_counts-Inv t cs s inv = record {
  core = record {
    room = room;
    wide = wide;
    unique = IsUnique-Swapped s unique;
    bounded = omega (arith, bounded, sum_counts-Swapped s);
    backed = λ w. omega (arith, backed w, count_of-Swapped w s unique);
    justified =
        All-map (Justified t.threshold t.vote_counts) (Justified t.threshold cs)
          (λ v j c. HasQuorum-Swapped v.vote (j c)) t.voters justified;
    awake = λ d. elim (awake d) [
      | inl q ↦ inl (omega (arith, top-le-Swapped s unique))
      | inr a ↦ inr a
    ];
  };
  calm = elim inv.calm [
    | inl q ↦ inl (
        omega (
          arith,
          q,
          top-le-Swapped s unique,
          top-le-Swapped (Swapped-sym s) (IsUnique-Swapped s unique),
        ))
    | inr a ↦ inr a
  ];
}
  where
    open (inv.core) use {room, wide, unique, bounded, backed, justified, awake}

    HasQuorum-Swapped :
        (o : Option Vote) → HasQuorum t.threshold t.vote_counts o → HasQuorum t.threshold cs o
    HasQuorum-Swapped none h = h
    HasQuorum-Swapped (some w) h = omega (arith, count_of-Swapped w s unique)

-- Every step keeps the invariant.
pub Step-Inv : {t t' : Subtransaction} → Step t t' → Inv t → Inv t'
Step-Inv {t} (votes node w e q) inv = Kept-some _ (vote-Kept t node w inv) q
Step-Inv {t} (collects ctx_done node e has_voted woken q) inv =
    Kept-some _ (collect_votes-Kept t ctx_done node inv has_voted) q
Step-Inv {t} {t'} (cancels q) inv =
    subst Inv (some_eq _ _ (sym (cancel_lem t) ∙ q)) (cancel-Inv t inv)
Step-Inv {t} (stops e q) inv = Kept-some _ (stop-Kept t inv) q
Step-Inv {t} (reorders_voters vs s q) inv = subst Inv (sym q) (reordered_voters-Inv t vs s inv)
Step-Inv {t} (reorders_counts cs s q) inv = subst Inv (sym q) (reordered_counts-Inv t cs s inv)

pub Reach-Inv : {s t : Subtransaction} → Inv s → Reach s t → Inv t
Reach-Inv inv start = inv
Reach-Inv inv (later r st) = Step-Inv st (Reach-Inv inv r)
