-- ===== src/Replicator/Manager/Backoff.antt =====
-- How long the replication manager waits between rounds that have found nothing to do.
use gitally.Prelude.{
  ℕ, zero, suc, ◌*◌, ◌^◌, ◌≤◌, ◌<◌, min, ◌≡◌, refl, sym, ap, ◌∙◌, String, false, Option, none, some,
  List, [], ◌∷◌, arith, ◌==◌, if◌then◌else◌, inl, inr, ◌⊎◌,
}
use gitally.Replicator.Manager.{Nodes, backoff, total_events, end_round, process_backlog}

-- The wait behind `k` rounds without events.
abbrev pub delay : ℕ → ℕ → ℕ → ℕ
delay start max k = min (start * 2 ^ k) max

-- The waits of the rounds, of which the last `k` had no events.
abbrev pub expected_waits : Nodes → String → ℕ → ℕ → ℕ → List (List (String × ℕ)) → List (Option ℕ)
expected_waits n vs start max k [] = []
expected_waits n vs start max k (round ∷ rounds) =
    let idle = some (delay start max k) ∷ expected_waits n vs start max (suc k) rounds in
    let busy = none ∷ expected_waits n vs start max 0 rounds in
    if total_events n vs round == 0 then idle else busy

backoff-next : (max p : ℕ) → max < 2 ^ 62 → (backoff max (min p max)).0 ≡ min (p * 2) max
unfolding backoff
backoff-next max p h = ground arith

delay-suc : (start k : ℕ) → start * 2 ^ suc k ≡ (start * 2 ^ k) * 2
delay-suc start k = grind arith

end_round-idle :
    (start max k : ℕ)
    → max < 2 ^ 62
    → end_round start max (delay start max k) 0
      ≡ (delay start max (suc k), some (delay start max k))
unfolding end_round
end_round-idle start max k h =
    ap (λ d. (d, some (delay start max k)))
      (backoff-next max (start * 2 ^ k) h ∙ ap (λ p. min p max) (sym (delay-suc start k)))

ℕ-cases : (n : ℕ) → (n ≡ 0) ⊎ ((m : ℕ) × (n ≡ suc m))
ℕ-cases zero = inl refl
ℕ-cases (suc m) = inr (m, refl)

first : (start max : ℕ) → start ≤ max → start ≡ delay start max 0
first start max l = omega (arith, l)

not_zero : (m : ℕ) → (suc m == 0) ≡ false
not_zero m = ground arith

step :
    (n : Nodes) (vs : String) (start max d : ℕ) (round : List (String × ℕ))
    (rounds : List (List (String × ℕ))) (r : ℕ × Option ℕ)
    → end_round start max d (total_events n vs round) ≡ r
    → process_backlog n vs start max d (round ∷ rounds)
      ≡ r.1 ∷ process_backlog n vs start max r.0 rounds
unfolding process_backlog
step n vs start max d round rounds r e = ap (λ x. x.1 ∷ process_backlog n vs start max x.0 rounds) e

process_backlog-from :
    (n : Nodes) (vs : String) (start max k : ℕ) (rounds : List (List (String × ℕ)))
    → start ≤ max
    → max < 2 ^ 62
    → process_backlog n vs start max (delay start max k) rounds
      ≡ expected_waits n vs start max k rounds
unfolding process_backlog
process_backlog-from n vs start max k [] l h = refl
process_backlog-from n vs start max k (round ∷ rounds) l h =
    let idle = process_backlog-from n vs start max (suc k) rounds l h in
    let busy = process_backlog-from n vs start max 0 rounds l h in
    let d = delay start max k in
    elim (ℕ-cases (total_events n vs round)) [
      | inl e ↦
          step n vs start max d round rounds (delay start max (suc k), some d)
            (ap (end_round start max d) e ∙ end_round-idle start max k h)
          ∙ ap (λ ws. some d ∷ ws) idle
          ∙ sym (rw e refl)
      | inr (m, e) ↦
          step n vs start max d round rounds (start, none) (ap (end_round start max d) e)
          ∙ ap (λ ws. none ∷ ws)
              (ap (λ x. process_backlog n vs start max x rounds) (first start max l) ∙ busy)
          ∙ sym (rw (e, not_zero m) refl)
    ]

-- With `start` at most `max`, and `max` below 2^62, `processBacklog` waits after `k` rounds in a row
-- without events for the smaller of `start * 2^k` and `max`, and does not wait after a round with one.
pub process_backlog_lem :
    (n : Nodes) (vs : String) (start max : ℕ) (rounds : List (List (String × ℕ)))
    → start ≤ max
    → max < 2 ^ 62
    → process_backlog n vs start max start rounds ≡ expected_waits n vs start max 0 rounds
process_backlog_lem n vs start max rounds l h =
    ap (λ x. process_backlog n vs start max x rounds) (first start max l)
    ∙ process_backlog-from n vs start max 0 rounds l h
