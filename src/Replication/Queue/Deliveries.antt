-- ===== src/Replication/Queue/Deliveries.antt =====
-- What `Dequeue` returns.
use gitally.Prelude.{
  ℕ, zero, suc, ◌+◌, ◌-◌, ◌≡◌, refl, sym, ap, ◌∙◌, String, Bool, true, false, Option, none, some,
  List, [], ◌∷◌, arith, map, take, max, leb, if◌then◌else◌, ◌&&◌, ◌||◌, str_eq, some_eq, inl, inr,
  Bool-cases, Option-cases,
}
use gitally.Replication.Types.{
  ready, in_progress, completed, cancelled, failed, dead, ReplicationJob, ReplicationEvent,
}
use gitally.Replication.Queue.{
  Queue, Lasts, Visit, taken_event, Dequeued, keep, return, halt, visit, dequeue_loop, dequeue,
  add_id, refresh_last, has_key, fresh_key, is_ready_or_failed,
}

-- Whether an event is for the node asked for, and ready or failed.
abbrev pub is_eligible : String → String → ReplicationEvent → Bool
is_eligible virtual_storage node_storage e =
    str_eq e.job.virtual_storage virtual_storage
    && str_eq e.job.target_node_storage node_storage
    && elim e.state [
      | ready ↦ true
      | in_progress ↦ false
      | completed ↦ false
      | cancelled ↦ false
      | failed ↦ true
      | dead ↦ false
    ]

abbrev pub eligible : String → String → List ReplicationEvent → List ReplicationEvent
eligible virtual_storage node_storage [] = []
eligible virtual_storage node_storage (e ∷ es) =
    let rest = eligible virtual_storage node_storage es in
    if is_eligible virtual_storage node_storage e then e ∷ rest else rest

abbrev is_one_of : String → List String → Bool
is_one_of k [] = false
is_one_of k (x ∷ xs) = str_eq x k || is_one_of k xs

-- Of the events whose jobs are the same as JSON, the first one only. The first list is of the jobs met
-- so far.
abbrev pub firsts :
    (ReplicationJob → Option String) → List String → List ReplicationEvent → List ReplicationEvent
firsts marshal met [] = []
firsts marshal met (e ∷ es) = elim (marshal e.job) [
  | none ↦ []
  | some k ↦
      let rest = firsts marshal met es in
      if is_one_of k met then rest else e ∷ firsts marshal (k ∷ met) es
]

-- As `Dequeue` returns an event: in progress, with one attempt less, and with the time.
abbrev pub as_taken : (ℕ → ℕ) → ReplicationEvent → ReplicationEvent
as_taken now e = record e {
  state = in_progress;
  attempt = e.attempt - 1;
  updated_at = some (now e.id);
}

has_key-is_one_of : (k : String) (ks : List String) → has_key k ks ≡ is_one_of k ks
unfolding has_key
has_key-is_one_of k [] = refl
has_key-is_one_of k (x ∷ xs) = ground (arith, has_key-is_one_of k xs)

returned :
    (b : Bool) (xs ys : List ReplicationEvent)
    → (if b then none else some xs) ≡ some ys
    → (b ≡ false) × (xs ≡ ys)
returned true xs ys h = absurd cc
returned false xs ys h = (refl, some_eq xs ys h)

module _ (marshal : ReplicationJob → Option String) (vs ns : String) where
  visit-skips :
      (seen : List String) (e : ReplicationEvent)
      → is_eligible vs ns e ≡ false
      → visit marshal vs ns seen e ≡ Visit.skips
  unfolding visit is_ready_or_failed
  visit-skips seen e h = rw h refl

  visit-fails :
      (seen : List String) (e : ReplicationEvent)
      → is_eligible vs ns e ≡ true
      → marshal e.job ≡ none
      → visit marshal vs ns seen e ≡ Visit.fails
  unfolding visit is_ready_or_failed fresh_key
  visit-fails seen e h m = rw (h, m) refl

  visit-met :
      (seen : List String) (e : ReplicationEvent) (k : String)
      → is_eligible vs ns e ≡ true
      → marshal e.job ≡ some k
      → is_one_of k seen ≡ true
      → visit marshal vs ns seen e ≡ Visit.skips
  unfolding visit is_ready_or_failed fresh_key
  visit-met seen e k h m b = rw (h, m, has_key-is_one_of k seen, b) refl

  visit-takes :
      (seen : List String) (e : ReplicationEvent) (k : String)
      → is_eligible vs ns e ≡ true
      → marshal e.job ≡ some k
      → is_one_of k seen ≡ false
      → visit marshal vs ns seen e ≡ Visit.takes k
  unfolding visit is_ready_or_failed fresh_key
  visit-takes seen e k h m b = rw (h, m, has_key-is_one_of k seen, b) refl

  module _ (now : ℕ → ℕ) (count : ℕ) where
    -- The loop takes at most `suc n` events more.
    abbrev Takes : ℕ → List String → List ReplicationEvent → Dequeued → Type 0
    Takes n seen es d =
        d.failed_at_json ≡ false
        → d.result ≡ map (as_taken now) (take (suc n) (firsts marshal seen (eligible vs ns es)))

    -- After an event that is taken.
    last_or_more :
        (seen : List String) (taken n : ℕ) (ids : List ℕ) (ls : Lasts) (e : ReplicationEvent)
        (k : String) (es : List ReplicationEvent)
        → suc n + taken ≡ max count (taken + 1)
        → ((n' : ℕ)
            → suc n' + (taken + 1) ≡ max count (taken + 1 + 1)
            → Takes n'
                (k ∷ seen)
                es
                (dequeue_loop marshal now vs ns count (k ∷ seen) (taken + 1) ids ls es))
        → let d = elim (leb count (taken + 1)) as (λ b. Dequeued) [
          | true ↦ halt es ids ls false
          | false ↦ dequeue_loop marshal now vs ns count (k ∷ seen) (taken + 1) ids ls es
        ] in
          d.failed_at_json ≡ false
          → as_taken now e ∷ d.result
            ≡ as_taken now e
              ∷ map (as_taken now) (take n (firsts marshal (k ∷ seen) (eligible vs ns es)))
    unfolding halt
    last_or_more seen taken zero ids ls e k es room again =
        let stops : leb count (taken + 1) ≡ true = ground (arith, room) in rw stops (λ q. refl)
    last_or_more seen taken (suc n') ids ls e k es room again =
        let goes : leb count (taken + 1) ≡ false = ground (arith, room) in
        rw goes (λ q. ap (λ xs. as_taken now e ∷ xs) (again n' (omega (arith, room)) q))

    dequeue_loop-Takes :
        (seen : List String) (taken n : ℕ) (ids : List ℕ) (ls : Lasts) (es : List ReplicationEvent)
        → suc n + taken ≡ max count (taken + 1)
        → Takes n seen es (dequeue_loop marshal now vs ns count seen taken ids ls es)
    unfolding dequeue_loop keep halt return taken_event
    dequeue_loop-Takes seen taken n ids ls [] room = λ q. refl
    dequeue_loop-Takes seen taken n ids ls (e ∷ es) room =
        let again = dequeue_loop-Takes seen taken n ids ls es room in
        elim (Bool-cases (is_eligible vs ns e)) [
          | inr b ↦ rw (visit-skips seen e b, b, dequeue_loop) again
          | inl b ↦ elim (Option-cases (marshal e.job)) [
            | inl m ↦ rw (visit-fails seen e b m, dequeue_loop) (λ q. absurd cc)
            | inr (k, m) ↦ elim (Bool-cases (is_one_of k seen)) [
              | inl c ↦ rw (visit-met seen e k b m c, b, m, c, dequeue_loop) again
              | inr c ↦
                  rw (visit-takes seen e k b m c, b, m, c, dequeue_loop)
                    (last_or_more seen taken n (add_id e.id ids) (refresh_last (as_taken now e) ls)
                      e k es room
                      (λ n' r.
                        dequeue_loop-Takes (k ∷ seen) (taken + 1) n' (add_id e.id ids)
                          (refresh_last (as_taken now e) ls) es r))
            ]
          ]
        ]

-- When `Dequeue` returns no error, it returns, in the order of the queue, the first `count` of the
-- events that are for the virtual storage and the node and are ready or failed, less those whose job is
-- the same as that of an earlier one: each now in progress, with one attempt less and the new time. It
-- returns the first one of these also where `count` is 0.
pub dequeue_lem :
    (marshal : ReplicationJob → Option String) (q : Queue) (now : ℕ → ℕ)
    (virtual_storage node_storage : String) (count : ℕ) (events : List ReplicationEvent)
    → (dequeue marshal q now virtual_storage node_storage count).1 ≡ some events
    → events
      ≡ map
          (as_taken now)
          (take (max count 1) (firsts marshal [] (eligible virtual_storage node_storage q.queued)))
unfolding dequeue
dequeue_lem marshal q now virtual_storage node_storage count events h =
    let d =
      dequeue_loop marshal now virtual_storage node_storage count [] 0 q.dequeued
        q.last_event_by_dest q.queued in
    let (ok, same) = returned d.failed_at_json d.result events h in
    let n = max count 1 - 1 in
    let at_most : suc n ≡ max count 1 = omega arith in
    let all = firsts marshal [] (eligible virtual_storage node_storage q.queued) in
    sym same
    ∙ dequeue_loop-Takes marshal virtual_storage node_storage now count [] 0 n q.dequeued
        q.last_event_by_dest q.queued (omega arith) ok
    ∙ ap (λ k. map (as_taken now) (take k all)) at_most
