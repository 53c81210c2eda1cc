-- ===== src/Replicator/Manager/States.antt =====
-- Which state each event is acknowledged with.
use gitally.Prelude.{
  ℕ, zero, suc, ◌+◌, ◌≡◌, Bool, true, false, Option, none, some, List, [], ◌∷◌, ◌++◌, if◌then◌else◌,
  length, sum_by,
}
use gitally.Replication.Types.{JobState, completed, failed, dead, ReplicationEvent}
use gitally.Replicator
use gitally.Replicator.{Outside, Ended, done, failed_with}
use gitally.Replicator.Manager.{Nodes, process_replication_event, same_state, IdsByState}

-- The state that is due after the processing of an event, by the attempts left: completed without an
-- error, failed with one and attempts left, dead with one and none left.
abbrev pub is_due : JobState → Ended (Unit {0}) → ℕ → Bool
is_due completed (done u) attempts = true
is_due failed (failed_with x) (suc n) = true
is_due dead (failed_with x) zero = true
is_due _ _ _ = false

-- The ids of the events for which the state is due, in the order of the events, when each event is
-- processed after the ones before it.
abbrev pub ids_due :
    Nodes → Outside → JobState → List ReplicationEvent → List Replicator.Call → List ℕ
ids_due n w s [] h = []
ids_due n w s (e ∷ es) h =
    let (h', end) = process_replication_event n w e h in
    let rest = ids_due n w s es h' in if is_due s end e.attempt then e.id ∷ rest else rest

-- The value of the map at a state, an empty slice where there is none.
abbrev pub ids_at : JobState → IdsByState → List ℕ
ids_at s [] = []
ids_at s ((t, ids) ∷ rest) = if same_state t s then ids else ids_at s rest

abbrev pub count_ids : IdsByState → ℕ
count_ids = sum_by (λ group. length group.1)

-- The ids at each state grow by the ids for which it is due, and their number by that of the events.
abbrev pub Grown :
    Nodes
    → Outside
    → List ReplicationEvent
    → IdsByState
    → List Replicator.Call
    → List Replicator.Call × Option IdsByState
    → Type 0
Grown n w es acc h (h', none) = Unit
Grown n w es acc h (h', some groups) =
    ((s : JobState) → ids_at s groups ≡ ids_at s acc ++ ids_due n w s es h)
    × (count_ids groups ≡ count_ids acc + length es)

module _ (n : Nodes) (w : Outside) (e : ReplicationEvent) (es : List ReplicationEvent)
    (acc : IdsByState) (h : List Replicator.Call) where
  abbrev after : List Replicator.Call
  after = (process_replication_event n w e h).0

  abbrev ended : Ended (Unit {0})
  ended = (process_replication_event n w e h).1
