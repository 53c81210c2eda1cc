-- ===== src/Nodes/Samples.antt =====
-- A shard whose primary fails a health check, and the theorem at it.
use gitally.Prelude.{ℕ, zero, suc, ◌≡◌, refl, Bool, true, false, some, is_some, List, [], ◌∷◌}
use gitally.Nodes.{
  LocalElector, is_healthy, all_ok, update_status, healthy_at, check_health, new_primary, elect,
  check_nodes, get_shard, secondaries_from,
}
use gitally.Nodes.Election.{Elects, check_nodes-Elects}

abbrev all_good : List Bool
all_good = true ∷ true ∷ true ∷ []

abbrev shard : LocalElector
shard = record {
  nodes =
      record { storage = "a"; statuses = all_good }
      ∷ record { storage = "b"; statuses = all_good }
      ∷ [];
  primary_node = 0;
}

-- The first node does not answer.
abbrev serving : ℕ → Bool
serving zero = false
serving (suc i) = true

abbrev failed_over : LocalElector
failed_over = record {
  nodes =
      record { storage = "a"; statuses = true ∷ true ∷ false ∷ [] }
      ∷ record { storage = "b"; statuses = all_good }
      ∷ [];
  primary_node = 1;
}

fails_over : check_nodes shard serving ≡ (failed_over, true)
unfolding check_nodes check_health update_status healthy_at is_healthy all_ok new_primary elect
fails_over = refl

shard_behind : get_shard failed_over ≡ some (1, 0 ∷ [])
unfolding get_shard healthy_at is_healthy all_ok secondaries_from
shard_behind = refl

check_nodes-Elects_example :
    Elects (check_health serving 0 shard.nodes) 0 (check_nodes shard serving)
    × (is_some (get_shard (check_nodes shard serving).0) ≡ (check_nodes shard serving).1)
check_nodes-Elects_example = check_nodes-Elects shard serving
