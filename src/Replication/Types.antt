-- ===== src/Replication/Types.antt =====
-- The data of a replication job: internal/praefect/datastore/datastore.go and queue.go.
use gitally.Prelude.{ℕ, String, Bool, true, false, List, Option}

pub data ChangeType : Type 0 where
  update_repo create_repo delete_repo delete_replica rename_repo garbage_collect : ChangeType
  repack_full repack_incremental cleanup pack_refs write_commit_graph : ChangeType
  midx_repack optimize_repository : ChangeType

pub data JobState : Type 0 where
  ready in_progress completed cancelled failed dead : JobState

-- What the code puts in a map of parameters.
pub data Value : Type 0 where
  text : String → Value
  flag : Bool → Value
  number : ℕ → Value

abbrev pub Params : Type 0
Params = List (String × Value)

pub record ReplicationJob : Type 0 where
  pub repository_id : ℕ
  pub change : ChangeType
  pub relative_path : String
  pub target_node_storage : String
  pub source_node_storage : String
  pub virtual_storage : String
  pub params : Params

-- The times are numbers.
pub record ReplicationEvent : Type 0 where
  pub id : ℕ
  pub state : JobState
  pub attempt : ℕ
  pub lock_id : String
  pub created_at : ℕ
  pub updated_at : Option ℕ
  pub job : ReplicationJob
  pub meta : Params

unfoldable pub allow_to_ack : JobState → Bool
allow_to_ack completed = true
allow_to_ack failed = true
allow_to_ack cancelled = true
allow_to_ack dead = true
allow_to_ack ready = false
allow_to_ack in_progress = false
