-- ===== src/Replicator.antt =====
-- internal/praefect/replicator.go: what the default replicator asks of the nodes and of the repository
-- store for an event of the queue. What these answer, given all the calls so far, is a parameter.
pub mod Manager
pub mod Aims
pub mod Replication
use gitally.Prelude.{
  ℕ, String, Bool, true, false, Option, none, some, List, [], ◌∷◌, if◌then◌else◌, str_eq,
}
use gitally.Replication.Types.{
  ChangeType, delete_repo, delete_replica, Value, text, flag, number, Params, ReplicationEvent,
}
use gitally.Coordinator.Finalizer.{get_param}

-- `gitalypb.Repository`, of which the replicator sets these fields.
pub record Repository : Type 0 where
  pub storage_name : String
  pub relative_path : String

-- `gitalypb.ObjectPool`, whose repository can be nil.
pub record ObjectPool : Type 0 where
  pub repository : Option Repository

-- `GenerationUnknown` is -1.
pub data Generation : Type 0 where
  unknown : Generation
  generation : ℕ → Generation

-- The node that a connection leads to.
pub data Peer : Type 0 where
  source target : Peer

pub data Request : Type 0 where
  -- The source, the repository to write.
  replicate_repository : Repository → Repository → Request
  link_repository_to_object_pool : ObjectPool → Repository → Request
  remove_repository : Repository → Request
  rename_repository : Repository → String → Request
  -- Whether a bitmap is made, and whether objects are pruned.
  garbage_collect : Repository → Bool → Bool → Request
  repack_full pack_refs : Repository → Bool → Request
  repack_incremental cleanup midx_repack optimize_repository : Repository → Request
  write_commit_graph : Repository → ℕ → Request

pub data Call : Type 0 where
  rpc : Peer → Request → Call
  get_object_pool : Peer → Repository → Call
  -- The store's methods, with the virtual storage and the relative path first.
  get_replicated_generation : String → String → String → String → Call
  delete_invalid_repository : String → String → String → Call
  set_generation : String → String → String → ℕ → Call
  delete_repository : String → String → List String → Call
  delete_replica_record : String → String → String → Call
  rename_record : String → String → String → String → Call

-- The errors that `errors.Is` and `errors.As` look for, and the others.
pub data CallError : Type 0 where
  downgrade_attempted : ℕ → ℕ → CallError
  invalid_source_repository no_rows_affected repository_not_exists : CallError
  other_error : ℕ → CallError

pub data Reply {ℓ} (A : Type ℓ) : Type ℓ where
  replies : A → Reply A
  errs : CallError → Reply A

-- The calls made so far, the last one first, to what the last one answers.
pub record Outside : Type 0 where
  pub generation_of : List Call → Reply Generation
  pub object_pool_of : List Call → Reply (Option ObjectPool)
  pub error_of : List Call → Option CallError

pub data JobError : Type 0 where
  get_generation_failed delete_invalid_failed create_failed call_failed : CallError → JobError
  unknown_change : JobError
  no_parameter unexpected_type : String → JobError
  no_connection : String → JobError
  inject_failed : ℕ → JobError

-- `crashes` is a nil pointer that is read.
pub data Ended {ℓ} (A : Type ℓ) : Type ℓ where
  done : A → Ended A
  failed_with : JobError → Ended A
  crashes : Ended A

abbrev pub Session {ℓ} : Type ℓ → Type ℓ
Session A = List Call → List Call × Ended A

abbrev pub continue {ℓ κ} :
    {A : Type ℓ} {B : Type κ} → List Call × Ended A → (A → Session B) → List Call × Ended B
continue (h, done a) f = f a h
continue (h, failed_with e) f = (h, failed_with e)
continue (h, crashes) f = (h, crashes)

infixl 5 ◌>>=◌
abbrev pub ◌>>=◌ {ℓ κ} : {A : Type ℓ} {B : Type κ} → Session A → (A → Session B) → Session B
(s >>= f) h = continue (s h) f

abbrev pub give {ℓ} : {A : Type ℓ} → A → Session A
give a h = (h, done a)

abbrev pub refuse {ℓ} : {A : Type ℓ} → JobError → Session A
refuse e h = (h, failed_with e)

abbrev pub crash {ℓ} : {A : Type ℓ} → Session A
crash h = (h, crashes)

-- Makes a call and keeps its error.
abbrev pub attempt : Outside → Call → Session (Option CallError)
attempt w c h = (c ∷ h, done (w.error_of (c ∷ h)))

abbrev pub or_fail : (CallError → JobError) → Option CallError → Session (Unit {0})
or_fail f none = give tt
or_fail f (some e) = refuse (f e)

abbrev pub make : Outside → Call → Session (Unit {0})
make w c = attempt w c >>= or_fail call_failed

abbrev pub target_of : ReplicationEvent → Repository
target_of e = record {
  storage_name = e.job.target_node_storage;
  relative_path = e.job.relative_path;
}

abbrev pub source_of : ReplicationEvent → Repository
source_of e = record {
  storage_name = e.job.source_node_storage;
  relative_path = e.job.relative_path;
}

-- The clone of the pool has the storage of the target; a pool without a repository is read as nil.
link_clone : Outside → ReplicationEvent → Option Repository → Session (Unit {0})
link_clone w e none = crash
link_clone w e (some r) =
    let there : Repository = record {
      storage_name = e.job.target_node_storage;
      relative_path = r.relative_path;
    } in
    let clone : ObjectPool = record { repository = some there } in
    make w (rpc target (link_repository_to_object_pool clone (target_of e)))

link_pool : Outside → ReplicationEvent → Option ObjectPool → Session (Unit {0})
unfolding link_clone
link_pool w e none = give tt
link_pool w e (some p) = link_clone w e p.repository

write_generation : Outside → ReplicationEvent → Generation → Session (Unit {0})
write_generation w e unknown = give tt
write_generation w e (generation g) =
    make w (set_generation e.job.virtual_storage e.job.relative_path e.job.target_node_storage g)

read_pool : Outside → ReplicationEvent → Session (Option ObjectPool)
read_pool w e h =
    let h' = get_object_pool source (source_of e) ∷ h in
    elim (w.object_pool_of h') [
      | replies p ↦ (h', done p)
      | errs x ↦ (h', failed_with (call_failed x))
    ]

-- From the check for an object pool on.
finish_replication : Outside → ReplicationEvent → Generation → Session (Unit {0})
unfolding read_pool link_pool write_generation
finish_replication w e g = do pool ← read_pool w e; _ ← link_pool w e pool; write_generation w e g

delete_invalid : Outside → ReplicationEvent → Session (Unit {0})
delete_invalid w e =
    attempt w (
      delete_invalid_repository e.job.virtual_storage e.job.relative_path e.job.source_node_storage)
    >>= or_fail delete_invalid_failed

after_copy : Outside → ReplicationEvent → Generation → Option CallError → Session (Unit {0})
unfolding finish_replication delete_invalid
after_copy w e g none = finish_replication w e g
after_copy w e g (some invalid_source_repository) = delete_invalid w e
after_copy w e g (some x) = refuse (create_failed x)

copy : Outside → ReplicationEvent → Generation → Session (Unit {0})
unfolding after_copy
copy w e g =
    attempt w (rpc target (replicate_repository (source_of e) (target_of e))) >>= after_copy w e g

-- A downgrade is not attempted, and the job is done.
with_generation : Outside → ReplicationEvent → Reply Generation → Session (Unit {0})
unfolding copy
with_generation w e (replies g) = copy w e g
with_generation w e (errs (downgrade_attempted current attempted)) = give tt
with_generation w e (errs x) = refuse (get_generation_failed x)

pub replicate : Outside → ReplicationEvent → Session (Unit {0})
unfolding with_generation
replicate w e h =
    let h' =
      get_replicated_generation e.job.virtual_storage e.job.relative_path e.job.source_node_storage
        e.job.target_node_storage
      ∷ h in
    with_generation w e (w.generation_of h') h'

-- An error of the store that says that there is nothing to change is passed over.
pass_no_rows : Option CallError → Session (Unit {0})
pass_no_rows none = give tt
pass_no_rows (some no_rows_affected) = give tt
pass_no_rows (some x) = refuse (call_failed x)

pass_not_exists : Option CallError → Session (Unit {0})
pass_not_exists none = give tt
pass_not_exists (some repository_not_exists) = give tt
pass_not_exists (some x) = refuse (call_failed x)

delete_record : Outside → ReplicationEvent → ChangeType → Session (Unit {0})
unfolding pass_no_rows
delete_record w e delete_repo =
    attempt w
      (delete_repository e.job.virtual_storage e.job.relative_path (e.job.target_node_storage ∷ []))
    >>= pass_no_rows
delete_record w e delete_replica =
    attempt w
      (delete_replica_record e.job.virtual_storage e.job.relative_path e.job.target_node_storage)
    >>= pass_no_rows
delete_record w e _ = refuse unknown_change

pub destroy : Outside → ReplicationEvent → Session (Unit {0})
unfolding delete_record
destroy w e = do
  _ ← make w (rpc target (remove_repository (target_of e)))
  delete_record w e e.job.change

get_text : String → Option Value → Session String
get_text k none = refuse (no_parameter k)
get_text k (some (text s)) = give s
get_text k (some v) = refuse (unexpected_type k)

pub rename : Outside → ReplicationEvent → Session (Unit {0})
unfolding get_text pass_not_exists
rename w e = do
  path ← get_text "RelativePath" (get_param "RelativePath" e.job.params)
  _ ← make w (rpc target (rename_repository (target_of e) path))
  x ←
      attempt w
        (rename_record e.job.virtual_storage e.job.relative_path e.job.target_node_storage path)
  pass_not_exists x

bool_of : String → Option Value → Session Bool
bool_of k none = refuse (no_parameter k)
bool_of k (some (flag b)) = give b
bool_of k (some v) = refuse (unexpected_type k)

-- `Params.GetBool`
pub get_bool : Params → String → Session Bool
unfolding bool_of
get_bool params k = bool_of k (get_param k params)

pub collect_garbage : Outside → ReplicationEvent → Session (Unit {0})
collect_garbage w e = do
  create_bitmap ← get_bool e.job.params "CreateBitmap"
  prune ← get_bool e.job.params "Prune"
  make w (rpc target (garbage_collect (target_of e) create_bitmap prune))

pub pack_all_refs : Outside → ReplicationEvent → Session (Unit {0})
pack_all_refs w e = do
  all_refs ← get_bool e.job.params "AllRefs"
  make w (rpc target (pack_refs (target_of e) all_refs))

-- A number is a strategy, or one that JSON has made a float64 of.
get_strategy : Option Value → Session ℕ
get_strategy none = refuse (no_parameter "SplitStrategy")
get_strategy (some (number n)) = give n
get_strategy (some v) = refuse (unexpected_type "SplitStrategy")

pub write_graph : Outside → ReplicationEvent → Session (Unit {0})
unfolding get_strategy
write_graph w e = do
  strategy ← get_strategy (get_param "SplitStrategy" e.job.params)
  make w (rpc target (write_commit_graph (target_of e) strategy))

pub repack_all : Outside → ReplicationEvent → Session (Unit {0})
repack_all w e = do
  create_bitmap ← get_bool e.job.params "CreateBitmap"
  make w (rpc target (repack_full (target_of e) create_bitmap))

-- `RepackIncremental`, `Cleanup`, `MidxRepack` and `OptimizeRepository`, which send the target only.
pub send_target : Outside → ReplicationEvent → (Repository → Request) → Session (Unit {0})
send_target w e request = make w (rpc target (request (target_of e)))
