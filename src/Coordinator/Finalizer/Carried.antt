-- ===== src/Coordinator/Finalizer/Carried.antt =====
-- What the parameters of a replication job carry of the message that caused it.
use gitally.Prelude.{ℕ, ◌≡◌, refl, String, Bool, Option, none, some, str_eq, [], ◌∷◌}
use gitally.Replication.Types.{
  ChangeType, rename_repo, garbage_collect, repack_full, repack_incremental, cleanup, pack_refs,
  write_commit_graph, midx_repack, optimize_repository, Params, text, flag, number,
}
use gitally.Coordinator.Finalizer.{
  Message, rename_repository_request, garbage_collect_request, repack_full_request,
  repack_incremental_request, cleanup_request, midx_repack_request, write_commit_graph_request,
  optimize_repository_request, pack_refs_request, get_replication_details, rename_details, one_of,
  garbage_collect_details, repack_full_details, repack_incremental_details, cleanup_details,
  write_commit_graph_details, midx_repack_details, optimize_repository_details, pack_refs_details,
  get_param,
}
use gitally.Coordinator.Finalizer.Details.{if-both}

-- For a change that is the message's: the message, and its fields among the parameters.
abbrev pub Carries : Message → ChangeType → Params → Type 0
Carries m rename_repo ps =
    (p : String) × (m ≡ rename_repository_request p) × (get_param "RelativePath" ps ≡ some (text p))
Carries m garbage_collect ps =
    (b : Bool) × (p : Bool) × (m ≡ garbage_collect_request b p)
    × (get_param "CreateBitmap" ps ≡ some (flag b))
    × (get_param "Prune" ps ≡ some (flag p))
Carries m repack_full ps =
    (b : Bool) × (m ≡ repack_full_request b) × (get_param "CreateBitmap" ps ≡ some (flag b))
Carries m pack_refs ps =
    (a : Bool) × (m ≡ pack_refs_request a) × (get_param "AllRefs" ps ≡ some (flag a))
Carries m write_commit_graph ps =
    (s : ℕ) × (m ≡ write_commit_graph_request s) × (get_param "SplitStrategy" ps ≡ some (number s))
Carries m repack_incremental ps = m ≡ repack_incremental_request
Carries m cleanup ps = m ≡ cleanup_request
Carries m midx_repack ps = m ≡ midx_repack_request
Carries m optimize_repository ps = m ≡ optimize_repository_request
Carries m _ ps = Unit

abbrev pub AllCarry : Message → Option (ChangeType × Params) → Type 0
AllCarry m none = Unit
AllCarry m (some (c, ps)) = Carries m c ps

rename_details-AllCarry : (m : Message) → AllCarry m (rename_details m)
unfolding rename_details get_param
rename_details-AllCarry (rename_repository_request p) = (p, refl, refl)
rename_details-AllCarry _ = tt

garbage_collect_details-AllCarry : (m : Message) → AllCarry m (garbage_collect_details m)
unfolding garbage_collect_details get_param
garbage_collect_details-AllCarry (garbage_collect_request b p) = (b, p, refl, refl, refl)
garbage_collect_details-AllCarry _ = tt

repack_full_details-AllCarry : (m : Message) → AllCarry m (repack_full_details m)
unfolding repack_full_details get_param
repack_full_details-AllCarry (repack_full_request b) = (b, refl, refl)
repack_full_details-AllCarry _ = tt

repack_incremental_details-AllCarry : (m : Message) → AllCarry m (repack_incremental_details m)
unfolding repack_incremental_details
repack_incremental_details-AllCarry repack_incremental_request = refl
repack_incremental_details-AllCarry _ = tt

cleanup_details-AllCarry : (m : Message) → AllCarry m (cleanup_details m)
unfolding cleanup_details
cleanup_details-AllCarry cleanup_request = refl
cleanup_details-AllCarry _ = tt

write_commit_graph_details-AllCarry : (m : Message) → AllCarry m (write_commit_graph_details m)
unfolding write_commit_graph_details get_param
write_commit_graph_details-AllCarry (write_commit_graph_request s) = (s, refl, refl)
write_commit_graph_details-AllCarry _ = tt

midx_repack_details-AllCarry : (m : Message) → AllCarry m (midx_repack_details m)
unfolding midx_repack_details
midx_repack_details-AllCarry midx_repack_request = refl
midx_repack_details-AllCarry _ = tt

optimize_repository_details-AllCarry : (m : Message) → AllCarry m (optimize_repository_details m)
unfolding optimize_repository_details
optimize_repository_details-AllCarry optimize_repository_request = refl
optimize_repository_details-AllCarry _ = tt

pack_refs_details-AllCarry : (m : Message) → AllCarry m (pack_refs_details m)
unfolding pack_refs_details get_param
pack_refs_details-AllCarry (pack_refs_request a) = (a, refl, refl)
pack_refs_details-AllCarry _ = tt

pub get_replication_details-AllCarry :
    (method : String) (m : Message) → AllCarry m (get_replication_details method m)
unfolding get_replication_details
get_replication_details-AllCarry method m =
    let C = AllCarry m in
    if-both C (str_eq method _) _ _ tt (
      if-both C (one_of method _) _ _ tt (
        if-both C (str_eq method _) _ _ (rename_details-AllCarry m) (
          if-both C (str_eq method _) _ _ (garbage_collect_details-AllCarry m) (
            if-both C (str_eq method _) _ _ (repack_full_details-AllCarry m) (
              if-both C (str_eq method _) _ _ (repack_incremental_details-AllCarry m) (
                if-both C (str_eq method _) _ _ (cleanup_details-AllCarry m) (
                  if-both C (str_eq method _) _ _ (write_commit_graph_details-AllCarry m) (
                    if-both C (str_eq method _) _ _ (midx_repack_details-AllCarry m) (
                      if-both C (str_eq method _) _ _ (optimize_repository_details-AllCarry m)
                        (if-both C (str_eq method _) _ _ (pack_refs_details-AllCarry m) tt))))))))))

pub garbage_collect_eq :
    (b p : Bool)
    → get_replication_details "/gitaly.RepositoryService/GarbageCollect"
        (garbage_collect_request b p)
      ≡ some (garbage_collect, ("CreateBitmap", flag b) ∷ ("Prune", flag p) ∷ [])
unfolding get_replication_details one_of garbage_collect_details
garbage_collect_eq b p = refl
