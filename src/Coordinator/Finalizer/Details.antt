-- ===== src/Coordinator/Finalizer/Details.antt =====
-- What `getReplicationDetails` finds is what the finalizer of the change needs.
use gitally.Prelude.{
  ◌≡◌, refl, String, Bool, true, false, Option, none, some, if◌then◌else◌, str_eq,
}
use gitally.Replication.Types.{ChangeType, rename_repo, Params}
use gitally.Coordinator.Finalizer.{
  Message, get_replication_details, rename_details, one_of, garbage_collect_details,
  repack_full_details, repack_incremental_details, cleanup_details, write_commit_graph_details,
  midx_repack_details, optimize_repository_details, pack_refs_details, get_param, as_text,
}

-- The parameters that a change needs.
abbrev pub Fits : ChangeType → Params → Type 0
Fits rename_repo ps = (p : String) × (as_text (get_param "RelativePath" ps) ≡ some p)
Fits _ ps = Unit

abbrev pub AllFit : Option (ChangeType × Params) → Type 0
AllFit none = Unit
AllFit (some (c, ps)) = Fits c ps

pub if-both {ℓ} :
    {A : Type ℓ} (P : A → Type 0) (b : Bool) (x y : A) → P x → P y → P (if b then x else y)
if-both P true x y p q = p
if-both P false x y p q = q

rename_details-AllFit : (m : Message) → AllFit (rename_details m)
unfolding rename_details get_param as_text
rename_details-AllFit (Message.rename_repository_request p) = (p, refl)
rename_details-AllFit _ = tt

garbage_collect_details-AllFit : (m : Message) → AllFit (garbage_collect_details m)
unfolding garbage_collect_details
garbage_collect_details-AllFit (Message.garbage_collect_request b p) = tt
garbage_collect_details-AllFit _ = tt

repack_full_details-AllFit : (m : Message) → AllFit (repack_full_details m)
unfolding repack_full_details
repack_full_details-AllFit (Message.repack_full_request b) = tt
repack_full_details-AllFit _ = tt

repack_incremental_details-AllFit : (m : Message) → AllFit (repack_incremental_details m)
unfolding repack_incremental_details
repack_incremental_details-AllFit (Message.repack_incremental_request) = tt
repack_incremental_details-AllFit _ = tt

cleanup_details-AllFit : (m : Message) → AllFit (cleanup_details m)
unfolding cleanup_details
cleanup_details-AllFit (Message.cleanup_request) = tt
cleanup_details-AllFit _ = tt

write_commit_graph_details-AllFit : (m : Message) → AllFit (write_commit_graph_details m)
unfolding write_commit_graph_details
write_commit_graph_details-AllFit (Message.write_commit_graph_request s) = tt
write_commit_graph_details-AllFit _ = tt

midx_repack_details-AllFit : (m : Message) → AllFit (midx_repack_details m)
unfolding midx_repack_details
midx_repack_details-AllFit (Message.midx_repack_request) = tt
midx_repack_details-AllFit _ = tt

optimize_repository_details-AllFit : (m : Message) → AllFit (optimize_repository_details m)
unfolding optimize_repository_details
optimize_repository_details-AllFit (Message.optimize_repository_request) = tt
optimize_repository_details-AllFit _ = tt

pack_refs_details-AllFit : (m : Message) → AllFit (pack_refs_details m)
unfolding pack_refs_details
pack_refs_details-AllFit (Message.pack_refs_request a) = tt
pack_refs_details-AllFit _ = tt

-- Whatever the method and the message are, the details fit the change.
pub get_replication_details-AllFit :
    (method : String) (m : Message) → AllFit (get_replication_details method m)
unfolding get_replication_details
get_replication_details-AllFit method m = if-both AllFit (str_eq method _) _ _ tt (
    if-both AllFit (one_of method _) _ _ tt (
      if-both AllFit (str_eq method _) _ _ (rename_details-AllFit m) (
        if-both AllFit (str_eq method _) _ _ (garbage_collect_details-AllFit m) (
          if-both AllFit (str_eq method _) _ _ (repack_full_details-AllFit m) (
            if-both AllFit (str_eq method _) _ _ (repack_incremental_details-AllFit m) (
              if-both AllFit (str_eq method _) _ _ (cleanup_details-AllFit m) (
                if-both AllFit (str_eq method _) _ _ (write_commit_graph_details-AllFit m) (
                  if-both AllFit (str_eq method _) _ _ (midx_repack_details-AllFit m) (
                    if-both AllFit (str_eq method _) _ _ (optimize_repository_details-AllFit m) (
                      if-both AllFit (str_eq method _) _ _ (pack_refs_details-AllFit m) tt))))))))))
