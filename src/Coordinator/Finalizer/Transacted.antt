-- ===== src/Coordinator/Finalizer/Transacted.antt =====
-- Which replication the methods need that take part in transactions.
use gitally.Prelude.{
  ◌≡◌, refl, String, true, false, Option, none, some, if◌then◌else◌, str_eq, arith, eq_iff, ap,
}
use gitally.Replication.Types.{ChangeType, update_repo, create_repo, delete_repo, Params}
use gitally.Coordinator.Methods.{should_use_transaction}
use gitally.Coordinator.Outdated.{if-cases}
use gitally.Coordinator.Finalizer.{Message, get_replication_details, one_of}

-- Replication that updates a repository, creates it or deletes it.
abbrev pub Replicates : Option (ChangeType × Params) → Type 0
Replicates none = ⊥
Replicates (some (update_repo, ps)) = Unit
Replicates (some (create_repo, ps)) = Unit
Replicates (some (delete_repo, ps)) = Unit
Replicates (some (_, ps)) = ⊥

same_method : (a b : String) → str_eq a b ≡ true → a ≡ b
same_method a b h = ground (arith, eq_iff a b)

module _ (method : String) (transacted : should_use_transaction method ≡ true) where
  -- A method that takes part in transactions is not `x`, which does not.
  skip :
      (x : String)
      → should_use_transaction x ≡ false
      → (d e : Option (ChangeType × Params)) → Replicates e
      → Replicates (if str_eq method x then d else e)
  skip x off d e r =
      if-cases Replicates (str_eq method x) d e
        (λ b.
          absurd
            (ground (arith, transacted, off, ap should_use_transaction (same_method method x b))))
        (λ b. r)

  -- A method that takes part in transactions updates a repository, creates it or deletes it, whatever
  -- its message is: renames and housekeeping are not decided by votes.
  pub transacted_changes : (m : Message) → Replicates (get_replication_details method m)
  unfolding get_replication_details should_use_transaction
  transacted_changes m =
      if-cases Replicates (str_eq method "/gitaly.RepositoryService/RemoveRepository") _ _ (λ b. tt)
        (λ b.
          if-cases Replicates (one_of method _) _ _ (λ b. tt)
            (λ b.
              (skip "/gitaly.RepositoryService/RenameRepository" refl _ _ (
                skip "/gitaly.RepositoryService/GarbageCollect" refl _ _ (
                  skip "/gitaly.RepositoryService/RepackFull" refl _ _ (
                    skip "/gitaly.RepositoryService/RepackIncremental" refl _ _ (
                      skip "/gitaly.RepositoryService/Cleanup" refl _ _ (
                        skip "/gitaly.RepositoryService/WriteCommitGraph" refl _ _ (
                          skip "/gitaly.RepositoryService/MidxRepack" refl _ _ (
                            skip "/gitaly.RepositoryService/OptimizeRepository" refl _ _
                              (skip "/gitaly.RefService/PackRefs" refl _ _ tt)))))))))))
