-- ===== src/Coordinator/Methods.antt =====
-- Which methods take part in transactions.
use gitally.Prelude.{
  String, Bool, true, false, Option, none, some, List, [], ◌∷◌, if◌then◌else◌, str_eq,
}

-- The conditions ignore their context.
abbrev transactions_enabled : Bool
transactions_enabled = true

abbrev transactions_disabled : Bool
transactions_disabled = false

transaction_rpcs : List (String × Bool)
transaction_rpcs =
    ("/gitaly.CleanupService/ApplyBfgObjectMapStream", transactions_enabled)
    ∷ ("/gitaly.ConflictsService/ResolveConflicts", transactions_enabled)
    ∷ ("/gitaly.ObjectPoolService/FetchIntoObjectPool", transactions_enabled)
    ∷ ("/gitaly.OperationService/UserApplyPatch", transactions_enabled)
    ∷ ("/gitaly.OperationService/UserCherryPick", transactions_enabled)
    ∷ ("/gitaly.OperationService/UserCommitFiles", transactions_enabled)
    ∷ ("/gitaly.OperationService/UserCreateBranch", transactions_enabled)
    ∷ ("/gitaly.OperationService/UserCreateTag", transactions_enabled)
    ∷ ("/gitaly.OperationService/UserDeleteBranch", transactions_enabled)
    ∷ ("/gitaly.OperationService/UserDeleteTag", transactions_enabled)
    ∷ ("/gitaly.OperationService/UserFFBranch", transactions_enabled)
    ∷ ("/gitaly.OperationService/UserMergeBranch", transactions_enabled)
    ∷ ("/gitaly.OperationService/UserMergeToRef", transactions_enabled)
    ∷ ("/gitaly.OperationService/UserRebaseConfirmable", transactions_enabled)
    ∷ ("/gitaly.OperationService/UserRevert", transactions_enabled)
    ∷ ("/gitaly.OperationService/UserSquash", transactions_enabled)
    ∷ ("/gitaly.OperationService/UserUpdateBranch", transactions_enabled)
    ∷ ("/gitaly.OperationService/UserUpdateSubmodule", transactions_enabled)
    ∷ ("/gitaly.RefService/DeleteRefs", transactions_enabled)
    ∷ ("/gitaly.RemoteService/FetchInternalRemote", transactions_enabled)
    ∷ ("/gitaly.RepositoryService/ApplyGitattributes", transactions_enabled)
    ∷ ("/gitaly.RepositoryService/CloneFromPool", transactions_enabled)
    ∷ ("/gitaly.RepositoryService/CloneFromPoolInternal", transactions_enabled)
    ∷ ("/gitaly.RepositoryService/CreateFork", transactions_enabled)
    ∷ ("/gitaly.RepositoryService/CreateRepository", transactions_enabled)
    ∷ ("/gitaly.RepositoryService/CreateRepositoryFromBundle", transactions_enabled)
    ∷ ("/gitaly.RepositoryService/CreateRepositoryFromSnapshot", transactions_enabled)
    ∷ ("/gitaly.RepositoryService/CreateRepositoryFromURL", transactions_enabled)
    ∷ ("/gitaly.RepositoryService/DeleteConfig", transactions_enabled)
    ∷ ("/gitaly.RepositoryService/FetchRemote", transactions_enabled)
    ∷ ("/gitaly.RepositoryService/FetchSourceBranch", transactions_enabled)
    ∷ ("/gitaly.RepositoryService/RemoveRepository", transactions_enabled)
    ∷ ("/gitaly.RepositoryService/ReplicateRepository", transactions_enabled)
    ∷ ("/gitaly.RepositoryService/SetConfig", transactions_enabled)
    ∷ ("/gitaly.RepositoryService/SetFullPath", transactions_enabled)
    ∷ ("/gitaly.RepositoryService/WriteRef", transactions_enabled)
    ∷ ("/gitaly.SSHService/SSHReceivePack", transactions_enabled)
    ∷ ("/gitaly.SmartHTTPService/PostReceivePack", transactions_enabled)
    ∷ ("/gitaly.WikiService/WikiUpdatePage", transactions_enabled)
    ∷ ("/gitaly.WikiService/WikiWritePage", transactions_enabled)
    ∷ ("/gitaly.ObjectPoolService/CreateObjectPool", transactions_disabled)
    ∷ ("/gitaly.ObjectPoolService/DeleteObjectPool", transactions_disabled)
    ∷ ("/gitaly.ObjectPoolService/DisconnectGitAlternates", transactions_disabled)
    ∷ ("/gitaly.ObjectPoolService/LinkRepositoryToObjectPool", transactions_disabled)
    ∷ ("/gitaly.ObjectPoolService/ReduplicateRepository", transactions_disabled)
    ∷ ("/gitaly.ObjectPoolService/UnlinkRepositoryFromObjectPool", transactions_disabled)
    ∷ ("/gitaly.RepositoryService/RenameRepository", transactions_disabled)
    ∷ ("/gitaly.RefService/PackRefs", transactions_disabled)
    ∷ ("/gitaly.RepositoryService/Cleanup", transactions_disabled)
    ∷ ("/gitaly.RepositoryService/GarbageCollect", transactions_disabled)
    ∷ ("/gitaly.RepositoryService/MidxRepack", transactions_disabled)
    ∷ ("/gitaly.RepositoryService/OptimizeRepository", transactions_disabled)
    ∷ ("/gitaly.RepositoryService/RepackFull", transactions_disabled)
    ∷ ("/gitaly.RepositoryService/RepackIncremental", transactions_disabled)
    ∷ ("/gitaly.RepositoryService/RestoreCustomHooks", transactions_disabled)
    ∷ ("/gitaly.RepositoryService/WriteCommitGraph", transactions_disabled)
    ∷ ("/gitaly.RefTransaction/StopTransaction", transactions_disabled)
    ∷ ("/gitaly.RefTransaction/VoteTransaction", transactions_disabled)
    ∷ []

find_condition : String → List (String × Bool) → Option Bool
find_condition method [] = none
find_condition method ((m, c) ∷ rs) = if str_eq m method then some c else find_condition method rs

run_condition : Option Bool → Bool
run_condition none = false
run_condition (some c) = c

unfoldable pub should_use_transaction : String → Bool
unfolding find_condition transaction_rpcs run_condition
should_use_transaction method = run_condition (find_condition method transaction_rpcs)
