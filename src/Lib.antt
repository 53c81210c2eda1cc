-- ===== src/Lib.antt =====
-- Gitaly is the Git RPC service of GitLab; Praefect, in internal/praefect, routes its calls to
-- several Gitaly nodes, lets them vote on each change, and repairs the ones that fall behind. This
-- library models how Praefect decides: the votes of a reference transaction, what the coordinator
-- concludes from them, which nodes a call is routed to, and the queue of the replication jobs that
-- repair the rest.
--
-- Parts, and how they interact. The router chooses a primary, secondaries and replication targets
-- for a call (RouteRepositoryMutator, RouteRepositoryCreation). The coordinator registers a
-- transaction whose voters are the nodes of a call (registerTransaction). While the call runs, each
-- node votes on the changes that it is about to make (voteTransaction of the manager, vote and
-- collectVotes of a subtransaction), and learns whether a quorum has cast the same vote. At the end
-- the coordinator reads the transaction's state (getUpdatedAndOutdatedSecondaries) and has the
-- finalizer write to the store and enqueue a job for each replica that is not up to date
-- (newRequestFinalizer, Enqueue). Replicators take the jobs from the queue (Dequeue), copy or change
-- the target (processReplicationEvent), and answer for them (Acknowledge). Where there is one primary
-- for a virtual storage, health checks elect it (checkNodes). Beside these stand the framing of the
-- Git protocol that every Gitaly node reads and writes, the limiter of concurrent calls, and the
-- command lines and versions of Git.
--
-- Files, with the code that they model:
--   Prelude                  shared names, tests on numbers, lists, 64-bit wrap-around
--   Transactions/Types       internal/transaction/voting/vote.go, and the results, errors and voters
--                            of internal/praefect/transactions
--   Transactions/Subtransaction   internal/praefect/transactions/subtransaction.go: one vote
--   Transactions/Transaction      internal/praefect/transactions/transaction.go: a sequence of votes
--   Transactions/Manager          internal/praefect/transactions/manager.go: all transactions
--   Coordinator              internal/praefect/coordinator.go: registerTransaction and
--                            getUpdatedAndOutdatedSecondaries; the routes of router.go
--   Coordinator/Methods      internal/praefect/coordinator.go: transactionRPCs, shouldUseTransaction
--   Coordinator/Finalizer    internal/praefect/coordinator.go: getReplicationDetails,
--                            newRequestFinalizer and createTransactionFinalizer
--   Replication/Types        internal/praefect/datastore/datastore.go and queue.go
--   Replication/Queue        internal/praefect/datastore/memory.go
--   Replication/Queue/Acknowledge   Acknowledge and remove of the same file
--   Router                   internal/praefect/router_per_repository.go
--   Replicator               internal/praefect/replicator.go: the default replicator
--   Replicator/Manager       the replication manager of the same file
--   Nodes                    internal/praefect/nodes/manager.go and local_elector.go: health, election
--   Git/Options              internal/git/command_options.go and staticargs.go
--   Git/Commands             internal/git/command.go, command_description.go and command_factory.go
--   Git/Version              internal/git/version.go
--   Pktline                  internal/git/pktline/pktline.go
--   Limiter                  internal/middleware/limithandler/concurrency_limiter.go
-- A file's children hold its lemmas and are named for what they prove; Samples hold concrete states
-- and the theorems applied to them. Functions keep the source's names in snake case.
--
-- State. A mutex makes every method of a subtransaction, of a transaction, of the manager and of the
-- queue one step; a run is a sequence of such steps in any order. collectVotes waits for a channel:
-- that step can be taken only when the channel is closed or the caller's context is done. A channel
-- is a flag, and closing it twice is `none`, a panic. The order in which Go walks a map is arbitrary:
-- a map is a list in the order of iteration, and runs may swap neighbours between steps. The manager
-- holds its transactions by their numbers. A nil vote is `none`; a vote, 20 bytes in the code, is
-- a number that only `==` reads. `uint` and `uint64` wrap around at 2 ^ 64.
--
-- The calls of the limiter are threads of three phases, whose steps come in any order: take a
-- semaphore from the map, wait for a token of it, run and give both back. A semaphore stays at its
-- address when the map forgets it. The replicator is a session: the list of the calls that it has
-- made to nodes and to the store, the last one first, and how it has ended. A text that is parsed or
-- validated is the list of its code points, and a regular expression is a Boolean test on it.
--
-- Loops recurse on the lists that they walk. Only the loop of writeBand takes fuel, the length of the
-- data, of which each round takes one byte or more.
--
-- Parameters stand for what is not in the modelled code: the answers of the stores and of the queue
-- to the finalizer and to the router (any function), what the nodes and the store answer to the
-- replicator (any function of the calls so far), what other callers do to the queue while the
-- replicator works (any function), the answers of health checks, the random numbers of the router,
-- json.Marshal of a job (any partial function), and the clock.
--
-- Not modelled: contexts and timeouts, logging and metrics, the proxying of streams, the queue and
-- the repository store on SQL, the election of primaries with SQL, the Gitaly nodes themselves and what they
-- do with Git. The manifest lists them.
pub mod Prelude
pub mod Coordinator
pub mod Git
pub mod Limiter
pub mod Nodes
pub mod Pktline
pub mod Replication
pub mod Replicator
pub mod Router
pub mod Transactions
