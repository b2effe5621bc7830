-- ===== src/Lib.antt =====
-- The backup queue and the retention of gniza: what the controller hands to its agents, what may be deleted
-- from a repository of backups, when an account may be removed, and how secrets are kept.
--
-- Parts, and where they stand:
--   Job     internal/job/job.go: the status of a backup job (`rollup` is `Rollup`), from its targets.
--   Store   internal/store/jobs.go, leases.go, restores.go and a part of catalog.go (Store/Policies): the
--           queue and the policies in the controller's database. Each
--           operation is a function from the tables to a result and the tables after it, named as in Go
--           (`claim_next_job` is `ClaimNextJob`, `apply_report` is `ApplyReport`). An operation
--           that fails leaves the tables alone: Store/Transaction has `inTx` and the statements of
--           `ApplyReport` one by one. A history (Store/Exclusive/History) is a list
--           of such calls, one after another. Transactions that overlap, each reading what the other has
--           not committed yet, are not modelled.
--   Controller
--           internal/controller/service.go: the methods of `Service` over the queue (Controller/Calls), and
--           the check of claim tokens (Controller/Token). A method returns its answer and the tables it
--           leaves. Building a target (internal/repobuild) is a parameter. Controller/Schedule is
--           internal/controller/scheduler.go: `run_once` is `RunOnce`, `run_policy` is `runPolicy`; the cron
--           library is a parameter. Controller/Serves puts requests and passes in sequence.
--   Vault   internal/vault/vault.go: sealing, opening and rewrapping a secret. The cryptographic library is
--           a parameter, with what it documents as hypotheses, and random bytes are arguments.
--   Restic  internal/resticrun/args.go, forget.go, completion.go and a part of restore.go: a retention run
--           of restic. restic is a parameter, a function from the commands before and the command to its
--           answer; nothing is assumed of it. A run carries the list of its commands. What a command
--           printed is taken as decoded: blank, an object, groups, snapshots, or garbled.
--   Node    internal/node/retention.go with the records of internal/nodestore/types.go: the keep policy
--           of a repository, planning, approving and applying it, and the sweep on the scheduler's tick.
--           It uses Restic for its runs, and Job for the statuses that make the node busy.
--           Node/Removal is internal/node/removal.go: whether an account may be removed (Safety), the
--           smallest set of policies that makes up for its missing copies (Cover), and their jobs (Queue,
--           with `PutJobs` and `RunningJobFor` of internal/nodestore/queries.go). The cron library is a
--           parameter. Node/Pending is `PendingWork`, what the worker runs next.
--           Node/Basket is the items of internal/nodestore/basket.go, what is chosen of a restore point.
--   Common  the shared names: lists, results, numbers and text.
--
-- Numbers are natural numbers, and Go's `int` where a sign is tested has the `ℤ` of Common/Int. Times are
-- numbers and the zero time is 0; `now` is an argument, as are the uuids that the database makes. `itoa`
-- has the number itself plus one as fuel, which is more than its digits; the greedy cover the number of
-- repositories plus one, and the search the length of the best cover known, since a selection that long is
-- not extended. A `time.Duration` wraps around at 64 bits.
--
-- Not modelled: the faults of the databases, a `retention` column that does not decode among them, and the
-- location of a time; the order of equal keys in `sort.Slice`; how a repository is
-- opened (internal/node/node.go, internal/destination): that it opens or not is an input; the text of
-- messages; the agents, the web interface, cPanel and staging, which work on files and processes.
pub mod Common
pub mod Vault
pub mod Controller
pub mod Job
pub mod Store
pub mod Restic
pub mod Node
