-- ===== src/Lib.antt =====
-- Models of the core of SuperOps' Go backend, and proofs about them. The backend is one server
-- over Postgres: HTTP handlers call the packages of backend/internal, which keep their state in
-- tables. Each package below is modelled by itself, its tables as lists or functions, a
-- transaction as a function that commits as a whole or changes nothing.
--
-- - Base: Booleans, lists, byte strings and integers that the other modules share.
-- - Rank: backend/internal/issue/rank.go, the ranks that order the issues of a column. `Between`
--   is `rank_between`; the loop of `between` is recursion on what is left of the bounds, so it
--   needs no fuel. The width loop of `Renormalise` has fuel for nine rounds, and the source stops
--   after the eighth.
-- - Audit: backend/internal/audit, chain.go, verify.go and part of service.go: the canonical bytes
--   of an entry, the writer of a workspace's hash chain, the verifier and its anchor.
-- - Workflow: backend/internal/workflow, part of workflow.go, executor.go and trigger.go: runs are
--   enqueued by events that are delivered any number of times (`handle`), and a run's steps are
--   attempted any number of times (`executor_run`), with what the world does to each step as an
--   argument (`Fate`). Attempts at one run do not overlap here; in the source two can, where
--   `ReleaseStaleRuns` releases a run whose worker is alive. What `EnqueueRunAt` counts is an
--   argument, as its count and its insert are two statements.
-- - Quota: backend/internal/quota, with the transactions of backend/internal/drive (upload.go,
--   versions.go, trash.go) that charge and refund it, on the rows of one workspace.
-- - Socket: backend/internal/ws: the inbound budget (`TokenBucket` of ratelimit.go, `chargeInbound`
--   and the loop of `ReadPump`), the numbered outbound queue (`sendFrame`, `trySend`, `WritePump`), and the
--   hub's registry with its recipients and revocations (hub.go). Tokens are exact numbers here and
--   floating point in the source. Maps are lists; the order of a broadcast's recipients is the
--   list's, and Go's is none.
-- - Access: backend/internal/authz, object.go, checker.go and part of authz.go, with the views
--   acl_object_expected and acl_key_expected of backend/migrations/055_mail.up.sql. `Acl` is the
--   tables; Tree has the transactions (`RegisterTx`, `MoveInTx`, `MoveTx`, `GrantTx`, `RevokeTx`,
--   `MaterializeTx`, `UnregisterTx`), Decide the question about one object (`Capability`, `Can`) and
--   Listing that about many (`KeysFor`, `FilterReadable`). A stored path is its list of references.
-- - Board: backend/internal/issue/repository.go, where `CreateIssue` and `Move` put an issue among the
--   ranks of its project; it uses Rank.
-- - SecondFactor: backend/internal/auth/totp.go: `GenerateBackupCode`, `matchTOTPStep`, `consumeTOTP`,
--   `verifyTOTPOrBackup` and the changes of the setting, on one account.
-- - RateLimit: backend/internal/ratelimit/middleware.go: `checkRateAt` on the sorted set of one subject,
--   and `clientIP`.
-- - Collab: backend/internal/collab, the rows of one document. `append_update`, `save_snapshot` and `load`
--   are `AppendUpdate`, `SaveSnapshot` and `Load` of repository.go; Service has service.go, authorizer.go
--   and the guards of handler.go; CatchUp has the loop of app/src/lib/collab/provider.ts over `Load`,
--   with one element of a list for each round, which is its fuel. Yjs is a parameter. Stored takes any
--   payload of a client; in Loading and CatchUp the compactions of others (`commit`) are of clients
--   that send the encoding of the edits that they are said to cover, as provider.ts does.
-- - Huddle: backend/internal/huddle, `StartOrJoin`, `End`, `Apply` and `ReconcileParticipants` of huddle.go;
--   Calls has the handlers and `reconcileHuddles` of backend/cmd/worker/main.go. The media server's answers
--   are arguments.
-- - Collector: backend/internal/file, gc.go with its queries in repository.go; what others commit between
--   the queries is an argument of `collect`.
-- - Inbox: backend/internal/inbox, the events and items of repository.go. Prefs has prefs.go, Notifier
--   `Deliver` and `validate` of notifier.go, Updates the other changes of repository.go. Steps puts
--   them in a sequence of transactions, each of which sees the one before. Identifiers are the
--   strings that they are, and the derivation of an event's id is a parameter.
--
-- What Go's standard library and Postgres do (SHA-256, JSON, time formatting, UUIDs, clocks) is a
-- parameter of the models. Wall-clock times are natural numbers of the unit the code compares.
-- Not modelled: HTTP decoding and routing, SQL as a language (each query is the function it
-- computes on the rows), configuration, the migrations and the web client.
pub mod Base
pub mod Rank
pub mod Workflow
pub mod Quota
pub mod Access
pub mod Socket
pub mod Audit
pub mod SecondFactor
pub mod RateLimit
pub mod Board
pub mod Collab
pub mod Huddle
pub mod Collector
pub mod Inbox
