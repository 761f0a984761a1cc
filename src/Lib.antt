-- ===== src/Lib.antt =====
-- LAC, the Local Agents Coordinator: a daemon through which the coding agents on one machine share
-- its scarce resources. This library models the daemon's core and proves what makes it correct.
--
-- The parts, and how they interact. An agent asks the leasing service for a slot on a resource and
-- joins its queue; the head of the queue takes a free slot as a lease, renews it while it works and
-- releases it; the daemon reaps leases that ran out and reclaims what a departed agent held. The
-- service keeps everything but its waiters in a SQLite database, and runs each operation in one
-- write transaction. A waiter sleeps on a channel that any change of the resource closes. Through the
-- dispatch service an agent has a shared worker do a piece of work: it submits a task for a command that
-- the operator configured, and a worker that holds a lease on the task's resource claims it. The
-- watcher of pull requests polls what GitHub's command line says of them and tells the subscribers what
-- changed, as messages; reports are asked for by messages, too. A token says which agent calls.
--
--   Base           tests, tables as lists (counts, updates, ORDER BY), the order of texts, the error
--                  and transaction monads, and rules that carry a relation through a transaction
--   Core           internal/core: agent.go (Agent, Name), resource.go (Resource, Lease), audit.go
--                  (Audit), task.go (Task), and the instants of internal/store/sqlite/convert.go
--                  (Time)
--   Store          internal/store/sqlite: the rows of migrations/0001_init.sql, resources.go
--                  (Store.Resources), leases.go (Store.Queue for queue entries, Store.Leases),
--                  tasks.go (Store.Tasks), agents.go (Agents), audit.go (AuditLog),
--                  InTransaction of store.go (Transaction)
--   Leasing        internal/service/leasing: waiters.go (Waiters), and of leasing.go the state and
--                  New (State), Define to Held (Leasing.Resources), tryGrant (Grant), Acquire
--                  and its loop (Acquire), Renew, Release and Cancel with their forced forms
--                  (Holding), ReleaseEverythingHeldBy, FreeResource, ClearQueue and ReapExpired
--                  (Reclaim); Events has histories of all of these
--   Dispatch       internal/service/dispatch/dispatch.go: the state, the signals and the wait loop
--                  (Dispatch.State), Submit, WaitForWork and Claim (Work), AppendOutput, Complete,
--                  Cancel, Await and ReleaseAbandoned (Outcomes), within and the parts of Go's
--                  path/filepath that it uses (Workdir)
--   Registry       internal/service/registry/registry.go: New and the audit (Registry.State), and the
--                  operations on the roster of agents (Roster)
--   Messaging      internal/service/messaging/messaging.go: the service and its operations (Post), and
--                  histories of them (Messaging.Events); internal/core/message.go and
--                  internal/store/sqlite/messages.go are Core.Message, Store.Messages and
--                  Store.MessageLog. Mailboxes is the abstract service that the tables implement
--   Strings        the functions of Go's strings and strconv that the code uses (a text is its
--                  characters; byte_length counts the bytes of its UTF-8)
--   Auth           internal/auth: token.go (Token) and auth.go (Authenticator), with
--                  internal/core/credential.go and internal/store/sqlite/credentials.go as
--                  Core.Credential and Store.Credentials
--   Reporting      internal/service/reporting/reporting.go: the state and its arrivals
--                  (Reporting.State), Request, deliver and Submit (Asking), Collect and Snapshot
--                  (Collecting), with internal/core/report.go and
--                  internal/store/sqlite/reports.go as Core.Report and Store.Reports
--   Github         internal/github: pullrequest.go (PullRequest, and ParseReference in Reference),
--                  decode.go (Decode), accounts.go (Github.Accounts), and of client.go what it
--                  makes of the answers of gh (Client)
--   Prwatch        internal/service/prwatch: changes.go (Changes), and of prwatch.go the state and
--                  how a change is told (Prwatch.State), reading and polling (Polling), and the
--                  rest (Watching), with internal/core/watch.go and
--                  internal/store/sqlite/watches.go as Core.Watch and Store.Watches
--   Config         internal/config: the data (Config), the policy and the commands (Policy, with
--                  internal/daemon/catalogue.go), defaults, environment and options (Loading),
--                  Validate (Validation), and what the daemon defines when it starts (Start)
--   Daemon         internal/daemon: reload.go (Reload, and the wait for a settled file in Settling)
--                  and runHousekeeping of services.go (Housekeeping)
--   Api            internal/api: the services on one database and who calls (Api.State, of api.go),
--                  views.go (Views), leases.go (Leases), admin.go (Admin), agents.go (Agents),
--                  messages.go (Messages), tasks.go (Tasks), reports.go (Reports), watches.go
--                  (WatchViews and Watches), daemon.go (Reloading)
--   Others in Store and below the services hold lemmas and theorems, and the modules Tests,
--   AcquireTests and OperationTests a small example of each result, on the data of Leasing.Example.
--
-- A function has the source's name in lower case with underscores: wait_for_slot is waitForSlot.
-- The function passed to InTransaction is a definition of its own with the ending _tx. A table is the
-- list of its rows in the order of insertion, and a statement is a function from the database to an
-- error or to a result and a new database; on an error the transaction leaves the database as it was.
-- The primary keys, foreign keys and CHECK constraints of the schema are `require` lines.
--
-- Time. An instant is a natural number of nanoseconds since 1970, a stored one the microseconds
-- below it, and a duration a signed number of nanoseconds. The clock is an argument: an operation
-- reads it once, where the source may read it again a moment later. Identifiers that the source draws
-- at random are arguments too, as are the texts that the audit entries format from a resource or a time.
--
-- Interleaving. Transactions are atomic, so what several agents do is a list of events. The loop of
-- Acquire runs over a list of rounds, one for each time it wakes, in which the other agents apply
-- any functions to the service; an acquire that still sleeps when the rounds end is `sleeping`. So do
-- the loops of dispatch, whose other operations run several statements outside a transaction: what the
-- others do between those is an argument or, in a history, an event. A channel is a number, and closing
-- it puts the number on a list. Collect of the reports has rounds of its own, and a theorem says how
-- many of them are enough for it to return.
--
-- Parameters. The registry takes the authenticator's Issue and Revoke as arguments. HMAC, base64,
-- SHA-256, JSON, YAML, the reading of RFC 3339 and random numbers are arguments, and so is running
-- gh. The catalogue of commands is an interface in the source, and a function from keys to commands
-- here. A path is the list of its elements, cleaned as filepath.Clean does, and Rel compares the
-- elements.
--
-- Not modelled: failures of the database and of the machine (a full disk, a cancelled context inside
-- a statement), logging, and the overflow of integers beyond 64 bits, which the capacities and times
-- in use do not reach. The decoding of the parameters of the API's methods, the key file of the
-- tokens, running gh and the tickers of the daemon, the transports, the reading of the configuration
-- file, the command line and the client library are outside.
pub mod Auth
pub mod Base
pub mod Strings
pub mod Github
pub mod Core
pub mod Store
pub mod Leasing
pub mod Dispatch
pub mod Registry
pub mod Messaging
pub mod Reporting
pub mod Prwatch
pub mod Config
pub mod Daemon
pub mod Api
