-- ===== src/Lib.antt =====
-- fobe, a panel for many servers: one process (cmd, internal/server) that keeps its state in SQLite
-- and talks over websockets to a probe on each server (internal/agent). This library models the
-- parts of its Go code that decide something, as functions on explicit states, and proves what
-- they keep and do.
--
-- The parts and their files:
--   Store     tables of internal/server/store. A table is a list of rows; a row keyed by a column is
--             a pair of key and row. Store.Inbounds is the table node_singbox_inbounds of ops.go,
--             written by the panel's wishes (SetNodeSingboxInboundPending, …Deleting, Restore…,
--             Prune…) and by what the probe reports (Reconcile…). Store.Alerts is the table alerts
--             (CreateAlert, MarkAlertDelivered, RecoverAlert, …), Store.Commands the queue of
--             commands (CreateCommandWithMeta, NextPendingCommand, FinishCommand,
--             TimeoutStaleCommands). Store.Singbox is the table node_singbox of ops.go, which the
--             update campaign and the reports of the probes write. Store.AiGate is the gate before the
--             assistant's commands (CheckAICommandGate of store/ai.go), which reads Store.Commands.
--             Store.Nodes holds the columns of the table nodes in which the update of the agent is
--             kept (store/nodes.go), Store.Access the user, the sessions and the failed logins by
--             address (store/auth.go).
--   Hub       internal/server/hub. Hub.Registry is the registry of connections of hub.go with their
--             replacement, end and failed writes; Hub.Drain the sending of queued commands
--             (sendEnvelope, drainCommandQueue), which claims from Store.Commands; Hub.Traffic the
--             accounting of counters in handlers.go (onTraffic, accumulate), which raises alerts in
--             Store.Alerts and adds to the day buckets of store/traffic.go.
--   Scheduler internal/server/scheduler. Scheduler.Delivery is one pass of deliverAlerts over the
--             queue of Store.Alerts, with its audit memo; Scheduler.Liveness is detectOffline with
--             the signs of life (markOnlineAudited of hub/handlers.go, MarkNodeOnline of
--             store/nodes.go), which raise and recover alerts in Store.Alerts; Scheduler.Billing is
--             checkBillingDue for one node, on the same alerts.
--   SingboxUpdate  internal/server/singboxupdate/singboxupdate.go: the manager with its campaigns
--             and retry timers, the steps of a campaign's goroutine, the convergence check of a
--             probe's report (CheckConvergence) and the final alert. It writes Store.Singbox and
--             raises alerts in Store.Alerts. SingboxUpdate.History is the step relation of calls,
--             goroutine steps and timers in any order.
--   Ai        a turn of the panel's assistant, internal/server/httpapi/ai_turn.go and ai_loop.go:
--             the rounds of model and tools with their limits (Ai.Budget, Ai.Turn), the rows of
--             store/ai.go the turn leaves and the repair of unanswered calls (Ai.Transcript).
--   Geoip     Geoip.Lru is the cache of internal/server/geoip/lru.go: a list and a map of its
--             elements, compared with a plain recency list.
--   Server    Server.RealIp is internal/server/security/xff.go (RealIP, NeverBlacklist),
--             Server.LoginGate internal/server/httpapi/loginlimit.go (loginGate), Server.Login a login
--             in its two halves (handleLogin of httpapi/auth_handlers.go), which goes through that gate
--             and writes Store.Access and Store.Alerts, Server.Sessions the sessions (requireSession of
--             httpapi/server.go, handleChangePassword, logout, revocation), Server.Versions the
--             order of versions in internal/server/singboxdl/version.go, with the choice of the
--             latest stable release in internal/server/httpapi/singbox_releases.go.
--             Server.AgentUpdate is internal/server/agentupdate/agentupdate.go: the build offered to
--             a node and its time (Target), reports (OnReport), retry and sweep, on Store.Nodes and
--             Store.Alerts. Server.AgentUpdate.Rollout is the panel together with the probe of one
--             node (Agent.SelfUpdate): offers go one way, reports the other.
--   Agent     Agent.Forwards is the planning of port forwards in internal/agent/forwards.go
--             (validateForward, conflictWith, resolveTargets, and in Agent.Forwards.Plan planAdd,
--             planUpdate, planDelete). Agent.Icmp is internal/agent/icmp_packet.go, the echo
--             request and the search for its reply. Agent.SelfUpdate is internal/agent/selfupdate.go:
--             the decision on an offer (Consider, decide, reanchor), the budget of failures in memory
--             and in the state file, the timer, and an attempt in two halves (perform).
--   Prelude   what they share: tests on native numbers, lists, integers, keyed tables.
-- In each part the parent module holds the translation, its children the theorems, and Tests runs
-- on concrete inputs.
--
-- How the code is read. A transaction is one step, and interleavings are lists of steps. The
-- panel's clock is an argument of a call, in seconds (nanoseconds at the login gate), and does
-- not go below zero. A query that fails changes nothing and is left out, and with it what the code
-- does on its failure: a counter that starts anew (accumulate), an alert after a failed update
-- (detectOffline), a turn that is broken off (runAITurn). Some calls make several statements
-- without a transaction. Apart are the update and the alert of detectOffline, in Scheduler.Liveness;
-- taken as one step are RecordLoginFail (store/auth.go), the MarkNodeOnline and RecoverAlert of a
-- sign of life, the reading and writing of pushOne (singboxupdate.go) and of Target
-- (agentupdate.go), and the end of a connection in hub.go, its deletion and its close.
-- int64 is written out where it can wrap, in Hub.Traffic (wrap64 at 2^63) and in the shift of
-- Agent.SelfUpdate.backoff, the hash of Server.AgentUpdate is kept in its 64 bits and the
-- checksum of Agent.Icmp in its 32 and 16; other numbers are unbounded. Tokens of the login gate
-- are exact, without the rounding of float64. Errors are Option or a result type, with the
-- code's error codes and without message texts.
--
-- Fuel: Hub.Drain.drain_rounds runs one round for each waiting command and the one that finds none;
-- Ai.Turn.run_loop has 121 rounds, more than the limit on model calls lets pass; Geoip.Lru.evict has
-- one more round than the list has elements; Agent.Icmp.fold_carries has three, as many as a 32-bit
-- sum can need. That each is enough is a theorem. Every other loop is structural.
--
-- Parameters: package net and strings (Server.RealIp), the calendar of package quota and JSON
-- texts (Hub.Traffic), the grammars of addresses and interfaces and the decoding of texts
-- (Agent.Forwards), the texts of audit entries and JSON payloads (Scheduler), the channels
-- (Scheduler.Delivery), the version and alert texts (SingboxUpdate), the order of SQLite's texts
-- (Store.AiGate), the check and the hash of passwords and which addresses are never blocked
-- (Server.Login, Server.Sessions), trimming, bytes, cuts and texts (Server.AgentUpdate), regexp,
-- strconv and strings (Server.Versions), and the clock, the model, the tools and the reading of
-- calls (Ai.Turn). What the hub and the download answer to a campaign, and the download and the
-- checks to an attempt of the probe, comes with the step.
--
-- Not modelled: reading and applying the nft ruleset, frames and terminals of the hub, the other
-- jobs of the scheduler, quota cycles, the databases and lookups of GeoIP, the assistant's
-- context, tools, confirmations and protocol adapters, the other HTTP handlers, notification texts,
-- cryptography, the wire format, and whatever only does input and output.
pub mod Agent
pub mod Ai
pub mod Geoip
pub mod Hub
pub mod Prelude
pub mod Scheduler
pub mod Server
pub mod SingboxUpdate
pub mod Store
