-- ===== src/Lib.antt =====
-- TmuxAtlas: a model of the Go program's state, protocol and admission code, and the theorems about it.
--
-- TmuxAtlas shows the tmux sessions of several machines in one place. A Hub keeps one canonical
-- state of all hosts (pkg/state). Agents on the hosts connect to it and speak the runtime protocol
-- (pkg/peer); a new Agent is paired by a one-time code (pkg/identity), and public entry points are
-- guarded by an admission policy (pkg/ingress). Output activity of sessions is counted in a ring
-- of time buckets (pkg/activity). In the Hub, discovery's report is turned into operations by
-- ReconcileHosts, which the coordinator commits and sends to its subscribers as deltas.
--
-- Files. Common has what all parts use: Tests the Boolean tests, conditionals and results, Lists the
-- lists measured by native numbers, Maps Go's maps as association lists, Texts Go's strings as
-- lists of bytes.
-- State is pkg/state. State/Keys is the keys of pkg/state/projection.go (NewPaneKey as pane_key), and
-- State/Projection its types, with State/Projection/Validate for Operation.Validate; State/Values is
-- cloneJSONValue; State/Projection/Apply and Clone are applyOperation and the clone functions of
-- pkg/state/coordinator.go; State/Commit is applyCommit and the checks of deltas; State/Coordinator is the
-- single-writer loop, one function `step` for a command; State/Reconcile is ReconcileHosts of
-- pkg/state/projector.go, and State/Adapters is pkg/state/adapters.go with ReplaceHosts, each method a
-- snapshot and a commit with other commands in between.
-- Peer is pkg/peer. Peer/Frame is pkg/peer/pty_frame.go and the input loop of pkg/peer/pty_manager.go,
-- Peer/Protocol is pkg/peer/runtime_protocol.go, Peer/Requests is pkg/peer/request_tracker.go,
-- Peer/Dispatch is pkg/peer/dispatcher.go, Peer/Connection is pkg/peer/connection.go, Peer/Relay is the
-- pairing of streams of pkg/peer/pty_relay.go, and Peer/Bridge its Bridge with the loops of
-- pkg/peer/pty_manager.go.
-- Activity is pkg/activity/tracker.go, Ingress is pkg/ingress/policy.go, and Pairing is
-- pkg/identity/pairing.go. ToolEvents is pkg/toolevents: the tracker (tracker.go) in ToolEvents, and in its
-- modules Silence silence.go, Reconcile reconciler.go, Detect detect.go and detector.go, Prompt
-- promptparser.go. Update is the transaction of pkg/commands/update (transaction.go and the end of execute in
-- update.go), over the files of Update/Files, where each call of the operating system works, fails, or is
-- the last one of the process. Auth is the sessions of pkg/auth/auth.go, Peers is
-- pkg/identity/peers.go, and Fleet is pkg/fleethealth/health.go.
-- The folders under these files hold the lemmas and the theorems of each, and the Tests modules hold
-- runs at concrete inputs.
--
-- How the code is read. A struct is a record, an enumeration a data type, a map an association list
-- whose order stands for the order of one `range`, an error a value of a Result. A pointer whose
-- identity matters (a subscriber, a pending request, a cached outcome, a lease) is a number that a table
-- of the model maps to the object. Code that runs under a mutex or in one goroutine is one step, and a
-- theorem about concurrent calls is about every list of such steps. Recursion is on lists or on counts
-- that the source has itself (the steps of a ring, the budget of a scan), so no fuel is used. Times
-- are nanoseconds as natural numbers; sequence numbers wrap at 2 ^ 64, revisions are bounded by a
-- hypothesis where this matters, and byte counts are residues modulo 2 ^ 64.
--
-- What is a parameter: encoding/json, unicode's classes, strings.ToUpper, random bytes,
-- request digests, float64 arithmetic, clock readings, strconv.Itoa, regular expressions and /proc.
-- What is not modelled: the network, files (but for those of the update and the file of peers), processes, the tmux program,
-- cryptography, HTTP handlers and the command line, which are input and output; passkeys, the web push subscriptions and the manager of peers are not modelled either.
pub mod Common
pub mod State
pub mod Peer
pub mod Activity
pub mod Ingress
pub mod Pairing
pub mod ToolEvents
pub mod Auth
pub mod Peers
pub mod Fleet
pub mod Update
