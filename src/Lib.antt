-- ===== src/Lib.antt =====
-- Models of the Go modules of the OSHE platform, with the theorems that make them correct.
--
-- The program. The platform keeps the records of occupational safety work: inspections lead to
-- findings and corrective actions, workflows move through reviews, records and their evidence are
-- kept for audit, and events tell the other parts what happened. Each directory of `modules` is a Go
-- module with an in-memory store that a mutex protects, and no module calls another one: what they
-- share are conventions, such as prefixed identifiers, names without white space around them,
-- tenants that must not see each other's data, and journals that only grow. Inside a module the
-- parts work together: the dispatcher takes the envelopes that the outbox has committed.
--
-- The files and the code.
-- * Workflow models modules/workflow-action/workflow.go. Workflow/State has the states and the
--   diagram (`State.IsTerminal`, `allowedTransitions`), Workflow/Engine the `Engine` with
--   `CreateWorkflow`, `GetWorkflow`, `Transition`, `AuditHistory`, `Checkpoint` and `Rollback`, one
--   function each. Workflow/Run has sequences of calls and the writes that they come to.
-- * Action models modules/workflow-action/action_lifecycle.go. Action has the data, Action/Decide what
--   each method decides about the action that it has found (`start_work_of` for `StartWork`, and so
--   on), Action/Manager the `ActionManager` and its methods, Action/Run sequences of calls.
-- * Events/Identifier and Events/Outbox model modules/events-outbox-jobs/event_outbox.go: the
--   validators, and the `Outbox` with the transactions of `BeginTx`, `Stage`, `Commit` and
--   `Rollback`. Events/Outbox/Run interleaves any number of transactions.
-- * Events/Dispatcher models modules/events-outbox-jobs/event_dispatcher.go: `RegisterHandler`,
--   `Dispatch`, `Replay`, `DeliveryRecord` and the list of quarantined deliveries.
-- * Records models modules/records-audit/record_audit.go, with the states and `ValidateDigest` of
--   modules/records-audit/immutable_objects.go. Records/Checks has what the methods share, and
--   Records/Store one function for each method of the `RecordStore`; Records/Run has sequences of
--   calls and the writes that they come to.
-- * Records/Registry models the rest of modules/records-audit/immutable_objects.go: the constructors
--   of original and derived records, and in Records/Registry/Operations the methods of the
--   `IntegrityRegistry`.
-- * Events/Scheduler models modules/events-outbox-jobs/scheduler_notifications.go: the jobs of
--   `ScheduleJob` and `ExecuteDueJobs`, and in Events/Scheduler/Notify the notifications of
--   `SendNotification` and `ReplayNotification`. The order in which Go visits the map of jobs is an
--   argument, so the theorems hold for each order.
-- * Identity/Revocation models modules/identity-authorization/session_revocation.go: the
--   `RevocationRegistry` with its three writes and `EvaluateSession`. Identity/Revocation/Run has
--   sequences of calls; Subjects and Policy beside it look at the two kinds of generation.
-- * Identifiers models packages/identifiers: identifiers.go in Identifiers itself, correlation.go and
--   serialization.go in Identifiers/Correlation, idempotency.go in Identifiers/Ledger and
--   external_reference.go in Identifiers/References. Texts, Parsed, Generated and RoundTrip have the
--   proofs about parsing, printing and the envelope.
-- * Finding models modules/workflow-action/finding_lifecycle.go: the catalog of rules, the roles and
--   the records in Finding, `CreateFinding` in Finding/Manager, `UpdateSeverity`,
--   `UpdateCriticalFlag` and `TransitionState` in Finding/Changes, and sequences of calls in
--   Finding/Run.
-- * Organization models modules/organization-tenancy/tenant_context.go and, of
--   organization_hierarchy.go, the checks of identifiers, time zones and locales; the constructors
--   are in Organization/Hierarchy and Organization/Places, the `ResolveScope` methods in
--   Organization/Scopes. Organization/Chain puts the constructors one under the other.
-- * Publication models modules/publication-snapshot/publication_lifecycle.go: approvals, windows,
--   snapshots and the ledger in Publication, the `LifecycleController` and the checks of its methods
--   in Publication/Controller, the methods in Publication/Transitions, and sequences of calls in
--   Publication/Run.
-- * Prelude has what they share: Boolean tests, lists, results, association lists for Go maps, and
--   `strings.TrimSpace`, loops over characters and `%d` with their lemmas.
--
-- How the code is read.
-- * A method takes the state and returns the new state with its result. The lock makes a method one
--   step, so concurrent calls are the sequences of calls that the theorems range over.
-- * A Go map is an association list with an equality test; a missing key is `none`, or the zero
--   value where the code reads it. Pointers in maps are written back at the key that they came from.
--   A reader's copy is the value itself, since values do not change.
-- * `int` and `int64` are natural numbers below 2 ^ 64, read as bit patterns: sums wrap, and
--   comparisons are those of signed numbers. A time is the number of nanoseconds since the zero time.
--   The clock's reading is an argument of each call, with no assumption on the order of readings.
-- * A string is the text that its bytes encode in UTF-8, so `len` counts bytes. `TrimSpace` removes
--   the characters of `unicode.IsSpace`. An error is a constructor that names the Go variable; the
--   texts that wrap it are left out, but those that the code stores are kept.
-- * `strings.ToUpper` is modelled as far as a comparison with an ASCII text sees it. A JSON text is
--   the sequence of members that the decoder reads of it.
-- * Handlers, authorizers, printers of times, SHA-256 and the time zone database are parameters, and
--   random bytes are arguments; a theorem that depends on what a handler answers, or on tokens that
--   do not repeat, has that among its hypotheses. `sort.Slice` is an insertion sort.
-- * Loops are recursions on lists or texts. The one with fuel, of `%d`, prints the digits: it has 20
--   rounds, and a 64-bit number has at most 20 digits.
--
-- Not modelled: the other files of modules, packages, apps, contracts and tools, which the manifest
-- lists part by part, the error texts, and what a caller does with a pointer that a method returns.
pub mod Prelude
pub mod Workflow
pub mod Events
pub mod Action
pub mod Records
pub mod Identity
pub mod Identifiers
pub mod Finding
pub mod Organization
pub mod Publication
