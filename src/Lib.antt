-- ===== src/Lib.antt =====
-- Noble Cascade: the control plane that decides whether a security tool may run, and records what
-- it decided. This library models the decision code of `noble/`: what a run has to pass, what each
-- part decides and stores, and what it does when it refuses.
--
-- How the parts interact. A request comes with a target. The scope engine decides on the target
-- and the action, the authorizer looks for a grant, the risk engine gives a tier, the approval
-- manager demands an approval if the tier is HIGH or CRITICAL, and the state machine keeps these
-- gates in order. The parts share one database; a decision that changes it writes an event to the
-- hash-chained audit log first.
--
-- Which file models what:
--   - Errors.Classes, Errors.Laws: the exception classes of noble/errors.py. Errors.Calls: a call
--     that may raise, `Exec S A = S → Result A × S`; what was written before a raise stays
--     written.
--   - Prelude: the shared operations on lists, numbers and texts.
--   - Models.Enums, Models.Values, Models.Records, Models.Findings: the enumerations and records
--     of noble/models.py. A moment is a number of microseconds, an optional field an `Option`, a
--     mapping from JSON a `Fields`.
--   - StateMachine: noble/state_machine.py, and `transition` of `NobleEngine.run` in
--     noble/engine.py. StateMachine.Table and StateMachine.Order hold the proofs about sequences
--     of transitions.
--   - Risk: `RiskEngine.assess` of noble/risk.py and the floor of the tool's tier in
--     noble/engine.py; Risk.Score and Risk.Floor hold the proofs.
--   - Platform: what is outside the repository, each a function: SHA-256, the identifiers and the
--     clock (by the number of draws and readings so far), the JSON texts that are hashed, the ISO
--     text of a moment, and the regular expression engine.
--   - Trust: `quarantine` and `label_trust` of noble/trust.py, `redact_sensitive` of
--     noble/evidence.py. Trust.Clean is about quarantined text.
--   - Store.Tables, Store.Rows: the tables of noble/store.py as lists of rows, and the statements
--     of SQL on them. Store.Records: the methods for grants, approvals, requests, evidence,
--     findings and the ledger. Store.Log: the audit log. Store.Lease: the rate limits.
--     Store.Events: the observability events. A method is a function of the whole database, one
--     transaction; a refused statement leaves the tables as they were. The proofs are in
--     Store.Chain, Store.Tamper, Store.Limits, Store.Traffic, Store.Replay and Store.Swap.
--     Store.Recovery: the repairs of noble/recovery.py.
--   - World: the database with the counters of the platform; World.Reading: the idiom `now or
--     utcnow()`.
--   - Audit: `AuditSink.emit` of noble/audit.py; Audit.Appends and Audit.Sanitized hold the
--     proofs.
--   - Authorization: `Authorizer.issue` and `check` of noble/authorization.py; the proofs are in
--     Authorization.Check and Authorization.Issue.
--   - Approvals.Requests, Approvals.Decisions, Approvals.Ensure: the four methods of
--     `ApprovalManager` in noble/approvals.py. Approvals.Valid is about `ensure`;
--     Approvals.Decided, Approvals.Outcomes and Approvals.Changes say how a call can end;
--     Approvals.Evolves and Approvals.Lifecycle follow an approval through any sequence of calls.
--   - Scope.Patterns, Scope.Networks, Scope.Engine: the matchers, the networks and `ScopeEngine`
--     of noble/scope.py. Scope.Lookalikes is about the wildcards, Scope.Listed and Scope.Allowed
--     about what is let through.
--   - Config: `RuntimeConfig.load` of noble/config.py, from the parsed document on;
--     Config.Ceilings holds the proofs.
--   - Registry, Registry.Schemas: the tools and schemas of noble/registry.py; Registry.Selection
--     says what a selected tool can be.
--   - Kernel: the decisions of noble/kernel.py; Kernel.Requests is about the validation of
--     requests.
--   - Simulate: noble/simulate.py, from the normalized target on; Simulate.Verdict is about the
--     answer ALLOWED.
--   - Execution: `CommandRunner.run` of noble/execution.py around the child process, which is an
--     argument. Execution.Launched says what a result of it has been checked for.
--     Execution.Network: noble/network.py.
--   - Outputs.Fixture: noble/builtins/fixture_sql.py. Outputs.Decode, Outputs.Checks,
--     Outputs.Validate, Outputs.Build: `OutputValidator.validate` and `build_evidence` of
--     noble/evidence.py. Outputs.Sound and Outputs.Passed say what a valid output has been checked
--     for.
--   - Reasoning: `evaluate_observation` of noble/reasoning.py; Reasoning.Proof is about its
--     findings.
--   - Signing: noble/signing.py.
--   - Workers: the registry of noble/worker_identity.py; Workers.Retired follows a worker through
--     any sequence of calls.
--   - Ledger: the chain of noble/ledger.py and its dict; Ledger.Trip is about the way there and
--     back. Ledger.Integrity: noble/ledger_integrity.py; Ledger.Corruption says what its checks
--     find.
--   - Errors.Keeps: invariants of calls that may raise, with a rule for each way to put calls
--     together.
--   - Engine: `NobleEngine.run` of noble/engine.py. Engine.Steps: its state and its closures.
--     Engine.Outcomes: the outcome and the state for an exception. Engine.Gates, Engine.Clearance:
--     the gates up to APPROVED. Engine.Dispatch: from APPROVED to the end of the tool.
--     Engine.Collect: from there to COMPLETED. Engine.Handlers: the `except` clauses.
--     Engine.Finish: the `finally` block and the whole. The proofs: Engine.Failures is about
--     outcomes; Engine.Frame, Engine.Permitted, Engine.Passed, Engine.Assured and Engine.Approved
--     say what each gate leaves alone and has found, and Engine.Safety what they promise together;
--     Engine.Underway, Engine.Undisturbed, Engine.Course, Engine.Entrance, Engine.Leasing,
--     Engine.Working and Engine.Gathering carry an invariant through the `try` block,
--     Engine.Ending, Engine.Stopped, Engine.Closing, Engine.Recorded and Engine.Settled through
--     the handlers and the `finally` block; Engine.Whole is about the whole run.
--   - Tests: concrete runs of the definitions.
--
-- Bounds and termination. Every loop of the source that is modelled walks a list or a text, and so
-- do the definitions. There are two fuels. In `mro` the class hierarchy is four deep, and 4 is the
-- fuel; `decimal` has the number and one more as its fuel, which is more than a number has digits.
-- Python's integers are unbounded, and so are the numbers here; a lifetime in seconds that is
-- negative is refused as 0 is, so it needs no sign. Text is lowered on ASCII letters only, and
-- os.path.normcase is the identity, as on POSIX.
--
-- What the engine model takes as arguments: the result of `normalize_target`, the policy
-- fingerprint, the digest of the workers, the JSON schema validator, the file system, the child
-- process with its pipes, Python's parser, and the answers of sqlite to the fixture's queries. In
-- the model a statement of the database fails where a key is taken, and the DELETE of
-- `release_lease` fails for the leases that the argument `release_fails` names; no other statement
-- fails, so of the handlers around the database those for a taken key and for a lease that is not
-- released are reached. A member of an error dict other than its code is left out of the result.
--
-- Not modelled: the inside of the child processes and their resource limits (noble/execution.py,
-- noble/builtins), the files and pragmas under the database, the command line, and the generators
-- of reports, releases and attestations, which decide nothing. The constructor of `ScopeEngine`
-- and the normalization of targets are not modelled; a scope engine starts from its validated
-- fields and a target from its canonical form.
pub mod Prelude
pub mod Errors
pub mod Models
pub mod StateMachine
pub mod Risk
pub mod Platform
pub mod Trust
pub mod Store
pub mod World
pub mod Audit
pub mod Authorization
pub mod Approvals
pub mod Scope
pub mod Config
pub mod Registry
pub mod Kernel
pub mod Simulate
pub mod Engine
pub mod Execution
pub mod Outputs
pub mod Reasoning
pub mod Signing
pub mod Workers
pub mod Ledger
pub mod Tests
