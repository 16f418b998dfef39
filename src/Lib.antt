-- ===== src/Lib.antt =====
-- The durable core of the customs buyer intelligence ledger, and what it guarantees.
--
-- The program is a Python service that keeps investigations as append-only, hash-chained JSONL logs
-- and recovers mutations that a crash interrupted from the events in those logs. The parts here:
--
-- - Python (Python/Text, Python/Json): the JSON values that the program handles and what it does with
--   them: `dict.get`, `value or default`, `str`, `bool`, `str.strip`, `==` with a constant. A dict is
--   a list of fields. The type of floats is a parameter; `Host` holds the operations on them and the
--   case tables of the characters from U+0080 on. `Python/Laws` has the lemmas,
--   `Python/Yielding` what holds of the value that a chain of raising steps returns.
-- - Chain (unified_runtime/resilience.py, class HashChainLog): `Chain/Lines` is `read_text` and
--   `str.splitlines` over code points, `Chain/Defs` the log: `read_from` is the loop of
--   `_read_unlocked`, `read` and `append` are the methods. A file is `none` where it is not there,
--   else its text. `json.loads`, `canonical_json` and SHA-256 are the parameter `Codec`; where a
--   theorem needs that decoding gives back what was encoded, `RoundTrips` is its hypothesis.
--   `Chain/Log` is the log as the registry and the journal see it: an interface of two operations, the
--   law of an append, and the instance over the file.
-- - Session (unified_runtime/core.py, class SessionStore): the log of one investigation. It calls the
--   same loop; `append`, `append_many`, `append_if_tail`, `create` and `read_valid_prefix` are here.
--   They take the file's text; `Session/Decoding` has the two readers on its bytes, which one decodes
--   strictly and the other with replacements, with the decoder of UTF-8 as the parameter `Utf8`.
-- - Wal (unified_runtime/wal_contract_v63.py and recovery_semantics_v63.py): `Wal/Contract` has the
--   bindings of the three durable mutations and the check of an event; `Wal/Recovering` the recovery
--   of a prepared mutation; `Wal/Exact` is about the events that it takes for the request's. Exceptions that leave it are values (`Python/Raising`).
-- - Gates: pure decisions over JSON payloads. `Gates/Canonical` is canonical_resolution_gate.py,
--   `Gates/Contact` contact_exhaustion.py, `Gates/Route` route_reuse.py and `Gates/Lifecycle` the
--   transitions of opportunity_domain.py, `Gates/Candidate` candidate_research_gate.py and
--   `Gates/Portfolio` portfolio_metrics.py, all of unified_runtime/. `Gates/Reuse`,
--   `Gates/Exhaustion`, `Gates/Research` and `Gates/Stages` are about them. Flags that a result holds
--   as constants are left out.
-- - Backend (unified_runtime/runtime_durable_backend_v63.py): the object that mutations are handed to.
--   Objects are a heap by identity, a method is a function on the world outside the process.
-- - Registry (unified_runtime/resilience.py, class CanonicalRegistry): the accounts that are known.
--   `Registry/Matching` is `resolve`, which matches a candidate with them, `Registry/Accounts` what is
--   read from the log and the sessions' files, `Registry/Creating` is `entries` and
--   `resolve_or_create`. `unicodedata` is the parameter `Unicode`. `Registry/Weighing`,
--   `Registry/Resolving` and, with `Registry/Entries`, `Registry/Created` are about them. The log is an `EventLog` of `Chain/Log`.
-- - Journal (unified_runtime/resilience.py, class PendingReceiptJournal): receipts that wait for their
--   tool, one file each, with an event for each result. `Journal/Files` is the directory,
--   `Journal/Defs` has `entries`, `load` and `record_sync`, `Journal/Queue` is `queue`, `Journal/Sync`
--   is `sync`, with the tools as functions on the runtime's other state. It uses the log through the
--   interface of `Chain/Log`, which `HashChainLog` fills. `Journal/Recording`, `Journal/Selecting`,
--   `Journal/Finding`, `Journal/Queueing`, `Journal/Loading`, `Journal/Once`, `Journal/Syncing` and
--   `Journal/Bounds` are about it.
-- - Acceptance (unified_runtime/exact_recovery_acceptance_v63.py, backend_correlation_acceptance_v63.py
--   and recovery_overlay_acceptance_v63.py): the validators of acceptance reports. `Acceptance/Scenarios`
--   has the loops that they share, `Acceptance/Covering` what these mean, `Acceptance/Recovery`,
--   `Acceptance/Correlation` and `Acceptance/Overlay` the three.
-- - Production (unified_runtime/production_gate_v63.py, live_contract_validator_v63.py, and the names
--   of mcp_schema_v63.py and adapter_recovery_mapping_v63.py): the gate before the mutations of a
--   deployment. `Production/Gate` and `Production/Live` are the two validators, with what they read in
--   `Production/Gathering` and `Production/Seeing`; `Production/Mapping`, `Production/Policies`,
--   `Production/Bound`, `Production/Accepted`,
--   `Production/Opening` and `Production/Readiness` are about them.
-- - Runtime (unified_runtime/core.py, class UnifiedRuntime): what an investigation's events come to,
--   and the operations that read it. `Runtime/State` and `Runtime/Events` are the state and the
--   branches of `_state`, `Runtime/Replay` is the whole function over `Session`. `Runtime/Sets`,
--   `Runtime/Keeping`, `Runtime/Advancing`, `Runtime/Growing`, `Runtime/Anchors` and `Runtime/Closing`
--   are about it. `Runtime/Inputs` has the checks on arguments and times, `Runtime/Rendering` is
--   `render_outreach_action_card`, with the clock and the library calls in a record `World`;
--   `Runtime/Spending` and `Runtime/Once` are about that. `Runtime/Routes` is `_route_gate`, with the
--   module's regular expressions in a record `Patterns`, and `Runtime/Issues` and `Runtime/Preparing`
--   are `prepare_outreach`; `Runtime/Clearing`, `Runtime/Sendable` and `Runtime/Prepared` are about it.
--   `Runtime/Policy` is `_normalize_network_policy` and `Runtime/Promotion` the gate of
--   `append_peer_receipt` on a promotion; `Runtime/Strict`, `Runtime/Yielding` and
--   `Runtime/Promoted` are about them.
--   `Runtime/Unicode` is the check on the arguments of every public operation, on texts of code points;
--   `Runtime/Scalars` and `Runtime/Accepting` are about it. The operations take arguments after it.
-- - Examples: a codec over real texts, and runs of everything above.
--
-- Every loop is structural recursion, over the lines or the events; no fuel is used. Numbers are
-- unbounded, as Python's are. Each operation runs under its file's lock, so it is one step from a
-- file to a file; the clock is an argument. The operations of the runtime that read a session and then
-- append to it take the lock twice: a call of theirs is one step here, with no other writer between.
-- Log lines are code points, other text is native text. Digests and canonical JSON are total: values
-- without a canonical text (NaN, infinities, lone surrogates), on which the code raises, are outside
-- the model.
--
-- Not modelled: locks, fsync, paths and the request-scoped cache of verified reads; the runtime's
-- other operations over the store (unified_runtime/core.py, class UnifiedRuntime, and v6.py), the
-- other gates, the servers under mcp/, the scripts and the offline pipeline under skills/.
pub mod Prelude
pub mod Python
pub mod Chain
pub mod Session
pub mod Wal
pub mod Gates
pub mod Backend
pub mod Registry
pub mod Journal
pub mod Acceptance
pub mod Production
pub mod Runtime
pub mod Examples
