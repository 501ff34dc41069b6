-- ===== src/Lib.antt =====
-- GUI Shell: the core of the broker that decides which actions a runtime may take.
--
-- Parts. A `RuntimeState` keeps eight tables: runtimes, adapters, capabilities, permissions,
-- approvals, audit events, recovery actions and update policies. Its registration methods check a
-- record against its JSON schema and store it under its id. `SensitiveActionRouter.route` takes an
-- action as a dict, asks `PolicyEvaluator.evaluate` whether the action agrees with all tables, and
-- marks it as routed or not. Around these stand the approval queue, whose edits ask for a new
-- validation, the permission ledger, the audit store and its hash chain, the loader that strips the
-- authority from an adapter's metadata, the projection of an approval's content, and four registries.
-- Before a release, tooling/release_gate_check.py reads the registry of release blockers, asks
-- tooling/windows_release_evidence.py for the results of the evidence that blockers name, scans the
-- documents, and runs tooling/manifest.py to compare the files with their hashes.
--
-- Files and the code that they are about (packages/shell_core unless a path is given).
--   Value, Store, Outcome: Python's values as `json.loads` makes them, with dicts in insertion order;
--     `dict[str, dict]` tables under hashable keys; results that return or raise. `copy.deepcopy` is
--     the identity, since a model's value has no second name. Value.Equal is `==`, where True is 1;
--     Value.Text is `str`, `repr` and `json.dumps` with sorted keys and escaped non-ASCII characters.
--   Hash: `canonical_hash` of approval_queue.py and audit_chain.py.
--   Normalization: normalization.py and authority_keys.py. Text has the passes of `normalize_key`, Keys
--     the keys and values of authority, Strip `normalize_payload` and `strip_authority_keys`, Findings
--     the three searches, Inbound `normalize_inbound_payload`.
--   Schema: Catalog is packages/shell_contracts/schema_loader.py, Validation is schema_validation.py,
--     Shipped holds nine files of specs/.
--   ErrorTaxonomy, ActionEnvelope, AdapterLoader, ApprovalQueue, AuditChain, AuditStore,
--     ContentExposure, PermissionLedger, RuntimeState, SensitiveActionRouter: the file of that name in
--     snake case.
--   PolicyEvaluator: policy_evaluator.py. Checks has one function per part of `evaluate`, Decision puts
--     them together, Spec says without the code what an authorized action is.
--   Registry: runtime_registry.py, recovery_catalog.py, update_policy_store.py and
--     packages/runtime_catalog/catalog.py.
--   BlueTanukiAdapter: packages/blue_tanuki_adapter, Approvals its approvals.py. AgentRuntime:
--     packages/agent_runtime/contract.py, a path being the list of its POSIX parts.
--   Persistence: persistence.py. A `Disk` is the texts of the three files; a call returns the disk also
--     when it raises, since a failing anchor leaves the line that was written before it. Lines and
--     Anchored say without the code what the file and its anchor hold; AuditChain.Linked says so of a
--     chain.
--   Installer: installer/setup_doctor.py and installer/first_run.py, the probes of a machine being the
--     record `Machine`.
--   InvariantEvaluator: invariant_evaluator.py, the repository being the record `Repository`;
--     Imports is the proof about its flags for imports.
--   EvidenceBundle: tooling/evidence_bundle.py, the reports that go into it being the record `Reports`;
--     Claims is the proof.
--   StateSnapshot: state_snapshot.py, and the texts that state_store.py writes and reads. `sorted` with
--     equal keys keeps the order of the table, as Python's does.
--   ReleaseSmoke: the reference state and action of release_smoke.py.
--   Manifest: tooling/manifest.py, the directory being the record `Workspace`. Check has the loop over
--     the entries and the two commands; Entries, Current and Written are the proofs.
--   WindowsEvidence: tooling/windows_release_evidence.py, one module per validation; Release puts them
--     together. Shown and Accepted are the proofs.
--   ReleaseGate: tooling/release_gate_check.py. The module has the checks of the registry, Blockers the
--     effective blockers, Docs and DocSync the scans of the documents, Gate `main`; Rounds, Resolved and
--     Passes are the proofs.
--   Tests: a concrete platform, runs on it, and each theorem at concrete input.
--
-- State. A method that changes an object is a function from the object's value to a `Result` of the
-- new value; after an exception the object is as it was, since every method of an object in memory
-- checks before it stores. A loop is a recursion on the list or dict that it runs through. The decimal
-- digits of a number come from a division with fuel n + 1, which is enough as a number has at most that
-- many digits. The scan of a document for blocks of release blockers goes back to the line that ended
-- a block, so it is a recursion on a number of rounds that gives none when the rounds are spent; the
-- number of lines is enough.
--
-- Parameters. `Platform` holds what the code takes from outside: NFKC normalization, case folding,
-- `repr` of a text, SHA-256, `re.match` and `json.loads`. `IsUnicode` names what is relied on: that
-- NFKC keeps an ASCII text and that case folding keeps ASCII and lower-case ASCII texts. The catalog of
-- `validate_contract`, which the source loads from disk at each call, is an argument. `PathLib` is what
-- the path rules take from pathlib and the file system; `IsResolving` says that `resolve` gives an
-- absolute path and keeps a path that it has given. `FileLib` is what Persistence takes from Python:
-- splitting into lines, the messages of JSON errors, indented JSON, hexadecimal keys and HMAC.
-- `JsonLib`, `TextLib` and `SearchLib` are what the tools take: parsing and printing JSON, lower case,
-- lines, and the module re with its patterns as they stand in the source.
--
-- Not modelled. The texts of TypeError messages; regular expressions that do not compile; dict keys
-- that are not texts, floats and values that JSON cannot hold; failing file operations and file
-- encodings; the command lines of the tools and what they print beside the lists of errors; the other
-- files of tooling/; the Rust broker and the Flutter application.
pub mod Prelude
pub mod Outcome
pub mod Value
pub mod Platform
pub mod Normalization
pub mod Store
pub mod ErrorTaxonomy
pub mod Schema
pub mod Hash
pub mod AuditChain
pub mod AuditStore
pub mod ApprovalQueue
pub mod PermissionLedger
pub mod ContentExposure
pub mod AdapterLoader
pub mod ActionEnvelope
pub mod RuntimeState
pub mod PolicyEvaluator
pub mod SensitiveActionRouter
pub mod BlueTanukiAdapter
pub mod AgentRuntime
pub mod Persistence
pub mod Installer
pub mod InvariantEvaluator
pub mod Registry
pub mod Manifest
pub mod WindowsEvidence
pub mod ReleaseGate
pub mod EvidenceBundle
pub mod StateSnapshot
pub mod ReleaseSmoke
pub mod Tests
