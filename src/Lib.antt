-- ===== src/Lib.antt =====
-- A model of ProofBid, which prepares tender packages from a bounded workspace, and the theorems
-- about it. The parts and the Python files that they translate:
--
-- * Errors, Exec: exceptions as values, and methods that change an object and may raise. What was
--   assigned before an exception stays assigned.
-- * Contracts (src/proofbid/contracts.py): the records that the parts exchange, with the checks of
--   their constructors.
-- * Readiness (src/proofbid/validators.py, `ValidationReport`, `build_readiness_decision`): findings,
--   reports, and the decision that is derived from them. Readiness/Gate is about the decision.
-- * Bundle (src/proofbid/validators.py, `validate_bundle`): the findings on an analysis, one function
--   for each kind of record. Bundle/Passing reads a passed report off, Bundle/Proof is about what a
--   ready package promises.
-- * Planning (src/proofbid/planning.py): the manifest of a task, execution plans, the plan policy
--   `validate_execution_plan`, and provider receipts. Planning/Plan/Accepted is about the policy.
--   Payloads writes them as JSON, Reading and Evidence read them back and check the chain of digests;
--   Chain and Bound are about that.
-- * Json (validators.py and planning.py): the access to JSON values.
-- * Delivery (src/proofbid/validators.py, `validate_artifacts`, and the names of
--   src/proofbid/artifacts.py): the files of a delivery and what the standard library makes of them.
--   Manifest and Archive are `_validate_manifest_and_archive`, Modes the trace and the mode, Paths,
--   Content and Planned the checks of paths, JSON files and planning evidence, Checks their
--   composition; Traced holds planning events against a receipt. Tested, Opened, Located, Declared,
--   Tracked, Shaped, Sealed, Evidenced and Trusted are about a delivery that has passed, Strict and Allowed about one that has failed in
--   unresolved requirements only.
-- * Pipeline (src/proofbid/pipeline.py, and the stages of src/proofbid/tracing.py): the required inputs
--   and the blocking failures; the events and stages of a trace (Pipeline/Trace), the steps of the
--   stages (Plant), and `run_pipeline` (Run). Inputs is about the look-up of the inputs, Recorded about
--   the trace of a run, Packaged and Finished about a run that returns. Bundle/Expected says when a report without
--   fatal failures has passed.
-- * Runtime (src/proofbid/agent_runtime_v2.py, and `TraceRecorder.emit` of src/proofbid/tracing.py):
--   the state of `TaskRuntime` is Runtime/State, its `_execute` Runtime/Execute, the tests of `invoke`
--   Runtime/Policy and the call itself Runtime/Invoke, the trace and evidence files Runtime/Evidence,
--   `bind_real_provider_receipt` and `freeze_delivery` are Runtime/Freeze and Runtime/Delivery. A run is a
--   sequence of calls, bindings and freezes in any order, some of which may raise: Runtime/Reach.
--   Runtime/Frame, Keeps and Effects say what each method leaves and changes, Intake what a scan has
--   stored; Calls, Log, Order, Reach, Verdict, Ending and Frozen build the invariants of a run on them.
-- * Decimal, Format, Regex: floats as exact decimals, the texts that `str`, `:g` and `:.2f` make of
--   them, and the backtracking search of Python's `re` for the patterns that the program uses.
-- * Extraction (src/proofbid/extraction.py): what a line is (Extraction/Lines), and the requirements of
--   a document and of several (Documents). Kept is about the result, Analysed about its analysis.
-- * Matching (src/proofbid/matching.py): bidder facts (Matching/Facts), the matchers of policies,
--   deadlines, durations, documents and terms (Policies, Profile), the choice and the test of a catalog
--   item (Candidates, Catalog), warranties and price limits (Totals), and `build_analysis` with its
--   loop over the requirements (Analysis). Covered, Overflow, Returns and Blocking are about the
--   analysis: what it says of each requirement, what it raises, when it returns, and how it decides
--   readiness.
-- * Loading (src/proofbid/matching.py, `load_bidder_profile` and `load_catalog`): the scalars of a JSON
--   document as facts with their evidence, and the rows of a CSV document as items (Loading/Table).
--   Linked is about the profile, Stocked about the catalog.
-- * Tasks (src/proofbid/task_store.py, task_worker.py and service.py): the state of a task (Value),
--   the interface of a store with its laws (Store), a store in memory for the examples
--   (Memory), the fixtures and `execute_task` (Fixtures, Worker), the quota and `create_task` (Quota, Service), `get_task` and
--   `get_bundle` (Serving). Ending, Creating, Serving and Overtaking are about any store that keeps the
--   laws: how a run ends, what a request leaves, what is served, and the order of dispatch and run.
-- * Samples and Examples: a small tender, an analysis and a task, and the theorems applied to them.
--
-- The runtime calls the analysis of the bundle with `validate_bundle`, decides the readiness with
-- `build_readiness_decision`, and checks the plan with `validate_execution_plan`. The other parts of
-- the program that it calls (the scan of the workspace, the extraction, the loading of profile and
-- catalog, the matching, the rendering, the validation of rendered files) and the digests are the
-- fields of the record `World`, a parameter; no property needs a hypothesis about them. The worker
-- calls a pipeline and reads its files back: the fields of the record `Deployment`. The service is
-- given its fixtures, its day, its clock and the cloud's dispatch by the record `Site`. The
-- extraction and the loading are given the bytes of a document, their digest and their text by the
-- record `Reader`, and the JSON and CSV libraries by `Codec` and `Csv`; a row
-- of a table has no more cells than the header.
--
-- The pipeline is given the scan, the output directory, the writing of files and the rendering by the
-- record `Plant`, and calls the modelled extraction, loading, matching and validation. The validation
-- of a delivery is given the directory by `Storage`, and `hashlib`, `json`, `zipfile` and `unicodedata`
-- by `Library`: a file that cannot be read as JSON or as a ZIP file has no value, and neither has a
-- member that cannot be decompressed; an integer of a JSON text is a number without decimal places.
--
-- A run has a budget of 14 calls, which is the source's own bound. A repetition in a regular expression
-- is bounded by the length of the text, since each round takes a character, and the digits of a number
-- by the number itself; no other definition needs fuel. Floats are exact decimals, so the rounding of
-- binary floats and their infinities are not modelled (an integer that `float` refuses is), and `:g` is modelled on numbers of at most six significant digits; a
-- confidence is in hundredths. Case folding and IGNORECASE cover ASCII, which is enough for the words
-- that the source compares, and the Chinese words have no case; `\d` matches the digits of ASCII. The
-- SHA-256 digests of stable ids are a parameter. A rationale keeps the fixed part of its message. The
-- bundle is the typed one, so the alternative field names of `_field` are not modelled. Wall-clock
-- times, message texts and the bytes of rendered files are left out; the files that the runtime writes
-- and reads again are fields of its state. A write of a store succeeds on a valid id; two writes do not
-- overlap; an event of a trace is always written. Not modelled: intake and rendering; the
-- adapters of a task store, which write a state as JSON to files or to a bucket; the
-- checks of the workbook and of the report, which are parameters of `validate_artifacts`; encrypted
-- members of a ZIP file; the cloud clients and the entry points.
pub mod Prelude
pub mod Errors
pub mod Exec
pub mod Decimal
pub mod Regex
pub mod Contracts
pub mod Readiness
pub mod Planning
pub mod Bundle
pub mod Pipeline
pub mod Format
pub mod Matching
pub mod Extraction
pub mod Loading
pub mod Json
pub mod Delivery
pub mod Tasks
pub mod Runtime
pub mod Samples
pub mod Examples
