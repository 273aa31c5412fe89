-- ===== src/Lib.antt =====
-- A verification library for the core of the AI DevSecOps Command Center: a set of TypeScript services
-- (backend/services) around a shared package (backend/packages/shared) and shared models
-- (backend/models). The services talk through an event bus; each works on its own store.
--
-- Parts modelled, and where they stand in the repository:
-- - Poam: the POA&M items of the compliance service, backend/services/compliance/src/poam. Types and
--   Names are poam.types.ts. Repository is poam.repository.ts: `create`, `get_by_id`,
--   `find_open_for_control_vuln`, `list`, `update`, `find_overdue`, `find_all_open_grouped_by_tenant`
--   on a store, which is the `Map` as an association list. Items and Service are poam.service.ts: each
--   method is an action on a World (the store, the published envelopes, the audit trail, and how often
--   ids, the clock and the bus were used) that returns a value or a thrown error; an error keeps the
--   effects made before it. Audit is `withAudit` of src/observability/audit.ts. Lifecycle is the
--   abstract specification, a step relation on stores, to which Service/Refines and the files beside it
--   relate the service.
-- - Bus: the consumer side of backend/packages/shared/src/events/redis.ts. Entry has `processEntry` and
--   `deadLetter`, Loop has `deliveryCounts`, `reclaimStale` and `readLoop`; Settling
--   repeats the passes of `reclaimStale` on one entry. What Redis, the handler and
--   the clock answer are functions of the history, which lists what the bus did.
-- - Triage: backend/services/agent/src/agents/triage.ts. Heuristic is `heuristicTriage`; Refine is
--   `refineWithLlm`, `triage` and `sanitizeFindingsForPrompt`, where the outcome of the HTTP call is a
--   parameter.
-- - Ssrf: backend/services/kubernetes/src/ssrf-guard.ts. Classify has the classes of IP literals, Check
--   has `checkServerUrl` and `checkServerUrlDns`; `isIP`, the URL parser and the resolver are
--   parameters.
-- - Runtime: the rules and the report of backend/services/runtime-security/src/engine, on the pods and
--   risks of backend/models/infrastructure. Rules and MoreRules are rules.ts, Engine is
--   runtime-security.engine.ts.
-- - Mapper: the control mapper, backend/services/compliance/src/control-mapper. Types is
--   mapping.types.ts, Predicates is predicates.ts, Input and Engine are mapping-engine.ts: `toMappingInput`,
--   `evaluate`, `evaluateBatch` and `evaluateFindings`. Regular expressions, `Date.parse` and `Date.now`
--   are parameters, and a pattern that does not compile throws. Filed runs `createFromTuples` of the
--   POA&M service on the tuples of a batch.
-- - Crypto: backend/packages/shared/src/crypto/index.ts. Secret has `encryptSecret` and
--   `decryptSecret`, Parsing has `parseKeyring` and `createCipherKeyring`; the cipher, base64 and the
--   drawn vector are parameters. Texts are lists of code points.
-- - Auth: Base64, Token and Hook are backend/packages/shared/src/auth/index.ts: `b64url`,
--   `signAccessToken`, `verifyAccessToken` and the hook of `buildAuthHook`. Refresh is
--   backend/services/auth/src/services/token.service.ts on its store of refresh tokens. HMAC, JSON,
--   base64, the clock's reading and drawn ids are parameters or arguments.
-- - Correlation: backend/services/incident/src/correlation/correlation-engine.ts. Events has
--   `normalise` with `mapType` and `buildCorrelationKey`, Engine has `correlate`, which throws where a
--   time in a summary is invalid.
-- - Remediation: backend/services/agent/src/agents/remediation.ts. Semver, Pep440 and Version have
--   `parseVersion`, `compareVersions` and `bumpType`, Propose and Result have `proposeRemediation`
--   (`group_findings` is its first loop, `answer` the body of the second), Hint has `manifestHint`,
--   Apply has `applyRemediation`, where the call of the integration service is a parameter that acts
--   on a state of its own, and Task the task `remediation.apply` of agents/registry.ts, which first
--   tests the bounds of ApplyInputSchema; JavaScript's `length` of a string is a parameter there.
-- - Evidence: backend/services/compliance/src/evidence/evidence-attacher.ts. World has the in-memory
--   blob store and the in-memory evidence repository of src/repositories, beside the world of the POA&M
--   service; Scan has `extractFindings` and the other helpers, Attacher the events and the loop over
--   the tuples, Attach `attach` and `attachInfrastructureFinding` (`attach_finding`). SHA-256,
--   JSON.stringify, new ids and the system's clock are parameters.
-- - Queue: backend/services/agent/src/services/task-queue.ts, a `Map` of tasks and the order of their
--   ids; the loop of `dequeue` is `dequeue_from`.
-- - Common: lists, options, texts and maps that the parts share.
--
-- The parts meet in three places: the evidence attacher runs the control mapper and files its tuples
-- with the POA&M service before it records evidence; the POA&M service publishes to a bus, which may
-- refuse an envelope and is a parameter of the service's model; and that service takes the tuples that
-- the control mapper makes, which Mapper/Filed puts together.
--
-- Numbers are natural numbers: times are milliseconds (seconds in tokens), EPSS is in
-- hundred-thousandths and CVSS in tenths. Apart from the digits named below, no arithmetic of the parts
-- leaves the range in which the source's numbers are exact; where the source subtracts below 0 and then takes the maximum with 0, the model's subtraction stops at 0.
--
-- Fuel: `reclaim_stale` takes fuel for the `for (;;)` of `reclaimStale`, and says whether it ran out;
-- where each full batch that is not the last moves the cursor on, fuel above the rank of the first
-- cursor is enough. The read loop runs over a list of turns, one for each pass of its `while`. `pages`
-- follows the cursors of a listing for a number of pages, and is none where they do not reach the last
-- page; one more than the matches left is enough. `segments` reads at most a given number of segments of a version:
-- three more after the first of a semantic version, as in the source, and for PEP 440 as many as the
-- text has characters.
--
-- Simplifications: the calls of the POA&M service and of the evidence attacher run one after the
-- other: the source awaits between reading an item and writing it (in `createFromTuple`, and in the
-- moves by `update`), so that calls that run at once can interleave there, which is not represented.
-- A due date is an instant; the bounds `dueBefore` and `dueAfter` of a listing are texts that are
-- compared with what `toISOString` writes for it, and `toISOString` and `<` on texts are parameters.
-- The mapper's injected clock stands still during a batch; a finding object that stands twice in one
-- batch is two equal values; the once-only warning, the logger and the failure callback of the auth
-- hook are left out; `parseTtl` reads its digits as a natural number of any size, and so do the
-- segments of versions (the source's numbers are exact below 2 ^ 53).
--
-- Not modelled: the web client, the Python agents, HTTP routes, databases, fixtures, metrics and logs,
-- and the engines of the other services; publishing and subscribing on Redis; random ids and times of
-- risks and reports. Ids of `randomUUID` are a function of the number of the call, assumed injective
-- where a result depends on it.
pub mod Common
pub mod Poam
pub mod Bus
pub mod Triage
pub mod Ssrf
pub mod Runtime
pub mod Mapper
pub mod Crypto
pub mod Auth
pub mod Correlation
pub mod Remediation
pub mod Evidence
pub mod Queue
