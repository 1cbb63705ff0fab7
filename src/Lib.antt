-- ===== src/Lib.antt =====
-- Verification of miharbor, a visual editor for the configuration of the mihomo proxy. The server
-- keeps drafts, lints them, and deploys them to the proxy; the linters are shared with the web
-- application. Types and functions keep the names of the source in snake_case.
--
-- The parts, with the code that they model:
-- - Base: numbers, lists, texts (lists of characters), maps as association lists, JSON values, and
--   the tree of a YAML document.
-- - Auth (apps/server/src/auth): RateLimit is createRateLimiter of rate-limit.ts: a Limiter is its map
--   of entries with the store it persists to, and check, fail, success and reset are functions of the
--   time and the limiter. RateLimitStore is createFileStore of rate-limit-store.ts: save, flush, the
--   timer, dispose and load over a disk that holds one file.
-- - DraftStore: apps/server/src/draft-store.ts.
-- - HealthMonitor: apps/server/src/health-monitor.ts, with a poll as two steps.
-- - Vault (apps/server/src/vault): Mask is mask.ts, the walk over the document's tree. Unmask is the
--   walk back of unmaskDoc in vault.ts and what the callback of maskDoc keeps. Vault.Store is
--   createVault of vault.ts: every operation is a function of the encrypted file, Store.File is the
--   format of that file over a cipher and JSON with their laws, and Key is parseHexKey and
--   loadOrGenerateKey. Where the code draws random values or
--   reads the time, these are arguments.
-- - Rules: the rule types of packages/shared/src/types/rule.ts.
-- - Parser: packages/shared/src/parser/rule-parser.ts; Parser.Scan are its scans for commas and
--   brackets.
-- - Catalog: apps/server/src/catalog/pb-scan.ts.
-- - Linter (packages/shared/src/linter): Unreachable is detectUnreachable with the trie over reversed
--   domain suffixes (Unreachable.Trie); Duplicates is detectDuplicates; Placement is classifyRule and
--   suggestPlacement. Issue is packages/shared/src/types/issue.ts.
-- - Deploy (apps/server/src/deploy): Sentinels is resolveViewSentinels of pipeline.ts, Pipeline is
--   runPipeline with one function for each step, over the outside that Effects describes, and
--   Retention is retention.ts. Snapshots is createSnapshotManager of snapshot.ts: its operations are
--   steps on a state of the transport's directory and the vault's file, and stop where a call throws;
--   Snapshots.Uuids is extractSentinelUuids. Healthcheck is healthcheck.ts over a world with a clock,
--   and Healthcheck.Payloads is what it reads of the API's answers.
--
-- The snapshot manager uses the operations of Vault.Store, Retention and Snapshots.Uuids as they are
-- modelled here, so what is said of a snapshot rests on the vault's own operations. A run of the
-- pipeline is a function from the trace of its calls and events to a result and the longer trace.
-- What the transport, the vault, the linters, the snapshot manager and the health check answer is
-- given by functions of that trace, and may be an exception at every call. Of the yaml package,
-- parsing gives a tree with the errors found, and printing a document may throw. The deploy pipeline
-- uses the linters, the retention and the vault only through such answers.
--
-- Bounds: times and counters are natural numbers, as the code's are integers below 2 ^ 53. Most
-- loops run over a list or a tree and are structural recursion. Three kinds have fuel: the rule
-- parser calls itself on nested expressions with the length of the text as fuel, since each of them
-- is shorter, the scanner of the catalog has the length of its bytes, since each round reads one,
-- and the polls of the health check have one more than their timeout in milliseconds, since each
-- round sleeps for a millisecond at least. An end for want of fuel is a result of its own,
-- out_of_fuel, or none in the scanner.
--
-- Code outside the repository is a parameter: JSON.stringify and JSON.parse, Date.parse, toLowerCase,
-- the cipher of node:crypto, hashes, patches, and the yaml package's parser and printer. Of JSON and
-- the cipher the model assumes that what was written is read back, of the cipher also that its tag has
-- 16 bytes. A text is trimmed as ECMAScript does it, except in Vault.Mask, where trim is a parameter.
--
-- Not modelled: the web application, HTTP routes, file system and SSH transports, locks, the proxy's
-- client, logging and the environment, which call outside code; rollbacks around the pipeline, the
-- linters that compare references, the login and the views of the configuration.
pub mod Base
pub mod Auth
pub mod Catalog
pub mod Rules
pub mod Linter
pub mod Deploy
pub mod DraftStore
pub mod Vault
pub mod HealthMonitor
pub mod Parser
