-- ===== src/Lib.antt =====
-- Verification of supabase-lab, a laboratory of experiments on a database platform: its harness,
-- which plans, runs and merges the test modules of the experiments and measures outages, and
-- libraries of the experiments.
--
-- The parts, and where they are modelled:
--
-- - Types: harness/src/types.ts: test modules, results and run artifacts as records. A module's
--   `run` is not a field: what it comes to is an input of the run loop.
-- - Plan: harness/src/plan.ts. `planRun` is `plan_run`: the loop is `plan_loop`, one round is
--   `judge`, which says whether a module is dropped, skipped with a detail or run. Loop,
--   Gating and Order hold the proofs. The runtime's `localeCompare` is the parameter
--   `Collation`, with the laws of an order.
-- - HostPause: harness/src/host-pause.ts. Readings of both clocks are in microseconds, so that
--   `Math.round` to milliseconds is written out (`round_ms`).
-- - Settle: harness/src/settle.ts. `settleModule` races a module's promise with a timer and
--   with the drain of the event loop. The event loop is the list of what it delivers
--   while the race is open (`Event`); the drain watch is a state that is armed and
--   disarmed. An end of the process before the race is decided is `none`.
-- - Run: harness/src/run.ts, the loop of `main` over the planned modules (`run_all`) and the
--   exit code. It calls `settle_module` and stamps the suspended time on each result.
-- - Merge: harness/src/run.ts, `mergeMode`: the artifacts of the vantages in one.
-- - Sampler: harness/src/sampler.ts. A path's state is stepped by each probe (`sample`), and a
--   path's log of probes is the list of steps. `finalise` gives the outage windows,
--   less the pauses that the watchdog saw, and `may_stop` is the early exit.
-- - Diff: harness/src/diff.ts: two artifacts compared by test and measurement, and the
--   Markdown of the comparison.
-- - Matrix: harness/src/matrix.ts: feature probes on one connection, whose state is threaded through
--   them (`run_features`), and the rows and verdicts on their outcomes.
-- - Report: harness/src/report.ts: the Markdown of an artifact (`render_markdown`).
-- - Gate: experiments/lifecycle-ops/lib/gate.ts: whether a change may start, from the public
--   status page. Wording reads incident texts, Decide is `decide` and `gate`, Replay is
--   `replayInterval`, `unionMs` and `restartWaitMs`.
-- - FanOut: experiments/governed-starter-kit/supabase/functions/fanout-api/fanout.ts: a screen
--   request answered from upstream calls and a cache. Ttl reads Cache-Control, Calls is
--   `callOne`, Request is `fanOut`.
-- - Outage: experiments/compute-disk/lib/outage.ts: the outages of a stream of samples
--   (`outages_of`) and the figures of the phases that they begin in (`attribute`). Spans,
--   Timeline and Attribution hold the proofs.
-- - DiskChange: experiments/compute-disk/lib/disk-change.ts: the size that a disk needs, the
--   cool-down, and what each phase of a change did to a path, with Outage's figures.
-- - Reconcile: experiments/mgmt-api-faults/lib/reconcile.ts: `reconcile` sorts the listed projects
--   by a ledger of creates and keeps first sightings between runs. Classes is about one run,
--   Sightings about a sequence of them.
-- - Envelope: experiments/client-keyed-objects/client/src: envelope.ts is the module itself, upload.ts is
--   Upload, with its class `CipherSource` in Windows, and read.ts is Read. An object is the list
--   of its bytes. Hex, Binding, Layout, Object and Offsets hold the lemmas on texts, nonces, the
--   cipher, the stored object and where its chunks are; Windows/Chunks and Laws are about the
--   windows of a resumable upload; Read/Loop, Span, Served, Guards, Closed and RoundTrip are about the
--   ranged read, Whole about `readAll`.
-- - Envelope/Multipart: the upload of an object in parts, of upload.ts: Multipart itself is `runParts` and
--   `listParts`, Steps the requests they make and how code that makes them is composed, Asset is
--   `upload` and `resume`. Parts and Calls are about what the loop sends, Joined about the parts
--   put together, Etags and Done about what has been sent at the end, Object about the parts of an
--   upload in which nothing fails and Asset/Success about the whole of it, Listing about the pages
--   of `listParts`, Asset/Quiet, Silent and Marks about the mark that an asset is complete.
-- - Envelope/Needle: `needleCounter` of read.ts, and Needle/Stream the count of a whole stream.
-- - Retry: experiments/client-retries/lib/policy.ts. `hedgedGet` is a state machine (`Hedge`): Steps are the
--   events that the runtime can deliver, in any order, Attempts, Kept and Invariant hold what every state
--   keeps, Outcome what the promise resolves to. `refreshThenRetry` is Refresh.
-- - MergedRead: experiments/cross-project-auth/lib/merge.ts: `fanout` under both policies. Instants reads
--   timestamps and orders rows (`tsMicros`, `cmpExact`), Order is about that order, Newest is about sorted lists that are cut and put
--   together, Merged about the rows that a read returns.
-- - Common: what they share: Boolean tests, lists, the stable sort, texts, dictionaries.
-- - Examples: tests of the models on concrete inputs, and the theorems at such inputs.
--
-- How the parts meet: `plan_run` gives the modules that Run settles one by one through Settle, with
-- HostPause's time on each result; their results with the skips of `plan_run` are an artifact, which Merge
-- joins with that of the other vantage (its noise filter reads the detail that `wrong_vantage` writes) and Diff
-- compares with an earlier one. The modules of the outage experiments call Sampler, and those that
-- compare connections call Matrix. DiskChange asks Outage for the outages of a phase; Envelope's Read
-- gets the row, the bytes and the hashes that its Upload makes, through a storage that is a parameter;
-- Multipart sends what Upload's `encrypt_range` gives for each part, and Asset marks the row after it.
--
-- Conventions. A number of the source that counts, or is a time, is a natural number; where the
-- source subtracts, the model says what happens below 0, or has a sign (`diff`). Optional fields are
-- `Option`, objects and maps are association lists in insertion order, sets are lists. Values are
-- not shared: no modelled code depends on two names for one object. Texts are sequences of
-- characters; the default sort order is by code points, which is that of the source for texts in the
-- basic plane, and lower-casing is that of ASCII. A regular expression is a search of the texts that
-- it matches. All loops are structural recursion on the lists that the source walks, or on the count of
-- the chunks left, and need no fuel, with these exceptions: `show`, whose fuel is the number itself plus
-- one, at least its count of digits, the rounds of `list_parts`, of which there are pages as many, and the loops of `slice` and of `read_all`, whose fuel is the
-- length of what they copy, a byte at least in each round.
--
-- Parameters: the platform's cipher, digest and text encoding (`Crypto`, with the laws `CryptoLaws`),
-- what storage, catalogue and key service answer (`World`, and `Service`, whose answers are
-- any functions of the requests made before), the collation, the parsers of dates and
-- of JSON, the answers of caches and upstreams, the readings of clocks, and the text of a value that every object inherits.
--
-- Not modelled: argument parsing, the file system, processes and secrets (ctx.ts, platform.ts,
-- mgmt.ts, graphql.ts, `preventIdleSleep`, `fetchStatus`) and the probes over the network, which are
-- I/O; the interleaving of the sampler's paths with the operation that they watch; the other
-- renderers and parsers of the harness (`parseTarget`, `renderFacts`, sbperf.ts, doc-numbers.ts);
-- in client-keyed-objects, the tus
-- client that asks for the windows, and the requests themselves; in cross-project-auth, the lossy
-- comparison by milliseconds and the texts of errors; in
-- compute-disk, the readers of refusal texts and of metrics;
-- and the experiments' test modules, whose verdicts rest on a live platform.
mod Common
pub mod Types
pub mod Plan
pub mod HostPause
pub mod Settle
pub mod Retry
pub mod Run
pub mod Merge
pub mod Sampler
pub mod Gate
pub mod FanOut
pub mod MergedRead
pub mod Diff
pub mod Outage
pub mod Reconcile
pub mod Envelope
pub mod DiskChange
pub mod Matrix
pub mod Report
mod Examples
