-- ===== src/Lib.antt =====
-- A verification of the core of workbuddy2plus-plugin (Go): the account pool in internal/pool, the
-- choice of an account in plugin, and in internal/upstream the rewriting of a request's messages and
-- the reading of the answer: its frames, its tool calls, and the calls that a model writes as text.
--
-- The plugin serves chat requests through one of many accounts. The pool keeps the accounts, their
-- balances and whatever bars them for a time, selects an account for a request, takes the reports
-- of the handlers on how the request went, and writes its state to a file. The handlers call
-- `Pick...`, `Acquire`, then one of `NoteSuccess`, `NoteError`, `Cooldown...` and the like, then
-- `Release`; the host's scans of the credentials call `SyncToDir`.
--
-- The files and the code that they model:
--   Base and its children: Boolean tests on numbers, lists, integers, and Go maps as association
--     lists whose order stands for the order of iteration.
--   Pool/Types: internal/pool/entry.go and pool.go, the types `entry` and `Pool`, the constants
--     and the setters. Pool/Health: entry.go, `healthy`, `healthyForModel`, `expiry` and pruning.
--   Pool/Cooldown: cooldown.go and transition.go, `Cooldown`, `CooldownSoftForModel`,
--     `CooldownSoftRate`. Pool/Block: `BlockModelBackoff`, `BlockModelClear`. Pool/Breaker:
--     `NoteError`, `NoteSuccess` and degrade.go's `NoteFailures`.
--   Pool/State: state.go, disabling, revival, the manual stop and the balance. Pool/Cost:
--     `NoteModelCost` and `ModelCost`. Pool/Query: counts, available accounts, servability.
--   Pool/Lease: pool.go, `Acquire` and `Release`; Pool/Lease/Race has their atomic actions under
--     interleavings of any number of callers.
--   Pool/Pick: pick.go, `pick` and `PickByUIDForModel`, with the fallback in Pool/Pick/Fallback and
--     the weights in Pool/Pick/Weights. Pool/Floats: the float operations as a parameter.
--   Pool/Persist: persist.go, `stateOverviewLocked` and `applyAccountsLocked`. Pool/Sync: pool.go,
--     `SyncToDir`. Pool/Events: runs of the handlers' calls. Pool/Tests: concrete runs.
--   Plugin: plugin/wb_pool.go, `pickFromPool`, which draws from the pool until it meets an account
--     that the host offers; the cached balances are a parameter. Plugin/Report: `applyUpstreamError`
--     and `notePoolSuccess`; the classification of an answer and the calendar are parameters.
--   Upstream/Json: the values of `encoding/json` in an `any`, and a `[]map[string]any`. Upstream/Tools: tool_pairing.go in
--     internal/upstream, `mergeAdjacentToolCalls` in Tools/Merge, `repackToolResultBlocks` in
--     Tools/Repack, `cleanupOrphanToolCalls` in Tools/Cleanup. Upstream/Payload: payload.go, their
--     composition. Upstream/Effort: `normalizeReasoningEffort` there. Upstream/Thinking: thinking.go,
--     `injectThinking` and `backfillReasoningContent`. Upstream/Tests: requests.
--   Plugin/Active: plugin/active_auth.go. Plugin/Scheduler: scheduler.go in plugin, with
--     `ensurePoolCandidates` and the test of a cached balance; whether an account's models are ready
--     is a parameter. Upstream/Texts: what the code uses of `strings`.
--   Upstream/Markup: dsml.go, the type `MarkupRepair` with `Feed` and `Flush`; Markup/Scan and
--     Markup/Block: the patterns, `parseMarkupBlock` and `parseMarkupParams`; Markup/Response:
--     `RepairAggregatedResponse`. Upstream/Frames: sse.go, `stripToolCallNames`, `normalizeFrame` and
--     `ChunkNormalizer`. Upstream/Aggregate: `Aggregate` there, with the merging of the fragments of
--     calls in Aggregate/Calls, its end in Aggregate/Finish, and truncation.go; in
--     Aggregate/Repaired its message before `RepairAggregatedResponse`. Markup/Allowlist:
--     `ToolNameAllowlist`. Upstream/Chunks: markup_chunks.go, the frames of a stream with the calls
--     in its text repaired; the frames that it makes are in Chunks/Build. Upstream/CacheKey:
--     cache_key.go, `InjectPromptCacheKey`.
--   Session: internal/session/ids.go, `TurnKey`, `contentSignature`, `CacheConversationID` and the ids
--     made of the keys. The hash, and what encoding/json makes of a request, are parameters.
-- A definition has the name of the Go function in snake case; `x_entry` is the part of an operation
-- `X` that works on the entry that it looked up. The proofs stand in the children of each file.
--
-- A time is the number of nanoseconds since Go's zero time, so that 0 is `time.Time{}`. Every
-- operation reads the clock once, and the answer is the argument `now`. A balance is an integer
-- without bound. Counters such as `fails` and `usedSeq` are natural numbers without bound. Where
-- the code relies on int64, in the shift and the doubling of back-offs, the wrap or the bound is
-- written out. The random draw and the shuffle are arguments; of the shuffle it is assumed that
-- it permutes. Of floats nothing is assumed. The realm of a credential is the answer of `Realm()`.
-- All recursion is structural, but for the outer loop of the repacking, which has as much fuel as
-- there are messages and takes at least one in each round; the budget of draws of `pickFromPool`
-- is the code's own. A loop over the rest of a text, as in `Feed`, `parseMarkupBlock` and
-- `parseMarkupParams`, has one more than the code points of the text, of which each round takes some;
-- the search of `nextToolIndex` has one more than the calls so far, of which each round passes one. A
-- message is a value, so that a write to a map in place is the new value of
-- that message; messages decoded from JSON share no maps.
--
-- A text decoded from JSON is its code points; its length in bytes is counted where the code asks for
-- it. The two patterns of dsml.go are written out, since each matches in one way at a place. The
-- encoding of JSON is a parameter of which nothing is assumed, and so are the clock and the printing
-- of an id. The lines of a stream come as a list; an error of the reader, which ends `Aggregate` at
-- once, is left out.
--
-- Left out are locks (each operation is one step, except for leases), logs, test hooks, JSON and
-- files, the flusher and the remote snapshot, the polling of the directory, the status rows, and
-- the rest of the plugin: the writing of a stream to the client, the HTTP handlers, check-in and the panel.
pub mod Base
pub mod Plugin
pub mod Pool
pub mod Session
pub mod Upstream
