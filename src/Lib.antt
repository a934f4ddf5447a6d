-- ===== src/Lib.antt =====
-- TokenZero measures what a tool call shows to a model, projects it to a bounded view, and keeps every
-- omitted byte recoverable. This library models the parts of it that decide, account and transform,
-- and proves that they do what they promise.
--
-- Parts, and the code that each models (paths from the repository's root):
-- - Base: shared notation, u64 and u128 arithmetic, texts, sorting, decimal printing, and the
--   `CacheProvider` of crates/tokenzero-engine/src/cache_meter.rs.
-- - Shell: crates/tokenzero-core/src/shell_quote.rs. `Split` is the character loop of
--   `split_command_string_for_platform` as a step function on its variables; `Quote` the three quoting
--   functions and `quote_for`; `RoundTrip` the proofs, one child for each platform.
-- - WorkingSet: crates/tokenzero-recovery/src/working_set.rs. `Delta` is the line hunks; `State`
--   the `WorkingSet` with the operations that need no store; `Refs` the index from refs to evicted
--   spans; `Ops` paging out, the budget loop and `evict`; `Admit` is `admit` and `link_refs`;
--   `Rehydrate` is `rehydrate_ref`. `Host` is what they use of `RecoveryStore`, of the token
--   counter and of JSON, a record that every definition takes as a parameter. `Book` states the
--   bookkeeping invariant, and its children prove it: `Spans` and `Index` on lists, `Steps`,
--   `Growth` and `Links` for each change of the state, `Budget`, `Paging` and `Admission` for the
--   operations, `Floor` for the end of the budget loop, `Exact` for evicting and rehydrating.
-- - Recovery: the state of crates/tokenzero-recovery/src/lib.rs, with its maps, and the operations on it
--   that are not files. `Transparency` is transparency.rs beside it, the log of mutations (`Heights` and
--   `Binary` on the peaks' heights, `Mountain` on appending, `Layout` on reading the peaks off the
--   leaves, `Inclusion` and `Consistency` on proofs);
--   `Outcomes` the capped index of shell results with its clock (`Trim`, `Clock`, `Record`); `Merge` the
--   session's delta, `merge_states` and the replay of the journal (`Lookup`, `Aliases`, `Views`,
--   `Journal`); `Refs` the parsing of refs; `Store` the mutations in memory, with
--   `History` for sequences of them; `Eviction` eviction, with the `coldest` of frecency.rs (`Victims`,
--   `Budget`). SHA-256, the
--   comparison of f64 frecency scores, the JSON of journal records and the length in a blob marker are
--   parameters; `RecoveryStore` has the fields that the modelled operations use.
-- - CowFork: crates/tokenzero-recovery/src/cow_fork.rs, over a store, SHA-256 and JSON that are a record
--   parameter (`Vault`). `History` proves what holds after any sequence of operations, `Recovery` what
--   they do to the rendered text.
-- - Crossover: crates/tokenzero-engine/src/cache_crossover.rs.
-- - Eviction: crates/tokenzero-engine/src/eviction_scheduler.rs.
-- - Representation: crates/tokenzero-core/src/representation_economics.rs, without the rendered decision
--   surface. `Segmentation` is the search of `optimal_segmentation`, whose `Table` follows the table of
--   best costs through the rounds and whose `Covers` and `Optimal` read covers off it; `MultiTokenizer`
--   prices the candidates of `optimal_multi_tokenizer_segmentation` and runs the same search (`Bills` is
--   about the prices, `Costs` about the run).
-- - OutputNovelty: crates/tokenzero-core/src/output_novelty.rs, over digests, SHA-256 and a tokenizer
--   that are a record parameter (`Coder`). `Framing` is about the coding, `Accounting` about its receipt.
-- - ReasoningState: crates/tokenzero-core/src/reasoning_state.rs, over the digests and the reasoning
--   contract of zero_abi, a record parameter (`Abi`) whose equality tests are assumed to decide equality
--   where a theorem needs it. `Envelope` is the capture and the guarded replay of opaque bytes,
--   `Continuation` the assessment, `RawView` the raw Decision View fallback (a `DecisionView` is the
--   fields read here), `Headroom` the plan; `Replay`, `Assessment` and `RawRecovery` the proofs.
-- - LivePareto: crates/tokenzero-core/src/live_pareto.rs, over canonical JSON and SHA-256 that are a
--   record parameter (`Canon`). `Decision` is `decide_live_pareto` and the validation of its result,
--   `Frontier` the proofs. An i64 is an integer by its sign; a control character is recognized by its
--   UTF-8 bytes.
-- - Kernel: crates/tokenzero-kernel/src/lib.rs, over tokenizers, capsules and the object store that are a
--   record parameter (`Services`). `Operations` is the engine's operations, `Honesty` what they report.
--
-- A `String` is the list of its bytes; in Shell it is the list of its characters. A u64 is a
-- natural number with the source's saturating, checked or wrapping operations written out; u128
-- sums and products wrap at 2^128. Floating-point constants that are only carried along are scaled
-- integers. A `HashMap` is a list of entries, a `BTreeMap` one in
-- ascending order of its keys, a `PathBuf` its Unix text, compared by components. An
-- operation that changes state returns its result, also an error, beside the state and the store as
-- it leaves them; a panic is an error value of its own. The clock enters `rehydrate_ref` as the
-- elapsed microseconds, and the f64 rates of the telemetry are left out. Every loop recurs on a
-- list that it consumes, but for decimal printing, whose fuel is one more than the number that each
-- round divides by ten, the walk back through the table of segmentation, whose fuel is the length of
-- the source, since each step goes to a smaller position, the loop of `enforce_budget`, whose fuel
-- is one more than the number of spans: each round pages one resident span out; and in Recovery the
-- loop that trims the outcomes, whose fuel is their number, the loop of `evict`, whose fuel is one more
-- than the number of entries, and the heights and roots of the log, whose fuel is its size: each round
-- takes an outcome, an entry or a leaf away, and a halving at least one leaf.
--
-- Not modelled: of the recovery store its expansion, files, locks and persistence, its segments,
-- migration and hygiene; process capture, the installer and the command line, which are files,
-- processes and printing; rendering, output filters and model artifacts, which are heuristic
-- summaries of text or digests of JSON; and of the files above the rendered decision surface of
-- representation_economics.rs, the detection of shell syntax in shell_quote.rs, the decoding of a
-- Pareto decision from JSON, `Display` and `Serialize` instances.
pub mod Base
pub mod Shell
pub mod WorkingSet
pub mod CowFork
pub mod Crossover
pub mod Eviction
pub mod OutputNovelty
pub mod Representation
pub mod ReasoningState
pub mod LivePareto
pub mod Recovery
pub mod Kernel
