-- ===== src/Lib.antt =====
-- freemkv-engine: the recovery core, as shallow models of its Rust code with theorems on them.
--
-- The engine copies an optical disc to an image in passes. What is known of each byte of the disc
-- stands in a mapfile (src/recovery/mapfile.rs), which a copy reads to decide what to do next
-- (src/recovery/mod.rs); a failed read is answered by a policy that retries, skips, jumps or gives up
-- (src/recovery/read_error.rs). The passes call the mapfile's `record` for each read and the policy
-- for each failure; a restart loads the mapfile, checks that it is of the disc in hand, and goes on.
--
-- Files, and the code that they model:
--   Base: tests on native numbers, lists, and the saturating arithmetic of u64 and u32.
--   Text: the functions of `str` and `from_str_radix` that the parsers call.
--   Ranges: `merge_byte_ranges`, `intersect` and `subtract` of src/recovery/mapfile.rs.
--   Mapfile: src/recovery/mapfile.rs. Status and Entry have `SectorStatus`, `MapEntry`, `MapStats`,
--   `tally` and `push_coalesced`; Splice has `splice`; State has `Mapfile` with its setters and
--   queries (a field `disowned` for the shared flag, no path); Persist has `write_locked`,
--   `write_to_disk`, `changed`, `flush` (also the body of `Drop`), `record` as `record_range`,
--   `promote` and `create`; Render has the text of the file; Load and Fill have `load` with its
--   parsers, `open_or_create` and `load_if_present`; Identity has `stamp_identity` and
--   `check_identity`. Runs, Tally, Promote and Record have the meaning of the entries and the proofs.
--   LibError: `libfreemkv`'s error as the engine looks at it, with `is_read_fault`, `is_key_stop` and
--   `is_damage_candidate` of src/recovery/mod.rs.
--   ReadError: `ReadCtx`, `on_success` and `handle_read_error` of src/recovery/read_error.rs.
--   Sweep: `SweepSink` of src/recovery/sweep.rs with `image_write_failed` of src/recovery/mod.rs. The
--   image file is the bytes written and the bytes durable, with the errors of its operations as input.
--   Bytes, Written and Durable have the proofs.
--   Producer: the read loop of `sweep_linked` of src/recovery/mod.rs, with the scope and the regions of a
--   sweep and `classify_pass_abort`. Turns and Steps have one turn of the loop, Walks the loop, Settled
--   and Untried the loop together with the sink of Sweep.
--   Delivery: the consumer's side of the pipe, `apply` on one item after the other, for both passes.
--   SubRanges: `SubRanges` of src/recovery/patch.rs, the sub-ranges of a section that are still bad.
--   Section: src/recovery/section_recover.rs. State and Read have the reads with their errors, the
--   streaks and the exits of a handler; Handlers has `Linear`, `Bisect` and `Jump`, Specialists has
--   `SpeedSweep`, `CachePrime` and `Oscillate`, and Chain has `run_handlers` with the rosters of
--   src/recovery/patch.rs. Exact has the proof that a chain accounts for every sector.
--   Patch: `PatchCtx` of src/recovery/patch.rs, which runs a chain over each bad range and sends what it
--   recovered and what is left; Sink has `PatchSink`, its consumer, with what it shares. Account, Walk,
--   Tiers and Pass have the proofs.
--   Multipass: `recover` of src/multipass.rs with its decisions and `single_pass`, over a sweep, a patch
--   pass and the copy of a single pass that are given as functions on the disk of the mapfile. Ends, Kept
--   and Counted have the proofs.
--   Copy: `copy_titled` of src/recovery/mod.rs up to the pass that it starts, with `image_state`,
--   `no_image`, `CopyResult` and `Mapfile::stats`.
--   Examples: runs of the models and the theorems at concrete inputs.
--
-- Stateful code is explicit state passing: an operation takes a mapfile, or a `World` of a mapfile and
-- its disk, and gives the next one. A write takes a record of what the file system does to it: an
-- error of the tmp file, what is left in it, a disown by another thread meanwhile, an error of the
-- rename. Sequences of operations are the relations `Step` and `Reach`. Errors are values of
-- `Result`. Positions and sizes are numbers with the checks and the saturation of u64 written out;
-- counters of events do not wrap. Time is in milliseconds. Loops are structural; fuel is used
-- in the printing of a hexadecimal number, with sixteen digits for a u64, and the round trip shows
-- that they are enough, and in the loop of a fill, with one round for each byte, where a round does a
-- chunk of at least one. The loops of a section's handlers have fuel from the length of the section,
-- and a chain is proved not to run out of it. The read loop of a sweep has nine rounds for each byte
-- of a region, one that reads on and the eight retries that the policy allows in a row, and is proved
-- to end.
--
-- From outside the repository, and so parameters: libfreemkv's errors, sense keys, discs, key sets and
-- its hexadecimal parser (with the law that it reads back what `hex_lower` prints), SHA-256, the
-- gates before a copy, what the drive, the clock, the halt token and the pipe answer at each turn, where
-- a reader lets a block end, which errors of a mapfile that is read are of the kind InvalidData, lost
-- times as `f64` and the damage of titles. Logging is left out. Text is code points, so an encoding error of a file is one
-- of its read errors.
--
-- Not modelled: what a sweep does before and after its read loop (the gates, the open of the image, the
-- join of its consumer), the start and the report of a patch pass (`patch_linked`, `build_outcome`), the
-- measures over titles of src/multipass.rs, plans, selections and names, and the
-- mux, key, metadata and image code, which call libfreemkv.
pub mod Base
pub mod Copy
pub mod Delivery
pub mod Examples
pub mod LibError
pub mod Mapfile
pub mod Multipass
pub mod Patch
pub mod Producer
pub mod Ranges
pub mod ReadError
pub mod Section
pub mod SubRanges
pub mod Sweep
pub mod Text
