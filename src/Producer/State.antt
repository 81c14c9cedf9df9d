-- ===== src/Producer/State.antt =====
-- The state, the events and the regions of a sweep's read loop (src/recovery/mod.rs).
use freemkv_engine.Base.{
  ℕ, Bool, true, false, not, ◌&&◌, Option, none, some, List, [], ◌∷◌, ◌++◌, ◌==◌, if◌then◌else◌,
  max,
}
use freemkv_engine.Ranges.{ByteRange, merge_byte_ranges, intersect, subtract}
use freemkv_engine.Mapfile.Status.{non_tried}
use freemkv_engine.Mapfile.State.{Mapfile, ranges_with, set_scope, clear_scope}
use freemkv_engine.Copy.{map_stats}
use freemkv_engine.LibError.{LibError, Variant, disc_read, is_read_fault}
use freemkv_engine.ReadError.{ReadCtx, Scsi}
use freemkv_engine.Section.State.{ReadAnswer}
use freemkv_engine.Sweep.{WorkItem}
use freemkv_engine.Patch.{SendAnswer}

abbrev pub scope_ranges : Option (List ByteRange) → List ByteRange
scope_ranges none = []
scope_ranges (some scope) = scope

abbrev pub is_unscoped : Option (List ByteRange) → Bool
is_unscoped none = true
is_unscoped (some scope) = false

-- The scope of a sweep, and the mapfile that it stamps it on.
abbrev pub resumes_whole : Bool → Mapfile → Bool
resumes_whole resume m =
    resume && is_unscoped m.scope && not ((map_stats m).bytes_pending == m.total_size)

unfoldable pub pass_scope :
    Bool → Option (List ByteRange) → Mapfile → Option (List ByteRange) × Mapfile
pass_scope resume none m = (none, clear_scope m)
pass_scope resume (some scope) m =
    let m' = set_scope m (scope ++ scope_ranges m.scope) in
    if resumes_whole resume m then (some (merge_byte_ranges scope), m) else (m'.scope, m')

-- The regions of a sweep: what no pass has read, inside the scope of the pass, less what an unsettled
-- rename keeps.
abbrev pub within_scope : Option (List ByteRange) → List ByteRange → List ByteRange
within_scope none regions = regions
within_scope (some scope) regions = intersect regions scope

unfoldable pub regions_of : Mapfile → Option (List ByteRange) → List ByteRange → List ByteRange
regions_of m scope skip =
    subtract (within_scope scope (ranges_with m.entries (non_tried ∷ []))) skip

-- `sweep_batch_sectors`, by the sectors of the format's ECC block.
abbrev pub default_batch_sectors_optical : ℕ
default_batch_sectors_optical = 60

unfoldable pub sweep_batch_sectors : Option ℕ → Bool → ℕ → ℕ
sweep_batch_sectors (some b) skip_on_error ecc_block = max b 1
sweep_batch_sectors none skip_on_error ecc_block =
    if skip_on_error then ecc_block else default_batch_sectors_optical

abbrev pub is_disc_read : Variant → Bool
is_disc_read disc_read = true
is_disc_read _ = false

-- `classify_pass_abort`, with the `DiscRead` at a block of the SCSI context of an error.
unfoldable pub classify_pass_abort : (ℕ → LibError → LibError) → LibError → ℕ → LibError
unfolding is_read_fault
classify_pass_abort anchored err block_lba =
    if is_disc_read err.variant
    then err
    else if is_read_fault err.variant
    then anchored block_lba err
    else err

-- What a sweep meets, by the turn of its read loop: a cancel before the read and at the report, what
-- the drive answers to a block (from its first sector, their number and the recovery flag) and when,
-- its bytes, the answers to the hand-offs of a block and of a gap, whether a pause is cut short, and
-- whether a stats request goes into the pipe. Beside it what does not change: where the reader lets a
-- block end, the errors that it makes, and the options.
pub record SweepEvents (Family : Type 0) : Type 0 where
  pub cancelled : ℕ → Bool
  pub cancelled_after : ℕ → Bool
  pub read_sectors : ℕ → ℕ → ℕ → Bool → ReadAnswer
  pub clock : ℕ → ℕ
  pub bytes : ℕ → ℕ → ℕ
  pub send : ℕ → SendAnswer
  pub send_gap : ℕ → SendAnswer
  pub slept : ℕ → ℕ → Bool
  pub asks_stats : ℕ → Bool
  pub unit_block_end : ℕ → ℕ → ℕ
  pub underrun : LibError
  pub anchored : ℕ → LibError → LibError
  pub scsi : Scsi Family
  pub batch : ℕ
  pub skip_on_error : Bool

-- The locals of the read loop, and the items that the consumer was sent.
pub record Producer (Family : Type 0) : Type 0 where
  pub read_ctx : ReadCtx Family
  pub bytes_done : ℕ
  pub bytes_good_done : ℕ
  pub speed : ℕ
  pub turn : ℕ
  pub items : List WorkItem

-- How the read loop ends: at the end of the regions, halted, or with `producer_err`; `stuck` is for a
-- model that runs out of fuel.
pub data Ending : Type 0 where
  completed halt_requested stuck : Ending
  producer_err : LibError → Ending

-- A turn of the loop goes on from a position, or ends the loop.
pub data Turn (Family : Type 0) : Type 0 where
  goes_on : ℕ → Producer Family → Turn Family
  ends : Ending → Producer Family → Turn Family
