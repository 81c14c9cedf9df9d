-- ===== src/Mapfile/Persist.antt =====
-- `Mapfile::write_locked`, `changed`, `flush` and the operations that persist, of
-- src/recovery/mapfile.rs.
pub mod Atomic
pub mod Steps
pub mod Disowned
use freemkv_engine.Base.{
  ℕ, ◌-◌, Bool, true, false, ◌||◌, Option, none, some, List, [], ◌∷◌, ltb, leb, ◌==◌, if◌then◌else◌,
  checked_add,
}
use freemkv_engine.Mapfile.Status.{SectorStatus, non_tried, contains}
use freemkv_engine.Mapfile.Entry.{MapEntry, zero_stats, compute_stats, push_coalesced}
use freemkv_engine.Mapfile.Splice.{splice_entries, splice_stats}
use freemkv_engine.Mapfile.State.{Chars, Mapfile, invalid, io, range, Result, ok, err}
use freemkv_engine.Mapfile.Render.{render}

-- `FLUSH_INTERVAL`, in milliseconds.
abbrev pub flush_interval : ℕ
flush_interval = 1000

-- The files at the mapfile's path and at its `.tmp` path.
pub record Disk : Type 0 where
  pub file : Option Chars
  pub tmp : Option Chars

-- What the file system and the other threads do during one write: the error that ends the tmp
-- write, and what it leaves there; whether a disown lands while the tmp file is written, and
-- whether one lands after the second check, before the rename; the error of the rename; whether
-- removing the tmp file works.
pub record WriteEvents : Type 0 where
  pub tmp_error : Option ℕ
  pub partial : Option Chars
  pub disowned_meanwhile : Bool
  pub disowned_at_rename : Bool
  pub rename_error : Option ℕ
  pub removal_works : Bool

-- The clock at the call and after its write, and the events of the write.
pub record Env : Type 0 where
  pub now : ℕ
  pub after : ℕ
  pub events : WriteEvents

-- A mapfile and its disk.
pub record World : Type 0 where
  pub map : Mapfile
  pub disk : Disk

abbrev pub Outcome : Type 0
Outcome = Result (Unit {0}) × World

abbrev pub remove_tmp : WriteEvents → Disk → Disk
remove_tmp ev d = if ev.removal_works then record d { tmp = none } else d

-- `write_locked`: the tmp file, the second disowned check, the rename, which a disown after that
-- check does not stop.
abbrev pub commit : WriteEvents → Chars → Disk → Result (Unit {0}) × Disk
commit ev text d =
    let written = record d { tmp = some text } in
    if ev.disowned_meanwhile then (ok tt, remove_tmp ev written) else elim ev.rename_error [
      | some e ↦ (err (io e), remove_tmp ev written)
      | none ↦ (ok tt, record { file = some text; tmp = none })
    ]

unfoldable pub write_locked : WriteEvents → Bool → Chars → Disk → Result (Unit {0}) × Disk
write_locked ev disowned text d = if disowned then (ok tt, d) else elim ev.tmp_error [
  | some e ↦ (err (io e), remove_tmp ev (record d { tmp = ev.partial }))
  | none ↦ commit ev text d
]

-- Whether a disown lands during a write.
abbrev pub lands_disown : WriteEvents → Bool
lands_disown ev = ev.disowned_meanwhile || ev.disowned_at_rename

-- `write_to_disk`, and the disown that may land during it.
unfoldable pub write_to_disk : Env → World → Outcome
unfolding write_locked
write_to_disk env w =
    let (r, d) = write_locked env.events w.map.disowned (render w.map) w.disk in
    (
      r,
      record {
        map = record w.map { disowned = w.map.disowned || lands_disown env.events };
        disk = d;
      },
    )

-- What follows a write in `changed` and `flush`.
abbrev pub settle : Env → Outcome → Outcome
settle env (ok _, w) =
    (ok tt, record w { map = record w.map { dirty = false; last_flushed = env.after } })
settle env (err e, w) = (err e, w)

-- `persist_due`.
abbrev pub persist_due : Env → Mapfile → Bool
persist_due env m = leb flush_interval (env.now - m.last_flushed)

-- `changed`.
unfoldable pub changed : Env → World → Outcome
unfolding write_to_disk
changed env w =
    let dirtied = record w { map = record w.map { dirty = true } } in
    if persist_due env w.map then settle env (write_to_disk env dirtied) else (ok tt, dirtied)

-- `flush`, which is also the body of `Drop`.
unfoldable pub flush : Env → World → Outcome
unfolding write_to_disk
flush env w = if w.map.dirty then settle env (write_to_disk env w) else (ok tt, w)

-- `splice` on the mapfile.
unfoldable pub splice : ℕ → ℕ → SectorStatus → Mapfile → Mapfile
unfolding splice_entries splice_stats
splice pos end status m = record m {
  entries = splice_entries pos end status m.entries;
  stats = splice_stats pos end status m.entries m.stats;
}

-- `record`; `record` itself is a reserved word here.
unfoldable pub record_range : Env → ℕ → ℕ → SectorStatus → World → Outcome
unfolding changed splice
record_range env pos size status w = if size == 0 then (ok tt, w) else elim (checked_add pos size) [
  | none ↦ (err (invalid range), w)
  | some end ↦ changed env (record w { map = splice pos end status w.map })
]

-- The loop of `promote` over the drained entries, with `merged` as its result.
abbrev pub promote_entry : List SectorStatus → SectorStatus → MapEntry → MapEntry
promote_entry from to e = if contains from e.status then record e { status = to } else e

unfoldable pub promote_loop :
    List SectorStatus → SectorStatus → List MapEntry → List MapEntry → List MapEntry
unfolding contains push_coalesced
promote_loop from to out [] = out
promote_loop from to out (e ∷ es) =
    promote_loop from to (push_coalesced out (promote_entry from to e)) es

unfoldable pub any_hit : List SectorStatus → List MapEntry → Bool
unfolding contains
any_hit from [] = false
any_hit from (e ∷ es) = contains from e.status || any_hit from es

-- `promote`.
unfoldable pub promote : Env → List SectorStatus → SectorStatus → World → Outcome
unfolding promote_loop any_hit changed compute_stats
promote env from to w =
    let m = w.map in
    let es = promote_loop from to [] m.entries in
    if any_hit from m.entries
    then changed env
        (record w { map = record m { entries = es; stats = compute_stats es m.total_size } })
    else (ok tt, record w { map = record m { entries = es } })

-- The mapfile that `create` writes: one untried run, or none for an empty image.
abbrev pub fresh : ℕ → Chars → ℕ → Mapfile
fresh total version now = record {
  entries = if ltb 0 total then record { pos = 0; size = total; status = non_tried } ∷ [] else [];
  total_size = total;
  version = version;
  stats = record (zero_stats total) { bytes_pending = total; bytes_nontried = total };
  dirty = false;
  last_flushed = now;
  disc_hash = none;
  vidfp = none;
  legacy_keyfps = [];
  scope = none;
  raw = none;
  disowned = false;
}

-- The last step of `create`: on success the clock is read once more.
abbrev pub created : Env → Outcome → Result World × Disk
created env (ok _, w) = (ok (record w { map = record w.map { last_flushed = env.after } }), w.disk)
created env (err e, w) = (err e, w.disk)

-- `create`: the new mapfile, if its first write went through, and the disk.
unfoldable pub create : Env → ℕ → Chars → Disk → Result World × Disk
unfolding write_to_disk
create env total version d =
    created env (write_to_disk env (record { map = fresh total version env.now; disk = d }))
