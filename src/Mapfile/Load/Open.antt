-- ===== src/Mapfile/Load/Open.antt =====
-- `Mapfile::open_or_create` and `load_if_present` of src/recovery/mapfile.rs.
use freemkv_engine.Base.{ℕ, ◌≡◌, ◌≤◌, sym, false, ap, ap₂, ◌∙◌, Option, none, some}
use freemkv_engine.Mapfile.State.{Chars, Mapfile, Result, ok, err, not_found}
use freemkv_engine.Mapfile.Persist.{Disk, Env, World, create}
use freemkv_engine.Mapfile.Render.{render}
use freemkv_engine.Mapfile.Persist.Steps.{Reach, IsConsistent, Reach-IsConsistent}
use freemkv_engine.Mapfile.Load.{Library, load, utf8_length}
use freemkv_engine.Mapfile.Load.Headers.{ReadsHex}
use freemkv_engine.Mapfile.Load.Written.{IsWritable}
use freemkv_engine.Mapfile.Load.RoundTrip.{load-render}

-- What `open_or_create` does with the answer of `load`; the world keeps the disk that it read.
abbrev pub opened : Env → ℕ → Chars → Disk → Result Mapfile → Result World × Disk
opened env total version d (ok m) = (ok (record { map = m; disk = d }), d)
opened env total version d (err not_found) = create env total version d
opened env total version d (err e) = (err e, d)

-- `open_or_create`; a size that differs from the file's is only logged.
unfoldable pub open_or_create : Library → Env → Option ℕ → ℕ → Chars → Disk → Result World × Disk
open_or_create lib env open_error total version d =
    opened env total version d (load lib env.now open_error d.file)

-- What `load_if_present` makes of the answer of `load`.
abbrev pub if_present : Result Mapfile → Result (Option Mapfile)
if_present (ok m) = ok (some m)
if_present (err not_found) = ok none
if_present (err e) = err e

unfoldable pub load_if_present : Library → ℕ → Option ℕ → Option Chars → Result (Option Mapfile)
load_if_present lib now open_error file = if_present (load lib now open_error file)

same_flags :
    (m : Mapfile) (now : ℕ)
    → m.dirty ≡ false
    → m.disowned ≡ false
    → record m { dirty = false; last_flushed = now; disowned = false }
      ≡ record m { last_flushed = now }
same_flags m now clean owned =
    ap₂ (λ a b. record m { dirty = a; last_flushed = now; disowned = b }) (sym clean) (sym owned)

-- A restart after any operations on a consistent world: where the mapfile was left clean and is not
-- disowned, opening its path gives it back, with the time of the opening, and does not touch the
-- disk. The mapfile's values are such that its text is read back (`IsWritable`), the text is within
-- the limit of 256 MiB, and the hexadecimal parser reads back what `hex_lower` prints.
pub open_or_create-Reach :
    {w v : World} (lib : Library) (env : Env) (total : ℕ) (version : Chars)
    → ReadsHex lib
    → Reach w v
    → IsConsistent w
    → v.map.dirty ≡ false
    → v.map.disowned ≡ false
    → IsWritable v.map
    → utf8_length (render v.map) ≤ 268435456
    → open_or_create lib env none total version v.disk
      ≡ (ok (record v { map = record v.map { last_flushed = env.now } }), v.disk)
unfolding open_or_create
open_or_create-Reach {v = v} lib env total version reads r c clean owned w h =
    ap (λ file. opened env total version v.disk (load lib env.now none file))
      ((Reach-IsConsistent r c).synced clean owned)
    ∙ ap (opened env total version v.disk) (load-render lib env.now v.map reads w h)
    ∙ ap (λ m. (ok (record { map = m; disk = v.disk }), v.disk))
        (same_flags v.map env.now clean owned)
