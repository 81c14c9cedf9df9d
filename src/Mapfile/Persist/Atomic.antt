-- ===== src/Mapfile/Persist/Atomic.antt =====
-- The commit of `write_locked`: what is at the path after any run of it, and what a clean mapfile
-- says of its file.
use freemkv_engine.Base.{ℕ, ◌≡◌, refl, Bool, true, false, ◌||◌, none, some, arith, if◌then◌else◌}
use freemkv_engine.Mapfile.State.{Chars, Mapfile, Result, ok, err}
use freemkv_engine.Mapfile.Render.{render, render_lines}
use freemkv_engine.Mapfile.Persist.{
  Disk, WriteEvents, Env, World, lands_disown, write_locked, changed, flush,
}

abbrev pub is_ok {ℓ} : {A : Type ℓ} → Result A → Bool
is_ok (ok _) = true
is_ok (err _) = false

-- A write leaves the old file whole, or replaces it by the whole new text. It is the old file after a
-- failure, and where the mapfile was disowned before the write or before the second check of it; else
-- it is the new text, also where a disown lands between that check and the rename.
pub write_locked_atomic :
    (ev : WriteEvents) (disowned : Bool) (text : Chars) (d : Disk)
    → let (r, d') = write_locked ev disowned text d in
      d'.file ≡ (
        if is_ok r
        then (if disowned || ev.disowned_meanwhile then d.file else some text)
        else d.file)
unfolding write_locked
write_locked_atomic ev disowned text d = ground arith

-- No write leaves a tmp file of its own behind, if removal works.
pub write_locked_cleans :
    (ev : WriteEvents) (text : Chars) (d : Disk)
    → ev.removal_works ≡ true
    → (write_locked ev false text d).1.tmp ≡ none
unfolding write_locked
write_locked_cleans ev text d h = ground arith

-- A clean mapfile that may write is on disk as it stands in memory.
abbrev pub IsSynced : World → Type 0
IsSynced w = w.map.dirty ≡ false → w.map.disowned ≡ false → w.disk.file ≡ some (render w.map)

render_same :
    (m : Mapfile) (dirty disowned : Bool) (t : ℕ)
    → render (record m { dirty = dirty; last_flushed = t; disowned = disowned }) ≡ render m
unfolding render render_lines
render_same m dirty disowned t = refl

-- `changed` leaves the mapfile dirty, disowned or on disk.
pub changed-IsSynced : (env : Env) (w : World) → IsSynced (changed env w).1
unfolding changed
changed-IsSynced env w clean owned = ground (
  arith,
  render_same w.map true w.map.disowned w.map.last_flushed,
  render_same w.map false (w.map.disowned || lands_disown env.events) env.after,
)

-- `flush` on a synced mapfile leaves it synced; one that succeeds leaves it clean.
pub flush-IsSynced :
    (env : Env) (w : World)
    → IsSynced w
    → IsSynced (flush env w).1 × (is_ok (flush env w).0 ≡ true → (flush env w).1.map.dirty ≡ false)
unfolding flush
flush-IsSynced env w s = (
  λ clean owned.
      ground
        (arith, s, render_same w.map false (w.map.disowned || lands_disown env.events) env.after),
  λ done. ground arith,
)
