-- ===== src/Copy/Refusal.antt =====
-- The copy dispatch (src/recovery/mod.rs) never touches an image that is another disc's.
use freemkv_engine.Base.{
  ◌≡◌, refl, ap, sym, ◌∙◌, Bool, true, false, not, ◌&&◌, Option, none, some, arith, ◌==◌,
}
use freemkv_engine.Mapfile.State.{Mapfile, Error, Result, ok, err, raw_eq}
use freemkv_engine.Mapfile.Entry.{MapStats}
use freemkv_engine.Mapfile.Persist.{Disk, Env}
use freemkv_engine.Mapfile.Identity.{check_identity}
use freemkv_engine.Copy.Widen.{widen-Widened}
use freemkv_engine.Copy.{
  Request, Dispatch, sweep, patch, done, failed, no_image, by_stats, by_map, by_widened,
  by_identity, widen, by_load, copy_titled, map_stats,
}

-- A pass over the image that is there: a resumed sweep, or a patch.
abbrev pub continues_image : Dispatch → Bool
continues_image (sweep resume) = resume
continues_image patch = true
continues_image _ = false

-- The image is left alone: no pass works on it, and a fresh sweep is started only where it is absent
-- or empty.
abbrev pub is_gone : Option Bool → Bool
is_gone none = false
is_gone (some gone) = gone

abbrev pub spares_image : Request → Dispatch → Bool
spares_image req (sweep resume) = not resume && is_gone (no_image req.image)
spares_image req patch = false
spares_image req (done r) = false
spares_image req (failed e) = true

module _ (is_invalid_data : Error → Bool) (req : Request) (env drop : Env) (m : Mapfile)
    (d : Disk) where
  by_stats-continues :
      (s : MapStats) (covers intact : Bool)
      → continues_image (by_stats req s covers intact) ≡ true
      → covers ≡ true
  unfolding by_stats
  by_stats-continues s covers intact h = ground arith

  by_map-continues :
      (n : Mapfile)
      → continues_image (by_map req n) ≡ true
      → ((n.total_size == req.capacity_bytes) ≡ true) × (raw_eq n.raw req.decrypt ≡ false)
  unfolding by_map
  by_map-continues n h = ground (
    arith,
    by_stats-continues (map_stats n) (n.total_size == req.capacity_bytes) true,
    by_stats-continues (map_stats n) (n.total_size == req.capacity_bytes) false,
  )

  widened_continues :
      (wd : Result Mapfile × Disk)
      → continues_image (by_widened req wd).0 ≡ true
      → (n : Mapfile) × (wd.0 ≡ ok n) × (continues_image (by_map req n) ≡ true)
  widened_continues (ok n, e) h = (n, refl, h)
  widened_continues (err n, e) h = cc

  copy_titled_accepts :
      continues_image (copy_titled is_invalid_data req env drop (some (ok m)) d).0 ≡ true
      → (check_identity m req.identity ≡ ok tt)
        × (continues_image (by_widened req (widen env drop m d)).0 ≡ true)
  unfolding copy_titled by_load by_identity
  copy_titled_accepts h = ground arith

  -- A pass that works on the image that is there (a resumed sweep or a patch) starts only for a
  -- mapfile that passes the identity check, covers the disc, and is not of the other raw mode.
  pub copy_titled_continues :
      continues_image (copy_titled is_invalid_data req env drop (some (ok m)) d).0 ≡ true
      → (check_identity m req.identity ≡ ok tt)
        × (m.total_size ≡ req.capacity_bytes)
        × (raw_eq m.raw req.decrypt ≡ false)
  copy_titled_continues h =
      let accepted = copy_titled_accepts h in
      let (n, widened, goes) = widened_continues (widen env drop m d) accepted.1 in
      let w = widen-Widened env drop m n d widened in
      let facts = by_map-continues n goes in
      (
        accepted.0,
        ground (arith, w.same_total, facts.0),
        ap (λ o. raw_eq o req.decrypt) (sym w.same_raw) ∙ facts.1,
      )
