-- ===== src/Multipass/Ends.antt =====
-- How a recovery (src/multipass.rs) ends: what a complete one rests on.
use freemkv_engine.Base.{◌≡◌, Bool, true, false, none, some, [], ◌∷◌}
use freemkv_engine.Mapfile.Status.{unreadable}
use freemkv_engine.Mapfile.State.{Mapfile, Result, ok, ranges_with}
use freemkv_engine.Mapfile.Persist.{Disk, World, promote, flush}
use freemkv_engine.Mapfile.Persist.Atomic.{is_ok}
use freemkv_engine.Copy.{CopyResult, map_stats}
use freemkv_engine.Multipass.{
  promoted_from, LostTime, Passes, Meets, MultipassOpts, Progress, PassesEnd, over, Recovery,
  recovered, recovery_failed, run_passes, states_mode, passed, loss_verdict,
}

abbrev pub is_complete : {Ms : Type 0} → Recovery Ms → Bool
is_complete (recovered r d) = r.complete
is_complete (recovery_failed e d) = false

module _ {Ms : Type 0} (t : LostTime Ms) (run : Passes) (meets : Meets Ms)
    (opts : MultipassOpts) where
  -- The promotion of what is still to be tried, and the flush after it.
  abbrev promotion : Mapfile → Disk → Result (Unit {0}) × World
  promotion m d = promote meets.on_promote promoted_from unreadable (record { map = m; disk = d })

  abbrev flushed : Mapfile → Disk → Result (Unit {0}) × World
  flushed m d = flush meets.on_flush (promotion m d).1

  -- The passes are over without a Stop, the mapfile was read back, its promotion and the flush went
  -- through, its verdict does not abort, and nothing of it is unreadable or pending.
  pub record IsVouched (end : PassesEnd) : Type 0 where
    pub p : Progress
    pub m : Mapfile
    pub ended : end ≡ over p
    pub unhalted : p.halted ≡ false
    pub read : meets.load p.disk ≡ ok m
    pub promotes : is_ok (promotion m p.disk).0 ≡ true
    pub flushes : is_ok (flushed m p.disk).0 ≡ true
    pub unaborted :
        (loss_verdict t run meets opts
          (ranges_with (flushed m p.disk).1.map.entries (unreadable ∷ []))).aborts
        ≡ false
    pub readable : (map_stats (flushed m p.disk).1.map).bytes_unreadable ≡ 0
    pub nothing_pending : (map_stats (flushed m p.disk).1.map).bytes_pending ≡ 0

  -- What a complete recovery rests on, of several passes or of a single one.
  abbrev pub IsGrounded : Bool → Disk → Type 0
  IsGrounded true d = IsVouched (
      run_passes t run meets opts
        (elim opts.resume_sweep as (λ _. Bool) [
          | none ↦ states_mode t run meets opts (meets.load d)
          | some b ↦ b
        ])
        d)
  IsGrounded false d = (cr : CopyResult) × ((run.single d).0 ≡ passed cr) × (cr.complete ≡ true)
