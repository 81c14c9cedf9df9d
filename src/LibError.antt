-- ===== src/LibError.antt =====
-- `libfreemkv::error::Error` as src/recovery/mod.rs and src/recovery/read_error.rs see it: the
-- variants that they name, and what the methods that they call answer. The rest of libfreemkv is
-- not in this repository.
use freemkv_engine.Base.{ℕ, Bool, true, false, not, ◌&&◌, ◌||◌, Option}

-- The variants that the engine matches on; `other` is any further one.
pub data Variant : Type 0 where
  scsi_error disc_read io_error device_not_found no_disc_key whole_disc_key_missing halted
        pipeline_consumer_gone pipeline_join_timeout other :
      Variant

-- A SCSI sense triple.
pub record Sense : Type 0 where
  pub sense_key : ℕ
  pub asc : ℕ
  pub ascq : ℕ

-- An error with the answers of `scsi_sense`, `is_scsi_transport_failure`, `is_bridge_degradation`
-- and, on its sense, `is_unit_attention`.
pub record LibError : Type 0 where
  pub variant : Variant
  pub scsi_sense : Option Sense
  pub is_scsi_transport_failure : Bool
  pub is_bridge_degradation : Bool
  pub is_unit_attention : Bool

-- `is_read_fault`.
unfoldable pub is_read_fault : Variant → Bool
is_read_fault scsi_error = true
is_read_fault disc_read = true
is_read_fault io_error = true
is_read_fault device_not_found = true
is_read_fault _ = false

-- `is_key_stop`.
unfoldable pub is_key_stop : Variant → Bool
is_key_stop no_disc_key = true
is_key_stop whole_disc_key_missing = true
is_key_stop _ = false

abbrev pub is_halted : Variant → Bool
is_halted halted = true
is_halted _ = false

-- `is_damage_candidate`.
unfoldable pub is_damage_candidate : Variant → Bool
unfolding is_read_fault is_key_stop
is_damage_candidate v = not (is_key_stop v) && (is_read_fault v || is_halted v)
