-- ===== src/Mapfile/Identity.antt =====
-- The identity check of src/recovery/mapfile.rs: `check_identity`, `DiscIdentity` and
-- `stamp_identity`.
pub mod Stamp
use freemkv_engine.Base.{
  ℕ, ◌≡◌, refl, Bool, true, false, not, ◌&&◌, ◌||◌, Option, none, some, List, [], ◌∷◌, arith,
  if◌then◌else◌, nats_eq, nats_eq_self, nats_eq-true, sym, ap, ◌∙◌, Bool-cases, Option-cases, inl,
  inr,
}
use freemkv_engine.Mapfile.State.{
  Chars, Mapfile, Result, ok, err, invalid, disc_mismatch, set_disc_hash, set_vid_fingerprint,
  opt_eq,
}
use freemkv_engine.Mapfile.Load.{Library, has_keyfp, parse_disc_hash, vid_fingerprint}

-- `DiscIdentity`.
pub record DiscIdentity : Type 0 where
  pub disc_hash : Option Chars
  pub vidfp : Option (List ℕ)
  pub proven : List (List ℕ)

-- What `libfreemkv` answers of the disc in hand: `Disc::intrinsic_id` and `Disc::aacs_volume_id`,
-- and of the key set, if there is one: `KeyRing::vid_fingerprint` and `proven_key_fingerprints`.
pub record KeySet : Type 0 where
  pub vid_fingerprint : Option (List ℕ)
  pub proven_key_fingerprints : List (List ℕ)

pub record Disc : Type 0 where
  pub intrinsic_id : Option Chars
  pub aacs_volume_id : Option (List ℕ)

module _ (lib : Library) where
  -- `disc_vid_fingerprint`.
  abbrev pub disc_vid_fingerprint : Disc → Option KeySet → Option (List ℕ)
  disc_vid_fingerprint disc keys = elim disc.aacs_volume_id [
    | some id ↦ some (vid_fingerprint lib id)
    | none ↦ elim keys [ none ↦ none | some set ↦ set.vid_fingerprint ]
  ]

  -- `DiscIdentity::of`.
  abbrev pub identity_of : Disc → Option KeySet → DiscIdentity
  identity_of disc keys = record {
    disc_hash = elim disc.intrinsic_id [ none ↦ none | some id ↦ parse_disc_hash lib id ];
    vidfp = disc_vid_fingerprint disc keys;
    proven = elim keys [ none ↦ [] | some set ↦ set.proven_key_fingerprints ];
  }

  -- `stamp_identity`.
  abbrev pub stamp_hash : Option Chars → Mapfile → Mapfile
  stamp_hash none m = m
  stamp_hash (some hash) m = set_disc_hash (parse_disc_hash lib) m hash

  abbrev pub stamp_vidfp : Option (List ℕ) → Mapfile → Mapfile
  stamp_vidfp none m = m
  stamp_vidfp (some fp) m = set_vid_fingerprint m fp

  unfoldable pub stamp_identity : Mapfile → Disc → Option KeySet → Mapfile
  stamp_identity m disc keys =
      stamp_vidfp (disc_vid_fingerprint disc keys) (stamp_hash disc.intrinsic_id m)

-- Both known, and different.
abbrev pub conflicts : Option (List ℕ) → Option (List ℕ) → Bool
conflicts none d = false
conflicts (some m) none = false
conflicts (some m) (some d) = not (nats_eq m d)

-- `map.legacy_keyfps.iter().any(|f| disc.proven.contains(f))`.
unfoldable pub any_proven : List (List ℕ) → List (List ℕ) → Bool
any_proven [] proven = false
any_proven (f ∷ fps) proven = has_keyfp proven f || any_proven fps proven

abbrev pub is_nil : List (List ℕ) → Bool
is_nil [] = true
is_nil (f ∷ fps) = false

-- `check_identity`.
unfoldable pub check_identity : Mapfile → DiscIdentity → Result (Unit {0})
check_identity m disc =
    if conflicts m.disc_hash disc.disc_hash
    then err (invalid disc_mismatch)
    else if conflicts m.vidfp disc.vidfp
    then err (invalid disc_mismatch)
    else if not (is_nil m.legacy_keyfps)
        && not (is_nil disc.proven)
        && not (any_proven m.legacy_keyfps disc.proven)
    then err (invalid disc_mismatch)
    else ok tt
