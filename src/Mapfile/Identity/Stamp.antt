-- ===== src/Mapfile/Identity/Stamp.antt =====
-- What a mapfile that is stamped with a disc's identity answers to the identity check
-- (src/recovery/mapfile.rs).
use freemkv_engine.Base.{
  ℕ, ◌≡◌, refl, true, false, ◌||◌, Option, none, some, List, [], arith, nats_eq_self, nats_eq-true,
  sym, ap, ◌∙◌, Bool-cases, Option-cases, inl, inr,
}
use freemkv_engine.Mapfile.State.{
  Chars, Mapfile, ok, err, invalid, disc_mismatch, set_disc_hash, set_vid_fingerprint, opt_eq,
}
use freemkv_engine.Mapfile.Load.{Library, parse_disc_hash}
use freemkv_engine.Mapfile.Identity.{
  DiscIdentity, KeySet, Disc, identity_of, stamp_hash, stamp_vidfp, stamp_identity, conflicts,
  check_identity,
}

conflicts_self : (o : Option (List ℕ)) → conflicts o o ≡ false
conflicts_self none = refl
conflicts_self (some a) = rw (nats_eq_self a) refl

opt_eq-true : (a b : Option (List ℕ)) → opt_eq a b ≡ true → a ≡ b
opt_eq-true none none h = refl
opt_eq-true none (some b) h = cc
opt_eq-true (some a) none h = cc
opt_eq-true (some a) (some b) h = ap some (nats_eq-true a b h)

-- The identity that a stamp leaves: the disc's where it is known, else the old one.
abbrev pub known_or : Option (List ℕ) → Option (List ℕ) → Option (List ℕ)
known_or none old = old
known_or (some a) old = some a

set_disc_hash-disc_hash :
    (parse : Chars → Option Chars) (m : Mapfile) (hash : Chars)
    → (set_disc_hash parse m hash).disc_hash ≡ known_or (parse hash) m.disc_hash
unfolding set_disc_hash
set_disc_hash-disc_hash parse m hash = elim (Option-cases (parse hash)) [
  | inl unparsed ↦ rw (unparsed, set_disc_hash) refl
  | inr (h, parsed) ↦
      rw (parsed, set_disc_hash)
        (elim (Bool-cases (opt_eq (some h) m.disc_hash)) [
          | inl same ↦ rw same (sym (opt_eq-true (some h) m.disc_hash same))
          | inr new ↦ rw new refl
        ])
]

set_vid_fingerprint-vidfp : (m : Mapfile) (fp : List ℕ) → (set_vid_fingerprint m fp).vidfp ≡ some fp
unfolding set_vid_fingerprint
set_vid_fingerprint-vidfp m fp = elim (Bool-cases (opt_eq m.vidfp (some fp))) [
  | inl same ↦ rw same (opt_eq-true m.vidfp (some fp) same)
  | inr new ↦ rw new refl
]

conflicts-known_or : (o old : Option (List ℕ)) → conflicts (known_or o old) o ≡ false
conflicts-known_or none none = refl
conflicts-known_or none (some a) = refl
conflicts-known_or (some a) old = conflicts_self (some a)

conflicts_known :
    (o old other : Option (List ℕ))
    → conflicts o other ≡ true
    → conflicts (known_or o old) other ≡ true
conflicts_known none old other h = cc
conflicts_known (some a) old other h = h

stamp_hash-disc_hash :
    (lib : Library) (id : Option Chars) (m : Mapfile)
    → (stamp_hash lib id m).disc_hash
      ≡ known_or (elim id [ none ↦ none | some hash ↦ parse_disc_hash lib hash ]) m.disc_hash
stamp_hash-disc_hash lib none m = refl
stamp_hash-disc_hash lib (some hash) m = set_disc_hash-disc_hash (parse_disc_hash lib) m hash

stamp_hash-vidfp :
    (lib : Library) (id : Option Chars) (m : Mapfile)
    → ((stamp_hash lib id m).vidfp ≡ m.vidfp)
      × ((stamp_hash lib id m).legacy_keyfps ≡ m.legacy_keyfps)
unfolding set_disc_hash
stamp_hash-vidfp lib none m = (refl, refl)
stamp_hash-vidfp lib (some hash) m = (ground arith, ground arith)

stamp_vidfp-vidfp :
    (lib : Library) (o : Option (List ℕ)) (m : Mapfile)
    → ((stamp_vidfp lib o m).vidfp ≡ known_or o m.vidfp)
      × ((stamp_vidfp lib o m).disc_hash ≡ m.disc_hash)
      × ((stamp_vidfp lib o m).legacy_keyfps ≡ m.legacy_keyfps)
stamp_vidfp-vidfp lib none m = (refl, refl, refl)
stamp_vidfp-vidfp lib (some fp) m = (
  set_vid_fingerprint-vidfp m fp,
  unfold set_vid_fingerprint in ground arith,
  unfold set_vid_fingerprint in ground arith,
)

module _ (lib : Library) (m : Mapfile) (disc : Disc) (keys : Option KeySet) where
  abbrev stamped : Mapfile
  stamped = stamp_identity lib m disc keys

  abbrev hashed : Mapfile
  hashed = stamp_hash lib disc.intrinsic_id m

  abbrev own : DiscIdentity
  own = identity_of lib disc keys

  stamped-disc_hash : stamped.disc_hash ≡ known_or own.disc_hash m.disc_hash
  unfolding stamp_identity
  stamped-disc_hash =
      (stamp_vidfp-vidfp lib own.vidfp hashed).1 ∙ stamp_hash-disc_hash lib disc.intrinsic_id m

  stamped-vidfp : stamped.vidfp ≡ known_or own.vidfp m.vidfp
  unfolding stamp_identity
  stamped-vidfp =
      (stamp_vidfp-vidfp lib own.vidfp hashed).0
      ∙ ap (known_or own.vidfp) (stamp_hash-vidfp lib disc.intrinsic_id m).0

  stamped-legacy_keyfps : stamped.legacy_keyfps ≡ m.legacy_keyfps
  unfolding stamp_identity
  stamped-legacy_keyfps =
      (stamp_vidfp-vidfp lib own.vidfp hashed).2 ∙ (stamp_hash-vidfp lib disc.intrinsic_id m).1

  -- A mapfile without legacy key fingerprints, once it is stamped with a disc's identity, passes the
  -- check for that disc and keys.
  pub check_identity-stamp_identity :
      m.legacy_keyfps ≡ []
      → check_identity (stamp_identity lib m disc keys) (identity_of lib disc keys) ≡ ok tt
  unfolding check_identity
  check_identity-stamp_identity h =
      rw
        (
          stamped-disc_hash,
          conflicts-known_or own.disc_hash m.disc_hash,
          stamped-vidfp,
          conflicts-known_or own.vidfp m.vidfp,
          stamped-legacy_keyfps,
          h,
        )
        refl

  -- A mapfile that is stamped with a disc's identity is refused for any other identity whose known
  -- disc hash or volume fingerprint differs from the disc's known one.
  pub check_identity_foreign :
      (foreign : DiscIdentity)
      → (conflicts own.disc_hash foreign.disc_hash || conflicts own.vidfp foreign.vidfp) ≡ true
      → check_identity (stamp_identity lib m disc keys) foreign ≡ err (invalid disc_mismatch)
  unfolding check_identity
  check_identity_foreign foreign h =
      rw (stamped-disc_hash, stamped-vidfp)
        (ground (
          arith,
          conflicts_known own.disc_hash m.disc_hash foreign.disc_hash,
          conflicts_known own.vidfp m.vidfp foreign.vidfp,
        ))
