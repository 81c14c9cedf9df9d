-- ===== src/Delivery/Statuses.antt =====
-- What the items that a consumer got leave in its mapfile (src/recovery/sweep.rs,
-- src/recovery/patch.rs).
use freemkv_engine.Base.{
  ℕ, ◌+◌, ◌≡◌, refl, ap, ◌∙◌, Bool, true, false, ◌||◌, Option, none, some, List, [], ◌∷◌, arith,
  if◌then◌else◌,
}
use freemkv_engine.Mapfile.Status.{
  SectorStatus, non_tried, non_trimmed, non_scraped, unreadable, finished,
}
use freemkv_engine.Mapfile.Entry.{MapEntry}
use freemkv_engine.Mapfile.Runs.{status_at, IsRuns}
use freemkv_engine.Mapfile.State.{Result, ok, err}
use freemkv_engine.Delivery.{Flow, continue, stop, after_apply, deliver, went_on, any_covers}

-- The status of a byte that a pass tried: recovered, or to be tried again.
abbrev pub is_settled : Option SectorStatus → Bool
is_settled none = false
is_settled (some non_tried) = false
is_settled (some non_trimmed) = true
is_settled (some non_scraped) = false
is_settled (some unreadable) = false
is_settled (some finished) = true

-- A consumer: the entries of its mapfile, the bytes of an item, and the status that it gives to them.
module _ {Item S : Type 0} (entries : S → List MapEntry) (covers : Item → ℕ → Bool)
    (status_of : Item → SectorStatus) where
  -- An item that went through gives its bytes its status, and changes no other.
  abbrev pub IsApplied : Item → ℕ → S → Result Flow × S → Type 0
  IsApplied item x s (r, s') =
      went_on r ≡ true
      → IsRuns 0 (entries s')
        × (status_at (entries s') x
            ≡ (if covers item x then some (status_of item) else status_at (entries s) x))

  -- The status of a byte after the items.
  abbrev last_status : List Item → ℕ → Option SectorStatus → Option SectorStatus
  last_status [] x old = old
  last_status (i ∷ is) x old = last_status is x (if covers i x then some (status_of i) else old)

  after_apply-status :
      (i : Item) (is : List Item) (x : ℕ) (s : S) (t : Result Flow × S) (rest : S → Result Flow × S)
      → IsApplied i x s t
      → ((s' : S)
          → IsRuns 0 (entries s')
          → went_on (rest s').0 ≡ true
          → status_at (entries (rest s').1) x ≡ last_status is x (status_at (entries s') x))
      → went_on (after_apply t rest).0 ≡ true
      → status_at (entries (after_apply t rest).1) x
        ≡ last_status (i ∷ is) x (status_at (entries s) x)
  after_apply-status i is x s (ok continue, s') rest a r h =
      r s' (a refl).0 h ∙ ap (last_status is x) (a refl).1
  after_apply-status i is x s (ok stop, s') rest a r h = cc
  after_apply-status i is x s (err e, s') rest a r h = cc

  last_status-is_settled :
      (items : List Item) (x : ℕ) (old : Option SectorStatus)
      → ((i : Item) → is_settled (some (status_of i)) ≡ true)
      → (any_covers covers items x || is_settled old) ≡ true
      → is_settled (last_status items x old) ≡ true
  unfolding any_covers
  last_status-is_settled [] x old settles h = h
  last_status-is_settled (i ∷ is) x old settles h =
      last_status-is_settled is x (if covers i x then some (status_of i) else old) settles
        (ground (arith, settles i))

  last_status_uncovered :
      (items : List Item) (x : ℕ) (old : Option SectorStatus)
      → any_covers covers items x ≡ false
      → last_status items x old ≡ old
  unfolding any_covers
  last_status_uncovered [] x old h = refl
  last_status_uncovered (i ∷ is) x old h =
      last_status_uncovered is x (if covers i x then some (status_of i) else old) (ground arith)
      ∙ ground arith

  module _ (apply : ℕ → Item → S → Result Flow × S) (x : ℕ)
      (applies : (n : ℕ) (i : Item) (s : S)
        → IsRuns 0 (entries s)
        → IsApplied i x s (apply n i s)) where
    deliver-status :
        (n : ℕ) (items : List Item) (s : S)
        → IsRuns 0 (entries s)
        → went_on (deliver apply n items s).0 ≡ true
        → status_at (entries (deliver apply n items s).1) x
          ≡ last_status items x (status_at (entries s) x)
    unfolding deliver
    deliver-status n [] s r h = refl
    deliver-status n (i ∷ is) s r h =
        after_apply-status i is x s (apply n i s) (deliver apply (n + 1) is) (applies n i s r)
          (λ s' r' h'. deliver-status (n + 1) is s' r' h') h

    -- Where every item settles its bytes, a byte of any is settled, and any other keeps its status.
    pub deliver-is_settled :
        (n : ℕ) (items : List Item) (s : S)
        → ((i : Item) → is_settled (some (status_of i)) ≡ true)
        → IsRuns 0 (entries s)
        → went_on (deliver apply n items s).0 ≡ true
        → (any_covers covers items x ≡ true
            → is_settled (status_at (entries (deliver apply n items s).1) x) ≡ true)
          × (any_covers covers items x ≡ false
              → status_at (entries (deliver apply n items s).1) x ≡ status_at (entries s) x)
    deliver-is_settled n items s settles r h =
        let old = status_at (entries s) x in
        let now = deliver-status n items s r h in
        (
          λ c. ap is_settled now ∙ last_status-is_settled items x old settles (ground arith),
          λ o. now ∙ last_status_uncovered items x old o,
        )
