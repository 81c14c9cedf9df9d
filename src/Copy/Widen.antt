-- ===== src/Copy/Widen.antt =====
-- What widening a scoped mapfile keeps (src/recovery/mod.rs).
use freemkv_engine.Base.{
  ◌≡◌, refl, ap, sym, subst, ◌∙◌, none, some, List, arith, inl, inr, Option-cases,
}
use freemkv_engine.Ranges.{ByteRange}
use freemkv_engine.Mapfile.State.{Mapfile, Result, ok, err, clear_scope}
use freemkv_engine.Mapfile.Persist.{Disk, Env, World, flush, write_to_disk}
use freemkv_engine.Mapfile.Record.{SameMap, flush-SameMap}
use freemkv_engine.Copy.{widen, widen_from, after_flush}

-- What widening keeps.
pub record Widened (m n : Mapfile) : Type 0 where
  pub same_entries : n.entries ≡ m.entries
  pub same_stats : n.stats ≡ m.stats
  pub same_total : n.total_size ≡ m.total_size
  pub same_raw : n.raw ≡ m.raw
  pub unscoped : n.scope ≡ none

flush_keeps :
    (env : Env) (w : World)
    → ((flush env w).1.map.raw ≡ w.map.raw) × ((flush env w).1.map.scope ≡ w.map.scope)
unfolding flush write_to_disk
flush_keeps env w = (ground arith, ground arith)

clear_scope-Widened : (m : Mapfile) → Widened m (clear_scope m)
unfolding clear_scope
clear_scope-Widened m = record {
  same_entries = ground arith;
  same_stats = ground arith;
  same_total = ground arith;
  same_raw = ground arith;
  unscoped = ground arith;
}

after_flush-ok :
    (drop : Env) (r : Result (Unit {0}) × World) (n : Mapfile)
    → (after_flush drop r).0 ≡ ok n
    → r.1.map ≡ n
after_flush-ok drop (ok _, w) n h = cc
after_flush-ok drop (err e, w) n h = cc

unscoped_Widened : (m : Mapfile) → m.scope ≡ none → Widened m m
unscoped_Widened m h = record {
  same_entries = refl;
  same_stats = refl;
  same_total = refl;
  same_raw = refl;
  unscoped = h;
}

same_Widened :
    (m n o : Mapfile) → Widened m n → SameMap n o → o.raw ≡ n.raw → o.scope ≡ n.scope → Widened m o
same_Widened m n o w s r c = record {
  same_entries = s.same_entries ∙ w.same_entries;
  same_stats = s.same_stats ∙ w.same_stats;
  same_total = s.same_total ∙ w.same_total;
  same_raw = r ∙ w.same_raw;
  unscoped = c ∙ w.unscoped;
}

flushed_Widened :
    (env : Env) (m : Mapfile) (d : Disk)
    → Widened m (flush env (record { map = clear_scope m; disk = d })).1.map
flushed_Widened env m d =
    let w : World = record { map = clear_scope m; disk = d } in
    same_Widened m (clear_scope m) (flush env w).1.map (clear_scope-Widened m) (flush-SameMap env w)
      (flush_keeps env w).0 (flush_keeps env w).1

widen_whole :
    (env drop : Env) (m : Mapfile) (d : Disk) → m.scope ≡ none → widen env drop m d ≡ (ok m, d)
unfolding widen
widen_whole env drop m d h = ap (λ o. widen_from o env drop m d) h

widen_scoped :
    (env drop : Env) (m : Mapfile) (d : Disk) (s : List ByteRange)
    → m.scope ≡ some s
    → widen env drop m d ≡ after_flush drop (flush env (record { map = clear_scope m; disk = d }))
unfolding widen
widen_scoped env drop m d s h = ap (λ o. widen_from o env drop m d) h

ok_injective : (m n : Mapfile) → ok m ≡ ok n → m ≡ n
ok_injective m n h = cc

pub widen-Widened :
    (env drop : Env) (m n : Mapfile) (d : Disk) → (widen env drop m d).0 ≡ ok n → Widened m n
widen-Widened env drop m n d h = elim (Option-cases m.scope) [
  | inl whole ↦
      subst (Widened m)
        (ok_injective m n (ap (λ r. r.0) (sym (widen_whole env drop m d whole)) ∙ h))
        (unscoped_Widened m whole)
  | inr (s, scoped) ↦
      subst (Widened m)
        (after_flush-ok drop (flush env (record { map = clear_scope m; disk = d })) n
          (ap (λ r. r.0) (sym (widen_scoped env drop m d s scoped)) ∙ h))
        (flushed_Widened env m d)
]
