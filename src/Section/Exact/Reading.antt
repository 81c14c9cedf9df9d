-- ===== src/Section/Exact/Reading.antt =====
-- What one read does to the state of a handler: `read_span_as` of src/recovery/section_recover.rs.
use freemkv_engine.Base.{
  ℕ, ◌*◌, ◌%◌, ◌≡◌, refl, sym, subst, ◌∙◌, ap, Bool, true, false, not, ◌||◌, Option, none, some,
  ◌∷◌, if◌then◌else◌, arith, ◌==◌, if_cases, if_split,
}
use freemkv_engine.LibError.{LibError}
use freemkv_engine.Section.State.{
  ReadParams, kbs, ReadAnswer, transferred, failed, Surroundings, Run,
}
use freemkv_engine.Section.Read.{
  ReadHit, good, bad, transport, fatal, require_full_read, hand_over, answer_hit, failed_hit,
  wedge_watch, count_hit, read_span_as, next_turn, set_speed, advance,
}
use freemkv_engine.Section.Exact.{is_set}

-- What a read may do to the state, by its hit.
abbrev pub DoesRead : ℕ → ℕ → Bool → Run → ReadHit × Run → Type 0
DoesRead pos bytes commit r (good, r') =
    (r'.bad ≡ r.bad)
    × (r'.ctx.cur_speed ≡ r'.spindle)
    × (pos % 2048 ≡ 0)
    × (r'.handed ≡ (if commit then (pos, bytes) ∷ r.handed else r.handed))
DoesRead pos bytes commit r (bad, r') =
    (r'.bad ≡ r.bad) × (r'.ctx.cur_speed ≡ r'.spindle) × (r'.handed ≡ r.handed)
DoesRead pos bytes commit r (transport, r') =
    (r'.bad ≡ r.bad) × (r'.ctx.cur_speed ≡ r'.spindle) × (r'.handed ≡ r.handed)
DoesRead pos bytes commit r (fatal, r') =
    (r'.bad ≡ r.bad)
    × (r'.ctx.cur_speed ≡ r'.spindle)
    × (r'.handed ≡ r.handed)
    × (is_set r'.ctx.fatal ≡ true)

module _ (env : Surroundings) (pos bytes : ℕ) (commit : Bool) where
  failed_hit_lem :
      (started : ℕ) (e : LibError) (r : Run)
      → r.ctx.cur_speed ≡ r.spindle
      → DoesRead pos bytes commit r (failed_hit env started e r)
  unfolding failed_hit wedge_watch
  failed_hit_lem started e r s = ground arith

  hand_over_lem :
      (refusal : Option LibError) (r : Run)
      → r.ctx.cur_speed ≡ r.spindle
      → pos % 2048 ≡ 0
      → DoesRead pos bytes true r (hand_over refusal pos bytes r)
  hand_over_lem none r s a = (refl, s, a, refl)
  hand_over_lem (some e) r s a = (refl, s, refl, refl)

  answer_hit_lem :
      (started : ℕ) (answer : ReadAnswer) (r : Run)
      → r.ctx.cur_speed ≡ r.spindle
      → pos % 2048 ≡ 0
      → DoesRead pos bytes commit r (answer_hit env started pos bytes commit answer r)
  answer_hit_lem started (transferred n) r s a =
      if_cases (DoesRead pos bytes commit r) (n == bytes)
        (if commit then hand_over (env.refusal r.turn) pos bytes r else (good, r))
        (bad, record r { ctx = record r.ctx { wedge_streak = 0 } })
        (elim commit
          as (λ c.
            DoesRead pos bytes c r
              (if c then hand_over (env.refusal r.turn) pos bytes r else (good, r))) [
                | true ↦ hand_over_lem (env.refusal r.turn) r s a
                | false ↦ (refl, s, a, refl)
              ])
        (refl, s, refl)
  answer_hit_lem started (failed e) r s a = failed_hit_lem started e r s

  count_hit_lem :
      (r : Run) (h : ReadHit × Run)
      → DoesRead pos bytes commit r h
      → DoesRead pos bytes commit r (next_turn (count_hit commit h))
  count_hit_lem r (good, r') d = d
  count_hit_lem r (bad, r') d = d
  count_hit_lem r (transport, r') d = d
  count_hit_lem r (fatal, r') d = d

  set_speed_lem :
      (want : ℕ) (r : Run)
      → r.ctx.cur_speed ≡ r.spindle
      → ((set_speed want r).bad ≡ r.bad)
        × ((set_speed want r).handed ≡ r.handed)
        × ((set_speed want r).ctx.cur_speed ≡ (set_speed want r).spindle)
  set_speed_lem want r s = ground arith

  same_DoesRead :
      (r r' : Run) (h : ReadHit × Run)
      → r'.bad ≡ r.bad
      → r'.handed ≡ r.handed
      → DoesRead pos bytes commit r' h
      → DoesRead pos bytes commit r h
  same_DoesRead r r' (good, r'') b h d =
      (d.0 ∙ b, d.1, d.2, d.3 ∙ ap (λ l. if commit then (pos, bytes) ∷ l else l) h)
  same_DoesRead r r' (bad, r'') b h d = (d.0 ∙ b, d.1, d.2 ∙ h)
  same_DoesRead r r' (transport, r'') b h d = (d.0 ∙ b, d.1, d.2 ∙ h)
  same_DoesRead r r' (fatal, r'') b h d = (d.0 ∙ b, d.1, d.2 ∙ h, d.3)

  pub read_span_as_lem :
      (count : ℕ) (params : ReadParams) (r : Run)
      → count * 2048 ≡ bytes
      → r.ctx.cur_speed ≡ r.spindle
      → DoesRead pos bytes commit r (read_span_as env pos count params commit r)
  unfolding read_span_as
  read_span_as_lem count params r e s =
      let asked = advance 1 (set_speed (kbs params.speed) r) in
      let kept = set_speed_lem (kbs params.speed) r s in
      let answer = require_full_read env.underrun (count * 2048) (env.read r.turn) in
      let hit = answer_hit env (env.clock r.turn) pos (count * 2048) commit answer asked in
      if_split (DoesRead pos bytes commit r) (count == 0 || not (pos % 2048 == 0)) (bad, r)
        (next_turn (count_hit commit hit)) (λ _. (refl, s, refl))
        (λ aligned. count_hit_lem r hit (
          same_DoesRead r asked hit kept.0 kept.1 (
            subst
              (λ b.
                DoesRead pos bytes commit asked
                  (answer_hit env (env.clock r.turn) pos b commit answer asked))
              (sym e) (answer_hit_lem (env.clock r.turn) answer asked kept.2 (ground arith)))))
