-- ===== src/Section/Exact/Rules.antt =====
-- The rules for the pieces of a handler (src/recovery/section_recover.rs): a read with its claim, a
-- prime, a check, a sequence.
use freemkv_engine.Base.{
  ℕ, ◌*◌, ◌%◌, ◌≡◌, refl, sym, subst, Bool, true, false, ◌&&◌, ◌||◌, List, ◌∷◌, if◌then◌else◌,
  arith, leb, Bool-cases, inl, inr, if_cases,
}
use freemkv_engine.Ranges.{ByteRange, covered_by}
use freemkv_engine.SubRanges.{SubRanges, contains, remove}
use freemkv_engine.SubRanges.Removed.{contains-remove, remove-IsWell, contains_sector}
use freemkv_engine.Section.State.{
  ReadParams, HandlerOutcome, halted, remaining, Surroundings, Run, Exit, value, returned, M, pure,
  carry_on, ◌>>=◌, ◌>>◌, claim, verdict, sector,
}
use freemkv_engine.Section.Read.{
  ReadHit, good, bad, transport, fatal, read_span_as, read_span, prime_read, on_hit, stop_check,
  check_past, check_timed, as_value, advance,
}
use freemkv_engine.Section.Exact.{IsExact, IsKept, Holds, Ensures, Anything}
use freemkv_engine.Section.Exact.Reading.{DoesRead, read_span_as_lem}

module _ (section start : SubRanges) where
  claim-IsExact :
      (set : SubRanges) (handed : List ByteRange) (pos len : ℕ)
      → IsExact section start set handed
      → pos % 2048 ≡ 0
      → len % 2048 ≡ 0
      → IsExact section start (remove pos len set) ((pos, len) ∷ handed)
  unfolding covered_by
  claim-IsExact set handed pos len i a b = record {
    well = remove-IsWell 0 pos len set a b i.well;
    exact = λ x. ground (arith, contains-remove pos len set x, i.exact x);
    within = λ x o. ground (arith, contains-remove pos len set x, i.within x o);
  }

  -- A removal where nothing is left.
  void_claim-IsExact :
      (set : SubRanges) (handed : List ByteRange) (pos : ℕ)
      → IsExact section start set handed
      → pos % 2048 ≡ 0
      → contains set pos ≡ false
      → IsExact section start (remove pos 2048 set) handed
  void_claim-IsExact set handed pos i a h = record {
    well = remove-IsWell 0 pos 2048 set a refl i.well;
    exact = λ x.
        ground (
          arith,
          contains-remove pos 2048 set x,
          i.exact x,
          contains_sector 0 set pos x i.well a h,
        );
    within = λ x o. ground (arith, contains-remove pos 2048 set x, i.within x o);
  }

  -- The state before a claim that restores the invariant.
  abbrev pub IsPending : ℕ → ℕ → Run → Type 0
  IsPending pos len r = IsKept section start (record r { bad = remove pos len r.bad })

  same-IsKept :
      (r r' : Run)
      → IsKept section start r
      → r'.bad ≡ r.bad
      → r'.handed ≡ r.handed
      → r'.ctx.cur_speed ≡ r'.spindle
      → IsKept section start r'
  same-IsKept r r' k b h s = record {
    exact =
        subst (λ l. IsExact section start r'.bad l) (sym h)
          (subst (λ c. IsExact section start c r.handed) (sym b) k.exact);
    speed = s;
  }

  -- The two arms of a hit, from what the read did.
  after_read :
      {A : Type 0} (Q : A → Type 0) (pos bytes : ℕ) (commit : Bool) (r : Run) (h : ReadHit × Run)
      (m n : M A)
      → DoesRead pos bytes commit r h
      → IsKept section start r
      → ((r' : Run)
          → r'.bad ≡ r.bad
          → r'.ctx.cur_speed ≡ r'.spindle
          → pos % 2048 ≡ 0
          → r'.handed ≡ (if commit then (pos, bytes) ∷ r.handed else r.handed)
          → Holds (IsKept section start) Q (m r'))
      → Ensures (IsKept section start) Q n
      → Holds (IsKept section start) Q (carry_on (as_value h) (λ hit. on_hit hit m n))
  after_read Q pos bytes commit r (good, r') m n d k g b = g r' d.0 d.1 d.2 d.3
  after_read Q pos bytes commit r (bad, r') m n d k g b = b r' (same-IsKept r r' k d.0 d.2 d.1)
  after_read Q pos bytes commit r (transport, r') m n d k g b =
      (same-IsKept r r' k d.0 d.2 d.1, record { emptied = λ h. cc; carried = λ h. cc })
  after_read Q pos bytes commit r (fatal, r') m n d k g b =
      (same-IsKept r r' k d.0 d.2 d.1, record { emptied = λ h. cc; carried = λ h. d.3 })

  -- After a good read that was handed over, the claim restores the invariant.
  handed-IsPending :
      (pos len : ℕ) (r r' : Run)
      → IsKept section start r
      → len % 2048 ≡ 0
      → r'.bad ≡ r.bad
      → r'.ctx.cur_speed ≡ r'.spindle
      → pos % 2048 ≡ 0
      → r'.handed ≡ (pos, len) ∷ r.handed
      → IsPending pos len r'
  handed-IsPending pos len r r' k l b s a h = record {
    exact =
        subst (λ c. IsExact section start (remove pos len r'.bad) c) (sym h)
          (subst (λ c. IsExact section start (remove pos len c) ((pos, len) ∷ r.handed)) (sym b)
            (claim-IsExact r.bad r.handed pos len k.exact a l));
    speed = s;
  }

  module _ (env : Surroundings) (params : ReadParams) where
    pub read_rule :
        {A : Type 0} (Q : A → Type 0) (pos count span : ℕ) (m n : M A)
        → count * 2048 ≡ span
        → ((r : Run) → IsPending pos span r → Holds (IsKept section start) Q (m r))
        → Ensures (IsKept section start) Q n
        → Ensures
            (IsKept section start)
            Q
            (read_span env pos count params >>= λ hit. on_hit hit m n)
    unfolding read_span
    read_rule Q pos count span m n e g b r k =
        after_read Q pos span true r (read_span_as env pos count params true r) m n
          (read_span_as_lem env pos span true count params r e k.speed) k
          (λ r' c s a h. g r' (handed-IsPending pos span r r' k (omega arith) c s a h)) b

    -- A prime with its claim: a bad sector is recovered, any other is not bad.
    pub prime_rule :
        (pos : ℕ)
        → Ensures
            (IsKept section start)
            Anything
            (prime_read env pos params >>= λ hit. on_hit hit (claim pos sector) (pure tt))
    unfolding prime_read claim
    prime_rule pos r k = elim (Bool-cases (contains r.bad pos)) [
      | inl bad_sector ↦ rw bad_sector (
          after_read Anything pos 2048 true r (read_span_as env pos 1 params true r)
            (claim pos sector) (pure tt)
            (read_span_as_lem env pos 2048 true 1 params r refl k.speed) k
            (λ r' c s a h. (handed-IsPending pos 2048 r r' k refl c s a h, tt)) (λ r' k'. (k', tt)))
      | inr good_sector ↦ rw good_sector (
          after_read Anything pos 2048 false r (read_span_as env pos 1 params false r)
            (claim pos sector) (pure tt)
            (read_span_as_lem env pos 2048 false 1 params r refl k.speed) k
            (λ r' c s a h. (
              record {
                exact =
                    subst (λ l. IsExact section start (remove pos 2048 r'.bad) l) (sym h)
                      (subst (λ b. IsExact section start (remove pos 2048 b) r.handed) (sym c)
                        (void_claim-IsExact r.bad r.handed pos k.exact a good_sector));
                speed = s;
              },
              tt,
            ))
            (λ r' k'. (k', tt)))
    ]

    -- A prime with no claim, of a sector that is not bad from the start.
    pub cold_prime_rule :
        (pos : ℕ)
        → contains start pos ≡ false
        → Ensures
            (IsKept section start)
            Anything
            (prime_read env pos params >>= λ hit. on_hit hit (pure tt) (pure tt))
    unfolding prime_read
    cold_prime_rule pos o r k = rw (k.exact.within pos o) (
        after_read Anything pos 2048 false r (read_span_as env pos 1 params false r) (pure tt)
          (pure tt) (read_span_as_lem env pos 2048 false 1 params r refl k.speed) k
          (λ r' c s a h. (same-IsKept r r' k c h s, tt)) (λ r' k'. (k', tt)))

  stop_check_rule :
      (env : Surroundings) (yields : Bool) (deadline : ℕ)
      → Ensures (IsKept section start) Anything (stop_check env yields deadline)
  unfolding stop_check
  stop_check_rule env yields deadline r k =
      let P : Exit (Unit {0}) × Run → Type 0 = Holds (IsKept section start) Anything in
      let late = (yields && leb 4 r.ctx.unproductive) || leb deadline (env.clock r.turn) in
      let r' : Run = advance 1 r in
      let k' : IsKept section start r' = record { exact = k.exact; speed = k.speed } in
      let stop : HandlerOutcome → Exit (Unit {0}) × Run = λ o. (returned o, r') in
      if_cases P (env.halt r.turn) (stop halted) (if late then stop remaining else (value tt, r'))
        (k', record { emptied = λ h. cc; carried = λ h. cc })
        (if_cases P late (stop remaining) (value tt, r')
          (k', record { emptied = λ h. cc; carried = λ h. cc }) (k', tt))

  pub check_past_rule :
      (env : Surroundings) (deadline : ℕ)
      → Ensures (IsKept section start) Anything (check_past env deadline)
  unfolding check_past
  check_past_rule env deadline = stop_check_rule env true deadline

  pub check_timed_rule :
      (env : Surroundings) (deadline : ℕ)
      → Ensures (IsKept section start) Anything (check_timed env deadline)
  unfolding check_timed
  check_timed_rule env deadline = stop_check_rule env false deadline

  pub verdict_rule : Ensures (IsKept section start) (λ _. ⊥) verdict
  unfolding verdict
  verdict_rule r k = (k, record { emptied = λ h. ground arith; carried = λ h. ground arith })

  pub claim_rule :
      (pos len : ℕ) (r : Run)
      → IsPending pos len r
      → Holds (IsKept section start) Anything (claim pos len r)
  unfolding claim
  claim_rule pos len r p = (p, tt)

  -- A claim, then what follows it.
  pub claim_then_rule :
      {A : Type 0} (Q : A → Type 0) (pos len : ℕ) (m : M A)
      → Ensures (IsKept section start) Q m
      → (r : Run) → IsPending pos len r
      → Holds (IsKept section start) Q ((claim pos len >> m) r)
  unfolding claim
  claim_then_rule Q pos len m e r p = e (record r { bad = remove pos len r.bad }) p
