-- ===== src/SupplyGuard/Ceiling.antt =====
-- What a step of the supply guard may write, and when it lifts a ceiling.
use ha_spark.Prelude.{
  ℕ, ◌≤◌, ◌≡◌, inl, inr, Bool, true, false, Option-cases, if_both, or_else, refl, arith,
  if◌then◌else◌,
}
use ha_spark.Float.{Float, zero_f, max_f}
use ha_spark.Authority.{Instant}
use ha_spark.Tripwire.{Stamp, aware, naive}
use ha_spark.SupplyGuard.{
  GuardState, GuardInputs, GuardDecision, mirror_permits, max_restores, asks, readings, step,
  step_at, total, on_missing, on_reading, conclude, dormant, new_day, cut_over, restore,
  clear_observed, count_report,
}

module _ {ℓ} {F : Type ℓ} ⦃f : Float F⦄ where
  -- What a write shows of the state that it ends in.
  abbrev pub MayWrite : GuardInputs F → GuardState F × GuardDecision F → Type 0
  MayWrite i r =
      r.1.write ≡ true
      → (i.observe_only ≡ false) × (mirror_permits i.mirror ≡ true) × (asks i ≡ true)

  conclude-MayWrite :
      (s : GuardState F) (i : GuardInputs F) (changed fresh_now : Bool)
      → MayWrite i (conclude s i changed fresh_now)
  unfolding conclude
  conclude-MayWrite s i changed fresh_now h = (ground arith, ground arith, ground arith)

  -- A step writes to the device only for a site that is not merely observed, under a mirror that
  -- permits it, and for a request above zero.
  pub step-MayWrite :
      (s : GuardState F) (i : GuardInputs F) (now : Stamp) (today : ℕ)
      → MayWrite i (step s i now today)
  unfolding step step_at
  step-MayWrite s i naive today = λ h. ground (arith, h)
  step-MayWrite s i (aware now) today = elim (Option-cases (dormant i)) [
    | inr (reason, e) ↦ rw (e, step, step_at) (λ h. ground (arith, h))
    | inl e ↦ (elim (Option-cases (readings i now)) [
      | inl m ↦
          let r = on_missing (new_day (or_else i.household_day today) s) i now in
          rw (e, m, step, step_at) (conclude-MayWrite r.0 i r.1 false)
      | inr ((import_w, at, reported), m) ↦
          let r =
            on_reading (new_day (or_else i.household_day today) s) i import_w at reported now in
          rw (e, m, step, step_at) (conclude-MayWrite r.0 i r.1 true)
    ])
  ]

  abbrev pub InBudget : GuardState F → Type 0
  InBudget s = s.restores_used ≤ max_restores

  new_day-InBudget : (day : ℕ) (s : GuardState F) → InBudget s → InBudget (new_day day s)
  unfolding new_day
  new_day-InBudget day s h = ground (arith, h)

  missing-InBudget :
      (s : GuardState F) (i : GuardInputs F) (now : Instant)
      → InBudget s
      → InBudget (on_missing s i now).0
  unfolding on_missing
  missing-InBudget s i now h = ground (arith, h)

  count-same :
      (s : GuardState F) (limit_w import_w : F) (at reported : Instant)
      → (count_report s limit_w import_w at reported).restores_used ≡ s.restores_used
  unfolding count_report
  count-same s limit_w import_w at reported = refl

  cut-InBudget :
      (s : GuardState F) (i : GuardInputs F) (available : F)
      → InBudget s
      → InBudget (cut_over s i available).0
  unfolding cut_over
  cut-InBudget s i available h = ground (arith, h)

  clear-InBudget :
      (s : GuardState F) (limit_w import_w : F) (now : Instant)
      → InBudget s
      → InBudget (clear_observed s limit_w import_w now).0
  unfolding clear_observed
  clear-InBudget s limit_w import_w now h = ground (arith, h)

  restore-InBudget :
      (s : GuardState F) (i : GuardInputs F) (available_w : F) (now : Instant)
      → InBudget s
      → InBudget (restore s i available_w now).0
  unfolding restore
  restore-InBudget s i available_w now h = ground (arith, h)

  reading-InBudget :
      (s : GuardState F) (i : GuardInputs F) (import_w : F) (at reported now : Instant)
      → InBudget s
      → InBudget (on_reading s i import_w at reported now).0
  unfolding on_reading
  reading-InBudget s i import_w at reported now h =
      let limit_w = f.mul i.limit_kw (f.of_nat 1000) in
      let other_w = f.sub import_w (total zero_f i.measurements) in
      let available_w =
        if f.is_finite other_w then max_f zero_f (f.sub limit_w other_w) else zero_f in
      let counted = count_report s limit_w import_w at reported in
      let held = (cut_over counted i (f.div available_w (f.of_nat 1000))).0 in
      let kept : InBudget held =
        cut-InBudget counted i (f.div available_w (f.of_nat 1000))
          (rw (count-same s limit_w import_w at reported) h) in
      if_both (λ (x : GuardState F × Bool). InBudget x.0) i.observe_only
        (clear_observed held limit_w import_w now) (restore held i available_w now)
        (clear-InBudget held limit_w import_w now kept)
        (restore-InBudget held i available_w now kept)

  conclude-same :
      (s : GuardState F) (i : GuardInputs F) (changed fresh_now : Bool)
      → (conclude s i changed fresh_now).0.restores_used ≡ s.restores_used
  unfolding conclude
  conclude-same s i changed fresh_now = ground arith

  -- A step never takes the restores that are used beyond the daily budget of 48.
  pub step-InBudget :
      (s : GuardState F) (i : GuardInputs F) (now : Stamp) (today : ℕ)
      → InBudget s
      → InBudget (step s i now today).0
  unfolding step step_at
  step-InBudget s i naive today h = h
  step-InBudget s i (aware now) today h =
      let s' = new_day (or_else i.household_day today) s in
      let h' : InBudget s' = new_day-InBudget (or_else i.household_day today) s h in
      elim (Option-cases (dormant i)) [
        | inr (reason, e) ↦ rw (e, step, step_at) h'
        | inl e ↦ (elim (Option-cases (readings i now)) [
          | inl m ↦
              let r = on_missing s' i now in
              rw (e, m, step, step_at, conclude-same r.0 i r.1 false) (missing-InBudget s' i now h')
          | inr ((import_w, at, reported), m) ↦
              let r = on_reading s' i import_w at reported now in
              rw (e, m, step, step_at, conclude-same r.0 i r.1 true)
                (reading-InBudget s' i import_w at reported now h')
        ])
      ]
