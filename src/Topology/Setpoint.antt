-- ===== src/Topology/Setpoint.antt =====
-- Setpoints are rounded down, within the request and the ceiling.
use ha_spark.Prelude.{
  Bool, or_else, guarded_some, true, false, not, ◌&&◌, ◌||◌, Option, none, some, if◌then◌else◌,
  str_eq, arith, ◌≡◌, ap,
}
use mathlib.Core.Path.{subst}
use ha_spark.Float.{Float, min_f, zero_f}
use ha_spark.Float.Order.{OrderLaws, NotAbove, min_left, min_right, min_finite, NotAbove-trans}
use ha_spark.Topology.{
  Inverter, InverterLimits, driver_capabilities, setpoint_a, charge_ceiling, charge_setpoint_a,
  is_amount, commanded, with_step,
}

module _ {ℓ} {F : Type ℓ} ⦃f : Float F⦄ (laws : OrderLaws F) where
  -- A setpoint is above neither the request nor the limit.
  pub setpoint_bounded :
      (quantise : F → F → F) (requested limit step result : F)
      → setpoint_a quantise requested limit step ≡ some result
      → NotAbove laws result requested × NotAbove laws result limit × (f.is_finite requested ≡ true)
  unfolding setpoint_a
  setpoint_bounded quantise requested limit step result h =
      let ceiling = min_f requested limit in
      let (ok, e) =
        guarded_some
          (not (is_amount requested && is_amount limit && is_amount step) || f.eq step zero_f)
          (min_f (quantise ceiling step) ceiling) result h in
      let finite : f.is_finite requested ≡ true = ground (arith, ok) in
      let below =
        subst (λ r. NotAbove laws r ceiling) e (min_right laws (quantise ceiling step) ceiling) in
      let ceiling_finite = min_finite laws requested limit finite (ground (arith, ok)) in
      (
        NotAbove-trans laws result ceiling requested ceiling_finite below
            (min_left laws requested limit),
        NotAbove-trans laws result ceiling limit ceiling_finite below
            (min_right laws requested limit),
        finite,
      )

  commanded-some : (o : Option F) (r : F) → commanded o ≡ some (some r) → o ≡ some r
  commanded-some none r h = ground (arith, h)
  commanded-some (some a) r h = ap (λ o. or_else o none) h

  step_bounded :
      (quantise : F → F → F) (requested ceiling result : F) (native : Bool) (o : Option F)
      → with_step quantise requested ceiling native o ≡ some (some result)
      → NotAbove laws result requested
        × NotAbove laws result ceiling
        × (f.is_finite requested ≡ true)
  step_bounded quantise requested ceiling result native none h = ground (arith, h)
  step_bounded quantise requested ceiling result native (some step) h =
      let step' = if native then f.div (f.of_nat 1) (f.of_nat 10) else step in
      setpoint_bounded quantise requested ceiling step' result
        (commanded-some (setpoint_a quantise requested ceiling step') result h)

  guarded_result :
      (b : Bool) (o : Option (Option F)) (r : F)
      → (if b then none else o) ≡ some (some r)
      → o ≡ some (some r)
  guarded_result true o r h = ground (arith, h)
  guarded_result false o r h = h

  -- The setpoint of an inverter is above neither the request nor the inverter's ceiling.
  pub charge_bounded :
      (quantise : F → F → F) (requested result : F) (i : Inverter F) (limits : InverterLimits F)
      → charge_setpoint_a quantise requested i limits ≡ some (some result)
      → NotAbove laws result requested
        × NotAbove laws result (charge_ceiling i limits)
        × (f.is_finite requested ≡ true)
  unfolding charge_setpoint_a
  charge_bounded quantise requested result i limits h =
      let step = (driver_capabilities i.driver_kind).setpoint_step_a in
      step_bounded quantise requested (charge_ceiling i limits) result i.native step (
        guarded_result (not (str_eq i.id limits.id && str_eq i.bank_id limits.bank_id))
          (with_step quantise requested (charge_ceiling i limits) i.native step) result h)
