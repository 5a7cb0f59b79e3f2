-- ===== src/Clamp/Bounded.antt =====
-- The clamp narrows: its result is above none of the limits.
use ha_spark.Prelude.{
  or_else, Bool-cases, some, true, Option, none, arith, ◌≡◌, refl, ap, ◌&&◌, inl, inr,
}
use mathlib.Core.Path.{subst}
use ha_spark.Float.{Float, min_f, zero_f}
use ha_spark.Float.Order.{OrderLaws, NotAbove, NotAbove-trans, min_left, min_right, min_finite}
use ha_spark.Topology.{charge_ceiling, charge_setpoint_a}
use ha_spark.Topology.Setpoint.{charge_bounded}
use ha_spark.Clamp.{
  DeviceIntent, ClampInputs, Found, as_current, own_request, share_ceiling, narrowed, lookups,
  with_current, clamp_found, clamp_intent,
}

module _ {ℓ} {F : Type ℓ} ⦃f : Float F⦄ (laws : OrderLaws F) where
  none-some : {A : Type ℓ} {a : A} → none ≡ some a → ⊥
  none-some h = ground (arith, h)

  as_current_finite : (a : F) → f.is_finite (as_current a) ≡ true
  as_current_finite a = elim (Bool-cases (f.is_finite a && f.le zero_f a)) [
    | inl e ↦ rw (e) (ground (arith, e))
    | inr e ↦ rw (e) laws.finite_zero
  ]

  -- The least of three is above none of the first two.
  min_min :
      (a b c : F)
      → f.is_finite a ≡ true
      → f.is_finite b ≡ true
      → NotAbove laws (min_f (min_f a b) c) a × NotAbove laws (min_f (min_f a b) c) b
  min_min a b c h k =
      let finite = min_finite laws a b h k in
      let below = min_left laws (min_f a b) c in
      (
        NotAbove-trans laws (min_f (min_f a b) c) (min_f a b) a finite below (min_left laws a b),
        NotAbove-trans laws (min_f (min_f a b) c) (min_f a b) b finite below (min_right laws a b),
      )

  -- What the clamp promises of its result.
  pub record IsBounded (c : ClampInputs F) (intent result : DeviceIntent F) : Type ℓ where
    pub found : Found F
    pub looked_up : lookups c intent ≡ some found
    pub same_inverter : result.inverter_id ≡ intent.inverter_id
    pub same_bank : result.bank_id ≡ intent.bank_id
    pub requested : NotAbove laws result.charge_a (as_current intent.charge_a)
    pub counted : NotAbove laws result.charge_a (own_request c found.inverter.id)
    pub shared : NotAbove laws result.charge_a (share_ceiling c found)
    pub limited : NotAbove laws result.charge_a (charge_ceiling found.inverter found.limit)

  with_current-some :
      (intent result : DeviceIntent F) (o : Option (Option F))
      → with_current intent o ≡ some (some result)
      → (a : F) × (o ≡ some (some a)) × (record intent { charge_a = a } ≡ result)
  with_current-some intent result none h = ground (arith, h)
  with_current-some intent result (some none) h = absurd (none-some (ap (λ o. or_else o none) h))
  with_current-some intent result (some (some a)) h =
      (a, refl, ap (λ o. or_else o result) (ap (λ o. or_else o none) h))

  found-IsBounded :
      (quantise : F → F → F) (c : ClampInputs F) (intent result : DeviceIntent F)
      (o : Option (Found F))
      → lookups c intent ≡ o
      → clamp_found quantise c intent o ≡ some (some result)
      → IsBounded c intent result
  found-IsBounded quantise c intent result none l h =
      absurd (none-some (ap (λ o. or_else o none) h))
  found-IsBounded quantise c intent result (some x) l h =
      let (a, e, same) =
        with_current-some intent result
          (charge_setpoint_a quantise (narrowed c intent x) x.inverter x.limit) h in
      let (below, limited, finite) =
        charge_bounded laws quantise (narrowed c intent x) a x.inverter x.limit e in
      let own = own_request c x.inverter.id in
      let least = min_f (as_current intent.charge_a) own in
      let share = share_ceiling c x in
      subst (IsBounded c intent) same (record {
        found = x;
        looked_up = l;
        same_inverter = refl;
        same_bank = refl;
        requested =
            NotAbove-trans laws a (narrowed c intent x) (as_current intent.charge_a) finite below
              (min_min (as_current intent.charge_a) own share (as_current_finite intent.charge_a)
                (as_current_finite (or_else (c.last_requested_a x.inverter.id) zero_f))).0;
        counted =
            NotAbove-trans laws a (narrowed c intent x) own finite below
              (min_min (as_current intent.charge_a) own share (as_current_finite intent.charge_a)
                (as_current_finite (or_else (c.last_requested_a x.inverter.id) zero_f))).1;
        shared =
            NotAbove-trans laws a (narrowed c intent x) share finite below
              (min_right laws least share);
        limited = limited;
      })

  -- A clamped intent keeps its inverter and its bank, and its current is above neither the request,
  -- nor the request that is counted for the inverter, nor its share of the bank and of the allowance,
  -- nor the inverter's own ceiling.
  pub clamp_intent-IsBounded :
      (quantise : F → F → F) (c : ClampInputs F) (intent result : DeviceIntent F)
      → clamp_intent quantise c intent ≡ some (some result)
      → IsBounded c intent result
  unfolding clamp_intent
  clamp_intent-IsBounded quantise c intent result h =
      found-IsBounded quantise c intent result (lookups c intent) refl h
