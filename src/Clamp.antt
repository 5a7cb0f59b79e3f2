-- ===== src/Clamp.antt =====
-- custom_components/ha_spark/clamp.py: the share of a request within its connection and its bank.
pub mod Bounded
mod Examples
use ha_spark.Prelude.{
  ℕ, String, Bool, true, false, not, ◌&&◌, ◌||◌, Option, none, some, List, [], ◌∷◌, str_eq,
  if◌then◌else◌, find, keep, map, or_else, ◌>>=◌,
}
use ha_spark.Float.{Float, min_f, zero_f}
use ha_spark.Topology.{
  Inverter, BatteryBank, Topology, InverterLimits, BankLimits, EffectiveLimits, sum_f,
  charge_setpoint_a,
}

pub record DeviceIntent {ℓ} (F : Type ℓ) : Type ℓ where
  pub inverter_id : String
  pub bank_id : String
  pub charge_a : F

-- What `clamp_intent` is given beside the intent.
pub record ClampInputs {ℓ} (F : Type ℓ) : Type ℓ where
  pub allowance_kw : Option F
  pub last_requested_a : String → Option F
  pub topology : Topology F
  pub limits : EffectiveLimits F

-- What the lookups of `clamp_intent` find.
pub record Found {ℓ} (F : Type ℓ) : Type ℓ where
  pub inverter : Inverter F
  pub bank : BatteryBank F
  pub limit : InverterLimits F
  pub bank_limit : BankLimits F

module _ {ℓ} {F : Type ℓ} ⦃f : Float F⦄ where
  -- `_current`
  abbrev pub as_current : F → F
  as_current value = if f.is_finite value && f.le zero_f value then value else zero_f

  -- `_current(last_requested_a.get(id, 0))`
  abbrev pub own_request : ClampInputs F → String → F
  own_request c id = as_current (or_else (c.last_requested_a id) zero_f)

  pub bank_request : ClampInputs F → String → F
  bank_request c bank_id =
      sum_f
        (map (λ i. own_request c i.id) (keep (λ i. str_eq i.bank_id bank_id) c.topology.inverters))

  -- The entry of a bank in `power`.
  abbrev bank_power : ClampInputs F → BatteryBank F → F
  bank_power c b =
      f.div (f.mul (bank_request c b.id) b.nominal_voltage_v) b.one_way_charge_efficiency

  -- The ceiling under an allowance of the connection.
  pub allowance_ceiling : ClampInputs F → F → Found F → F → F → F
  allowance_ceiling c allowance_kw x bank_share ceiling =
      let allowance = as_current allowance_kw in
      let total = sum_f (
        map (bank_power c)
          (keep (λ b. str_eq b.connection_id x.bank.connection_id) c.topology.banks)) in
      let share_kw =
        if f.lt zero_f total then f.div (f.mul allowance (bank_power c x.bank)) total else zero_f in
      let dc_a =
        f.mul
          (f.div (f.mul (f.mul share_kw (f.of_nat 1000)) x.bank.one_way_charge_efficiency)
            x.bank.nominal_voltage_v)
          bank_share in
      if f.is_finite total && f.is_finite dc_a then min_f ceiling dc_a else zero_f

  -- The share of the bank and of the connection.
  pub share_ceiling : ClampInputs F → Found F → F
  share_ceiling c x =
      let own = own_request c x.inverter.id in
      let all_own = bank_request c x.bank.id in
      let bank_share = if f.lt zero_f all_own then f.div own all_own else zero_f in
      let ceiling = f.mul x.bank_limit.charge_a bank_share in
      elim c.allowance_kw [
        | none ↦ ceiling
        | some allowance_kw ↦ allowance_ceiling c allowance_kw x bank_share ceiling
      ]

  -- `min(requested, own, ceiling)`
  abbrev pub narrowed : ClampInputs F → DeviceIntent F → Found F → F
  narrowed c intent x =
      min_f (min_f (as_current intent.charge_a) (own_request c x.inverter.id)) (share_ceiling c x)

  pub lookups : ClampInputs F → DeviceIntent F → Option (Found F)
  lookups c intent = do
    inverter ← find (λ i. str_eq i.id intent.inverter_id) c.topology.inverters
    bank ← find (λ b. str_eq b.id intent.bank_id) c.topology.banks
    limit ← find (λ i. str_eq i.id intent.inverter_id) c.limits.inverters
    bank_limit ← find (λ b. str_eq b.id intent.bank_id) c.limits.banks
    if str_eq inverter.bank_id bank.id
        then some
            (record { inverter = inverter; bank = bank; limit = limit; bank_limit = bank_limit })
        else none

  abbrev pub with_current : DeviceIntent F → Option (Option F) → Option (Option (DeviceIntent F))
  with_current intent none = none
  with_current intent (some none) = some none
  with_current intent (some (some a)) = some (some (record intent { charge_a = a }))

  abbrev pub clamp_found :
      (F → F → F)
      → ClampInputs F
      → DeviceIntent F
      → Option (Found F)
      → Option (Option (DeviceIntent F))
  clamp_found quantise c intent none = some none
  clamp_found quantise c intent (some x) =
      with_current intent (charge_setpoint_a quantise (narrowed c intent x) x.inverter x.limit)

  -- `clamp_intent`: the outer `none` where it raises, the inner one for no command.
  pub clamp_intent : (F → F → F) → ClampInputs F → DeviceIntent F → Option (Option (DeviceIntent F))
  clamp_intent quantise c intent = clamp_found quantise c intent (lookups c intent)
