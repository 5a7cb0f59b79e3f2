-- ===== src/Topology.antt =====
-- custom_components/ha_spark/topology.py: the site, with the fields that its limits and the clamp read,
-- the effective limits and the rounding of a setpoint.
pub mod Setpoint
use ha_spark.Prelude.{
  ℕ, String, Bool, true, false, not, ◌&&◌, ◌||◌, Option, none, some, List, [], ◌∷◌, str_eq,
  if◌then◌else◌, all, map, keep,
}
use ha_spark.Float.{Float, min_f, zero_f}

pub data DriverKind : Type 0 where
  solis alphaess : DriverKind

pub record DriverCapabilities {ℓ} (F : Type ℓ) : Type ℓ where
  pub charge_ceiling_a : Option F
  pub discharge_ceiling_a : Option F
  pub setpoint_step_a : Option F

-- `native` is that the transport is.
pub record Inverter {ℓ} (F : Type ℓ) : Type ℓ where
  pub id : String
  pub bank_id : String
  pub driver_kind : DriverKind
  pub charge_limit_a : F
  pub discharge_limit_a : F
  pub confirmed : Bool
  pub native : Bool

pub record BatteryBank {ℓ} (F : Type ℓ) : Type ℓ where
  pub id : String
  pub connection_id : String
  pub nominal_voltage_v : F
  pub one_way_charge_efficiency : F
  pub charge_limit_a : F
  pub discharge_limit_a : F

pub record GridConnection {ℓ} (F : Type ℓ) : Type ℓ where
  pub id : String
  pub import_limit_a : F
  pub supply_voltage_v : F
  pub dno_export_limit_kw : F
  pub export_limit_a : F

pub record Topology {ℓ} (F : Type ℓ) : Type ℓ where
  pub connections : List (GridConnection F)
  pub banks : List (BatteryBank F)
  pub inverters : List (Inverter F)

pub record InverterLimits {ℓ} (F : Type ℓ) : Type ℓ where
  pub id : String
  pub bank_id : String
  pub charge_a : F
  pub discharge_a : F

pub record BankLimits {ℓ} (F : Type ℓ) : Type ℓ where
  pub id : String
  pub connection_id : String
  pub charge_a : F
  pub charge_kw : F
  pub bank_charge_kw : F
  pub discharge_kw : F

pub record ConnectionLimits {ℓ} (F : Type ℓ) : Type ℓ where
  pub id : String
  pub import_kw : F
  pub site_export_kw : F

pub record EffectiveLimits {ℓ} (F : Type ℓ) : Type ℓ where
  pub inverters : List (InverterLimits F)
  pub banks : List (BankLimits F)
  pub connections : List (ConnectionLimits F)

module _ {ℓ} {F : Type ℓ} ⦃f : Float F⦄ where
  abbrev solis_ceiling : F
  solis_ceiling = f.div (f.of_nat 125) (f.of_nat 2)

  abbrev pub driver_capabilities : DriverKind → DriverCapabilities F
  driver_capabilities solis = record {
    charge_ceiling_a = some solis_ceiling;
    discharge_ceiling_a = some solis_ceiling;
    setpoint_step_a = some (f.of_nat 1);
  }
  driver_capabilities alphaess = record {
    charge_ceiling_a = none;
    discharge_ceiling_a = none;
    setpoint_step_a = none;
  }

  abbrev or_own : Option F → F → F
  or_own none own = own
  or_own (some a) own = a

  abbrev thousand : F
  thousand = f.of_nat 1000

  -- Python's `sum`.
  abbrev pub sum_f : List F → F
  sum_f xs = sum_from zero_f xs
    where
      sum_from : F → List F → F
      sum_from total [] = total
      sum_from total (x ∷ xs) = sum_from (f.add total x) xs

  pub inverter_limits : Inverter F → InverterLimits F
  inverter_limits i =
      let caps = driver_capabilities i.driver_kind in
      let charge = min_f i.charge_limit_a (or_own caps.charge_ceiling_a i.charge_limit_a) in
      let discharge =
        min_f i.discharge_limit_a (or_own caps.discharge_ceiling_a i.discharge_limit_a) in
      record {
        id = i.id;
        bank_id = i.bank_id;
        charge_a = if i.confirmed then charge else zero_f;
        discharge_a = if i.confirmed then discharge else zero_f;
      }

  pub bank_limits : List (InverterLimits F) → BatteryBank F → BankLimits F
  bank_limits inverters b =
      let own = keep (λ i. str_eq i.bank_id b.id) inverters in
      let charge_a = min_f b.charge_limit_a (sum_f (map (λ i. i.charge_a) own)) in
      let discharge_a = min_f b.discharge_limit_a (sum_f (map (λ i. i.discharge_a) own)) in
      record {
        id = b.id;
        connection_id = b.connection_id;
        charge_a = charge_a;
        charge_kw = f.div (f.mul charge_a b.nominal_voltage_v) thousand;
        bank_charge_kw = f.div (f.mul b.charge_limit_a b.nominal_voltage_v) thousand;
        discharge_kw = f.div (f.mul discharge_a b.nominal_voltage_v) thousand;
      }

  pub connection_limits : GridConnection F → ConnectionLimits F
  connection_limits c = record {
    id = c.id;
    import_kw = f.div (f.mul c.import_limit_a c.supply_voltage_v) thousand;
    site_export_kw =
        min_f c.dno_export_limit_kw (f.div (f.mul c.export_limit_a c.supply_voltage_v) thousand);
  }

  pub effective_limits : Topology F → EffectiveLimits F
  effective_limits t =
      let inverters = map inverter_limits t.inverters in
      record {
        inverters = inverters;
        banks = map (bank_limits inverters) t.banks;
        connections = map connection_limits t.connections;
      }

  abbrev pub is_amount : F → Bool
  is_amount v = f.is_finite v && f.le zero_f v

  -- `setpoint_a`, or `none` where it raises; `quantise` is the decimal rounding down to a step.
  unfoldable pub setpoint_a : (F → F → F) → F → F → F → Option F
  setpoint_a quantise requested_a limit_a step_a =
      let ceiling = min_f requested_a limit_a in
      if not (is_amount requested_a && is_amount limit_a && is_amount step_a) || f.eq step_a zero_f
      then none
      else some (min_f (quantise ceiling step_a) ceiling)

  -- `ceiling` of `charge_setpoint_a`.
  abbrev pub charge_ceiling : Inverter F → InverterLimits F → F
  charge_ceiling inverter limits =
      let owner =
        if inverter.confirmed then min_f limits.charge_a inverter.charge_limit_a else zero_f in
      elim (driver_capabilities inverter.driver_kind).charge_ceiling_a [
        | none ↦ owner
        | some c ↦ min_f owner c
      ]

  abbrev pub commanded : Option F → Option (Option F)
  commanded none = none
  commanded (some a) = some (some a)

  -- The step, if there is one; a native bus carries tenths.
  abbrev pub with_step : (F → F → F) → F → F → Bool → Option F → Option (Option F)
  with_step quantise requested_a ceiling native none = some none
  with_step quantise requested_a ceiling native (some step) = commanded (
      setpoint_a quantise requested_a ceiling
        (if native then f.div (f.of_nat 1) (f.of_nat 10) else step))

  -- `charge_setpoint_a`: the outer `none` where it raises, the inner one for no command.
  unfoldable pub charge_setpoint_a :
      (F → F → F) → F → Inverter F → InverterLimits F → Option (Option F)
  charge_setpoint_a quantise requested_a inverter limits =
      let result =
        with_step quantise requested_a (charge_ceiling inverter limits) inverter.native
          (driver_capabilities inverter.driver_kind).setpoint_step_a in
      if not (str_eq inverter.id limits.id && str_eq inverter.bank_id limits.bank_id)
      then none
      else result
