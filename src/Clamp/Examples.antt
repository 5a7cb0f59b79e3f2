-- ===== src/Clamp/Examples.antt =====
-- One inverter that asks for 50 A of a bank of 60 A, under an allowance of 1 kW.
use ha_spark.Prelude.{◌≡◌, true, ℕ, false, some, [], ◌∷◌, refl}
use ha_spark.Float.{whole}
use ha_spark.Float.Order.{whole_laws}
use ha_spark.Topology.{Inverter, solis, BatteryBank, setpoint_a, charge_setpoint_a}
use ha_spark.Clamp.{
  DeviceIntent, ClampInputs, bank_request, allowance_ceiling, share_ceiling, lookups, clamp_intent,
}
use ha_spark.Clamp.Bounded.{IsBounded, clamp_intent-IsBounded}

abbrev inverter : Inverter ℕ
inverter = record {
  id = "garage";
  bank_id = "house";
  driver_kind = solis;
  charge_limit_a = 55;
  discharge_limit_a = 55;
  confirmed = true;
  native = false;
}

abbrev bank : BatteryBank ℕ
bank = record {
  id = "house";
  connection_id = "main";
  nominal_voltage_v = 50;
  one_way_charge_efficiency = 1;
  charge_limit_a = 60;
  discharge_limit_a = 60;
}

abbrev inputs : ClampInputs ℕ
inputs = record {
  allowance_kw = some 1;
  last_requested_a = λ id. some 50;
  topology = record { connections = []; banks = bank ∷ []; inverters = inverter ∷ [] };
  limits = record {
    inverters = record { id = "garage"; bank_id = "house"; charge_a = 55; discharge_a = 55 } ∷ [];
    banks =
        record {
          id = "house";
          connection_id = "main";
          charge_a = 60;
          charge_kw = 3;
          bank_charge_kw = 3;
          discharge_kw = 3;
        }
        ∷ [];
    connections = [];
  };
}

abbrev intent : DeviceIntent ℕ
intent = record { inverter_id = "garage"; bank_id = "house"; charge_a = 50 }

abbrev down : ℕ → ℕ → ℕ
down x step = x

-- 1 kW is 20 A.
clamped : clamp_intent down inputs intent ≡ some (some (record intent { charge_a = 20 }))
unfolding clamp_intent lookups bank_request allowance_ceiling share_ceiling charge_setpoint_a
    setpoint_a
clamped = refl

clamp_intent-IsBounded_example :
    IsBounded whole_laws inputs intent (record intent { charge_a = 20 })
clamp_intent-IsBounded_example =
    clamp_intent-IsBounded whole_laws down inputs intent (record intent { charge_a = 20 }) clamped
