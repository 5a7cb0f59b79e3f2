-- ===== src/SupplyGuard/Examples.antt =====
-- A guard that counts its first reading over the limit.
use ha_spark.Prelude.{◌*◌, true, false, some, none, [], ◌∷◌}
use ha_spark.Prelude.Int.{pos}
use ha_spark.Float.{Fixed, fixed}
use ha_spark.Authority.{second}
use ha_spark.Tripwire.{aware}
use ha_spark.SupplyGuard.{GuardState, GuardInputs, AuthorityMirror}

abbrev mirror : AuthorityMirror
mirror = record {
  mode = "optimise";
  epoch = some 4;
  manual = false;
  save_failed = false;
  transition_target = none;
}

abbrev limiting : GuardState Fixed
limiting = record {
  restore_day = 20;
  cut_kw = some (some (pos 2));
  latched = false;
  missing_since = none;
  last_good_at = some (990 * second);
  over_count = 1;
  headroom_since = none;
  restores_used = 48;
  epoch = some 4;
  dormant_reason = none;
  last_headroom_kw = some (some (pos 1));
  last_counted_at = some (990 * second);
  restored = false;
}

abbrev busy : GuardInputs Fixed
busy = record {
  limit_kw = some (pos 20);
  requested_kw = some (pos 7);
  reserve_kw = some (pos 1);
  reading = record {
    import_w = some (some (pos 21000));
    reported_at = some (aware (1000 * second));
  };
  measurements =
      record {
        inverter_id = "garage";
        power_w = some (some (pos 3000));
        reported_at = some (aware (1000 * second));
        unadjusted_w = none;
      }
      ∷ [];
  mirror = some mirror;
  grid_configured = true;
  controllable = true;
  household_day = some 20;
  observe_only = false;
  lossless_requested_kw = none;
  restore_allowed = true;
}
