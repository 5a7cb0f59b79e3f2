-- ===== src/NativeFallback/Examples.antt =====
-- The sample site loses the add-on, and enters a fallback.
use ha_spark.Prelude.{◌*◌, Bool, true, false, some, none, List, [], ◌∷◌}
use ha_spark.Authority.{second}
use ha_spark.Authority.Samples.{site}
use ha_spark.NativeSlots.{applied}
use ha_spark.NativeFallback.{Surroundings, NativeFallback}
use ha_spark.NativeFallback.Saves.{Tick, tick, outcome, other}

-- The world is whether the add-on is connected.
abbrev around : Surroundings Bool
around = record {
  authority = λ w. some site;
  owned = λ w. true;
  startup_complete = λ w. true;
  permits_non_protection = λ now w. true;
  connected = λ w. w;
  recovery_ready = λ w. false;
  fallback_requested = λ w. false;
  has_schedule = λ w. true;
  native = λ w. "garage" ∷ [];
  last_apply = λ w. none;
  save = λ fallback now w. (w, true);
  apply = λ id epoch w. (w, applied, some epoch);
  cancel = λ epoch w. (w, true);
}

abbrev start : NativeFallback Bool
start = record {
  world = true;
  verified = λ id. none;
  attempts = λ id. 0;
  backoff = λ id. none;
  retry_at = none;
  reapply_at = none;
  exit_since = none;
  liveness_since = none;
  saves = [];
  applies = [];
}

abbrev ticks : List (Tick around)
ticks =
    tick (1000 * second)
    ∷ other (λ w. false)
    ∷ outcome false (1010 * second)
    ∷ tick (1030 * second)
    ∷ []
