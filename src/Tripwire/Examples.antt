-- ===== src/Tripwire/Examples.antt =====
-- Two readings over the limit, a missing one, and a trip of the sample site.
use ha_spark.Prelude.{
  ◌≡◌, ℕ, ◌*◌, ◌+◌, ◌≢◌, refl, Bool, true, false, ◌&&◌, some, none, [], ◌∷◌, All, any, arith,
  String, leb, is_some,
}
use ha_spark.Prelude.Int.{pos, negsuc}
use ha_spark.Float.{Fixed, fixed}
use ha_spark.Authority.{second, AuthorityState}
use ha_spark.Authority.Samples.{site, armed, event}
use ha_spark.Authority.Equality.{same_event_iff}
use ha_spark.Export.{live_record}
use ha_spark.ExportLog.Append.{IsSound}
use ha_spark.Tripwire.{aware, TripwireState, fresh_reading, watching, trip_candidate, is_member}
use ha_spark.Tripwire.Counting.{state_after, observe_one, Observation, streak, history, step-trip}
use ha_spark.Tripwire.Stop.{AllLatched, IsDead, trip_stops}

-- 4 kW out, where 3.5 kW are allowed.
abbrev over_at : ℕ → Observation Fixed
over_at at = record {
  import_w = some (some (negsuc 3999));
  reported_at = some (aware at);
  limit_w = some (pos 3500);
  now = at + second;
}

step-trip_example :
    (observe_one (over_at (20 * second)) (state_after (over_at (10 * second) ∷ []))).1.trip ≡ (
      is_some (
        fresh_reading {F = Fixed}
          (some (some (negsuc 3999)))
          (some (aware (20 * second)))
          (20 * second + second))
      && leb 2 (streak (history (over_at (20 * second) ∷ over_at (10 * second) ∷ []))))
step-trip_example = step-trip (over_at (20 * second)) (over_at (10 * second) ∷ [])

abbrev quiet_state : TripwireState
quiet_state = record {
  over_count = 1;
  last_counted_at = some (20 * second);
  missing_since = some (30 * second);
  warned = false;
}

no_reading : fresh_reading {F = Fixed} none none (95 * second) ≡ none
unfolding fresh_reading
no_reading = refl

abbrev pub ours : String → Bool
ours inverter_id = true

watches : watching (some site) ours ("garage" ∷ []) (2000 * second) ≡ armed ∷ []
unfolding watching live_record
watches = ground (arith, (same_event_iff event event).1 refl)

pub some_watched : watching (some site) ours ("garage" ∷ []) (2000 * second) ≢ []
some_watched h = ground (arith, h, watches)

pub site-IsSound : IsSound site.export_transitions
site-IsSound = record {
  caps = record { total = omega arith; each = λ j. ground arith };
  once = λ i k e. ground arith;
}

trip_stops_example :
    (next : AuthorityState) × (trip_candidate
        (some site)
        ours
        ("garage" ∷ [])
        (2000 * second)
        (λ _. 31)
      ≡ some next)
    × AllLatched (watching (some site) ours ("garage" ∷ []) (2000 * second)) next.stop_latches
    × All (IsDead next) (watching (some site) ours ("garage" ∷ []) (2000 * second))
    × (any (is_member ("garage" ∷ [])) next.export_supervisions ≡ false)
trip_stops_example =
    trip_stops site ours ("garage" ∷ []) (2000 * second) (λ _. 31) site-IsSound some_watched
