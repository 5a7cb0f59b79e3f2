-- ===== src/SocTrust/History/Examples.antt =====
-- A read that fails, and a recovery of one minute.
use ha_spark.Prelude.{◌*◌, ◌≡◌, refl, true, false, some, none, List, [], ◌∷◌}
use ha_spark.Prelude.Int.{pos}
use ha_spark.Float.{Fixed, fixed}
use ha_spark.Authority.{Instant}
use ha_spark.Tripwire.{aware}
use ha_spark.SocTrust.{
  Policy, Value, absent, parsed, Observation, new_monitor, observe, observe_minute, judge_fresh,
  check_soc, judge_time, is_implausible, settle, recover, minute_length, is_trusted,
  increases_allowed,
}
use ha_spark.SocTrust.Blocked.{HasRecovered}
use ha_spark.SocTrust.History.{observations, noted_by, observe-HasRecovered}

abbrev policy : Policy
policy = record { max_age = 10 * minute_length; failure_threshold = 1; recovery_minutes = 1 }

abbrev seen : Value Fixed → Instant → Observation Fixed
seen value now = record {
  value = value;
  read_at = some (aware now);
  now = now;
  power_w = none;
  capacity_kwh = some (pos 10);
  valid = true;
  fallback_active = false;
  count = true;
}

abbrev half : Value Fixed
half = parsed (some (some (pos 50)))

abbrev before : List (Observation Fixed)
before = seen absent minute_length ∷ seen half (2 * minute_length) ∷ []

abbrev last : Observation Fixed
last = seen half (3 * minute_length)

blocks : (observations before (new_monitor policy, [])).0.recovery.blocked ≡ true
unfolding observations observe observe_minute judge_fresh check_soc judge_time is_implausible settle
    recover
blocks = refl

recovers :
    is_trusted (observe last (observations before (new_monitor policy, [])).0).view.trust ≡ true
unfolding observations observe observe_minute judge_fresh check_soc judge_time is_implausible settle
    recover
recovers = refl

observe-HasRecovered_example :
    HasRecovered policy
      (noted_by last
        (observations before (new_monitor policy, [])).0
        (observations before (new_monitor policy, [])).1)
      (3 * minute_length)
      false
observe-HasRecovered_example = observe-HasRecovered policy before last blocks recovers

abbrev calm : List (Observation Fixed)
calm = seen half minute_length ∷ []

allows : increases_allowed (observations calm (new_monitor policy, [])).0 ≡ true
unfolding observations observe observe_minute judge_fresh check_soc judge_time is_implausible settle
    recover
allows = refl

trusts : is_trusted (check_soc half (some 5) 6 10 none none (some (pos 0))).trust ≡ true
unfolding check_soc judge_time
trusts = refl
