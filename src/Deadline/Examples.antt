-- ===== src/Deadline/Examples.antt =====
-- Deadlines in UTC.
use ha_spark.Prelude.{◌*◌, ℕ, true, zero, ◌≡◌, refl, arith}
use ha_spark.Authority.{second}
use ha_spark.Deadline.{Zone, Duration, Deadline, manual_deadline, shows, candidate, settle}
use ha_spark.Deadline.Future.{IsZone, IsFuture, manual_deadline-IsFuture}

abbrev utc : Zone
utc = record { to_wall = λ now. now; from_wall = λ wall. wall }

utc-shows : (wall : ℕ) → shows utc wall ≡ true
utc-shows wall = ground arith

utc-IsZone : IsZone utc
utc-IsZone = record {
  short_gap = λ wall. (zero, omega arith, utc-shows wall);
  later_date = λ now wall h _. omega arith;
}

manual_deadline-IsFuture_example :
    IsFuture
      (100_000 * second)
      (manual_deadline Duration.until_tomorrow (100_000 * second) utc (21600 * second))
manual_deadline-IsFuture_example =
    manual_deadline-IsFuture Duration.until_tomorrow (100_000 * second) utc (21600 * second)
      utc-IsZone

-- At 03:46:40 the session ends at six the same morning.
until_morning :
    manual_deadline Duration.until_tomorrow (100_000 * second) utc (21600 * second)
    ≡ Deadline.until (108_000 * second)
unfolding manual_deadline candidate settle
until_morning = refl
