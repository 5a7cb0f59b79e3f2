-- ===== src/Clock/Examples.antt =====
-- A clock that goes an hour ahead at the second 100000, and a calendar whose years have one day.
use ha_spark.Prelude.{
  [], true, false, none, some, some, ℕ, ◌+◌, ◌*◌, ◌/◌, ◌%◌, ◌≤◌, ◌<◌, ◌≡◌, leb, if◌then◌else◌,
  arith,
}
use ha_spark.Prelude.Int.{sub_ℕ}
use ha_spark.Authority.{second}
use ha_spark.Deadline.{Wall, Zone, minute}
use ha_spark.Clock.{Calendar, clock_error, clock_registers, last_clock_change}
use ha_spark.Clock.Change.{last_clock_change_finds}
use ha_spark.Authority.Samples.{site}
use ha_spark.NativeSlots.{Words}
use ha_spark.Clock.Sync.{ClockConditions, ClockBus, Sync, sync}
use ha_spark.Clock.Sync.Outcome.{SyncOk, sync_lem}
use ha_spark.Clock.Face.{CalendarLaws, clock_error-clock_registers}

abbrev summer : Zone
summer = record {
  to_wall = λ now. if leb (100000 * second) now then now + 60 * minute else now;
  from_wall = λ wall. wall;
}

last_clock_change_finds_example : last_clock_change summer 110000 ≡ some (some 100000)
last_clock_change_finds_example =
    last_clock_change_finds summer 110000 100000 (omega arith) (omega arith) (omega arith)
      (λ s a b. ground (arith, b)) (λ s a b. ground (arith, a))

abbrev calendar : Calendar
calendar = record {
  fields = λ w. record {
    year = w / second / 86400;
    month = 1;
    day = 1;
    hour = w / second / 3600 % 24;
    min = w / second / 60 % 60;
    sec = w / second % 60;
  };
  wall_of = λ f. some ((f.year * 86400 + f.hour * 3600 + f.min * 60 + f.sec) * second);
}

calendar_laws : CalendarLaws calendar
calendar_laws = record {
  months = λ w. omega arith;
  days = λ w. omega arith;
  hours = λ w. omega arith;
  mins = λ w. omega arith;
  secs = λ w. omega arith;
  returns = λ w. ground arith;
}

abbrev utc : Zone
utc = record { to_wall = λ now. now; from_wall = λ wall. wall }

-- A morning of the year 2026.
abbrev now : ℕ
now = (2026 * 86400 + 30000) * second + 500

clock_error-clock_registers_example :
    (face : Wall) × (clock_error calendar utc (clock_registers calendar utc now) now
      ≡ some (sub_ℕ face now))
    × (face ≤ now)
    × (now < face + second)
clock_error-clock_registers_example =
    clock_error-clock_registers calendar calendar_laws utc now (omega arith) (omega arith)

-- An inverter that takes what is written, and whose clock stands.
abbrev clock_conditions : ClockConditions
clock_conditions = record {
  state = some site;
  owned = true;
  running = true;
  polling = true;
  closed = false;
  zone = some utc;
  device_valid = true;
}

abbrev clock_bus : ClockBus Words
clock_bus = record {
  conditions = λ w. clock_conditions;
  lock = λ w. w;
  read = λ w. (w, some w);
  connection = λ w. 1;
  write = λ words w. (words, some true);
  wait = λ w. w;
  now = λ w. now;
}

abbrev before_sync : Sync Words
before_sync = record { world = []; writes = []; reads = []; reading = none; mismatched = false }

sync_lem_example :
    SyncOk clock_bus calendar
      (some 4)
      (some 7)
      true
      before_sync
      (sync clock_bus calendar none true before_sync)
sync_lem_example = sync_lem clock_bus calendar none true before_sync
