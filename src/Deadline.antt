-- ===== src/Deadline.antt =====
-- `manual_deadline` of custom_components/ha_spark/transitions.py: when a manual session ends.
-- `zoneinfo` is not part of the repository: a time zone is a record of its two conversions. A wall
-- time and a time of day are counted in microseconds.
pub mod Future
mod Examples
use ha_spark.Prelude.{
  ℕ, zero, suc, ◌+◌, ◌*◌, ◌/◌, ◌≤◌, ◌<◌, ◌≡◌, Bool, Option, none, some, ltb, if◌then◌else◌, ◌==◌,
}
use ha_spark.Authority.{Instant, second}

abbrev pub Wall : Type 0
Wall = ℕ

abbrev pub minute : ℕ
minute = 60 * second

abbrev pub day : ℕ
day = 86400 * second

-- `to_wall`: `instant.astimezone(zone).replace(tzinfo=None)`.
-- `from_wall`: `wall.replace(tzinfo=zone, fold=0).astimezone(UTC)`.
pub record Zone : Type 0 where
  pub to_wall : Instant → Wall
  pub from_wall : Wall → Instant

pub data Duration : Type 0 where
  one_hour until_tomorrow until_resumed : Duration

-- `(wall + timedelta(minutes=1)).replace(second=0, microsecond=0)`
abbrev pub next_minute : Wall → Wall
next_minute wall = (wall + minute) / minute * minute

abbrev pub shows : Zone → Wall → Bool
shows zone wall = zone.to_wall (zone.from_wall wall) == wall

-- The inner `while True`: the first valid wall time from `wall` on. `none`: no fuel is left.
pub settle : ℕ → Zone → Wall → Option Wall
settle zero zone wall = none
settle (suc fuel) zone wall =
    let rest = settle fuel zone (next_minute wall) in if shows zone wall then some wall else rest

-- A gap of the clock is shorter than a day, which has 1440 minutes.
abbrev pub settle_fuel : ℕ
settle_fuel = 1441

pub candidate : Zone → ℕ → ℕ → Option Instant
candidate zone date at = elim (settle settle_fuel zone (date * day + at)) [
  | none ↦ none
  | some wall ↦ some (zone.from_wall wall)
]

-- One round of `for offset in (0, 1)`.
abbrev pub after : Instant → Option Instant → Option Instant → Option Instant
after now none later = none
after now (some c) later = if ltb now c then some c else later

pub data Deadline : Type 0 where
  never : Deadline
  until : Instant → Deadline
  invalid : Deadline

abbrev deadline_of : Option Instant → Deadline
deadline_of none = Deadline.invalid
deadline_of (some c) = Deadline.until c

-- `invalid` is the `ValueError`, or a loop that does not end.
unfoldable pub manual_deadline : Duration → Instant → Zone → ℕ → Deadline
manual_deadline Duration.until_resumed now zone at = Deadline.never
manual_deadline Duration.one_hour now zone at = Deadline.until (now + 3600 * second)
manual_deadline Duration.until_tomorrow now zone at =
    let date = zone.to_wall now / day in
    deadline_of (after now (candidate zone date at) (after now (candidate zone (date + 1) at) none))
