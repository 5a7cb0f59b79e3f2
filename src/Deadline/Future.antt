-- ===== src/Deadline/Future.antt =====
-- A manual session's deadline lies in the future, for every zone that keeps the laws of a time zone.
use ha_spark.Prelude.{
  ℕ, zero, suc, ◌+◌, ◌*◌, ◌/◌, ◌≤◌, ◌<◌, ◌≡◌, inl, inr, true, some, arith, Bool-cases,
}
use ha_spark.Authority.{Instant}
use ha_spark.Deadline.{
  Wall, day, Zone, Duration, next_minute, shows, settle, settle_fuel, candidate, Deadline,
  manual_deadline,
}

abbrev pub later_minutes : ℕ → Wall → Wall
later_minutes zero wall = wall
later_minutes (suc k) wall = later_minutes k (next_minute wall)

-- What the code relies on. A gap of the clock is shorter than a day; an instant that shows a later
-- date is later; and a valid time at most a day on stays on its date or a later one.
pub record IsZone (zone : Zone) : Type 0 where
  pub short_gap : (wall : Wall) → (k : ℕ) × (k ≤ 1440) × (shows zone (later_minutes k wall) ≡ true)
  pub later_date :
      (now : Instant) (wall : Wall)
      → zone.to_wall now / day < wall / day
      → shows zone wall ≡ true
      → now < zone.from_wall wall

settle_total :
    (k fuel : ℕ) (zone : Zone) (wall : Wall)
    → k < fuel
    → shows zone (later_minutes k wall) ≡ true
    → (w : Wall) × (settle fuel zone wall ≡ some w)
unfolding settle
settle_total k zero zone wall h s = absurd (omega arith)
settle_total zero (suc fuel) zone wall h s = (wall, ground arith)
settle_total (suc k) (suc fuel) zone wall h s = elim (Bool-cases (shows zone wall)) [
  | inl e ↦ (wall, rw e)
  | inr e ↦ rw e (settle_total k fuel zone (next_minute wall) (omega arith) s)
]

-- The time that is found is valid, and not before the one that was asked for.
settle-shows :
    (fuel : ℕ) (zone : Zone) (wall w : Wall)
    → settle fuel zone wall ≡ some w
    → (shows zone w ≡ true) × (wall ≤ w)
unfolding settle
settle-shows zero zone wall w h = ground arith
settle-shows (suc fuel) zone wall w h = elim (Bool-cases (shows zone wall)) [
  | inl e ↦ ground (arith, e)
  | inr e ↦
      let (valid, late) = settle-shows fuel zone (next_minute wall) w (ground (arith, e)) in
      (valid, omega arith)
]

candidate_found :
    (zone : Zone) (date at : ℕ)
    → IsZone zone
    → (w : Wall) × (candidate zone date at ≡ some (zone.from_wall w))
      × (shows zone w ≡ true)
      × (date * day + at ≤ w)
unfolding candidate
candidate_found zone date at laws =
    let wall : Wall = date * day + at in
    let (k, small, valid) = laws.short_gap wall in
    let (w, e) = settle_total k settle_fuel zone wall (omega arith) valid in
    let (good, late) = settle-shows settle_fuel zone wall w e in (w, rw (e, candidate), good, late)

abbrev pub IsFuture : Instant → Deadline → Type 0
IsFuture now Deadline.never = Unit
IsFuture now (Deadline.until c) = now < c
IsFuture now Deadline.invalid = ⊥

day_of_later : (date at w : ℕ) → (date + 1) * day + at ≤ w → date < w / day
day_of_later date at w h = omega arith

-- In a zone that keeps the laws, `manual_deadline` never raises and its loops end, and the deadline
-- of a session that has one lies strictly in the future.
pub manual_deadline-IsFuture :
    (duration : Duration) (now : Instant) (zone : Zone) (at : ℕ)
    → IsZone zone
    → IsFuture now (manual_deadline duration now zone at)
unfolding manual_deadline
manual_deadline-IsFuture Duration.one_hour now zone at laws = omega arith
manual_deadline-IsFuture Duration.until_resumed now zone at laws = tt
manual_deadline-IsFuture Duration.until_tomorrow now zone at laws =
    let date : ℕ = zone.to_wall now / day in
    let (w, found, _, _) = candidate_found zone date at laws in
    let (w', found', valid', late') = candidate_found zone (date + 1) at laws in
    let ahead : now < zone.from_wall w' =
      laws.later_date now w' (day_of_later date at w' late') valid' in
    rw (found, found') (ground (arith, ahead))
