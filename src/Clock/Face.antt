-- ===== src/Clock/Face.antt =====
-- The clock face that a sync writes is the household's, to the second.
use ha_spark.Prelude.{
  ◌+◌, true, ◌<◌, ◌≤◌, ◌-◌, ◌%◌, ◌≡◌, refl, ap, ◌∙◌, Bool, false, not, ◌||◌, Option, none, some,
  ltb, [], ◌∷◌, if◌then◌else◌, arith,
}
use ha_spark.Authority.{Instant, second}
use ha_spark.Deadline.{Wall, Zone}
use ha_spark.NativeSlots.{valid_words}
use ha_spark.Clock.{Calendar, sub_ℕ, face_error, clock_error, clock_registers}

-- What `datetime` is relied on for: its fields are in their ranges, and give back the wall time
-- without its microseconds.
pub record CalendarLaws (cal : Calendar) : Type 0 where
  pub months : (w : Wall) → (cal.fields w).month ≤ 12
  pub days : (w : Wall) → (cal.fields w).day ≤ 31
  pub hours : (w : Wall) → (cal.fields w).hour ≤ 23
  pub mins : (w : Wall) → (cal.fields w).min ≤ 59
  pub secs : (w : Wall) → (cal.fields w).sec ≤ 59
  pub returns : (w : Wall) → cal.wall_of (cal.fields w) ≡ some (w - w % second)

face_known :
    (o : Option Wall) (local face : Wall)
    → o ≡ some face
    → face_error o local ≡ some (sub_ℕ face local)
face_known none local face e = ground (arith, e)
face_known (some w) local face e = ap (λ v. face_error v local) e

passed {ℓ} : {A : Type ℓ} (b : Bool) (o : Option A) → b ≡ false → (if b then none else o) ≡ o
passed true o e = ground (arith, e)
passed false o e = refl

-- In the years 2000 to 2099, the registers that are written for an instant are read as a face that is
-- less than a second behind the household's at that instant, and never ahead.
pub clock_error-clock_registers :
    (cal : Calendar) (laws : CalendarLaws cal) (zone : Zone) (now : Instant)
    → 2000 ≤ (cal.fields (zone.to_wall now)).year
    → (cal.fields (zone.to_wall now)).year ≤ 2099
    → (face : Wall) × (clock_error cal zone (clock_registers cal zone now) now
        ≡ some (sub_ℕ face (zone.to_wall now)))
      × (face ≤ zone.to_wall now)
      × (zone.to_wall now < face + second)
unfolding clock_error clock_registers
clock_error-clock_registers cal laws zone now a b =
    let local = zone.to_wall now in
    let fs = cal.fields local in
    let yy = fs.year % 100 in
    let words = yy ∷ fs.month ∷ fs.day ∷ fs.hour ∷ fs.min ∷ fs.sec ∷ [] in
    let face = local - local % second in
    let year : 2000 + yy ≡ fs.year = omega (arith, a, b) in
    let known : cal.wall_of (record fs { year = 2000 + yy }) ≡ some face =
      ap (λ y. cal.wall_of (record fs { year = y })) year ∙ laws.returns local in
    let good : (not (valid_words words) || ltb 99 yy) ≡ false = ground (
      arith,
      laws.months local,
      laws.days local,
      laws.hours local,
      laws.mins local,
      laws.secs local,
    ) in
    (
      face,
      passed (not (valid_words words) || ltb 99 yy)
            (face_error (cal.wall_of (record fs { year = 2000 + yy })) local) good
          ∙ face_known (cal.wall_of (record fs { year = 2000 + yy })) local face known,
      omega arith,
      omega arith,
    )
