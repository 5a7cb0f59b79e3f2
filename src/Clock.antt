-- ===== src/Clock.antt =====
-- custom_components/ha_spark/clock_sync.py: the inverter's clock face and the changes of the household
-- clock. `datetime` is not part of the repository: a calendar is a record of what the program uses of it.
pub mod Change
pub mod Face
pub mod Sync
pub mod Tick
mod Examples
use ha_spark.Prelude.{
  ℕ, zero, suc, ◌+◌, ◌-◌, ◌*◌, ◌/◌, ◌%◌, Bool, true, false, not, ◌&&◌, ◌||◌, Option, none, some,
  List, [], ◌∷◌, ltb, leb, if◌then◌else◌,
}
use ha_spark.Prelude.Int.{ℤ, sub_ℕ, eqbℤ}
use ha_spark.Authority.{Instant, second}
use ha_spark.Deadline.{Wall, Zone, minute}
use ha_spark.NativeSlots.{Words, valid_words}

-- The fields of a naive `datetime`.
pub record Fields : Type 0 where
  pub year : ℕ
  pub month : ℕ
  pub day : ℕ
  pub hour : ℕ
  pub min : ℕ
  pub sec : ℕ

-- `fields` are those of a wall time; `wall_of` is `datetime(...)`, or `none` for its `ValueError`.
pub record Calendar : Type 0 where
  pub fields : Wall → Fields
  pub wall_of : Fields → Option Wall

abbrev pub stale_after : ℕ
stale_after = 60 * second

abbrev pub drift_tolerance : ℕ
drift_tolerance = 5 * minute

abbrev pub fail_at : ℕ
fail_at = 30 * minute

-- In seconds.
abbrev pub lookback_s : ℕ
lookback_s = 21600

abbrev pub read_back_tolerance : ℕ
read_back_tolerance = 10 * second

abbrev pub face_error : Option Wall → Wall → Option ℤ
face_error none local = none
face_error (some face) local = some (sub_ℕ face local)

-- `clock_error`, for an aware `read_at`.
pub clock_error : Calendar → Zone → Words → Instant → Option ℤ
clock_error cal zone (yy ∷ mm ∷ dd ∷ hh ∷ mi ∷ ss ∷ []) read_at =
    let face =
      cal.wall_of
        (record { year = 2000 + yy; month = mm; day = dd; hour = hh; min = mi; sec = ss }) in
    if not (valid_words (yy ∷ mm ∷ dd ∷ hh ∷ mi ∷ ss ∷ [])) || ltb 99 yy
    then none
    else face_error face (zone.to_wall read_at)
clock_error cal zone _ read_at = none

-- `clock_registers`
pub clock_registers : Calendar → Zone → Instant → Words
clock_registers cal zone now =
    let local = cal.fields (zone.to_wall now) in
    local.year % 100 ∷ local.month ∷ local.day ∷ local.hour ∷ local.min ∷ local.sec ∷ []

-- `offset`, at a second of UTC.
abbrev pub offset : Zone → ℕ → ℤ
offset zone s = sub_ℕ (zone.to_wall (s * second)) (s * second)

abbrev pub same_offset : Zone → ℕ → ℕ → Bool
same_offset zone a b = eqbℤ (offset zone a) (offset zone b)

-- `while hi - lo > 1`; `none` where no fuel is left.
pub bisect : ℕ → Zone → ℕ → ℕ → ℕ → Option ℕ
bisect zero zone start lo hi = none
bisect (suc fuel) zone start lo hi =
    let mid = (lo + hi) / 2 in
    let upper = bisect fuel zone start mid hi in
    let lower = bisect fuel zone start lo mid in
    if ltb 1 (hi - lo) then (if same_offset zone mid start then upper else lower) else some hi

-- `last_clock_change`, from the second `end` of an aware `now`: the outer `none` for no fuel, the inner
-- one for no change. Six hours have 21600 seconds.
pub last_clock_change : Zone → ℕ → Option (Option ℕ)
last_clock_change zone end =
    let start = end - lookback_s in
    let found = bisect lookback_s zone start start end in
    if same_offset zone start end
    then some none
    else elim found [ none ↦ none | some hi ↦ some (some hi) ]
