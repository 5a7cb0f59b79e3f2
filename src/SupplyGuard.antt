-- ===== src/SupplyGuard.antt =====
-- custom_components/ha_spark/supply_guard.py: one step of the supply guard of a connection. Powers
-- and limits are Python floats; a difference of two times is compared exactly, in microseconds.
pub mod Ceiling
mod Examples
use ha_spark.Prelude.{
  ℕ, suc, ◌+◌, ◌-◌, ◌*◌, String, Bool, true, false, not, ◌&&◌, ◌||◌, Option, none, some, List, [],
  ◌∷◌, leb, ltb, ◌==◌, str_eq, if◌then◌else◌, is_some, or_else, all,
}
use ha_spark.Float.{Float, min_f, max_f, zero_f}
use ha_spark.Authority.{Instant, second}
use ha_spark.Tripwire.{Stamp, aware, naive}

pub record GuardReading {ℓ} (F : Type ℓ) : Type ℓ where
  pub import_w : Option F
  pub reported_at : Option Stamp

pub record InverterMeasurement {ℓ} (F : Type ℓ) : Type ℓ where
  pub inverter_id : String
  pub power_w : Option F
  pub reported_at : Option Stamp
  pub unadjusted_w : Option F

pub record AuthorityMirror : Type 0 where
  pub mode : String
  pub epoch : Option ℕ
  pub manual : Bool
  pub save_failed : Bool
  pub transition_target : Option String

abbrev is_text : Option String → String → Bool
is_text none t = false
is_text (some s) t = str_eq s t

pub mirror_permits : Option AuthorityMirror → Bool
mirror_permits none = false
mirror_permits (some m) =
    (str_eq m.mode "protect" || str_eq m.mode "optimise")
    && not m.save_failed
    && not (is_text m.transition_target "observe")

pub data Reason : Type 0 where
  invalid_time no_supply_limit no_grid_source no_inverter_measurement : Reason
  missing_reading authority_unavailable : Reason

pub record GuardState {ℓ} (F : Type ℓ) : Type ℓ where
  pub restore_day : ℕ
  pub cut_kw : Option F
  pub latched : Bool
  pub missing_since : Option Instant
  pub last_good_at : Option Instant
  pub over_count : ℕ
  pub headroom_since : Option Instant
  pub restores_used : ℕ
  pub epoch : Option ℕ
  pub dormant_reason : Option Reason
  pub last_headroom_kw : Option F
  pub last_counted_at : Option Instant
  pub restored : Bool

abbrev pub max_restores : ℕ
max_restores = 48

-- `restores_left`, which is positive.
abbrev pub has_restores {ℓ} : {F : Type ℓ} → GuardState F → Bool
has_restores s = ltb s.restores_used max_restores

pub record GuardInputs {ℓ} (F : Type ℓ) : Type ℓ where
  pub limit_kw : F
  pub requested_kw : F
  pub reserve_kw : F
  pub reading : GuardReading F
  pub measurements : List (InverterMeasurement F)
  pub mirror : Option AuthorityMirror
  pub grid_configured : Bool
  pub controllable : Bool
  pub household_day : Option ℕ
  pub observe_only : Bool
  pub lossless_requested_kw : Option F
  pub restore_allowed : Bool

pub record GuardDecision {ℓ} (F : Type ℓ) : Type ℓ where
  pub allowance_kw : Option F
  pub write : Bool
  pub warn_reason : Option Reason

abbrev is_empty {ℓ} : {A : Type ℓ} → List A → Bool
is_empty [] = true
is_empty (x ∷ xs) = false

abbrev mirror_epoch : Option AuthorityMirror → Option ℕ
mirror_epoch none = none
mirror_epoch (some m) = m.epoch

abbrev same_epoch : Option ℕ → Option ℕ → Bool
same_epoch (some a) (some b) = a == b
same_epoch _ _ = false

abbrev pub after_for : Option Instant → ℕ → Instant → Bool
after_for none span now = false
after_for (some since) span now = leb (since + span) now

abbrev newer : Instant → Option Instant → Bool
newer at none = true
newer at (some counted) = ltb counted at

abbrev pub all_clear : ℕ
all_clear = 300 * second

abbrev is_gap : Option Instant → Instant → Bool
is_gap none reported = false
is_gap (some good) reported = ltb (good + 60 * second) reported

module _ {ℓ} {F : Type ℓ} ⦃f : Float F⦄ where
  -- The value and instant of a reading that is fresh.
  pub fresh : Option F → Option Stamp → Instant → Option (F × Instant)
  fresh (some v) (some (aware at)) now =
      if f.is_finite v && leb at now && leb now (at + 60 * second) then some (v, at) else none
  fresh _ _ now = none

  -- The oldest report of the fresh measurements, and of `at`; none where one is not fresh.
  pub oldest_report : List (InverterMeasurement F) → Instant → Instant → Option Instant
  oldest_report [] at now = some at
  oldest_report (m ∷ rest) at now = elim (fresh m.power_w m.reported_at now) [
    | none ↦ none
    | some (v, t) ↦ oldest_report rest (if ltb t at then t else at) now
  ]

  abbrev or_zero : Option F → F
  or_zero none = zero_f
  or_zero (some v) = v

  pub measured : InverterMeasurement F → F
  measured m = elim m.unadjusted_w [
    | none ↦ or_zero m.power_w
    | some u ↦ f.sub u (f.abs (f.sub (or_zero m.power_w) u))
  ]

  -- `sum`
  pub total : F → List (InverterMeasurement F) → F
  total acc [] = acc
  total acc (m ∷ rest) = total (f.add acc (measured m)) rest

  -- Why the guard sleeps.
  pub dormant : GuardInputs F → Option Reason
  dormant i =
      if not (f.is_finite i.limit_kw) || f.le i.limit_kw zero_f
      then some no_supply_limit
      else if not i.grid_configured
      then some no_grid_source
      else if is_empty i.measurements || not i.controllable
      then some no_inverter_measurement
      else none

  pub requested : GuardInputs F → F
  requested i =
      if i.observe_only || not (f.eq i.requested_kw i.requested_kw) || f.lt i.requested_kw zero_f
      then zero_f
      else i.requested_kw

  pub lossless : GuardInputs F → F
  unfolding requested
  lossless i =
      let v = or_else i.lossless_requested_kw (requested i) in
      if not (f.is_finite v) || f.lt v zero_f then zero_f else v

  abbrev pub asks : GuardInputs F → Bool
  asks i = f.lt zero_f (requested i)

  -- `replay()`, in the state of the moment.
  abbrev pub replay : GuardState F → Option ℕ → Bool
  replay s epoch = not s.restored || same_epoch epoch s.epoch

  abbrev low_headroom : Option F → F → Bool
  low_headroom none reserve = false
  low_headroom (some headroom) reserve = f.lt headroom reserve

  -- The branch of a missing reading: the state, and `changed`.
  pub on_missing : GuardState F → GuardInputs F → Instant → GuardState F × Bool
  unfolding requested lossless
  on_missing s i now =
      let noted = record s {
        missing_since = some (or_else s.missing_since (or_else s.last_good_at now));
        over_count = 0;
        headroom_since = none;
        dormant_reason = some missing_reading;
      } in
      let cut = min_f (f.div (lossless i) (f.of_nat 2)) (or_else s.cut_kw (lossless i)) in
      if after_for s.last_good_at (120 * second) now
        && not s.latched
        && asks i
        && low_headroom s.last_headroom_kw i.reserve_kw
      then (
        record noted {
          cut_kw = some cut;
          latched = true;
          epoch = mirror_epoch i.mirror;
          restored = false;
        },
        true,
      )
      else (noted, false)

  abbrev over_limit : F → F → Bool
  over_limit limit_w import_w = f.lt (f.add limit_w (f.of_nat 200)) import_w

  -- A fresh reading is counted.
  pub count_report : GuardState F → F → F → Instant → Instant → GuardState F
  count_report s limit_w import_w at reported =
      let fresh_report = newer at s.last_counted_at in
      let counted =
        if fresh_report
        then (if over_limit limit_w import_w then suc s.over_count else 0)
        else s.over_count in
      let gap = is_gap s.last_good_at reported in
      record s {
        headroom_since = if gap then none else s.headroom_since;
        last_good_at = some reported;
        missing_since = none;
        last_headroom_kw = some (f.div (f.sub limit_w import_w) (f.of_nat 1000));
        last_counted_at = if fresh_report then some at else s.last_counted_at;
        over_count = if gap then (if over_limit limit_w import_w then 1 else 0) else counted;
        dormant_reason = none;
      }

  abbrev lowers : F → Option F → Bool
  lowers cut none = true
  lowers cut (some old) = f.lt cut old

  -- The cut of two readings over the limit.
  pub cut_over : GuardState F → GuardInputs F → F → GuardState F × Bool
  unfolding requested
  cut_over s i available =
      let ceiling = if i.observe_only then available else requested i in
      let cut = min_f (min_f ceiling available) (or_else s.cut_kw ceiling) in
      if leb 2 s.over_count && (asks i || i.observe_only) && lowers cut s.cut_kw
      then (record s { cut_kw = some cut; epoch = mirror_epoch i.mirror; restored = false }, true)
      else (s, false)

  -- The readings-based all-clear of a site that only observes.
  pub clear_observed : GuardState F → F → F → Instant → GuardState F × Bool
  clear_observed s limit_w import_w now =
      let start = or_else s.headroom_since now in
      let waiting = record s { headroom_since = some start } in
      if is_some s.cut_kw && f.le (f.of_nat 200) (f.sub limit_w import_w)
      then (if leb (start + all_clear) now
          then (
            record waiting {
              cut_kw = none;
              latched = false;
              headroom_since = none;
              restored = false;
            },
            true,
          )
          else (waiting, false))
      else (record s { headroom_since = none }, false)

  -- The restore, which is budgeted and needs permission.
  pub restore : GuardState F → GuardInputs F → F → Instant → GuardState F × Bool
  unfolding mirror_permits requested
  restore s i available_w now =
      let start = or_else s.headroom_since now in
      let waiting = record s { headroom_since = some start } in
      if i.restore_allowed
        && is_some s.cut_kw
        && asks i
        && f.le (f.add (f.mul (requested i) (f.of_nat 1000)) (f.of_nat 200)) available_w
      then (if leb (start + all_clear) now
            && has_restores s
            && mirror_permits i.mirror
            && replay s (mirror_epoch i.mirror)
          then (
            record waiting {
              cut_kw = none;
              latched = false;
              headroom_since = none;
              restores_used = suc s.restores_used;
              restored = false;
              epoch = mirror_epoch i.mirror;
            },
            true,
          )
          else (waiting, false))
      else (record s { headroom_since = none }, false)

  -- The branch of a fresh reading.
  pub on_reading :
      GuardState F → GuardInputs F → F → Instant → Instant → Instant → GuardState F × Bool
  unfolding total count_report cut_over clear_observed restore
  on_reading s i import_w at reported now =
      let limit_w = f.mul i.limit_kw (f.of_nat 1000) in
      let other_w = f.sub import_w (total zero_f i.measurements) in
      let available_w =
        if f.is_finite other_w then max_f zero_f (f.sub limit_w other_w) else zero_f in
      let counted = count_report s limit_w import_w at reported in
      let (held, cut) = cut_over counted i (f.div available_w (f.of_nat 1000)) in
      let (next, lifted) =
        if i.observe_only
        then clear_observed held limit_w import_w now
        else restore held i available_w now in
      (next, cut || lifted)

  -- The readings of the inputs, where all are fresh.
  pub readings : GuardInputs F → Instant → Option (F × Instant × Instant)
  unfolding fresh oldest_report
  readings i now = elim (fresh i.reading.import_w i.reading.reported_at now) [
    | none ↦ none
    | some (import_w, at) ↦ (elim (oldest_report i.measurements at now) [
      | none ↦ none
      | some reported ↦ some (import_w, at, reported)
    ])
  ]

  pub new_day : ℕ → GuardState F → GuardState F
  new_day day s =
      if ltb s.restore_day day then record s { restore_day = day; restores_used = 0 } else s

  abbrev allowance : GuardState F → GuardInputs F → F
  allowance s i = elim s.cut_kw [
    | none ↦ if i.observe_only then zero_f else requested i
    | some cut ↦ if i.observe_only then cut else min_f (requested i) cut
  ]

  -- The end of `step`: `fresh_now` says that the readings were fresh.
  pub conclude : GuardState F → GuardInputs F → Bool → Bool → GuardState F × GuardDecision F
  unfolding mirror_permits requested
  conclude s i changed fresh_now =
      let epoch = mirror_epoch i.mirror in
      let permitted = mirror_permits i.mirror in
      let rewrite = s.restored && permitted && replay s epoch && fresh_now && asks i in
      let next = if rewrite then record s { restored = false } else s in
      let may = permitted && replay next epoch in
      (
        next,
        record {
          allowance_kw = if is_some next.cut_kw || changed then some (allowance next i) else none;
          write = (changed || rewrite) && not i.observe_only && may && asks i;
          warn_reason = if may then none else some authority_unavailable;
        },
      )

  -- `step`, for an aware `now`; `today` is its date.
  pub step_at : GuardState F → GuardInputs F → Instant → ℕ → GuardState F × GuardDecision F
  unfolding new_day dormant readings on_missing on_reading conclude
  step_at old i now today =
      let s = new_day (or_else i.household_day today) old in
      elim (dormant i) [
        | some reason ↦ (
          record s { dormant_reason = some reason; over_count = 0; headroom_since = none },
          record { allowance_kw = s.cut_kw; write = false; warn_reason = some reason },
        )
        | none ↦ (elim (readings i now) [
          | none ↦ let (next, changed) = on_missing s i now in conclude next i changed false
          | some (import_w, at, reported) ↦
              let (next, changed) = on_reading s i import_w at reported now in
              conclude next i changed true
        ])
      ]

  unfoldable pub step : GuardState F → GuardInputs F → Stamp → ℕ → GuardState F × GuardDecision F
  unfolding step_at
  step s i naive today =
      (s, record { allowance_kw = s.cut_kw; write = false; warn_reason = some invalid_time })
  step s i (aware now) today = step_at s i now today
