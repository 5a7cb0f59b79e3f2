-- ===== src/Tripwire/Counting.antt =====
-- The tripwire against its history: it trips exactly when the last two counted readings were over.
use ha_spark.Prelude.{
  ℕ, suc, ◌+◌, ◌≤◌, ◌≡◌, Bool, true, false, ◌&&◌, Option, none, some, List, [], ◌∷◌, leb,
  if◌then◌else◌, or_else, arith, refl, is_some,
}
use ha_spark.Float.{Float}
use ha_spark.Authority.{Instant}
use ha_spark.Tripwire.{
  Stamp, TripwireState, TripwireDecision, initial, newer, fresh_reading, is_over, step, warn_after,
  repair_after,
}

-- One observation of the grid.
pub record Observation {ℓ} (F : Type ℓ) : Type ℓ where
  pub import_w : Option F
  pub reported_at : Option Stamp
  pub limit_w : F
  pub now : Instant

-- A counted reading: whether it was over, and when it was reported.
abbrev pub Counted : Type 0
Counted = Bool × Instant

abbrev last_report : List Counted → Option Instant
last_report [] = none
last_report ((over, at) ∷ rest) = some at

-- How many readings in a row, up to the newest, were over.
abbrev pub streak : List Counted → ℕ
streak [] = 0
streak ((over, at) ∷ rest) = if over then suc (streak rest) else 0

module _ {ℓ} {F : Type ℓ} ⦃f : Float F⦄ where
  abbrev pub count_reading : Option (F × Instant) → F → List Counted → List Counted
  count_reading none limit_w history = history
  count_reading (some (w, at)) limit_w history =
      if newer at (last_report history) then (is_over w limit_w, at) ∷ history else history

  -- The counted readings of some observations, both with the newest first: a fresh reading whose
  -- report is later than that of the reading counted before.
  pub history : List (Observation F) → List Counted
  history [] = []
  history (o ∷ earlier) =
      count_reading (fresh_reading o.import_w o.reported_at o.now) o.limit_w (history earlier)

  abbrev pub observe_one : Observation F → TripwireState → TripwireState × TripwireDecision
  observe_one o s = step s o.import_w o.reported_at o.limit_w o.now

  pub state_after : List (Observation F) → TripwireState
  state_after [] = initial
  state_after (o ∷ earlier) = (observe_one o (state_after earlier)).0

  -- After any observations, the count is the streak of the counted readings.
  state_after-streak :
      (os : List (Observation F))
      → ((state_after os).over_count ≡ streak (history os))
        × ((state_after os).last_counted_at ≡ last_report (history os))
  unfolding state_after step history
  state_after-streak [] = (refl, refl)
  state_after-streak (o ∷ earlier) = ground (arith, state_after-streak earlier)

  -- After any earlier observations, the tripwire trips on an observation exactly when its reading is
  -- fresh and the last two counted readings, this one included if it is new, were both over the limit
  -- by more than the deadband.
  pub step-trip :
      (o : Observation F) (earlier : List (Observation F))
      → (observe_one o (state_after earlier)).1.trip ≡ (
          is_some (fresh_reading o.import_w o.reported_at o.now)
          && leb 2 (streak (history (o ∷ earlier))))
  unfolding step history
  step-trip o earlier = ground (arith, state_after-streak earlier)

  -- A missing or stale reading never trips and never touches the count. It warns at most once until
  -- a fresh reading comes, and not before the reading has been missing for a minute; a repair is
  -- raised exactly when it has been missing for two.
  pub step_missing :
      (s : TripwireState) (import_w : Option F) (reported_at : Option Stamp) (limit_w : F)
      (now : Instant)
      → fresh_reading import_w reported_at now ≡ none
      → let (next, d) = step s import_w reported_at limit_w now in
        let since = or_else s.missing_since now in
        (d.trip ≡ false)
        × (next.over_count ≡ s.over_count)
        × (next.last_counted_at ≡ s.last_counted_at)
        × (next.missing_since ≡ some since)
        × (d.warn ≡ true → (s.warned ≡ false) × (next.warned ≡ true) × (since + warn_after ≤ now))
        × (s.warned ≡ true → (d.warn ≡ false) × (next.warned ≡ true))
        × (d.repair ≡ leb (since + repair_after) now)
  unfolding step
  step_missing s import_w reported_at limit_w now h = ground arith
