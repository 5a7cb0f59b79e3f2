-- ===== src/Hold/Clearance.antt =====
-- A release is pending only after five clear reports.
use ha_spark.Prelude.{
  ℕ, suc, ◌≤◌, ◌≡◌, Bool, true, false, Option, some, List, [], ◌∷◌, arith, if◌then◌else◌,
}
use ha_spark.Authority.{Instant, HoldRecord}
use ha_spark.Hold.{advance_ev}

-- What an observation says: whether the car charges, and when that was reported.
abbrev pub Observation : Type 0
Observation = Option Bool × Option Instant

-- The record after some observations, the newest first.
unfoldable pub after_all : HoldRecord → List Observation → HoldRecord
after_all h [] = h
after_all h ((charging, reported) ∷ earlier) = advance_ev (after_all h earlier) charging reported

abbrev pub is_clear : Observation → Bool
is_clear (some false, some reported) = true
is_clear _ = false

-- The clear reports since the newest observation that was none.
abbrev pub clear_run : List Observation → ℕ
clear_run [] = 0
clear_run (o ∷ earlier) = if is_clear o then suc (clear_run earlier) else 0

pub record IsCounted (h : HoldRecord) (n : ℕ) : Type 0 where
  pub count : h.clear_count ≤ n
  pub pending : h.pending_release ≡ true → h.clear_count ≡ 5

advance-IsCounted :
    (h : HoldRecord) (n : ℕ) (o : Observation)
    → IsCounted h n
    → IsCounted (advance_ev h o.0 o.1) (if is_clear o then suc n else 0)
unfolding advance_ev
advance-IsCounted h n o c = record {
  count = ground (arith, c.count);
  pending = ground (arith, c.pending);
}

after_all-IsCounted :
    (h : HoldRecord) (os : List Observation)
    → IsCounted h 0
    → IsCounted (after_all h os) (clear_run os)
unfolding after_all
after_all-IsCounted h [] c = c
after_all-IsCounted h (o ∷ earlier) c =
    advance-IsCounted (after_all h earlier) (clear_run earlier) o (after_all-IsCounted h earlier c)

-- From a hold whose clearance has not begun, whatever is observed, a release is pending only when the
-- newest five observations, at least, were all clear reports: one unknown, stale or charging
-- observation begins the count again.
pub release-run :
    (h : HoldRecord) (os : List Observation)
    → h.clear_count ≡ 0
    → h.pending_release ≡ false
    → (after_all h os).pending_release ≡ true
    → 5 ≤ clear_run os
release-run h os z p r =
    let c =
      after_all-IsCounted h os (record { count = omega (arith, z); pending = ground (arith, p) }) in
    omega (arith, c.count, c.pending r)
