-- ===== src/Hold.antt =====
-- custom_components/ha_spark/native_hold.py: the clearance of an EV hold, and the test of a daily
-- window. A time of day counts microseconds from midnight.
pub mod Clearance
mod Examples
use ha_spark.Prelude.{
  ℕ, suc, Bool, true, false, not, ◌&&◌, ◌||◌, Option, none, some, leb, ltb, ◌==◌, if◌then◌else◌,
}
use ha_spark.Authority.{Instant, HoldRecord}

-- The record with its clearance sequence begun again.
pub reset_clearance : HoldRecord → HoldRecord
reset_clearance h = record h {
  clear_count = 0;
  last_clear_report_at = none;
  pending_release = false;
}

-- One more clear report.
pub count_clear : HoldRecord → Instant → HoldRecord
count_clear h reported =
    let count = if leb 5 (suc h.clear_count) then 5 else suc h.clear_count in
    record h {
      clear_count = count;
      last_clear_report_at = some reported;
      pending_release = count == 5;
    }

pub next_clear : HoldRecord → Instant → HoldRecord
unfolding reset_clearance count_clear
next_clear h reported = elim h.last_clear_report_at [
  | none ↦ count_clear h reported
  | some last ↦
      if reported == last
      then h
      else if ltb reported last
      then reset_clearance h
      else count_clear h reported
]

pub advance_ev : HoldRecord → Option Bool → Option Instant → HoldRecord
unfolding reset_clearance next_clear
advance_ev h (some false) (some reported) = next_clear h reported
advance_ev h _ _ = reset_clearance h

abbrev pub in_window : ℕ → ℕ → ℕ → Bool
in_window now start end =
    if ltb start end then leb start now && ltb now end else leb start now || ltb now end
