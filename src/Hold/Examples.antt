-- ===== src/Hold/Examples.antt =====
-- Five clear reports, a minute apart.
use ha_spark.Prelude.{ℕ, ◌≤◌, ◌≡◌, refl, true, false, some, none, List, [], ◌∷◌}
use ha_spark.Authority.{HoldRecord, ev}
use ha_spark.Hold.{advance_ev, next_clear, count_clear}
use ha_spark.Hold.Clearance.{Observation, after_all, clear_run, release-run}

abbrev hold : HoldRecord
hold = record {
  cause = ev;
  started_at = 0;
  trusted_end = none;
  device = record {
    driver = "solis_native";
    power_switch = "garage";
    hub = "10.0.0.2:502";
    slave = 1;
  };
  confirmed = true;
  owned = true;
  pending_release = false;
  clear_count = 0;
  last_clear_report_at = none;
  evidence_stale_since = none;
  degraded_notified = false;
  remap_notified = false;
  release_refused_since = none;
  release_refused_reason = none;
  release_refused_notified = false;
  apply_notice_at = none;
  apply_notice_repeated = false;
  degraded_notice_at = none;
  degraded_notice_repeated = false;
  release_notice_at = none;
  release_notice_repeated = false;
}

abbrev clear_at : ℕ → Observation
clear_at at = (some false, some at)

abbrev reports : List Observation
reports = clear_at 360 ∷ clear_at 300 ∷ clear_at 240 ∷ clear_at 180 ∷ clear_at 120 ∷ []

is_pending : (after_all hold reports).pending_release ≡ true
unfolding after_all advance_ev next_clear count_clear
is_pending = refl

release-run_example : 5 ≤ clear_run reports
release-run_example = release-run hold reports refl refl is_pending
