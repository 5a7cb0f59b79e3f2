-- ===== src/Solcast/Examples.antt =====
-- Two requests around a restart, on the first day.
use ha_spark.Prelude.{List, [], ◌∷◌, true, false, arith}
use ha_spark.Addon.Disk.{missing}
use ha_spark.Solcast.{SaveAnswers, returns, LoadAnswers}
use ha_spark.Solcast.Request.{Answers, Reply, outcome, quota_exhausted}
use ha_spark.Solcast.Request.Quota.{AtMost}
use ha_spark.Solcast.Request.History.{Event, request, restart, started, history, history-AtMost}

abbrev lands : SaveAnswers
lands = record { active = true; active_at_write = true; lands = true; end = returns }

abbrev loads : LoadAnswers
loads = record { active = true; reads = true; now = 5; save = lands }

abbrev once : Reply → Answers
once reply = record {
  active = true;
  load = loads;
  rounds = record { now = 6; save = lands; after = 7 } ∷ [];
  active_after = true;
  reply = reply;
  received_at = 8;
  save = lands;
}

abbrev events : List Event
events = request 10 true (once (outcome 0)) ∷ restart ∷ request 10 false (once quota_exhausted) ∷ []

history-AtMost_example : AtMost 10 (history events (started missing 2, (λ f. 0))).1
history-AtMost_example = history-AtMost 10 2 events missing (omega arith, (tt, (omega arith, tt)))
