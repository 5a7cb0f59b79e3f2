-- ===== src/ExportLog/Examples.antt =====
-- The log of the sample site.
use ha_spark.Prelude.{
  arith, ◌*◌, ℕ, ◌≤◌, ◌≡◌, ◌⊎◌, true, Bool, some, none, List, [], ◌∷◌, any, count, ◌+◌,
}
use ha_spark.Authority.{second, AuthorityState, ExportTransition, TransitionKind}
use ha_spark.Authority.Samples.{site, row, event}
use ha_spark.ExportLog.{logs, with_append, trim}
use ha_spark.ExportLog.Tally.{IsWithin}
use ha_spark.ExportLog.Drop.{is_acked, pending}
use ha_spark.ExportLog.Trim.{trim_returns}
use ha_spark.ExportLog.Append.{IsSound, with_append-IsSound}

log-IsSound : IsSound site.export_transitions
log-IsSound = record {
  caps = record { total = omega arith; each = λ j. ground arith };
  once = λ i k e. ground arith;
}

with_append-IsSound_example :
    (next : AuthorityState) × (with_append site "garage" event TransitionKind.started
        (1000 * second)
        none
        none
        22
      ≡ some next)
    × IsSound next.export_transitions
    × (any (logs "garage" TransitionKind.started event) next.export_transitions ≡ true)
    × (any (logs "garage" TransitionKind.started event) site.export_transitions ≡ true
        → next ≡ site)
with_append-IsSound_example =
    with_append-IsSound site "garage" event TransitionKind.started (1000 * second) none none 22
      log-IsSound

trim_returns_example :
    (kept : List ExportTransition) × (dropped : ℕ) × (trim
        (row ∷ [])
        (5000 * second)
        1
        (some "garage")
      ≡ some (kept, dropped))
    × IsWithin kept 1 (some "garage")
    × ((p : ExportTransition → Bool) → count p kept ≤ count p (row ∷ []))
    × (pending kept + dropped ≡ pending (row ∷ []))
    × ((dropped ≡ 0) ⊎ (count is_acked kept ≡ 0))
trim_returns_example = trim_returns (row ∷ []) (5000 * second) 1 (some "garage") (omega arith)
