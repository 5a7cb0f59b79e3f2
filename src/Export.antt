-- ===== src/Export.antt =====
-- custom_components/ha_spark/native_export.py: which export record is live.
use ha_spark.Prelude.{
  ℕ, String, Bool, true, false, not, ◌&&◌, ◌||◌, Option, none, some, List, leb, ◌==◌, str_eq, any,
  find,
}
use mathlib.Core.List.{reverse}
use ha_spark.Authority.{
  Instant, ExportRecord, ExportSupervision, StopLatch, RecordState, EventIdentity, AuthorityState,
}
use ha_spark.Authority.Equality.{same_event}

abbrev pub is_running : RecordState → Bool
is_running RecordState.armed = true
is_running RecordState.active = true
is_running RecordState.preserved = true
is_running _ = false

unfoldable pub record_is_live :
    ExportRecord → Instant → ℕ → ℕ → List ExportSupervision → List StopLatch → Bool → Bool
record_is_live record_ now epoch store_id supervisions latches fallback_active =
    is_running record_.state
    && record_.epoch == epoch
    && record_.store_id == store_id
    && not (leb record_.event.end now || fallback_active)
    && not (any (λ latch. same_event latch.event record_.event) latches)
    && any (λ row. row.id == record_.supervision_id && same_event row.event record_.event)
        supervisions

pub supervision_for : List ExportSupervision → String → EventIdentity → Option ExportSupervision
supervision_for rows inverter_id event =
    find (λ row. str_eq row.inverter_id inverter_id && same_event row.event event) (reverse rows)

unfoldable pub latest_record : List ExportRecord → String → Option ExportRecord
latest_record rows inverter_id = find (λ row. str_eq row.inverter_id inverter_id) (reverse rows)

pub latest_latch : List StopLatch → String → Option StopLatch
latest_latch rows inverter_id = find (λ row. str_eq row.inverter_id inverter_id) (reverse rows)

abbrev if_live : Bool → ExportRecord → Option ExportRecord
if_live true r = some r
if_live false r = none

-- `_live_record` of native_write.py. `ours` says that the inverter was armed in this session or
-- re-verified.
unfoldable pub live_record :
    Option AuthorityState → (String → Bool) → String → Instant → Option ExportRecord
unfolding latest_record record_is_live
live_record none ours inverter_id now = none
live_record (some state) ours inverter_id now =
    elim (latest_record state.export_records inverter_id) [
      | none ↦ none
      | some r ↦
          if_live
            (record_is_live r now state.epoch state.store_id state.export_supervisions
                state.stop_latches state.fallback.active
              && ours inverter_id)
            r
    ]
