-- ===== src/Addon/Examples.antt =====
-- A save, a start and a restoration of the add-on's store.
use ha_spark.Prelude.{◌*◌, ◌≡◌, ◌≢◌, refl, true, false, some, none}
use ha_spark.Authority.{second}
use ha_spark.Addon.Retire.{IsFenced, handover_fences}
use ha_spark.Addon.Disk.{AddonState, Requester, missing, valid, Marker, plain}
use ha_spark.Addon.{
  load, persist_initial, done, Store, is_known, fresh_observe, start_process, initialise, Owner,
  active, handover, with_retirement, with_retired,
}

abbrev resting : AddonState
resting = fresh_observe 7 (100 * second) Requester.system

abbrev store : Store
store = record {
  files = record { store = valid resting; marker = valid (plain 7) };
  state = some resting;
  save_failed = false;
  pending = none;
  initialising = false;
}

abbrev later : AddonState
later = record resting { epoch = 2 }

abbrev no_store : Store
no_store = record {
  files = record { store = missing; marker = missing };
  state = none;
  save_failed = false;
  pending = none;
  initialising = false;
}

starts_first : (start_process done done 7 (100 * second) no_store).1 ≡ false
unfolding start_process initialise persist_initial load
starts_first = refl

abbrev retired_store : Store
retired_store = record store {
  files = record { store = valid resting; marker = valid (Marker.retired 7) };
  state = none;
}

abbrev candidate : AddonState
candidate = fresh_observe 8 (200 * second) Requester.system

restores : (handover done done done candidate Owner.pending_addon retired_store).1 ≡ some active
unfolding handover with_retirement with_retired
restores = refl

handover_fences_example :
    (Owner.pending_addon ≢ Owner.addon
      → IsFenced (handover done done done candidate Owner.pending_addon retired_store).0)
    × (Owner.pending_addon ≡ Owner.addon
        → active ≡ active
        → is_known (handover done done done candidate Owner.pending_addon retired_store).0 ≡ true)
handover_fences_example =
    handover_fences done done done candidate Owner.pending_addon retired_store active restores
