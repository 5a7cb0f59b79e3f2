-- ===== src/Ownership/Examples.antt =====
-- A site that has been handed to the integration, step by step.
use ha_spark.Prelude.{true, ◌*◌, ◌≡◌, refl, false, some, none, []}
use ha_spark.Authority.{second, OperatingMode, AuthorityState}
use ha_spark.Authority.Samples.{site}
use ha_spark.Addon.Disk.{AddonState, missing, valid, Marker, Requester}
use ha_spark.Addon.{Store, done, fresh_observe, Owner, Active, active, retired}
use ha_spark.Addon.Link.{
  AddonAuthority, StoreState, receive, receive_pending, report, retirement_status, live_report,
}
use ha_spark.Addon.Retire.{IsFenced}
use ha_spark.Ownership.{
  OwnershipStore, Summary, confirmed, async_load, async_advance, async_request, authority_owner,
  new_store,
}
use ha_spark.Ownership.Exclusion.{
  load, IsReachable, first, next, request, exchange, owners-exclusive,
}

abbrev resting : AddonState
resting = fresh_observe 7 (100 * second) Requester.system

abbrev addon_store : Store
addon_store = record {
  files = record { store = valid resting; marker = valid (Marker.retired 7) };
  state = none;
  save_failed = false;
  pending = none;
  initialising = false;
}

abbrev idle : AuthorityState
idle = record site {
  committed_mode = OperatingMode.observe;
  epoch = 1;
  export_supervisions = [];
  export_records = [];
  export_transitions = [];
}

abbrev summary_of : AddonAuthority → Summary
summary_of addon = record {
  api_version = 4;
  mode = some OperatingMode.observe;
  transition_target = none;
  addon_authority = some addon;
}

abbrev working : AddonAuthority
working = record {
  active = active;
  mode = some OperatingMode.observe;
  holds_present = false;
  store_state = StoreState.ok;
}

abbrev gone : AddonAuthority
gone = record working { active = retired }

abbrev set_up : OwnershipStore
set_up = async_load confirmed none (new_store missing)

abbrev asked : OwnershipStore
asked = (async_request confirmed none Owner.integration (some (summary_of working)) set_up).0

abbrev granted : OwnershipStore
granted = (async_advance confirmed (some idle) false none (summary_of gone) asked).0

receives :
    receive done done done resting true (authority_owner none asked) addon_store
    ≡ some (addon_store, gone)
unfolding receive receive_pending report live_report retirement_status
    ha_spark.Addon.Link.marker_status ha_spark.Addon.can_handover ha_spark.Addon.handover
    ha_spark.Addon.with_retirement ha_spark.Addon.with_retired authority_owner async_load
    async_request
receives = refl

granted-IsReachable : IsReachable (record { integration = granted; addon = addon_store })
granted-IsReachable =
    next
      (next (next (first addon_store) (load confirmed none))
        (request confirmed none Owner.integration (some (summary_of working)) refl))
      (exchange none done done done resting true gone confirmed (some idle) false none
        (summary_of gone) receives refl)

granted-owner : authority_owner (some idle) granted ≡ Owner.integration
unfolding authority_owner async_load async_request async_advance
granted-owner = refl

owners-exclusive_example : IsFenced addon_store
owners-exclusive_example =
    owners-exclusive (record { integration = granted; addon = addon_store }) (some idle)
      granted-IsReachable granted-owner
