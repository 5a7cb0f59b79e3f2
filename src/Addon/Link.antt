-- ===== src/Addon/Link.antt =====
-- The add-on's side of a v4 snapshot: its admission and answer (ha_spark/api/server.py), the evidence
-- of a retirement (ha_spark/authority.py) and the summary's `addon_authority`
-- (ha_spark/api/contract.py). What else a snapshot holds does not bear on the handshake.
use ha_spark.Prelude.{Bool, true, false, Option, none, some, [], ◌∷◌, ◌==◌, if◌then◌else◌, is_none}
use ha_spark.Authority.{OperatingMode}
use ha_spark.Addon.Disk.{AddonState, missing, broken, valid, Marker, Files, same_addon_state}
use ha_spark.Addon.{Store, is_known, Write, Owner, Active, active, retired, can_handover, handover}

pub data StoreState : Type 0 where
  ok unknown save_failed : StoreState

-- `addon_authority`; no mode is "authority_unknown".
pub record AddonAuthority : Type 0 where
  pub active : Active
  pub mode : Option OperatingMode
  pub holds_present : Bool
  pub store_state : StoreState

unfoldable pub marker_status : AddonState → Marker → Option Active
marker_status state (Marker.plain id) = none
marker_status state (Marker.retired id) = if id == state.store_id then some retired else none
marker_status state (Marker.pending_addon id candidate) =
    if same_addon_state candidate state then some active else none

unfoldable pub retirement_status : Files → Option Active
unfolding marker_status
retirement_status d = elim d.store [
  | missing ↦ none
  | broken ↦ none
  | valid state ↦ (elim d.marker [
    | missing ↦ none
    | broken ↦ none
    | valid m ↦ marker_status state m
  ])
]

abbrev shown_state : Store → Option AddonState
shown_state s = if is_known s then s.state else none

abbrev mode_of : Option AddonState → Option OperatingMode
mode_of none = none
mode_of (some state) = some state.committed_mode

abbrev holds_any : Option AddonState → Bool
holds_any none = false
holds_any (some state) = elim state.holds [ [] ↦ false | h ∷ rest ↦ true ]

abbrev store_state_of : Bool → Option AddonState → StoreState
store_state_of true state = StoreState.save_failed
store_state_of false none = StoreState.unknown
store_state_of false (some state) = StoreState.ok

-- The summary of a store with no retirement.
unfoldable pub live_report : Store → AddonAuthority
live_report s = record {
  active = active;
  mode = mode_of (shown_state s);
  holds_present = holds_any (shown_state s);
  store_state = store_state_of s.save_failed (shown_state s);
}

unfoldable pub report : Store → AddonAuthority
unfolding live_report
report s = if s.save_failed then live_report s else elim (retirement_status s.files) [
  | none ↦ live_report s
  | some a ↦ record {
    active = a;
    mode = some OperatingMode.observe;
    holds_present = false;
    store_state = StoreState.ok;
  }
]

abbrev pub failed_report : AddonAuthority
failed_report = record {
  active = active;
  mode = none;
  holds_present = false;
  store_state = StoreState.save_failed;
}

abbrev pub shows_retired : Option Active → Bool
shows_retired (some retired) = true
shows_retired _ = false

-- A pending owner: the handover, where it is admitted.
unfoldable pub receive_pending :
    Write → Write → Write → AddonState → Owner → Store → Store × AddonAuthority
unfolding report
receive_pending w₀ w₁ w₂ fresh owner s =
    let (next, answer) = handover w₀ w₁ w₂ fresh owner s in
    if can_handover owner s
    then (next, if is_none answer then failed_report else report next)
    else (s, report s)

-- One snapshot that names `owner`: the store and the answer, or none where it is invalid; `native`
-- says that its topology has inverters, all of them native.
unfoldable pub receive :
    Write → Write → Write → AddonState → Bool → Owner → Store → Option (Store × AddonAuthority)
unfolding receive_pending
receive w₀ w₁ w₂ fresh native Owner.integration s =
    if shows_retired (retirement_status s.files) then some (s, report s) else none
receive w₀ w₁ w₂ fresh native Owner.addon s =
    let next = (handover w₀ w₁ w₂ fresh Owner.addon s).0 in some (next, report next)
receive w₀ w₁ w₂ fresh native Owner.pending_integration s =
    if native then some (receive_pending w₀ w₁ w₂ fresh Owner.pending_integration s) else none
receive w₀ w₁ w₂ fresh native Owner.pending_addon s =
    if native then none else some (receive_pending w₀ w₁ w₂ fresh Owner.pending_addon s)
