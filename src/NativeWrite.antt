-- ===== src/NativeWrite.antt =====
-- custom_components/ha_spark/native_write.py: the conditions of every write to an inverter.
pub mod Policy
pub mod Commit
pub mod Transaction
mod Examples
use ha_spark.Prelude.{
  ℕ, String, Bool, true, false, not, ◌&&◌, ◌||◌, Option, none, some, List, [], ◌∷◌, ◌==◌, leb,
  if◌then◌else◌, is_some, is_none, any,
}
use ha_spark.Authority.{
  Instant, OperatingMode, Transition, ManualSession, FallbackCause, FallbackState, EventIdentity,
  ExportSupervision, StopLatch, AuthorityState,
}
use ha_spark.Authority.Equality.{same_event}
use ha_spark.Transitions.{is_mode}
use ha_spark.Export.{supervision_for}

-- The reasons that these conditions give.
pub data WriteReason : Type 0 where
  authority_unknown gateway_not_owned stale_epoch not_available mode read_only limits : WriteReason
  tripped not_supervised grid_charge_not_permitted untrusted_soc : WriteReason

-- The control of an owner's entity; `charge` stands for each one that is not named.
pub data EntityControl : Type 0 where
  power discharge charge : EntityControl

-- The flags of a call.
pub record Flags : Type 0 where
  pub guard_write : Bool
  pub entity_control : Option EntityControl
  pub fallback : Bool
  pub transition : Bool
  pub cleanup : Bool

abbrev pub plan : Flags
plan = record {
  guard_write = false;
  entity_control = none;
  fallback = false;
  transition = false;
  cleanup = false;
}

-- What `_refusal` looks at: the authority, the controller, the device and the guard.
pub record Conditions : Type 0 where
  pub state : Option AuthorityState
  pub owned : Bool
  pub ready : Bool
  pub retrying : Bool
  pub permits_non_protection : Bool
  pub running : Bool
  pub polling : Bool
  pub closed : Bool
  pub device_valid : Bool
  pub boundary_open : Bool
  pub limits_current : Bool

abbrev pub in_mode : AuthorityState → OperatingMode → Bool
in_mode state m = is_mode state.committed_mode m

-- `state.transition is not None and state.transition.target == m`
abbrev pub heads : Option Transition → OperatingMode → Bool
heads none m = false
heads (some t) m = is_mode t.target m

-- `state.transition is not None and state.transition.target != "optimise"`
abbrev pub leaves : Option Transition → Bool
leaves none = false
leaves (some t) = not (is_mode t.target OperatingMode.optimise)

abbrev pub is_empty {ℓ} : {A : Type ℓ} → List A → Bool
is_empty [] = true
is_empty (x ∷ xs) = false

abbrev pub entity_mode : EntityControl → Option ManualSession → AuthorityState → Bool
entity_mode power (some m) state = m.keep_protection
entity_mode power none state = not (in_mode state OperatingMode.observe) || state.fallback.active
entity_mode discharge manual state = is_none manual
entity_mode charge manual state =
    is_none manual && (in_mode state OperatingMode.optimise || state.fallback.active)

-- A write of the owner's entity.
pub entity_reason : EntityControl → Conditions → AuthorityState → Option WriteReason
entity_reason control c state =
    if not c.ready || is_some state.transition
    then some not_available
    else if entity_mode control state.manual_session state
    then some mode
    else none

-- Whether any other write is refused by the mode.
pub mode_refused : Flags → Conditions → AuthorityState → Bool
mode_refused flags c state =
    let optimise = in_mode state OperatingMode.optimise in
    let leaving =
      heads state.transition OperatingMode.protect
      || heads state.transition OperatingMode.observe in
    if flags.guard_write
    then not (in_mode state OperatingMode.protect || optimise)
      || heads state.transition OperatingMode.observe
    else if flags.fallback
    then not optimise
      || is_some state.manual_session
      || not leaving && not state.fallback.active
      || is_some state.transition && not leaving && leaves state.transition
    else if flags.cleanup
    then in_mode state OperatingMode.observe
    else if flags.transition
    then not optimise || is_none state.transition && not state.fallback.active
    else if state.fallback.active
    then not (is_empty state.fallback.causes)
      || c.retrying
      || not optimise
      || is_some state.manual_session
      || leaves state.transition
    else not optimise || is_some state.manual_session || leaves state.transition

pub flag_reason : Flags → Conditions → AuthorityState → Option WriteReason
flag_reason flags c state = elim flags.entity_control [
  | some control ↦ entity_reason control c state
  | none ↦
      if mode_refused flags c state
      then some mode
      else if not (flags.guard_write || flags.fallback || flags.cleanup || flags.transition)
          && not c.permits_non_protection
      then some not_available
      else none
]

abbrev pub device_reason : Conditions → Option WriteReason
device_reason c =
    if not c.running || not c.polling || c.closed || not c.device_valid
    then some read_only
    else if not c.boundary_open || not c.limits_current
    then some limits
    else none

abbrev pub or_reason : Option WriteReason → Option WriteReason → Option WriteReason
or_reason none next = next
or_reason (some r) next = some r

-- `_refusal`, of a state that is known or not.
pub state_refusal : Flags → ℕ → Conditions → Option AuthorityState → Option WriteReason
state_refusal flags epoch c none = some authority_unknown
state_refusal flags epoch c (some state) =
    if not c.owned
    then some gateway_not_owned
    else if not (state.epoch == epoch)
    then some stale_epoch
    else or_reason (flag_reason flags c state) (device_reason c)

-- `_refusal`
pub refusal : Flags → ℕ → Conditions → Option WriteReason
unfolding state_refusal
refusal flags epoch c = state_refusal flags epoch c c.state

abbrev pub export_mode_refused : Option AuthorityState → Bool
export_mode_refused none = false
export_mode_refused (some state) =
    not (in_mode state OperatingMode.optimise)
    || is_some state.manual_session
    || state.fallback.active
    || leaves state.transition

-- `_export_policy_reason`
pub export_policy_reason : ℕ → Conditions → Option WriteReason
export_policy_reason epoch c =
    let otherwise = refusal plan epoch c in
    if export_mode_refused c.state then some mode else otherwise

abbrev pub ended : Instant → Option ExportSupervision → Bool
ended now none = true
ended now (some s) = leb s.ends_at now

abbrev pub is_latched : EventIdentity → AuthorityState → Bool
is_latched event state = any (λ latch. same_event latch.event event) state.stop_latches

-- What the supervisions and the latches say.
abbrev pub event_reason :
    String → EventIdentity → Instant → Option AuthorityState → Option WriteReason
event_reason inverter_id event now none = some authority_unknown
event_reason inverter_id event now (some state) =
    if is_latched event state
    then some tripped
    else if ended now (supervision_for state.export_supervisions inverter_id event)
    then some not_supervised
    else none

-- `_export_write_reason`, at the time `now`.
pub export_write_reason : String → ℕ → EventIdentity → Instant → Conditions → Option WriteReason
export_write_reason inverter_id epoch event now c =
    or_reason (export_policy_reason epoch c) (event_reason inverter_id event now c.state)
