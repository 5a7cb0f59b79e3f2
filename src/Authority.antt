-- ===== src/Authority.antt =====
-- custom_components/ha_spark/authority_store.py: the durable authority records.
-- An aware `datetime` is its instant, in microseconds of UTC; a `UUID` is its 128-bit number; a
-- `Text` is a string; `rating_w`, which this layer only stores and compares, is the bit pattern of
-- the double. Which ranges the validators admit is said where a
-- theorem needs it.
pub mod Equality
pub mod Samples
pub mod Valid
use ha_spark.Prelude.{ℕ, String, Bool, false, Option, none, List, []}

abbrev pub Instant : Type 0
Instant = ℕ

-- `timedelta(seconds=1)`
abbrev pub second : ℕ
second = 1_000_000

pub data OperatingMode : Type 0 where
  observe protect optimise : OperatingMode

-- The step names that the transition code writes; a stored record may hold any other text.
pub data Step : Type 0 where
  verify_fresh_plan write_fallback evaluate_protection cancel_export release_holds : Step
  other_step : String → Step

pub record Transition : Type 0 where
  pub target : OperatingMode
  pub started_at : Instant
  pub steps : List Step
  pub failing_actions : List Step

pub record HoldDevice : Type 0 where
  pub driver : String
  pub power_switch : String
  pub hub : String
  pub slave : ℕ

pub data Cause : Type 0 where
  ev dispatch : Cause

pub data ReleaseRefusal : Type 0 where
  switch_unreadable schedule_unverified : ReleaseRefusal

-- `requested` has the one value "off", and is left out.
pub record HoldRecord : Type 0 where
  pub cause : Cause
  pub started_at : Instant
  pub trusted_end : Option Instant
  pub device : HoldDevice
  pub confirmed : Bool
  pub owned : Bool
  pub pending_release : Bool
  pub clear_count : ℕ
  pub last_clear_report_at : Option Instant
  pub evidence_stale_since : Option Instant
  pub degraded_notified : Bool
  pub remap_notified : Bool
  pub release_refused_since : Option Instant
  pub release_refused_reason : Option ReleaseRefusal
  pub release_refused_notified : Bool
  pub apply_notice_at : Option Instant
  pub apply_notice_repeated : Bool
  pub degraded_notice_at : Option Instant
  pub degraded_notice_repeated : Bool
  pub release_notice_at : Option Instant
  pub release_notice_repeated : Bool

-- `Literal["protect", "optimise"]`
pub data ActiveMode : Type 0 where
  to_protect to_optimise : ActiveMode

abbrev pub mode_of : ActiveMode → OperatingMode
mode_of to_protect = protect
mode_of to_optimise = optimise

pub record ManualSession : Type 0 where
  pub deadline : Option Instant
  pub return_to : ActiveMode
  pub keep_protection : Bool

pub data FallbackCause : Type 0 where
  addon_liveness soc_integrity : FallbackCause

pub record FallbackState : Type 0 where
  pub active : Bool
  pub causes : List FallbackCause
  pub entered_at : Option Instant

-- `FallbackState()`
abbrev pub no_fallback : FallbackState
no_fallback = record { active = false; causes = []; entered_at = none }

pub data Direction : Type 0 where
  import export : Direction

pub record EventIdentity : Type 0 where
  pub direction : Direction
  pub start : Instant
  pub end : Instant

pub record ExportWindow : Type 0 where
  pub start : Instant
  pub end : Instant

pub record GatewayClaim : Type 0 where
  pub host : String
  pub port : ℕ
  pub unit_id : ℕ

pub record ExportSupervision : Type 0 where
  pub inverter_id : String
  pub id : ℕ
  pub event : EventIdentity
  pub confirming_user_id : String
  pub epoch : ℕ
  pub ends_at : Instant
  pub rating_w : ℕ
  pub identity : ℕ × ℕ × ℕ
  pub claim : GatewayClaim

pub data RecordState : Type 0 where
  armed active preserved stop_pending cleared unknown : RecordState

pub record ExportRecord : Type 0 where
  pub inverter_id : String
  pub event : EventIdentity
  pub window : ExportWindow
  pub store_id : ℕ
  pub epoch : ℕ
  pub supervision_id : ℕ
  pub state : RecordState
  pub last_reconcile_at : Instant
  pub stop_reason : Option String
  pub cleanup_verified : Bool

pub data TransitionKind : Type 0 where
  accepted armed started cleanup_verified aborted clock_hold tripped : TransitionKind

pub record ExportTransition : Type 0 where
  pub inverter_id : String
  pub id : ℕ
  pub event : EventIdentity
  pub at : Instant
  pub kind : TransitionKind
  pub reason : Option String
  pub acked : Bool
  pub cleared : Option Bool

pub record StopLatch : Type 0 where
  pub inverter_id : String
  pub event : EventIdentity
  pub window_end : Instant
  pub epoch : ℕ

pub data RequesterKind : Type 0 where
  cli ingress system service repair : RequesterKind

-- `schema_version` has the one value 1, and is left out.
pub record AuthorityState : Type 0 where
  pub store_id : ℕ
  pub committed_mode : OperatingMode
  pub addon_session_id : Option String
  pub epoch : ℕ
  pub transition : Option Transition
  pub manual_session : Option ManualSession
  pub fallback : FallbackState
  pub holds : List HoldRecord
  pub export_supervisions : List ExportSupervision
  pub export_records : List ExportRecord
  pub export_transitions : List ExportTransition
  pub stop_latches : List StopLatch
  pub last_changed_at : Instant
  pub requester_kind : RequesterKind
