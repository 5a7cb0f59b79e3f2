-- ===== src/Addon/Disk.antt =====
-- The records and files of the add-on's authority store.
use mathlib.Core.Bool.{decide, decide_iff}
use native.Mathlib.Decide.{ℕ_discrete}
use ha_spark.Prelude.{
  ℕ, String, Bool, true, not, ◌&&◌, Option, List, ◌==◌, leb, is_some, is_none, all, ◌≡◌, ◌↔◌,
}
use ha_spark.Authority.{
  Instant, OperatingMode, Transition, HoldDevice, Cause, ev, dispatch, ReleaseRefusal,
}
use ha_spark.Authority.Equality.{String-discrete}

pub data Requester : Type 0 where
  cli ingress system : Requester

-- `HoldRecord` of the add-on.
pub record AddonHold : Type 0 where
  pub cause : Cause
  pub started_at : Instant
  pub trusted_end : Option Instant
  pub device : HoldDevice
  pub confirmed : Bool
  pub owned : Bool
  pub pending_release : Bool
  pub clear_count : ℕ
  pub last_clear_report_at : Option Instant
  pub evidence_stale_since : Option Instant
  pub degraded_notified : Bool
  pub remap_notified : Bool
  pub release_refused_since : Option Instant
  pub release_refused_reason : Option ReleaseRefusal
  pub release_refused_notified : Bool

pub record AddonFallback : Type 0 where
  pub active : Bool
  pub causes : List String

-- `AuthorityState` of the add-on; `notified` is its `readiness_notice`.
pub record AddonState : Type 0 where
  pub store_id : ℕ
  pub committed_mode : OperatingMode
  pub transition : Option Transition
  pub epoch : ℕ
  pub holds : List AddonHold
  pub fallback : AddonFallback
  pub notified : Bool
  pub last_changed_at : Instant
  pub requester_kind : Requester

-- The fields of a dispatch, or of an EV hold: whether it has a trusted end, and no clearance.
abbrev cause_valid : Cause → Bool → Bool → Bool
cause_valid dispatch ended uncleared = ended && uncleared
cause_valid ev ended uncleared = not ended

-- `validate_cause_fields`, and the range of `clear_count`.
pub hold_valid : AddonHold → Bool
hold_valid h =
    leb h.clear_count 5
    && cause_valid h.cause (is_some h.trusted_end)
        (h.clear_count == 0 && is_none h.last_clear_report_at)

-- What `model_validate_json` checks of a state that the program has built.
unfoldable pub is_valid : AddonState → Bool
unfolding hold_valid
is_valid s = leb 1 s.epoch && all hold_valid s.holds

pub AddonState-discrete : Discrete AddonState
AddonState-discrete = hlevel (ℕ_discrete, String-discrete)

pub AddonHolds-discrete : Discrete (List AddonHold)
AddonHolds-discrete = hlevel (ℕ_discrete, String-discrete)

pub same_addon_state : AddonState → AddonState → Bool
same_addon_state a b = decide (AddonState-discrete a b)

pub same_addon_state_iff : (a b : AddonState) → (same_addon_state a b ≡ true) ↔ (a ≡ b)
unfolding same_addon_state
same_addon_state_iff a b = decide_iff (AddonState-discrete a b)

pub data File {ℓ} (A : Type ℓ) : Type ℓ where
  missing broken : File A
  valid : A → File A

-- `_Marker`, and the two kinds of `RetirementMarker`.
pub data Marker : Type 0 where
  plain : ℕ → Marker
  retired : ℕ → Marker
  pending_addon : ℕ → AddonState → Marker

pub record Files : Type 0 where
  pub store : File AddonState
  pub marker : File Marker
