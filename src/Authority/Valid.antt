-- ===== src/Authority/Valid.antt =====
-- What the models of authority_store.py accept: the ranges, lengths and validators of its records. A
-- deadline that is not UTC cannot be written here, since an instant has no offset.
use Prim.Native.Nat.{ℕ}
use ha_spark.Prelude.{
  String, Bool, true, ◌&&◌, Option, none, some, ltb, leb, ◌==◌, is_some, is_none, length, all,
}
use ha_spark.Authority.{
  Step, other_step, Transition, HoldDevice, Cause, ev, dispatch, HoldRecord, EventIdentity,
  ExportWindow, GatewayClaim, ExportSupervision, ExportRecord, ExportTransition, StopLatch,
  AuthorityState,
}

-- What a text and a double are to pydantic: the length of a text in characters, and whether the
-- pattern of a double is in the range of a rating.
pub record Limits : Type 0 where
  pub text_length : String → ℕ
  pub is_rating : ℕ → Bool

module _ (l : Limits) where
  abbrev is_text : String → Bool
  is_text s = leb 1 (l.text_length s) && leb (l.text_length s) 128

  abbrev is_optional : Option String → Bool
  is_optional none = true
  is_optional (some s) = is_text s

  abbrev is_step : Step → Bool
  is_step (other_step s) = is_text s
  is_step _ = true

  pub is_transition : Transition → Bool
  is_transition t =
      leb (length t.steps) 64
      && leb (length t.failing_actions) 64
      && all is_step t.steps
      && all is_step t.failing_actions

  abbrev is_device : HoldDevice → Bool
  is_device d =
      is_text d.driver && is_text d.power_switch && leb (l.text_length d.hub) 128 && leb d.slave 247

  -- `validate_cause_fields`
  abbrev cause_valid : Cause → HoldRecord → Bool
  cause_valid ev h = is_none h.trusted_end
  cause_valid dispatch h =
      is_some h.trusted_end && (h.clear_count == 0) && is_none h.last_clear_report_at

  pub is_hold : HoldRecord → Bool
  is_hold h = is_device h.device && leb h.clear_count 5 && cause_valid h.cause h

  abbrev pub is_event : EventIdentity → Bool
  is_event e = ltb e.start e.end

  abbrev is_window : ExportWindow → Bool
  is_window w = ltb w.start w.end

  abbrev is_claim : GatewayClaim → Bool
  is_claim c = is_text c.host && leb 1 c.port && leb c.port 65535 && leb c.unit_id 247

  abbrev pub is_epoch : ℕ → Bool
  is_epoch e = leb 1 e

  pub is_supervision : ExportSupervision → Bool
  is_supervision s =
      is_text s.inverter_id
      && is_event s.event
      && is_text s.confirming_user_id
      && is_epoch s.epoch
      && l.is_rating s.rating_w
      && is_claim s.claim

  pub is_record : ExportRecord → Bool
  is_record r =
      is_text r.inverter_id
      && is_event r.event
      && is_window r.window
      && is_epoch r.epoch
      && is_optional r.stop_reason

  pub is_logged : ExportTransition → Bool
  is_logged t = is_text t.inverter_id && is_event t.event && is_optional t.reason

  pub is_latch : StopLatch → Bool
  is_latch s = is_text s.inverter_id && is_event s.event && is_epoch s.epoch

  abbrev is_optional_transition : Option Transition → Bool
  is_optional_transition none = true
  is_optional_transition (some t) = is_transition t

  -- `AuthorityState.model_validate`, of a state that the program has built.
  unfoldable pub is_state : AuthorityState → Bool
  unfolding is_transition is_hold is_supervision is_record is_logged is_latch
  is_state s =
      is_optional s.addon_session_id
      && is_epoch s.epoch
      && is_optional_transition s.transition
      && leb (length s.fallback.causes) 2
      && leb (length s.holds) 128
      && all is_hold s.holds
      && leb (length s.export_supervisions) 64
      && all is_supervision s.export_supervisions
      && leb (length s.export_records) 64
      && all is_record s.export_records
      && leb (length s.export_transitions) 1024
      && all is_logged s.export_transitions
      && leb (length s.stop_latches) 64
      && all is_latch s.stop_latches
