-- ===== src/Authority/Samples.antt =====
-- A site, as test data: it exports in Optimise, with one supervision, one record and one log row.
use ha_spark.Prelude.{◌*◌, false, some, none, [], ◌∷◌}
use ha_spark.Authority.{
  OperatingMode, EventIdentity, Direction, ExportSupervision, ExportRecord, RecordState,
  ExportTransition, TransitionKind, Transition, cancel_export, write_fallback, no_fallback,
  RequesterKind, AuthorityState, second,
}

abbrev pub event : EventIdentity
event = record { direction = Direction.export; start = 1000 * second; end = 4600 * second }

abbrev pub supervision : ExportSupervision
supervision = record {
  inverter_id = "garage";
  id = 11;
  event = event;
  confirming_user_id = "user";
  epoch = 4;
  ends_at = 4600 * second;
  rating_w = 0;
  identity = (1, 2, 3);
  claim = record { host = "10.0.0.2"; port = 502; unit_id = 1 };
}

abbrev pub armed : ExportRecord
armed = record {
  inverter_id = "garage";
  event = event;
  window = record { start = 1000 * second; end = 4600 * second };
  store_id = 7;
  epoch = 4;
  supervision_id = 11;
  state = RecordState.armed;
  last_reconcile_at = 900 * second;
  stop_reason = none;
  cleanup_verified = false;
}

abbrev pub row : ExportTransition
row = record {
  inverter_id = "garage";
  id = 21;
  event = event;
  at = 900 * second;
  kind = TransitionKind.armed;
  reason = none;
  acked = false;
  cleared = none;
}

abbrev pub site : AuthorityState
site = record {
  store_id = 7;
  committed_mode = OperatingMode.optimise;
  addon_session_id = some "session";
  epoch = 4;
  transition = none;
  manual_session = none;
  fallback = no_fallback;
  holds = [];
  export_supervisions = supervision ∷ [];
  export_records = armed ∷ [];
  export_transitions = row ∷ [];
  stop_latches = [];
  last_changed_at = 900 * second;
  requester_kind = RequesterKind.system;
}

-- On the way from Optimise to Protect.
abbrev pub handover : Transition
handover = record {
  target = OperatingMode.protect;
  started_at = 1000 * second;
  steps = cancel_export ∷ write_fallback ∷ [];
  failing_actions = [];
}

abbrev pub leaving : AuthorityState
leaving = record site { transition = some handover; export_supervisions = [] }
