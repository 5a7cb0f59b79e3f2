-- ===== src/Tripwire.antt =====
-- custom_components/ha_spark/native_tripwire.py: the counting rules of the export tripwire, its
-- observation of one connection, and the durable trip.
pub mod Counting
pub mod Stop
pub mod Expiry
pub mod Windows
pub mod Examples
use ha_spark.Prelude.{
  ℕ, suc, ◌+◌, ◌*◌, String, Bool, true, false, not, ◌&&◌, ◌||◌, Option, none, some, List, [], ◌∷◌,
  ◌++◌, ltb, leb, ◌==◌, str_eq, if◌then◌else◌, any, keep, map, or_else,
}
use ha_spark.Prelude.Int.{ℤ, sub_ℕ}
use ha_spark.Float.{Float}
use ha_spark.Authority.{
  Instant, second, ExportRecord, ExportSupervision, StopLatch, RecordState, TransitionKind,
  AuthorityState,
}
use ha_spark.Authority.Equality.{same_event, same_record}
use ha_spark.ExportLog.{with_append}
use ha_spark.Export.{live_record}

-- A `datetime` that may lack an offset.
pub data Stamp : Type 0 where
  aware : Instant → Stamp
  naive : Stamp

abbrev pub trip_deadband_w : ℕ
trip_deadband_w = 200

abbrev pub fresh_max_age : ℕ
fresh_max_age = 60 * second

abbrev pub fresh_max_future : ℕ
fresh_max_future = 5 * second

abbrev pub warn_after : ℕ
warn_after = 60 * second

abbrev pub repair_after : ℕ
repair_after = 120 * second

pub record TripwireState : Type 0 where
  pub over_count : ℕ
  pub last_counted_at : Option Instant
  pub missing_since : Option Instant
  pub warned : Bool

abbrev pub initial : TripwireState
initial = record { over_count = 0; last_counted_at = none; missing_since = none; warned = false }

pub record TripwireDecision : Type 0 where
  pub trip : Bool
  pub missing_for : Option ℤ
  pub warn : Bool
  pub repair : Bool

abbrev newer : Instant → Option Instant → Bool
newer reported none = true
newer reported (some counted) = ltb counted reported

pub missing : TripwireState → Instant → TripwireState × TripwireDecision
missing state now =
    let since = or_else state.missing_since now in
    let warn = leb (since + warn_after) now && not state.warned in
    (
      record state { missing_since = some since; warned = state.warned || warn },
      record {
        trip = false;
        missing_for = some (sub_ℕ now since);
        warn = warn;
        repair = leb (since + repair_after) now;
      },
    )

module _ {ℓ} {F : Type ℓ} ⦃f : Float F⦄ where
  -- The reading that `fresh` accepts, with its report's instant.
  pub fresh_reading : Option F → Option Stamp → Instant → Option (F × Instant)
  fresh_reading (some w) (some (aware reported)) now =
      if f.is_finite w
        && leb reported (now + fresh_max_future)
        && leb now (reported + fresh_max_age)
      then some (w, reported)
      else none
  fresh_reading _ _ now = none

  abbrev pub is_over : F → F → Bool
  is_over import_w limit_w = f.lt (f.add limit_w (f.of_nat trip_deadband_w)) (f.negate import_w)

  pub reading : TripwireState → F → Instant → F → TripwireState × TripwireDecision
  reading state import_w reported limit_w =
      let fresh = newer reported state.last_counted_at in
      let count =
        if fresh
        then (if is_over import_w limit_w then suc state.over_count else 0)
        else state.over_count in
      (
        record {
          over_count = count;
          last_counted_at = if fresh then some reported else state.last_counted_at;
          missing_since = none;
          warned = false;
        },
        record { trip = leb 2 count; missing_for = none; warn = false; repair = false },
      )

  unfoldable pub step :
      TripwireState → Option F → Option Stamp → F → Instant → TripwireState × TripwireDecision
  unfolding fresh_reading missing reading
  step state import_w reported_at limit_w now = elim (fresh_reading import_w reported_at now) [
    | none ↦ missing state now
    | some (w, reported) ↦ reading state w reported limit_w
  ]

  -- `observe`: `none` for a connection without a state; `watched` says that a live record is inside
  -- its window, and `limit` is the site's export limit, where there is one.
  pub observe :
      Option TripwireState
      → Bool
      → Option F
      → Option F
      → Option Stamp
      → Instant
      → Option TripwireState × Bool
  observe state false limit import_w reported_at now = (none, false)
  observe state true none import_w reported_at now = (none, false)
  observe state true (some limit_w) import_w reported_at now =
      let (next, decision) = step (or_else state initial) import_w reported_at limit_w now in
      if f.is_finite limit_w && f.lt (f.of_nat 0) limit_w
      then (some next, decision.trip)
      else (none, false)

-- `watching`: the live records of the members that are inside their window.
pub watching : Option AuthorityState → (String → Bool) → List String → Instant → List ExportRecord
watching state ours [] now = []
watching state ours (m ∷ members) now =
    let rest = watching state ours members now in
    elim (live_record state ours m now) [
      | none ↦ rest
      | some r ↦ if leb r.window.start now && ltb now r.window.end then r ∷ rest else rest
    ]

abbrev pub latched_by : ExportRecord → StopLatch → Bool
latched_by r latch = str_eq latch.inverter_id r.inverter_id && same_event latch.event r.event

abbrev pub latch_of : ExportRecord → ℕ → StopLatch
latch_of r epoch = record {
  inverter_id = r.inverter_id;
  event = r.event;
  window_end = r.window.end;
  epoch = epoch;
}

-- The loop over `records`, which fills `latches`.
pub add_latches : List ExportRecord → ℕ → List StopLatch → List StopLatch
add_latches [] epoch latches = latches
add_latches (r ∷ records) epoch latches =
    add_latches records epoch
      (if any (latched_by r) latches then latches else latches ++ (latch_of r epoch ∷ []))

abbrev pub stopped : Instant → ExportRecord → ExportRecord
stopped now r = record r {
  state = RecordState.stop_pending;
  stop_reason = some "tripped";
  last_reconcile_at = now;
}

-- `swap.get(row, row)`
pub swap_row : List ExportRecord → Instant → ExportRecord → ExportRecord
swap_row records now row = if any (λ r. same_record r row) records then stopped now row else row

-- One call of `with_append` for each record; `ids` are the identities that `uuid4` draws.
pub log_trips : List ExportRecord → Instant → (String → ℕ) → AuthorityState → Option AuthorityState
log_trips [] now ids state = some state
log_trips (r ∷ records) now ids state =
    elim (with_append state r.inverter_id r.event TransitionKind.tripped now (some "tripped") none
      (ids r.inverter_id)) [ none ↦ none | some next ↦ log_trips records now ids next ]

abbrev pub is_member : List String → ExportSupervision → Bool
is_member members row = any (λ m. str_eq m row.inverter_id) members

-- The candidate before the log is written.
pub trip_state : AuthorityState → List ExportRecord → List String → Instant → AuthorityState
trip_state state records members now = record state {
  stop_latches = add_latches records state.epoch state.stop_latches;
  export_supervisions = keep (λ row. not (is_member members row)) state.export_supervisions;
  export_records = map (swap_row records now) state.export_records;
  last_changed_at = now;
}

-- `async_trip`, up to the save of the candidate; `none` where it returns before.
pub trip_candidate :
    Option AuthorityState
    → (String → Bool)
    → List String
    → Instant
    → (String → ℕ)
    → Option AuthorityState
trip_candidate none ours members now ids = none
trip_candidate (some state) ours members now ids =
    let records = watching (some state) ours members now in
    elim records [
      | [] ↦ none
      | r ∷ rest ↦ log_trips (r ∷ rest) now ids (trip_state state (r ∷ rest) members now)
    ]
