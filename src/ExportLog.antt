-- ===== src/ExportLog.antt =====
-- custom_components/ha_spark/native_export_log.py: the append-once, acknowledgement and trim rules
-- of the export transition log. A fresh `uuid4()` is an argument.
pub mod Tally
pub mod Drop
pub mod Trim
pub mod Append
pub mod Acks
mod Examples
use ha_spark.Prelude.{
  ℕ, zero, suc, ◌+◌, String, Bool, true, false, not, ◌&&◌, ◌||◌, Option, none, some, List, [], ◌∷◌,
  ◌++◌, ltb, leb, if◌then◌else◌, length, take, any, keep, ◌==◌, str_eq,
}
use ha_spark.Authority.{
  Instant, EventIdentity, TransitionKind, TransitionKind.accepted, TransitionKind.armed,
  TransitionKind.started, TransitionKind.cleanup_verified, TransitionKind.aborted,
  TransitionKind.clock_hold, TransitionKind.tripped, ExportTransition, AuthorityState,
}
use ha_spark.Authority.Equality.{same_event}

abbrev pub max_total : ℕ
max_total = 1024

abbrev pub max_per_inverter : ℕ
max_per_inverter = 64

abbrev pub snapshot_per_inverter : ℕ
snapshot_per_inverter = 8

abbrev pub of_inverter : String → ExportTransition → Bool
of_inverter inverter_id row = str_eq row.inverter_id inverter_id

pub visible : List ExportTransition → String → List ExportTransition
visible rows inverter_id =
    take snapshot_per_inverter (keep (λ row. of_inverter inverter_id row && not row.acked) rows)

-- `counts`, a dict in insertion order.
abbrev pub Counts : Type 0
Counts = List (String × ℕ)

-- `counts[key] = counts.get(key, 0) + n`
pub bump : String → ℕ → Counts → Counts
bump k n [] = (k, n) ∷ []
bump k n ((j, m) ∷ rest) = if str_eq j k then (j, m + n) ∷ rest else (j, m) ∷ bump k n rest

pub tally : Counts → List ExportTransition → Counts
tally counts [] = counts
tally counts (row ∷ rows) = tally (bump row.inverter_id 1 counts) rows

pub first_over : Counts → Option String
first_over [] = none
first_over ((k, n) ∷ rest) = if ltb max_per_inverter n then some k else first_over rest

pub reserved : ℕ → Option String → Counts → Counts
reserved reserve none counts = counts
reserved reserve (some k) counts = bump k reserve counts

pub within : List ExportTransition → ℕ → Option String → Bool × Option String
within rows reserve reserve_inverter =
    if ltb max_total (length rows + reserve)
    then (false, none)
    else elim (first_over (reserved reserve reserve_inverter (tally [] rows))) [
      | none ↦ (true, none)
      | some k ↦ (false, some k)
    ]

-- `next((i for i, row in enumerate(rows) if p(row)), None)`
pub index_of : (ExportTransition → Bool) → List ExportTransition → Option ℕ
index_of p [] = none
index_of p (row ∷ rows) =
    if p row then some 0 else (elim (index_of p rows) [ none ↦ none | some i ↦ some (suc i) ])

-- `del rows[i]`; the index that `trim` computes is out of range for the empty list alone.
pub remove_at : ℕ → List ExportTransition → List ExportTransition
remove_at i [] = []
remove_at zero (row ∷ rows) = rows
remove_at (suc i) (row ∷ rows) = row ∷ remove_at i rows

abbrev or_zero : Option ℕ → ℕ
or_zero none = 0
or_zero (some i) = i

-- The row to drop when none is acknowledged: the first of the inverter that is over its cap.
pub oldest_over : Option String → List ExportTransition → ℕ
oldest_over none kept = 0
oldest_over (some over) kept = or_zero (index_of (of_inverter over) kept)

-- One round of the loop of `trim`: the rows left, and what it adds to `dropped_unacked`.
pub drop_one : Option String → List ExportTransition → List ExportTransition × ℕ
drop_one over kept = elim (index_of (λ row. row.acked) kept) [
  | some i ↦ (remove_at i kept, 0)
  | none ↦ (remove_at (oldest_over over kept) kept, 1)
]

-- The loop of `trim`. `none`: no fuel is left, or `del` is called on the empty list.
pub trim_loop :
    ℕ → ℕ → Option String → List ExportTransition → ℕ → Option (List ExportTransition × ℕ)
trim_loop zero reserve inverter kept dropped = none
trim_loop (suc fuel) reserve inverter kept dropped =
    let (ok, over) = within kept reserve inverter in
    let (rest, one) = drop_one over kept in
    elim ok [
      | true ↦ some (kept, dropped)
      | false ↦ trim_loop fuel reserve inverter rest (dropped + one)
    ]

-- An acknowledged row whose event has ended.
abbrev pub is_spent : Instant → ExportTransition → Bool
is_spent now row = row.acked && leb row.event.end now

-- The fuel is one round for each row and one to find the rest within the caps.
pub trim : List ExportTransition → Instant → ℕ → Option String → Option (List ExportTransition × ℕ)
trim rows now reserve inverter =
    let kept = keep (λ row. not (is_spent now row)) rows in
    trim_loop (suc (length kept)) reserve inverter kept 0

abbrev pub same_kind : TransitionKind → TransitionKind → Bool
same_kind TransitionKind.accepted TransitionKind.accepted = true
same_kind TransitionKind.armed TransitionKind.armed = true
same_kind TransitionKind.started TransitionKind.started = true
same_kind TransitionKind.cleanup_verified TransitionKind.cleanup_verified = true
same_kind TransitionKind.aborted TransitionKind.aborted = true
same_kind TransitionKind.clock_hold TransitionKind.clock_hold = true
same_kind TransitionKind.tripped TransitionKind.tripped = true
same_kind _ _ = false

abbrev pub logs : String → TransitionKind → EventIdentity → ExportTransition → Bool
logs inverter_id kind event row =
    of_inverter inverter_id row && same_kind row.kind kind && same_event row.event event

-- The new row: `ExportTransition(...)` with `acked` left at its default.
abbrev pub new_row :
    String
    → ℕ
    → EventIdentity
    → Instant
    → TransitionKind
    → Option String
    → Option Bool
    → ExportTransition
new_row inverter_id id event at kind reason cleared = record {
  inverter_id = inverter_id;
  id = id;
  event = event;
  at = at;
  kind = kind;
  reason = reason;
  acked = false;
  cleared = cleared;
}

-- `none`: `trim` does not return.
pub with_append :
    AuthorityState
    → String
    → EventIdentity
    → TransitionKind
    → Instant
    → Option String
    → Option Bool
    → ℕ
    → Option AuthorityState
with_append state inverter_id event kind at reason cleared id =
    if any (logs inverter_id kind event) state.export_transitions
    then some state
    else elim (trim state.export_transitions at 1 (some inverter_id)) [
      | none ↦ none
      | some (rows, dropped) ↦ some (record state {
        export_transitions = rows ++ (new_row inverter_id id event at kind reason cleared ∷ []);
        last_changed_at = at;
      })
    ]

-- `str(row.id) in known`: the identities that were sent, as numbers.
abbrev pub is_known : List ℕ → ℕ → Bool
is_known ids id = any (λ k. k == id) ids

abbrev pub ack : List ℕ → ExportTransition → ExportTransition
ack ids row = if is_known ids row.id && not row.acked then record row { acked = true } else row

-- The loop of `with_acks`: the rows kept, and `changed`.
pub ack_rows : List ℕ → Instant → List ExportTransition → List ExportTransition × Bool
ack_rows ids now [] = ([], false)
ack_rows ids now (row ∷ rows) =
    let (kept, changed) = ack_rows ids now rows in
    let marked = is_known ids row.id && not row.acked in
    let row' = ack ids row in
    if is_spent now row' then (kept, true) else (row' ∷ kept, marked || changed)

pub with_acks : AuthorityState → List ℕ → Instant → AuthorityState
with_acks state ids now =
    let (kept, changed) = ack_rows ids now state.export_transitions in
    if changed then record state { export_transitions = kept; last_changed_at = now } else state

unfoldable pub with_pruned : AuthorityState → Instant → AuthorityState
with_pruned state now =
    let kept = keep (λ row. not (is_spent now row)) state.export_transitions in
    if length kept == length state.export_transitions
    then state
    else record state { export_transitions = kept; last_changed_at = now }
