-- ===== src/ExportLog/Acks.antt =====
-- `with_acks` and `with_pruned` against their one-line specifications.
use ha_spark.Prelude.{
  ℕ, ◌≡◌, false, not, List, [], ◌∷◌, arith, length, keep, map, refl, length-keep-le,
}
use ha_spark.Authority.{Instant, ExportTransition, AuthorityState}
use ha_spark.ExportLog.{is_spent, ack, ack_rows, with_acks, with_pruned}

abbrev pub live : Instant → List ExportTransition → List ExportTransition
live now = keep (λ row. not (is_spent now row))

ack_rows_lem :
    (ids : List ℕ) (now : Instant) (rows : List ExportTransition)
    → (ack_rows ids now rows).0 ≡ live now (map (ack ids) rows)
unfolding ack_rows
ack_rows_lem ids now [] = refl
ack_rows_lem ids now (row ∷ rows) = ground (arith, ack_rows_lem ids now rows)

ack_rows_unchanged :
    (ids : List ℕ) (now : Instant) (rows : List ExportTransition)
    → (ack_rows ids now rows).1 ≡ false
    → (ack_rows ids now rows).0 ≡ rows
unfolding ack_rows
ack_rows_unchanged ids now [] h = refl
ack_rows_unchanged ids now (row ∷ rows) h = ground (arith, ack_rows_unchanged ids now rows)

-- After `with_acks` the log is the old log with the named rows marked and the marked rows of ended
-- events left out, in the old order, whether or not the code reports a change.
pub with_acks_lem :
    (state : AuthorityState) (ids : List ℕ) (now : Instant)
    → (with_acks state ids now).export_transitions
      ≡ live now (map (ack ids) state.export_transitions)
unfolding with_acks
with_acks_lem state ids now =
    let rows = state.export_transitions in
    ground (arith, ack_rows_lem ids now rows, ack_rows_unchanged ids now rows)

keep_all :
    (now : Instant) (rows : List ExportTransition)
    → length (live now rows) ≡ length rows
    → live now rows ≡ rows
keep_all now [] h = refl
keep_all now (row ∷ rows) h =
    ground (arith, keep_all now rows, length-keep-le (λ r. not (is_spent now r)) rows)

-- After `with_pruned` the log is the old log without the acknowledged rows of ended events, also
-- where the code compares two lengths and returns the state as it was.
pub with_pruned_lem :
    (state : AuthorityState) (now : Instant)
    → (with_pruned state now).export_transitions ≡ live now state.export_transitions
unfolding with_pruned
with_pruned_lem state now = ground (arith, keep_all now state.export_transitions)
