-- ===== src/Tripwire/Expiry.antt =====
-- custom_components/ha_spark/coordinator.py: `async_expire_supervisions`, which ends the supervisions and
-- the stop latches whose time has passed.
use ha_spark.Prelude.{
  ◌≤◌, ◌≡◌, inl, inr, Bool, true, not, ◌&&◌, none, some, List, [], ◌∷◌, keep, any, length, ltb,
  ◌==◌, if◌then◌else◌, arith, Bool-cases,
}
use ha_spark.Authority.{Instant, EventIdentity, StopLatch, AuthorityState}
use ha_spark.Authority.Equality.{same_event}
use ha_spark.Control.{Store, save}
use ha_spark.ExportLog.{with_pruned}

-- From the two tuples on; `saved` is the verdict of the second save.
pub expire_rows : Bool → Instant → AuthorityState → Store
expire_rows saved now state =
    let kept = keep (λ row. ltb now row.ends_at) state.export_supervisions in
    let latches = keep (λ row. ltb now row.window_end) state.stop_latches in
    if length kept == length state.export_supervisions
      && length latches == length state.stop_latches
    then some state
    else save saved
        (record state { export_supervisions = kept; stop_latches = latches; last_changed_at = now })

-- `async_expire_supervisions` of a known state, with the verdicts of its two saves. `with_pruned` gives
-- the same state back exactly where it drops no row.
pub expire : Bool → Bool → Instant → AuthorityState → Store
unfolding expire_rows
expire pruned_saved saved now state =
    let pruned = with_pruned state now in
    let changed = not (length pruned.export_transitions == length state.export_transitions) in
    if changed && not pruned_saved then none else expire_rows saved now pruned

-- The event has a latch whose window ends after `later`.
abbrev pub is_stopped : Instant → EventIdentity → List StopLatch → Bool
is_stopped later event = any (λ (l : StopLatch). same_event l.event event && ltb later l.window_end)

-- Every event that is stopped until after `later` still is.
abbrev pub Keeps : Instant → List StopLatch → List StopLatch → Type 0
Keeps later old new =
    (event : EventIdentity) → is_stopped later event old ≡ true → is_stopped later event new ≡ true

keep-Keeps :
    (now later : Instant) (latches : List StopLatch)
    → now ≤ later
    → Keeps later latches (keep (λ row. ltb now row.window_end) latches)
keep-Keeps now later [] h event s = s
keep-Keeps now later (l ∷ latches) h event s = elim (Bool-cases (ltb now l.window_end)) [
  | inl e ↦ ground (arith, e, s, keep-Keeps now later latches h event)
  | inr e ↦ ground (arith, e, s, h, keep-Keeps now later latches h event)
]

with_pruned_latches :
    (state : AuthorityState) (now : Instant)
    → (with_pruned state now).stop_latches ≡ state.stop_latches
unfolding with_pruned
with_pruned_latches state now = ground arith

expire_rows-Keeps :
    (saved : Bool) (now later : Instant) (state next : AuthorityState)
    → now ≤ later
    → expire_rows saved now state ≡ some next
    → Keeps later state.stop_latches next.stop_latches
unfolding expire_rows
expire_rows-Keeps saved now later state next h e event s =
    ground (arith, e, keep-Keeps now later state.stop_latches h event s)

-- An expiry never ends a stop whose window has not ended.
pub expire-Keeps :
    (pruned_saved saved : Bool) (now later : Instant) (state next : AuthorityState)
    → now ≤ later
    → expire pruned_saved saved now state ≡ some next
    → Keeps later state.stop_latches next.stop_latches
unfolding expire
expire-Keeps pruned_saved saved now later state next h e event s =
    expire_rows-Keeps saved now later (with_pruned state now) next h (ground (arith, e)) event
      (rw (with_pruned_latches state now) s)

-- With verified saves an expiry leaves a state.
pub expire_saved :
    (now : Instant) (state : AuthorityState)
    → (next : AuthorityState) × (expire true true now state ≡ some next)
unfolding expire expire_rows
expire_saved now state =
    elim (Bool-cases (
      length (keep (λ row. ltb now row.ends_at) (with_pruned state now).export_supervisions)
        == length (with_pruned state now).export_supervisions
      && length (keep (λ row. ltb now row.window_end) (with_pruned state now).stop_latches)
        == length (with_pruned state now).stop_latches)) [
          | inl e ↦ (with_pruned state now, ground (arith, e))
          | inr e ↦ (
            record (with_pruned state now) {
              export_supervisions =
                  keep (λ row. ltb now row.ends_at) (with_pruned state now).export_supervisions;
              stop_latches =
                  keep (λ row. ltb now row.window_end) (with_pruned state now).stop_latches;
              last_changed_at = now;
            },
            ground (arith, e),
          )
        ]
