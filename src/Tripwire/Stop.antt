-- ===== src/Tripwire/Stop.antt =====
-- The durable stop of a trip: what the candidate holds that `async_trip` saves.
use ha_spark.Prelude.{
  ℕ, ◌≡◌, ◌≢◌, inl, inr, String, Bool, true, false, not, ◌||◌, none, some, List, [], ◌∷◌, ◌++◌, any,
  All, if◌then◌else◌, keep, arith, refl, sym, ◌∙◌, Bool-cases, eq_iff,
}
use mathlib.Core.Path.{subst}
use ha_spark.Authority.{
  Instant, ExportRecord, ExportSupervision, StopLatch, TransitionKind, AuthorityState,
}
use ha_spark.Authority.Equality.{same_event, same_event_iff}
use ha_spark.Export.{record_is_live}
use ha_spark.ExportLog.Append.{IsSound, with_append-IsSound, with_append_keeps}
use ha_spark.Tripwire.{
  latched_by, latch_of, add_latches, log_trips, is_member, trip_state, trip_candidate, watching,
}

pub any-append {ℓ} :
    {A : Type ℓ} (p : A → Bool) (xs ys : List A) → any p (xs ++ ys) ≡ (any p xs || any p ys)
any-append p [] ys = refl
any-append p (x ∷ xs) ys = ground (arith, any-append p xs ys)

any-add_latches :
    (p : StopLatch → Bool) (records : List ExportRecord) (epoch : ℕ) (latches : List StopLatch)
    → any p latches ≡ true
    → any p (add_latches records epoch latches) ≡ true
unfolding add_latches
any-add_latches p [] epoch latches h = h
any-add_latches p (r ∷ records) epoch latches h = elim (Bool-cases (any (latched_by r) latches)) [
  | inl e ↦ rw e (any-add_latches p records epoch latches h)
  | inr e ↦ rw e (
      any-add_latches p records epoch (latches ++ (latch_of r epoch ∷ []))
        (ground (arith, any-append p latches (latch_of r epoch ∷ []), h)))
]

latched_self : (r : ExportRecord) (epoch : ℕ) → latched_by r (latch_of r epoch) ≡ true
latched_self r epoch =
    ground
      (arith, (eq_iff r.inverter_id r.inverter_id).1 refl, (same_event_iff r.event r.event).1 refl)

abbrev pub AllLatched : List ExportRecord → List StopLatch → Type 0
AllLatched records latches = All (λ r. any (latched_by r) latches ≡ true) records

pub add_latches-AllLatched :
    (records : List ExportRecord) (epoch : ℕ) (latches : List StopLatch)
    → AllLatched records (add_latches records epoch latches)
unfolding add_latches
add_latches-AllLatched [] epoch latches = tt
add_latches-AllLatched (r ∷ records) epoch latches =
    let more : List StopLatch =
      if any (latched_by r) latches then latches else latches ++ (latch_of r epoch ∷ []) in
    let latched : any (latched_by r) more ≡ true =
      ground
        (arith, any-append (latched_by r) latches (latch_of r epoch ∷ []), latched_self r epoch) in
    (
      any-add_latches (latched_by r) records epoch more latched,
      add_latches-AllLatched records epoch more,
    )

pub log_trips_keeps :
    (records : List ExportRecord) (now : Instant) (ids : String → ℕ) (state : AuthorityState)
    → IsSound state.export_transitions
    → (next : AuthorityState) × (log_trips records now ids state ≡ some next)
      × (next.stop_latches ≡ state.stop_latches)
      × (next.export_supervisions ≡ state.export_supervisions)
unfolding log_trips
log_trips_keeps [] now ids state sound = (state, refl, refl, refl)
log_trips_keeps (r ∷ records) now ids state sound =
    let (next, e, sound', _, _) =
      with_append-IsSound state r.inverter_id r.event TransitionKind.tripped now (some "tripped")
        none (ids r.inverter_id) sound in
    let (latches, supervisions) =
      with_append_keeps state r.inverter_id r.event TransitionKind.tripped now (some "tripped") none
        (ids r.inverter_id) next e in
    let (last, e', latches', supervisions') = log_trips_keeps records now ids next sound' in
    (last, rw (e, log_trips) e', latches' ∙ latches, supervisions' ∙ supervisions)

keep_none :
    (members : List String) (rows : List ExportSupervision)
    → any (is_member members) (keep (λ row. not (is_member members row)) rows) ≡ false
keep_none members [] = refl
keep_none members (row ∷ rows) = ground (arith, keep_none members rows)

latched-dead :
    (row r : ExportRecord) (latches : List StopLatch)
    → any (latched_by r) latches ≡ true
    → row.event ≡ r.event
    → any (λ latch. same_event latch.event row.event) latches ≡ true
latched-dead row r [] h e = h
latched-dead row r (l ∷ latches) h e = ground (
  arith,
  latched-dead row r latches,
  same_event_iff l.event r.event,
  same_event_iff l.event row.event,
)

-- No record of the event of a latched record is live in a state with these latches.
abbrev pub IsDead : AuthorityState → ExportRecord → Type 0
IsDead state r =
    (row : ExportRecord) (now : Instant)
    → row.event ≡ r.event
    → record_is_live row now state.epoch state.store_id state.export_supervisions state.stop_latches
        state.fallback.active
      ≡ false

AllLatched-IsDead :
    (state : AuthorityState) (records : List ExportRecord)
    → AllLatched records state.stop_latches
    → All (IsDead state) records
unfolding record_is_live
AllLatched-IsDead state [] h = tt
AllLatched-IsDead state (r ∷ records) h = (
  λ row now e. ground (arith, latched-dead row r state.stop_latches h.0 e),
  AllLatched-IsDead state records h.1,
)

pub cons_of_ne {ℓ} :
    {A : Type ℓ} (xs : List A) → xs ≢ [] → (x : A) × (rest : List A) × (xs ≡ x ∷ rest)
cons_of_ne [] h = absurd (h refl)
cons_of_ne (x ∷ rest) h = (x, rest, refl)

-- When a connection has watched records and the transition log is sound, a trip always has a
-- candidate to save. In it every watched record is latched; no record with the event of a watched
-- one, on any inverter and at any later time, is live; and no inverter of the connection keeps its
-- supervision.
pub trip_stops :
    (state : AuthorityState) (ours : String → Bool) (members : List String) (now : Instant)
    (ids : String → ℕ)
    → IsSound state.export_transitions
    → watching (some state) ours members now ≢ []
    → (next : AuthorityState) × (trip_candidate (some state) ours members now ids ≡ some next)
      × AllLatched (watching (some state) ours members now) next.stop_latches
      × All (IsDead next) (watching (some state) ours members now)
      × (any (is_member members) next.export_supervisions ≡ false)
unfolding trip_candidate trip_state
trip_stops state ours members now ids sound some_watched =
    let (r, rest, e) = cons_of_ne (watching (some state) ours members now) some_watched in
    let records : List ExportRecord = r ∷ rest in
    let (next, done, latches, supervisions) =
      log_trips_keeps records now ids (trip_state state records members now) sound in
    let latched : AllLatched records next.stop_latches =
      subst (AllLatched records) (sym latches)
        (add_latches-AllLatched records state.epoch state.stop_latches) in
    (
      next,
      rw (e, trip_candidate) done,
      rw e latched,
      rw e (AllLatched-IsDead next records latched),
      rw supervisions (keep_none members state.export_supervisions),
    )
