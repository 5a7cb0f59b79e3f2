-- ===== src/Tripwire/Windows.antt =====
-- How long a trip stops the events of its records: to the end of their windows.
use ha_spark.Prelude.{
  ℕ, ◌≡◌, ◌≢◌, refl, sym, ap, ◌∙◌, inl, inr, String, Bool, true, false, ◌&&◌, Option, none, some,
  List, [], ◌∷◌, ◌++◌, any, All, keep, find, if◌then◌else◌, if_both, if_cases, leb, ltb, ◌==◌,
  str_eq, eq_iff, arith, Bool-cases, Option-cases,
}
use mathlib.Core.Path.{subst}
use mathlib.Core.List.{reverse}
use ha_spark.Authority.{Instant, ExportRecord, StopLatch, AuthorityState}
use ha_spark.Authority.Equality.{same_event, same_event_iff}
use ha_spark.Export.{live_record, latest_record, record_is_live}
use ha_spark.Tripwire.{latched_by, latch_of, add_latches, watching, trip_candidate, trip_state}
use ha_spark.Tripwire.Expiry.{is_stopped}
use ha_spark.Tripwire.Stop.{any-append, cons_of_ne, log_trips_keeps, add_latches-AllLatched}
use ha_spark.ExportLog.Append.{IsSound}

-- A latch of the record, to the end of its window.
abbrev window_latch : ExportRecord → StopLatch → Bool
window_latch r l = latched_by r l && l.window_end == r.window.end

-- The record is the live one of its inverter.
abbrev IsWatched : AuthorityState → (String → Bool) → Instant → ExportRecord → Type 0
IsWatched state ours now r = live_record (some state) ours r.inverter_id now ≡ some r

find_holds {ℓ} : {A : Type ℓ} (p : A → Bool) (xs : List A) (x : A) → find p xs ≡ some x → p x ≡ true
find_holds p [] x h = absurd (ground (arith, h))
find_holds p (y ∷ xs) x h = elim (Bool-cases (p y)) [
  | inl e ↦ ground (arith, e, h)
  | inr e ↦ find_holds p xs x (ground (arith, e, h))
]

latest_record-inverter_id :
    (rows : List ExportRecord) (id : String) (r : ExportRecord)
    → latest_record rows id ≡ some r
    → r.inverter_id ≡ id
unfolding latest_record
latest_record-inverter_id rows id r h =
    (eq_iff r.inverter_id id).0 (find_holds (λ row. str_eq row.inverter_id id) (reverse rows) r h)

-- No latch is on the event of a live record.
live-unlatched :
    (state : AuthorityState) (r : ExportRecord) (now : Instant)
    → record_is_live r now state.epoch state.store_id state.export_supervisions state.stop_latches
        state.fallback.active
      ≡ true
    → any (λ l. same_event l.event r.event) state.stop_latches ≡ false
unfolding record_is_live
live-unlatched state r now h = ground (arith, h)

-- A live record is the latest of its inverter.
live_record-latest :
    (state : AuthorityState) (ours : String → Bool) (id : String) (now : Instant) (r : ExportRecord)
    → live_record (some state) ours id now ≡ some r
    → (latest_record state.export_records id ≡ some r)
      × (any (λ l. same_event l.event r.event) state.stop_latches ≡ false)
unfolding live_record
live_record-latest state ours id now r h =
    elim (Option-cases (latest_record state.export_records id)) [
      | inl e ↦ absurd (ground (arith, e, h))
      | inr (q, e) ↦
          let same : q ≡ r = ground (arith, e, h) in
          (
            e ∙ ap some same,
            subst
                (λ (x : ExportRecord).
                  any (λ l. same_event l.event x.event) state.stop_latches ≡ false)
                same (live-unlatched state q now (ground (arith, e, h))),
          )
    ]

live_record-IsWatched :
    (state : AuthorityState) (ours : String → Bool) (id : String) (now : Instant) (r : ExportRecord)
    → live_record (some state) ours id now ≡ some r
    → IsWatched state ours now r
live_record-IsWatched state ours id now r h =
    let (latest, _) = live_record-latest state ours id now r h in
    ap (λ m. live_record (some state) ours m now)
      (latest_record-inverter_id state.export_records id r latest)
    ∙ h

All-added :
    (P : ExportRecord → Type 0) (o : Option ExportRecord) (test : ExportRecord → Bool)
    (rest : List ExportRecord)
    → ((r : ExportRecord) → o ≡ some r → P r)
    → All P rest
    → All P (elim o [ none ↦ rest | some r ↦ if test r then r ∷ rest else rest ])
All-added P none test rest h hs = hs
All-added P (some r) test rest h hs = if_both (All P) (test r) (r ∷ rest) rest (h r refl, hs) hs

watching-IsWatched :
    (state : AuthorityState) (ours : String → Bool) (members : List String) (now : Instant)
    → All (IsWatched state ours now) (watching (some state) ours members now)
unfolding watching
watching-IsWatched state ours [] now = tt
watching-IsWatched state ours (m ∷ members) now =
    All-added (IsWatched state ours now) (live_record (some state) ours m now)
      (λ r. leb r.window.start now && ltb now r.window.end) (watching (some state) ours members now)
      (live_record-IsWatched state ours m now) (watching-IsWatched state ours members now)

-- Whichever watched record has a latch has one to the end of its window.
abbrev ReachEnd : AuthorityState → (String → Bool) → Instant → List StopLatch → Type 0
ReachEnd state ours now latches =
    (r : ExportRecord)
    → IsWatched state ours now r
    → any (latched_by r) latches ≡ true
    → any (window_latch r) latches ≡ true

any-latched_event :
    (r : ExportRecord) (latches : List StopLatch)
    → any (λ l. same_event l.event r.event) latches ≡ false
    → any (latched_by r) latches ≡ false
any-latched_event r [] h = h
any-latched_event r (l ∷ latches) h = ground (arith, h, any-latched_event r latches)

initial-ReachEnd :
    (state : AuthorityState) (ours : String → Bool) (now : Instant)
    → ReachEnd state ours now state.stop_latches
initial-ReachEnd state ours now r watched h =
    let (_, free) = live_record-latest state ours r.inverter_id now r watched in
    absurd (ground (arith, h, any-latched_event r state.stop_latches free))

-- Two watched records of one inverter are one.
watched_once :
    (state : AuthorityState) (ours : String → Bool) (now : Instant) (r q : ExportRecord)
    → IsWatched state ours now r
    → IsWatched state ours now q
    → q.inverter_id ≡ r.inverter_id
    → q ≡ r
watched_once state ours now r q hr hq e =
    let same : some q ≡ some r = sym hq ∙ ap (λ m. live_record (some state) ours m now) e ∙ hr in
    ground (arith, same)

window_of_self : (r : ExportRecord) (epoch : ℕ) → window_latch r (latch_of r epoch) ≡ true
window_of_self r epoch =
    ground
      (arith, (eq_iff r.inverter_id r.inverter_id).1 refl, (same_event_iff r.event r.event).1 refl)

window_of_latched :
    (state : AuthorityState) (ours : String → Bool) (now : Instant) (r q : ExportRecord) (epoch : ℕ)
    → IsWatched state ours now r
    → IsWatched state ours now q
    → latched_by r (latch_of q epoch) ≡ true
    → window_latch r (latch_of q epoch) ≡ true
window_of_latched state ours now r q epoch hr hq h =
    let same : q ≡ r =
      watched_once state ours now r q hr hq
        ((eq_iff q.inverter_id r.inverter_id).0 (ground (arith, h))) in
    subst (λ (x : ExportRecord). window_latch r (latch_of x epoch) ≡ true) (sym same)
      (window_of_self r epoch)

latch-ReachEnd :
    (state : AuthorityState) (ours : String → Bool) (now : Instant) (q : ExportRecord) (epoch : ℕ)
    (latches : List StopLatch)
    → IsWatched state ours now q
    → ReachEnd state ours now latches
    → ReachEnd state ours now (latches ++ (latch_of q epoch ∷ []))
latch-ReachEnd state ours now q epoch latches hq reach r hr h =
    let later = any-append (window_latch r) latches (latch_of q epoch ∷ []) in
    elim (Bool-cases (any (latched_by r) latches)) [
      | inl e ↦ ground (arith, later, reach r hr e)
      | inr e ↦ ground (
        arith,
        later,
        window_of_latched state ours now r q epoch hr hq
            (ground (arith, h, e, any-append (latched_by r) latches (latch_of q epoch ∷ []))),
      )
    ]

add_latches-ReachEnd :
    (state : AuthorityState) (ours : String → Bool) (now : Instant) (records : List ExportRecord)
    (epoch : ℕ) (latches : List StopLatch)
    → All (IsWatched state ours now) records
    → ReachEnd state ours now latches
    → ReachEnd state ours now (add_latches records epoch latches)
unfolding add_latches
add_latches-ReachEnd state ours now [] epoch latches h reach = reach
add_latches-ReachEnd state ours now (q ∷ records) epoch latches (hq, rest) reach =
    let more = latches ++ (latch_of q epoch ∷ []) in
    add_latches-ReachEnd state ours now records epoch
      (if any (latched_by q) latches then latches else more) rest
      (if_both (ReachEnd state ours now) (any (latched_by q) latches) latches more reach
        (latch-ReachEnd state ours now q epoch latches hq reach))

-- Each event is stopped until after `later`, for the records whose window ends after it.
abbrev pub AllStopped : Instant → List ExportRecord → List StopLatch → Type 0
AllStopped later records latches =
    All (λ r. is_stopped later r.event latches ≡ true) (keep (λ r. ltb later r.window.end) records)

window-is_stopped :
    (later : Instant) (r : ExportRecord) (latches : List StopLatch)
    → ltb later r.window.end ≡ true
    → any (window_latch r) latches ≡ true
    → is_stopped later r.event latches ≡ true
window-is_stopped later r [] still h = h
window-is_stopped later r (l ∷ latches) still h = elim (Bool-cases (any (window_latch r) latches)) [
  | inl e ↦ ground (arith, window-is_stopped later r latches still e)
  | inr e ↦ ground (arith, h, e, still)
]

-- Records that are latched, where latches reach the end of a window, are stopped until then.
pub ReachEnd-AllStopped :
    (state : AuthorityState) (ours : String → Bool) (now later : Instant)
    (records : List ExportRecord) (latches : List StopLatch)
    → ReachEnd state ours now latches
    → All (IsWatched state ours now) records
    → All (λ r. any (latched_by r) latches ≡ true) records
    → AllStopped later records latches
ReachEnd-AllStopped state ours now later [] latches reach watched latched = tt
ReachEnd-AllStopped state ours now later (r ∷ records) latches reach (w, ws) (h, hs) =
    let rest = ReachEnd-AllStopped state ours now later records latches reach ws hs in
    let kept = keep (λ (q : ExportRecord). ltb later q.window.end) records in
    if_cases (All (λ (q : ExportRecord). is_stopped later q.event latches ≡ true))
      (ltb later r.window.end) (r ∷ kept) kept
      (λ still. (window-is_stopped later r latches still (reach r w h), rest)) (λ closed. rest)

-- The latches that a trip saves.
trip_latches :
    (state next : AuthorityState) (ours : String → Bool) (members : List String) (now : Instant)
    (ids : String → ℕ)
    → IsSound state.export_transitions
    → watching (some state) ours members now ≢ []
    → trip_candidate (some state) ours members now ids ≡ some next
    → next.stop_latches
      ≡ add_latches (watching (some state) ours members now) state.epoch state.stop_latches
unfolding trip_candidate trip_state
trip_latches state next ours members now ids sound watched saved =
    let (r, rest, e) = cons_of_ne (watching (some state) ours members now) watched in
    let (last, done, latches, _) =
      log_trips_keeps (r ∷ rest) now ids (trip_state state (r ∷ rest) members now) sound in
    let same : last ≡ next = ground (arith, e, done, saved) in
    ap (λ (s : AuthorityState). s.stop_latches) (sym same)
    ∙ latches
    ∙ ap (λ rs. add_latches rs state.epoch state.stop_latches) (sym e)

-- Once the candidate of a trip of watched records is saved, their events are stopped until the ends of
-- their windows.
pub trip-AllStopped :
    (state next : AuthorityState) (ours : String → Bool) (members : List String)
    (now later : Instant) (ids : String → ℕ)
    → IsSound state.export_transitions
    → watching (some state) ours members now ≢ []
    → trip_candidate (some state) ours members now ids ≡ some next
    → AllStopped later (watching (some state) ours members now) next.stop_latches
trip-AllStopped state next ours members now later ids sound watched saved =
    let records = watching (some state) ours members now in
    let all_watched = watching-IsWatched state ours members now in
    subst (AllStopped later records)
      (sym (trip_latches state next ours members now ids sound watched saved))
      (ReachEnd-AllStopped state ours now later records
        (add_latches records state.epoch state.stop_latches)
        (add_latches-ReachEnd state ours now records state.epoch state.stop_latches all_watched
          (initial-ReachEnd state ours now))
        all_watched (add_latches-AllLatched records state.epoch state.stop_latches))
