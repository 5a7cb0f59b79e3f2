-- ===== src/AuthorityFiles/Durable.antt =====
-- Histories of calls on the store of one entry.
use ha_spark.Prelude.{
  ℕ, ◌≡◌, inl, inr, refl, Bool, true, false, Option, none, some, arith, ◌||◌, ◌&&◌, not, if_both,
}
use ha_spark.Authority.{Instant, system, repair, AuthorityState}
use ha_spark.Authority.Equality.{same_state_iff}
use ha_spark.Authority.Valid.{Limits, is_state}
use ha_spark.AuthorityFiles.{
  Files, Status, AuthorityStore, state, read, async_load, Write, persist, persist_files, async_save,
  async_initialise, fresh_observe, async_confirm_observe, async_retire, retire_read, write_retired,
  at_rest, is_failed, may_save, publish, is_ok, is_absent, is_retired, put, Marker,
}
use ha_spark.Addon.Disk.{valid}
use ha_spark.AuthorityFiles.Refines.{Persisted, persist_lem}
use ha_spark.Prelude.{List, [], ◌∷◌}

-- An exposed state is the one on disk.
unfoldable pub IsDurable : AuthorityStore → Type 0
IsDurable s = (x : AuthorityState) → state s ≡ some x → read s.files ≡ (Status.ok, some x)

Persisted-IsDurable :
    (l : Limits) (x : AuthorityState) (r : AuthorityStore × Bool) → Persisted l x r → IsDurable r.0
unfolding IsDurable
Persisted-IsDurable l x (s, verdict) (inl (v, c, e, d)) y h = ground (arith, v, c, e, d, h)
Persisted-IsDurable l x (s, verdict) (inr (v, e)) y h = ground (arith, v, e, h)

-- A process that has just started.
abbrev pub started : Files → AuthorityStore
started d = record { files = d; status = Status.uninitialised; held = none }

-- The calls on the store of one entry, `publish_save_failed` and a restart included.
pub data Call : Type 0 where
  load fail restart : Call
  save : Write → AuthorityState → Call
  initialise confirm : Write → Write → ℕ → Instant → Call
  retire : Write → Call

unfoldable pub call : Limits → Call → AuthorityStore → AuthorityStore
unfolding async_load async_save async_initialise async_retire async_confirm_observe
call l load s = async_load s
call l fail s = publish Status.save_failed none s
call l restart s = started s.files
call l (save w x) s = (async_save l w x s).0
call l (initialise w₁ w₂ id now) s = (async_initialise l w₁ w₂ id now s).0
call l (confirm w₁ w₂ id now) s = (async_confirm_observe l w₁ w₂ id now s).0
call l (retire w) s = (async_retire w s).0

read_ok : (d : Files) → ¬ (read d ≡ (Status.ok, none))
unfolding read
read_ok d h = ground (arith, h)

published-IsDurable :
    (o : Status × Option AuthorityState) (s : AuthorityStore)
    → read s.files ≡ o
    → IsDurable (publish o.0 o.1 s)
unfolding IsDurable state
published-IsDurable (status, some y) s e x h = ground (arith, e, h)
published-IsDurable (Status.ok, none) s e x h = ground (arith, read_ok s.files e)
published-IsDurable (Status.uninitialised, none) s e x h = ground (arith, h)
published-IsDurable (Status.unknown, none) s e x h = ground (arith, h)
published-IsDurable (Status.save_failed, none) s e x h = ground (arith, h)
published-IsDurable (Status.retired, none) s e x h = ground (arith, h)

load-IsDurable : (s : AuthorityStore) → IsDurable s → IsDurable (async_load s)
unfolding async_load
load-IsDurable s h =
    if_both IsDurable (is_failed s.status) s (publish (read s.files).0 (read s.files).1 s) h
      (published-IsDurable (read s.files) s refl)

fenced-IsDurable : (s : AuthorityStore) → state s ≡ none → IsDurable s
unfolding IsDurable
fenced-IsDurable s h x e = ground (arith, h, e)

abbrev Kept : AuthorityStore × Bool → Type 0
Kept r = IsDurable r.0

write_retired_durable : (w : Write) (id : ℕ) (s : AuthorityStore) → Kept (write_retired w id s)
unfolding write_retired state
write_retired_durable w id s =
    let files = record s.files { marker = put w (Marker.retired id) s.files.marker } in
    let written = record s { files = files } in
    if_both Kept (w.raises || not (is_retired (read files).0))
      (publish Status.save_failed none written, false) (publish Status.retired none written, true)
      (fenced-IsDurable (publish Status.save_failed none written) refl)
      (fenced-IsDurable (publish Status.retired none written) refl)

retire_durable :
    (w : Write) (s : AuthorityStore) (o : Status × Option AuthorityState)
    → IsDurable s
    → Kept (retire_read w s o)
unfolding retire_read
retire_durable w s (status, none) h = h
retire_durable w s (status, some x) h =
    if_both Kept (is_ok status && not (is_failed s.status) && at_rest x)
      (write_retired w x.store_id s) (s, false) (write_retired_durable w x.store_id s) h

pub call-IsDurable :
    (l : Limits) (c : Call) (s : AuthorityStore) → IsDurable s → IsDurable (call l c s)
unfolding call async_save async_initialise async_confirm_observe async_retire state
call-IsDurable l load s h = load-IsDurable s h
call-IsDurable l fail s h = fenced-IsDurable (publish Status.save_failed none s) refl
call-IsDurable l restart s h =
    fenced-IsDurable (record { files = s.files; status = Status.uninitialised; held = none }) refl
call-IsDurable l (save w x) s h =
    if_both Kept (may_save (read s.files) s.held x) (persist l w w false x s)
      (publish Status.unknown none s, false)
      (Persisted-IsDurable l x (persist l w w false x s) (persist_lem l w w false x s))
      (fenced-IsDurable (publish Status.unknown none s) refl)
call-IsDurable l (initialise w₁ w₂ id now) s h =
    let x = fresh_observe id now system in
    if_both Kept (is_absent (read s.files).0 && not (is_failed s.status)) (persist l w₁ w₂ true x s)
      (s, false) (Persisted-IsDurable l x (persist l w₁ w₂ true x s) (persist_lem l w₁ w₂ true x s))
      h
call-IsDurable l (confirm w₁ w₂ id now) s h =
    let x = fresh_observe id now repair in
    let status = (read s.files).0 in
    if_both Kept
      (is_retired status || ((is_ok status || is_absent status) && not (is_failed s.status)))
      (s, false) (persist l w₁ w₂ true x s) h
      (Persisted-IsDurable l x (persist l w₁ w₂ true x s) (persist_lem l w₁ w₂ true x s))
call-IsDurable l (retire w) s h = retire_durable w s (read s.files) h

pub run : Limits → List Call → AuthorityStore → AuthorityStore
unfolding call
run l [] s = s
run l (c ∷ rest) s = run l rest (call l c s)

run_keeps :
    (l : Limits) (calls : List Call) (s : AuthorityStore) → IsDurable s → IsDurable (run l calls s)
unfolding run
run_keeps l [] s h = h
run_keeps l (c ∷ rest) s h = run_keeps l rest (call l c s) (call-IsDurable l c s h)

started_fenced : (d : Files) → state (started d) ≡ none
unfolding state
started_fenced d = refl

-- From a start on any files, whatever is called and whatever becomes of the writes, an exposed state
-- is the one on disk: failed and cancelled writes, torn initialisations and restarts included.
pub run-IsDurable :
    (l : Limits) (calls : List Call) (d : Files) → IsDurable (run l calls (started d))
run-IsDurable l calls d =
    run_keeps l calls (started d) (fenced-IsDurable (started d) (started_fenced d))

-- The disk after a write that lands, where it held a state of the same identity.
read_landed :
    (d : Files) (x y : AuthorityState)
    → read d ≡ (Status.ok, some y)
    → x.store_id ≡ y.store_id
    → read (record d { store = valid x }) ≡ (Status.ok, some x)
unfolding read
read_landed d x y h e = ground (arith, h, e)

-- While a state is exposed, a save of a valid candidate of its identity succeeds if the write lands
-- without raising.
pub save_lands :
    (l : Limits) (x y : AuthorityState) (s : AuthorityStore)
    → IsDurable s
    → state s ≡ some y
    → x.store_id ≡ y.store_id
    → is_state l x ≡ true
    → (async_save l (record { lands = true; raises = false }) x s).1 ≡ true
unfolding async_save persist persist_files state IsDurable
save_lands l x y s h e same v =
    let d = h y e in
    let after = read_landed s.files x y d same in
    ground (arith, d, after, e, same, v, (same_state_iff x x).1 refl)
