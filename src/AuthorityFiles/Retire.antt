-- ===== src/AuthorityFiles/Retire.antt =====
-- The end of an identity, by `async_retire`.
use ha_spark.Prelude.{
  if◌then◌else◌, ℕ, ◌≡◌, ◌⊎◌, inl, inr, refl, Bool, true, false, Option, none, some, arith, ◌||◌,
  ◌&&◌, not, Bool-cases,
}
use ha_spark.Authority.{AuthorityState}
use ha_spark.Authority.Valid.{Limits}
use ha_spark.AuthorityFiles.{
  Files, Status, AuthorityStore, state, read, async_load, Write, async_save, async_retire,
  retire_read, write_retired, at_rest, is_failed, may_save, publish, is_retired, put, Marker,
}

-- What a retirement with the verdict `true` leaves.
abbrev Gone : AuthorityStore × Bool → Type 0
Gone (s, verdict) = verdict ≡ true → (is_retired (read s.files).0 ≡ true) × (state s ≡ none)

marked_retired :
    (raised : Bool) (d : Files)
    → raised || not (is_retired (read d).0) ≡ false
    → is_retired (read d).0 ≡ true
marked_retired true d h = ground (arith, h)
marked_retired false d h = ground (arith, h)

written-Gone : (w : Write) (s : AuthorityStore) (id : ℕ) → Gone (write_retired w id s)
unfolding write_retired state
written-Gone w s id =
    let files = record s.files { marker = put w (Marker.retired id) s.files.marker } in
    elim (Bool-cases (w.raises || not (is_retired (read files).0))) [
      | inl e ↦ rw (e) (λ h. ground (arith, h))
      | inr e ↦ rw (e) (λ h. (marked_retired w.raises files e, refl))
    ]

retired_none : (d : Files) → is_retired (read d).0 ≡ true → (read d).1 ≡ none
unfolding read
retired_none d h = ground (arith, h)

publish_gone :
    (o : Status × Option AuthorityState) (s : AuthorityStore)
    → is_retired o.0 ≡ true
    → state (publish o.0 o.1 s) ≡ none
unfolding state
publish_gone (Status.retired, some y) s h = refl
publish_gone (Status.retired, none) s h = refl
publish_gone (Status.ok, o) s h = ground (arith, h)
publish_gone (Status.uninitialised, o) s h = ground (arith, h)
publish_gone (Status.unknown, o) s h = ground (arith, h)
publish_gone (Status.save_failed, o) s h = ground (arith, h)

failed_none : (s : AuthorityStore) → is_failed s.status ≡ true → state s ≡ none
unfolding state
failed_none s h = ground (arith, h)

load_gone : (s : AuthorityStore) → is_retired (read s.files).0 ≡ true → state (async_load s) ≡ none
unfolding async_load
load_gone s h = elim (Bool-cases (is_failed s.status)) [
  | inl f ↦ rw (f) (failed_none s f)
  | inr f ↦ rw (f) (publish_gone (read s.files) s h)
]

-- The files that a retirement may end: retired ones, or those of a state at rest.
abbrev pub MayEnd : Status × Option AuthorityState → Type 0
MayEnd o =
    (is_retired o.0 ≡ true)
    ⊎ ((x : AuthorityState) × (o ≡ (Status.ok, some x)) × (at_rest x ≡ true))

taken :
    (b : Bool) (r : AuthorityStore × Bool) (s : AuthorityStore)
    → (if b then r else (s, false)).1 ≡ true
    → (b ≡ true) × ((if b then r else (s, false)) ≡ r)
taken true r s h = (refl, refl)
taken false r s h = ground (arith, h)

ended :
    (w : Write) (s : AuthorityStore) (o : Status × Option AuthorityState)
    → read s.files ≡ o
    → (retire_read w s o).1 ≡ true
    → MayEnd o × (is_retired (read (retire_read w s o).0.files).0 ≡ true)
unfolding retire_read
ended w s (status, none) e h = (inl h, ground (arith, e, h))
ended w s (Status.ok, some x) e h =
    let next = write_retired w x.store_id s in
    let (k, p) = taken (not (is_failed s.status) && at_rest x) next s h in
    let gone : is_retired (read next.0.files).0 ≡ true =
      (written-Gone w s x.store_id (ground (arith, h, p))).0 in
    (inr (x, refl, ground (arith, k)), rw (p) gone)
ended w s (Status.retired, some x) e h = ground (arith, h)
ended w s (Status.uninitialised, some x) e h = ground (arith, h)
ended w s (Status.unknown, some x) e h = ground (arith, h)
ended w s (Status.save_failed, some x) e h = ground (arith, h)

no_save :
    (o : Status × Option AuthorityState) (held : Option AuthorityState) (x : AuthorityState)
    → is_retired o.0 ≡ true
    → may_save o held x ≡ false
no_save (status, none) held x h = refl
no_save (Status.retired, some y) held x h = refl
no_save (Status.ok, some y) held x h = ground (arith, h)
no_save (Status.uninitialised, some y) held x h = ground (arith, h)
no_save (Status.unknown, some y) held x h = ground (arith, h)
no_save (Status.save_failed, some y) held x h = ground (arith, h)

save_refused :
    (l : Limits) (w : Write) (x : AuthorityState) (s : AuthorityStore)
    → is_retired (read s.files).0 ≡ true
    → (async_save l w x s).1 ≡ false
unfolding async_save
save_refused l w x s h = rw (no_save (read s.files) s.held x h) refl

-- A retirement that answers `true` found the disk retired already, or a state at rest in Observe; the
-- disk is retired then, no later load exposes a state, and no save of any candidate brings one back.
pub async_retire-ends :
    (l : Limits) (w w₁ : Write) (x : AuthorityState) (s : AuthorityStore)
    → (async_retire w s).1 ≡ true
    → MayEnd (read s.files)
      × (is_retired (read (async_retire w s).0.files).0 ≡ true)
      × (state (async_load (async_retire w s).0) ≡ none)
      × ((async_save l w₁ x (async_retire w s).0).1 ≡ false)
unfolding async_retire
async_retire-ends l w w₁ x s h =
    let (old, gone) = ended w s (read s.files) refl h in
    let after = (retire_read w s (read s.files)).0 in
    (old, gone, load_gone after gone, save_refused l w₁ x after gone)
