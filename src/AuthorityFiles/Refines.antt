-- ===== src/AuthorityFiles/Refines.antt =====
-- The files against the store that the control loop sees.
use ha_spark.Prelude.{
  ◌≡◌, ◌⊎◌, inl, inr, refl, Bool, true, false, Option, none, some, arith, ◌||◌, not, if_both,
  Bool-cases,
}
use ha_spark.Authority.{AuthorityState}
use ha_spark.Authority.Equality.{same_state_iff}
use ha_spark.Authority.Valid.{Limits, is_state}
use ha_spark.Control
use ha_spark.AuthorityFiles.{
  Files, Status, AuthorityStore, state, read, async_load, Write, persist, persist_files, async_save,
  is_loaded, reads_back, may_save, publish,
}

is_loaded_lem :
    (o : Status × Option AuthorityState) (x : AuthorityState)
    → is_loaded o x ≡ true
    → o ≡ (Status.ok, some x)
is_loaded_lem (Status.ok, some y) x h = ground (arith, (same_state_iff y x).0 h)
is_loaded_lem (Status.ok, none) x h = ground arith
is_loaded_lem (Status.uninitialised, some y) x h = ground arith
is_loaded_lem (Status.uninitialised, none) x h = ground arith
is_loaded_lem (Status.unknown, some y) x h = ground arith
is_loaded_lem (Status.unknown, none) x h = ground arith
is_loaded_lem (Status.save_failed, some y) x h = ground arith
is_loaded_lem (Status.save_failed, none) x h = ground arith
is_loaded_lem (Status.retired, some y) x h = ground arith
is_loaded_lem (Status.retired, none) x h = ground arith

-- What a write of the candidate leaves: it is verified, exposed and on disk, or all is fenced.
abbrev pub Persisted : Limits → AuthorityState → AuthorityStore × Bool → Type 0
Persisted l x (s, verdict) =
    (verdict ≡ true)
      × (is_state l x ≡ true)
      × (state s ≡ some x)
      × (read s.files ≡ (Status.ok, some x))
    ⊎ (verdict ≡ false) × (state s ≡ none)

verified :
    (raised : Bool) (d : Files) (x : AuthorityState)
    → raised || not (reads_back d x) ≡ false
    → read d ≡ (Status.ok, some x)
verified true d x h = ground arith
verified false d x h = is_loaded_lem (read d) x (ground (arith, h))

-- A verified write exposes the candidate, which the disk holds; a failed one exposes nothing.
pub persist_lem :
    (l : Limits) (w₁ w₂ : Write) (initial : Bool) (x : AuthorityState) (s : AuthorityStore)
    → Persisted l x (persist l w₁ w₂ initial x s)
unfolding persist state
persist_lem l w₁ w₂ initial x s =
    let (d, raised) = persist_files w₁ w₂ initial x s.files in
    elim (Bool-cases (is_state l x)) [
      | inl v ↦ elim (Bool-cases (raised || not (reads_back d x))) [
        | inl f ↦ rw (v, f) (inr (refl, refl))
        | inr f ↦ rw (v, f) (inl (refl, refl, refl, verified raised d x f))
      ]
      | inr v ↦ rw (v) (inr (refl, refl))
    ]

-- The same by the status: a failed write leaves the fence.
pub persist_fences :
    (l : Limits) (w₁ w₂ : Write) (initial : Bool) (x : AuthorityState) (s : AuthorityStore)
    → ((persist l w₁ w₂ initial x s).0.status ≡ Status.save_failed)
      ⊎ (state (persist l w₁ w₂ initial x s).0 ≡ some x)
        × (read (persist l w₁ w₂ initial x s).0.files ≡ (Status.ok, some x))
unfolding persist state
persist_fences l w₁ w₂ initial x s =
    let (d, raised) = persist_files w₁ w₂ initial x s.files in
    elim (Bool-cases (is_state l x)) [
      | inl v ↦ elim (Bool-cases (raised || not (reads_back d x))) [
        | inl f ↦ rw (v, f) (inl refl)
        | inr f ↦ rw (v, f) (inr (refl, verified raised d x f))
      ]
      | inr v ↦ rw (v) (inl refl)
    ]

pub load_kept :
    (x : AuthorityState) (s : AuthorityStore)
    → state s ≡ some x
    → read s.files ≡ (Status.ok, some x)
    → state (async_load s) ≡ some x
unfolding state async_load
load_kept x s h e = rw (e) (ground (arith, h))

-- What the control loop is promised of a save, of the store after it and its verdict.
abbrev Promised : Limits → AuthorityState → AuthorityStore × Bool → Type 0
Promised l x (s, verdict) =
    (state s ≡ Control.save verdict x)
    × (verdict ≡ true
        → (is_state l x ≡ true)
          × (read s.files ≡ (Status.ok, some x))
          × (state (async_load s) ≡ some x))

promised :
    (l : Limits) (x : AuthorityState) (r : AuthorityStore × Bool) → Persisted l x r → Promised l x r
promised l x (s, true) (inl (v, c, e, d)) = (e, λ h. (c, d, load_kept x s e d))
promised l x (s, true) (inr (v, e)) = ground (arith, v)
promised l x (s, false) (inl (v, c, e, d)) = ground (arith, v)
promised l x (s, false) (inr (v, e)) = (e, λ h. ground (arith, h))

-- The control loop takes a save for one bit: the candidate when it is verified, nothing when not.
-- The store keeps that promise over its files, and a verified save keeps the identity on disk and is
-- read back by every later load.
pub async_save-refines :
    (l : Limits) (w : Write) (x : AuthorityState) (s : AuthorityStore)
    → let (after, verdict) = async_save l w x s in
      (state after ≡ Control.save verdict x)
      × (verdict ≡ true
          → (is_state l x ≡ true)
            × (read after.files ≡ (Status.ok, some x))
            × (state (async_load after) ≡ some x))
unfolding async_save state
async_save-refines l w x s =
    if_both (Promised l x) (may_save (read s.files) s.held x) (persist l w w false x s)
      (publish Status.unknown none s, false)
      (promised l x (persist l w w false x s) (persist_lem l w w false x s))
      (refl, λ h. ground (arith, h))
