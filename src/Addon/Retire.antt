-- ===== src/Addon/Retire.antt =====
-- The handshake from the add-on's side: a retirement marker fences the store, in this process and
-- in any later one, until the integration names the add-on as the owner.
use ha_spark.Prelude.{
  if◌then◌else◌, if_both, ℕ, ◌≡◌, ◌≢◌, ◌⊎◌, inl, inr, refl, Bool, true, false, not, Option, none,
  some, arith, ◌==◌, ◌&&◌, ◌||◌, Option-cases, Bool-cases,
}
use mathlib.Core.Path.{subst, subst₂}
use ha_spark.Addon.Disk.{
  AddonState, File, missing, broken, valid, Marker, same_addon_state, same_addon_state_iff,
}
use ha_spark.Addon.{
  Loaded, known, load, Write, done, failed_before, failed_after, Store, is_known, Owner, Active,
  active, retired, handover, first_retirement, with_retirement, with_retired, with_candidate,
  is_retirement, is_resident, may_retire, write_marker, at_rest,
}

-- The store is not known to this process, nor to any that loads these files.
pub record IsFenced (s : Store) : Type 0 where
  pub unknown : is_known s ≡ false
  pub unloadable : (t : AddonState) → load s.files ≢ known t

abbrev not_loaded : Loaded → Bool
not_loaded (known s) = false
not_loaded _ = true

retirement-fences :
    (s : Store)
    → is_retirement s.files.marker ≡ true
    → (is_known s ≡ false) × (not_loaded (load s.files) ≡ true)
unfolding is_known load
retirement-fences s h = ground arith

unloadable_of : (l : Loaded) → not_loaded l ≡ true → (t : AddonState) → l ≢ known t
unloadable_of l h t e = ground (arith, h, e)

pub retirement-IsFenced : (s : Store) → is_retirement s.files.marker ≡ true → IsFenced s
retirement-IsFenced s h =
    let (shut, out) = retirement-fences s h in
    record { unknown = shut; unloadable = unloadable_of (load s.files) out }

-- What an answer of the handshake promises.
abbrev pub Promises : Owner → Store → Option Active → Type 0
Promises owner s none = Unit
Promises owner s (some retired) = is_retirement s.files.marker ≡ true
Promises Owner.addon s (some active) =
    (state : AddonState) × (s.state ≡ some state) × (is_known s ≡ true)
Promises owner s (some active) = is_retirement s.files.marker ≡ true

with_retired-Promises :
    (w₁ w₂ : Write) (fresh : AddonState) (owner : Owner) (id : ℕ) (s : Store)
    → is_retirement s.files.marker ≡ true
    → let (next, answer) = with_retired w₁ w₂ fresh owner id s in Promises owner next answer
unfolding with_retired
with_retired-Promises w₁ w₂ fresh Owner.addon id s h = tt
with_retired-Promises w₁ w₂ fresh Owner.pending_addon id s h = ground arith
with_retired-Promises w₁ w₂ fresh _ id s h = ground arith

File-cases : {A : Type 0} (f : File A) → (f ≡ missing) ⊎ (f ≡ broken) ⊎ ((a : A) × (f ≡ valid a))
File-cases missing = inl refl
File-cases broken = inr (inl refl)
File-cases (valid a) = inr (inr (a, refl))

keeps_quiet :
    (b : Bool) (x y : Store)
    → let r : Store × Option Active = if b then (x, none) else (y, none) in
      Promises Owner.addon r.0 r.1
keeps_quiet true x y = tt
keeps_quiet false x y = tt

restored_known :
    (s : Store) (candidate : AddonState)
    → is_resident s.files.store candidate ≡ true
    → is_known (record s {
      files = record s.files { marker = valid (Marker.plain candidate.store_id) };
      state = some candidate;
      save_failed = false;
    })
      ≡ true
unfolding is_known
restored_known s candidate h = elim (File-cases s.files.store) [
  | inl e ↦ ground (arith, e, h)
  | inr (inl e) ↦ ground (arith, e, h)
  | inr (inr (resident, e)) ↦ ground (arith, e, h, same_addon_state_iff resident candidate)
]

with_candidate-Promises :
    (w₁ w₂ : Write) (candidate : AddonState) (owner : Owner) (s : Store)
    → is_retirement s.files.marker ≡ true
    → let (next, answer) = with_candidate w₁ w₂ candidate owner s in Promises owner next answer
unfolding with_candidate
with_candidate-Promises w₁ w₂ candidate Owner.pending_addon s h = ground arith
with_candidate-Promises done w₂ candidate Owner.addon s h =
    elim (Bool-cases (is_resident s.files.store candidate)) [
      | inl e ↦ rw (e, with_candidate) (candidate, refl, restored_known s candidate e)
      | inr e ↦ rw (e, with_candidate) tt
    ]
with_candidate-Promises failed_before w₂ candidate Owner.addon s h =
    keeps_quiet (is_resident s.files.store candidate) (record s { save_failed = true }) s
with_candidate-Promises failed_after w₂ candidate Owner.addon s h =
    keeps_quiet (is_resident s.files.store candidate)
      (record s {
        files = record s.files { marker = valid (Marker.plain candidate.store_id) };
        save_failed = true;
      })
      s
with_candidate-Promises w₁ w₂ candidate _ s h = tt

abbrev Fulfils : Owner → Store × Option Active → Type 0
Fulfils owner r = Promises owner r.0 r.1

-- The branches of `with_retirement` on the marker.
by_marker :
    (w₁ w₂ : Write) (fresh : AddonState) (owner : Owner) (m : Marker) (s : Store)
    (resident : AddonState)
    → s.files.marker ≡ valid m
    → let r : Store × Option Active = elim m [
      | Marker.plain id ↦ (s, none)
      | Marker.retired id ↦
          if resident.store_id == id && at_rest resident
          then with_retired w₁ w₂ fresh owner id s
          else (s, none)
      | Marker.pending_addon id candidate ↦
          if (resident.store_id == id && at_rest resident) || same_addon_state resident candidate
          then with_candidate w₁ w₂ candidate owner s
          else (s, none)
    ] in
      Promises owner r.0 r.1
by_marker w₁ w₂ fresh owner (Marker.plain id) s resident h = tt
by_marker w₁ w₂ fresh owner (Marker.retired id) s resident h =
    if_both (Fulfils owner) (resident.store_id == id && at_rest resident)
      (with_retired w₁ w₂ fresh owner id s) (s, none)
      (with_retired-Promises w₁ w₂ fresh owner id s (ground (arith, h))) tt
by_marker w₁ w₂ fresh owner (Marker.pending_addon id candidate) s resident h =
    if_both (Fulfils owner)
      ((resident.store_id == id && at_rest resident) || same_addon_state resident candidate)
      (with_candidate w₁ w₂ candidate owner s) (s, none)
      (with_candidate-Promises w₁ w₂ candidate owner s (ground (arith, h))) tt

with_retirement-Promises :
    (w₁ w₂ : Write) (fresh : AddonState) (owner : Owner) (m : Marker) (s : Store)
    → s.files.marker ≡ valid m
    → let (next, answer) = with_retirement w₁ w₂ fresh owner m s in Promises owner next answer
unfolding with_retirement
with_retirement-Promises w₁ w₂ fresh owner m s h = elim (File-cases s.files.store) [
  | inl e ↦ rw (e, with_retirement) tt
  | inr (inl e) ↦ rw (e, with_retirement) tt
  | inr (inr (resident, e)) ↦ rw (e, with_retirement) (by_marker w₁ w₂ fresh owner m s resident h)
]

abbrev first_write : Write → Write → Write → AddonState → Owner → ℕ → Store → Store × Option Active
first_write w₀ w₁ w₂ fresh owner id s = write_marker w₀ s (Marker.retired id) (λ s'.
    with_retirement w₁ w₂ fresh owner (Marker.retired id)
      (record s' { pending = none; state = none }))

first_write-Promises :
    (w₀ w₁ w₂ : Write) (fresh : AddonState) (owner : Owner) (id : ℕ) (s : Store)
    → Fulfils owner (first_write w₀ w₁ w₂ fresh owner id s)
first_write-Promises done w₁ w₂ fresh owner id s =
    with_retirement-Promises w₁ w₂ fresh owner (Marker.retired id)
      (record s {
        files = record s.files { marker = valid (Marker.retired id) };
        pending = none;
        state = none;
      })
      refl
first_write-Promises failed_before w₁ w₂ fresh owner id s = tt
first_write-Promises failed_after w₁ w₂ fresh owner id s = tt

first_retirement-Promises :
    (w₀ w₁ w₂ : Write) (fresh : AddonState) (owner : Owner) (s : Store)
    → Fulfils owner (first_retirement w₀ w₁ w₂ fresh owner s)
unfolding first_retirement
first_retirement-Promises w₀ w₁ w₂ fresh owner s = elim (Option-cases s.state) [
  | inl e ↦ rw (e, first_retirement) tt
  | inr (state, e) ↦
      rw (e, first_retirement)
        (if_both (Fulfils owner)
          (may_retire owner && is_known s && not s.save_failed && at_rest state)
          (first_write w₀ w₁ w₂ fresh owner state.store_id s) (s, none)
          (first_write-Promises w₀ w₁ w₂ fresh owner state.store_id s) tt)
]

handover_marker :
    (w₀ w₁ w₂ : Write) (fresh : AddonState) (owner : Owner) (m : Marker) (s : Store)
    → s.files.marker ≡ valid m
    → let r : Store × Option Active = elim m [
      | Marker.plain id ↦ first_retirement w₀ w₁ w₂ fresh owner s
      | Marker.retired id ↦ with_retirement w₁ w₂ fresh owner (Marker.retired id) s
      | Marker.pending_addon id candidate ↦
          with_retirement w₁ w₂ fresh owner (Marker.pending_addon id candidate) s
    ] in
      Promises owner r.0 r.1
handover_marker w₀ w₁ w₂ fresh owner (Marker.plain id) s h =
    first_retirement-Promises w₀ w₁ w₂ fresh owner s
handover_marker w₀ w₁ w₂ fresh owner (Marker.retired id) s h =
    with_retirement-Promises w₁ w₂ fresh owner (Marker.retired id) s h
handover_marker w₀ w₁ w₂ fresh owner (Marker.pending_addon id candidate) s h =
    with_retirement-Promises w₁ w₂ fresh owner (Marker.pending_addon id candidate) s h

handover-Promises :
    (w₀ w₁ w₂ : Write) (fresh : AddonState) (owner : Owner) (s : Store)
    → Promises owner (handover w₀ w₁ w₂ fresh owner s).0 (handover w₀ w₁ w₂ fresh owner s).1
unfolding handover
handover-Promises w₀ w₁ w₂ fresh owner s = elim (File-cases s.files.marker) [
  | inl e ↦ rw (e, handover) tt
  | inr (inl e) ↦ rw (e, handover) (first_retirement-Promises w₀ w₁ w₂ fresh owner s)
  | inr (inr (m, e)) ↦ rw (e, handover) (handover_marker w₀ w₁ w₂ fresh owner m s e)
]

-- What a promise means: an answer to a snapshot that does not name the add-on leaves it fenced.
Promises-IsFenced :
    (owner : Owner) (s : Store) (a : Active)
    → owner ≢ Owner.addon
    → Promises owner s (some a)
    → IsFenced s
Promises-IsFenced Owner.addon s a ne p = absurd (ne refl)
Promises-IsFenced Owner.pending_addon s active ne p = retirement-IsFenced s p
Promises-IsFenced Owner.pending_addon s retired ne p = retirement-IsFenced s p
Promises-IsFenced Owner.pending_integration s active ne p = retirement-IsFenced s p
Promises-IsFenced Owner.pending_integration s retired ne p = retirement-IsFenced s p
Promises-IsFenced Owner.integration s active ne p = retirement-IsFenced s p
Promises-IsFenced Owner.integration s retired ne p = retirement-IsFenced s p

Promises-known : (s : Store) → Promises Owner.addon s (some active) → (is_known s ≡ true)
Promises-known s (state, _, k) = k

-- Whatever its writes do: when `handover` answers a snapshot that names another owner than the
-- add-on, by "retired" or by "active", the add-on's authority is unknown to this process and to any
-- that loads the files it leaves. When it answers "active" to one that names the add-on, the store
-- is known again.
pub handover_fences :
    (w₀ w₁ w₂ : Write) (fresh : AddonState) (owner : Owner) (s : Store) (a : Active)
    → (handover w₀ w₁ w₂ fresh owner s).1 ≡ some a
    → (owner ≢ Owner.addon → IsFenced (handover w₀ w₁ w₂ fresh owner s).0)
      × (owner ≡ Owner.addon → a ≡ active → is_known (handover w₀ w₁ w₂ fresh owner s).0 ≡ true)
handover_fences w₀ w₁ w₂ fresh owner s a h =
    let next : Store = (handover w₀ w₁ w₂ fresh owner s).0 in
    let p : Promises owner next (some a) =
      subst (Promises owner next) h (handover-Promises w₀ w₁ w₂ fresh owner s) in
    (
      λ ne. Promises-IsFenced owner next a ne p,
      λ o e. Promises-known next (subst₂ (λ x y. Promises x next (some y)) o e p),
    )
