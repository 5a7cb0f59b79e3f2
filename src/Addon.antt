-- ===== src/Addon.antt =====
-- ha_spark/authority.py: the authority store of the add-on, with its two files and the handshake that
-- retires and restores it. A file is missing, or holds nothing that its model accepts, or a record;
-- a durable write succeeds, or raises before or after the file was replaced.
pub mod Disk
pub mod Durable
pub mod Retire
pub mod Link
pub mod Sealed
mod Examples
use mathlib.Core.Bool.{decide}
use ha_spark.Prelude.{
  ℕ, suc, String, Bool, true, false, not, ◌&&◌, ◌||◌, Option, none, some, List, [], ◌∷◌, ◌==◌,
  if◌then◌else◌, ltb, leb, is_some, is_none, all,
}
use ha_spark.Authority.{Instant, OperatingMode, Transition, HoldDevice, Cause, ReleaseRefusal}
use ha_spark.Transitions.{is_mode}
use ha_spark.Addon.Disk.{
  AddonState, AddonHold, AddonFallback, Requester, File, missing, broken, valid, Marker, plain,
  Files, AddonHolds-discrete, same_addon_state, is_valid,
}

pub data Loaded : Type 0 where
  known : AddonState → Loaded
  uninitialised authority_unknown : Loaded

abbrev with_marker : AddonState → File Marker → Loaded
with_marker state (valid (plain id)) =
    if state.store_id == id then known state else authority_unknown
with_marker state _ = authority_unknown

-- `_load`
pub load : Files → Loaded
load d = elim d.store [
  | missing ↦ (elim d.marker [ missing ↦ uninitialised | _ ↦ authority_unknown ])
  | broken ↦ authority_unknown
  | valid state ↦ with_marker state d.marker
]

abbrev pub state_of : Loaded → Option AddonState
state_of (known s) = some s
state_of _ = none

pub data Write : Type 0 where
  done failed_before failed_after : Write

-- `_durable_write`: the file, and whether the write raises.
abbrev pub durable {ℓ} : {A : Type ℓ} → Write → File A → A → File A × Bool
durable done old new = (valid new, false)
durable failed_before old new = (old, true)
durable failed_after old new = (valid new, true)

-- `AuthorityStore`
pub record Store : Type 0 where
  pub files : Files
  pub state : Option AddonState
  pub save_failed : Bool
  pub pending : Option AddonState
  pub initialising : Bool

unfoldable pub construct : Files → Store
unfolding load
construct d = record {
  files = d;
  state = state_of (load d);
  save_failed = false;
  pending = none;
  initialising = false;
}

abbrev same_loaded : Loaded → AddonState → Bool
same_loaded (known s) t = same_addon_state s t
same_loaded _ t = false

-- The property `known`.
unfoldable pub is_known : Store → Bool
unfolding load
is_known s = elim s.state [ none ↦ false | some state ↦ same_loaded (load s.files) state ]

abbrev same_id : Option AddonState → ℕ → Bool
same_id none id = false
same_id (some s) id = s.store_id == id

-- `save`: the store, and whether it raises.
pub save : Write → Store → AddonState → Store × Bool
unfolding load
save w s state =
    let held = record s { pending = some state } in
    let (file, raises) = durable w s.files.store state in
    let written = record held { files = record s.files { store = file } } in
    if not (is_valid state && same_id (state_of (load s.files)) state.store_id)
    then (record held { save_failed = true }, true)
    else if raises
    then (record written { save_failed = true }, true)
    else (record written { state = some state; save_failed = false; pending = none }, false)

-- `_persist_initial`, with the answers of its two writes.
pub persist_initial : Write → Write → Store → AddonState → Store × Bool
persist_initial w₁ w₂ s state =
    let held = record s { pending = some state; initialising = true } in
    let (file, raises) = durable w₁ s.files.store state in
    let (mark, raises') = durable w₂ s.files.marker (plain state.store_id) in
    if raises
    then (record held { files = record s.files { store = file }; save_failed = true }, true)
    else if raises'
    then (record held { files = record { store = file; marker = mark }; save_failed = true }, true)
    else (
      record {
        files = record { store = file; marker = mark };
        state = some state;
        save_failed = false;
        pending = none;
        initialising = false;
      },
      false,
    )

-- A fresh Observe state; `id` is what `uuid4` draws.
abbrev pub fresh_observe : ℕ → Instant → Requester → AddonState
fresh_observe id now requester = record {
  store_id = id;
  committed_mode = OperatingMode.observe;
  transition = none;
  epoch = 1;
  holds = [];
  fallback = record { active = false; causes = [] };
  notified = false;
  last_changed_at = now;
  requester_kind = requester;
}

pub initialise : Write → Write → ℕ → Instant → Store → Store × Bool
unfolding load persist_initial
initialise w₁ w₂ id now s = elim (load s.files) [
  | known state ↦ (record s { state = some state }, false)
  | authority_unknown ↦ (record s { state = none }, false)
  | uninitialised ↦ persist_initial w₁ w₂ s (fresh_observe id now Requester.system)
]

pub start_process : Write → Write → ℕ → Instant → Store → Store × Bool
unfolding is_known save initialise
start_process w₁ w₂ id now s = elim s.state [
  | none ↦ initialise w₁ w₂ id now s
  | some state ↦
      if is_known s
      then save w₁ s (record state { epoch = suc state.epoch })
      else initialise w₁ w₂ id now s
]

pub retry_pending : Write → Write → Store → Store × Bool
unfolding save persist_initial
retry_pending w₁ w₂ s = elim s.pending [
  | none ↦ (s, false)
  | some state ↦ if s.initialising then persist_initial w₁ w₂ s state else save w₁ s state
]

-- The owner that a snapshot of the integration names.
pub data Owner : Type 0 where
  addon pending_integration integration pending_addon : Owner

pub data Active : Type 0 where
  active retired : Active

abbrev is_empty {ℓ} : {A : Type ℓ} → List A → Bool
is_empty [] = true
is_empty (x ∷ xs) = false

-- Observe, with no hold and no transition.
abbrev pub at_rest : AddonState → Bool
at_rest s =
    is_mode s.committed_mode OperatingMode.observe && is_empty s.holds && is_none s.transition

abbrev may_retire : Owner → Bool
may_retire Owner.pending_integration = true
may_retire _ = false

abbrev may_restore : Owner → Bool
may_restore Owner.pending_addon = true
may_restore _ = false

unfoldable pub can_handover : Owner → Store → Bool
unfolding is_known
can_handover owner s = elim s.files.store [
  | missing ↦ false
  | broken ↦ false
  | valid state ↦ at_rest state && (elim s.files.marker [
    | missing ↦ false
    | broken ↦ may_retire owner && is_known s && not s.save_failed
    | valid m ↦ (elim m [
      | Marker.plain id ↦ may_retire owner && is_known s && not s.save_failed
      | Marker.retired id ↦ state.store_id == id && (may_restore owner || may_retire owner)
      | Marker.pending_addon id candidate ↦
          (state.store_id == id || same_addon_state state candidate) && may_restore owner
    ])
  ])
]

abbrev fails : Store → Store × Option Active
fails s = (record s { save_failed = true }, none)

-- A durable write of the marker, and what follows once it is verified.
abbrev pub write_marker :
    Write → Store → Marker → (Store → Store × Option Active) → Store × Option Active
write_marker w s m k =
    let (file, raises) = durable w s.files.marker m in
    let written = record s { files = record s.files { marker = file } } in
    let next = k written in if raises then fails written else next

abbrev pub write_store :
    Write → Store → AddonState → (Store → Store × Option Active) → Store × Option Active
write_store w s state k =
    let (file, raises) = durable w s.files.store state in
    let written = record s { files = record s.files { store = file } } in
    let next = k written in if raises then fails written else next

abbrev answers : Active → Store → Store × Option Active
answers a s = (record s { save_failed = false }, some a)

-- `handover` with the retirement marker of the old store: the part for one owner.
unfoldable pub with_retired : Write → Write → AddonState → Owner → ℕ → Store → Store × Option Active
with_retired w₁ w₂ candidate Owner.pending_addon id s =
    write_marker w₁ s (Marker.pending_addon id candidate)
      (λ s'. write_store w₂ s' candidate (answers active))
with_retired w₁ w₂ candidate Owner.addon id s = (s, none)
with_retired w₁ w₂ candidate _ id s =
    let again = write_marker w₁ s (Marker.retired id) (answers Active.retired) in
    if s.save_failed then again else answers Active.retired s

abbrev is_resident : File AddonState → AddonState → Bool
is_resident (valid s) t = same_addon_state s t
is_resident _ t = false

-- `handover` with the marker of a pending restoration.
pub with_candidate : Write → Write → AddonState → Owner → Store → Store × Option Active
with_candidate w₁ w₂ candidate Owner.pending_addon s = write_store w₂ s candidate (answers active)
with_candidate w₁ w₂ candidate Owner.addon s =
    let restored =
      write_marker w₁ s (Marker.plain candidate.store_id)
        (λ s'. answers active (record s' { state = some candidate })) in
    if is_resident s.files.store candidate then restored else (s, none)
with_candidate w₁ w₂ candidate _ s = (s, none)

-- `handover` from the read of the resident state on.
unfoldable pub with_retirement :
    Write → Write → AddonState → Owner → Marker → Store → Store × Option Active
unfolding with_retired with_candidate
with_retirement w₁ w₂ fresh owner marker s = elim s.files.store [
  | missing ↦ fails s
  | broken ↦ fails s
  | valid resident ↦ (elim marker [
    | Marker.plain id ↦ (s, none)
    | Marker.retired id ↦
        if resident.store_id == id && at_rest resident
        then with_retired w₁ w₂ fresh owner id s
        else (s, none)
    | Marker.pending_addon id candidate ↦
        if (resident.store_id == id && at_rest resident) || same_addon_state resident candidate
        then with_candidate w₁ w₂ candidate owner s
        else (s, none)
  ])
]

-- `handover` with no retirement marker: the first retirement.
pub first_retirement : Write → Write → Write → AddonState → Owner → Store → Store × Option Active
unfolding is_known with_retirement
first_retirement w₀ w₁ w₂ fresh owner s = elim s.state [
  | none ↦ (s, none)
  | some state ↦
      let next = write_marker w₀ s (Marker.retired state.store_id) (λ s'.
        with_retirement w₁ w₂ fresh owner (Marker.retired state.store_id)
          (record s' { pending = none; state = none })) in
      if may_retire owner && is_known s && not s.save_failed && at_rest state
      then next
      else (s, none)
]

-- `handover`: `w₀`, `w₁` and `w₂` are the answers of its writes, and `fresh` the candidate that it
-- would draw.
unfoldable pub handover : Write → Write → Write → AddonState → Owner → Store → Store × Option Active
unfolding first_retirement with_retirement
handover w₀ w₁ w₂ fresh owner s = elim s.files.marker [
  | missing ↦ fails s
  | broken ↦ first_retirement w₀ w₁ w₂ fresh owner s
  | valid m ↦ (elim m [
    | Marker.plain id ↦ first_retirement w₀ w₁ w₂ fresh owner s
    | Marker.retired id ↦ with_retirement w₁ w₂ fresh owner (Marker.retired id) s
    | Marker.pending_addon id candidate ↦
        with_retirement w₁ w₂ fresh owner (Marker.pending_addon id candidate) s
  ])
]

abbrev pub is_retirement : File Marker → Bool
is_retirement (valid (Marker.retired id)) = true
is_retirement (valid (Marker.pending_addon id c)) = true
is_retirement _ = false

-- `confirm_observe`: the store, and whether it raises.
pub confirm_observe : Write → Write → ℕ → Instant → Requester → Store → Store × Bool
unfolding is_known persist_initial
confirm_observe w₁ w₂ id now requester s =
    if is_retirement s.files.marker || is_known s
    then (s, true)
    else persist_initial w₁ w₂ s (fresh_observe id now requester)

abbrev same_bool : Bool → Bool → Bool
same_bool true b = b
same_bool false b = not b

-- `save_fallback`: the store, whether the stored state changed, and whether it raises.
pub save_fallback : Write → Bool → String → Instant → Store → Store × Bool × Bool
unfolding save
save_fallback w active? cause now s = elim s.state [
  | none ↦ (s, false, false)
  | some state ↦
      let (next, raises) = save w s (record state {
        fallback = record { active = active?; causes = if active? then cause ∷ [] else [] };
        epoch = suc state.epoch;
        last_changed_at = now;
      }) in
      if same_bool state.fallback.active active?
      then (s, false, false)
      else (next, not raises, raises)
]

pub save_readiness_notice : Write → Bool → Store → Store × Bool
unfolding save is_known
save_readiness_notice w notified s = elim s.state [
  | none ↦ (s, true)
  | some state ↦
      let next = save w s (record state { notified = notified }) in
      if s.save_failed || not (is_known s)
      then (s, true)
      else if same_bool state.notified notified
      then (s, false)
      else next
]

abbrev same_holds : List AddonHold → List AddonHold → Bool
same_holds a b = decide (AddonHolds-discrete a b)

pub save_holds : Write → List AddonHold → Instant → Store → Store × Bool
unfolding save is_known
save_holds w holds now s = elim s.state [
  | none ↦ (s, true)
  | some state ↦
      let next = save w s (record state { holds = holds; last_changed_at = now }) in
      if same_holds holds state.holds
      then (s, false)
      else if s.save_failed || not (is_known s)
      then (s, true)
      else next
]
