-- ===== src/AuthorityFiles.antt =====
-- custom_components/ha_spark/authority.py: the integration's authority store over the storage of Home
-- Assistant. Each of its two files is absent, or damaged (Home Assistant renames a corrupt file and
-- leaves the evidence), or holds a record. A write lands or not, and the call may raise either way.
pub mod Refines
pub mod Durable
pub mod Retire
pub mod Fence
mod Examples
use ha_spark.Prelude.{
  ℕ, Bool, true, false, not, ◌&&◌, ◌||◌, Option, none, some, List, [], ◌∷◌, ◌==◌, if◌then◌else◌,
  is_some, is_none,
}
use ha_spark.Authority.{
  Instant, OperatingMode, RequesterKind, system, repair, no_fallback, AuthorityState,
}
use ha_spark.Authority.Equality.{same_state}
use ha_spark.Authority.Valid.{Limits, is_state}
use ha_spark.Transitions.{is_mode}
use ha_spark.Addon.Disk.{File, missing, broken, valid}

-- `AuthorityMarker`, and the retired form that `async_retire` writes.
pub data Marker : Type 0 where
  plain : ℕ → Marker
  retired : ℕ → Marker

pub record Files : Type 0 where
  pub store : File AuthorityState
  pub marker : File Marker

-- `StoreStatus`
pub data Status : Type 0 where
  uninitialised ok unknown save_failed retired : Status

pub record AuthorityStore : Type 0 where
  pub files : Files
  pub status : Status
  pub held : Option AuthorityState

abbrev pub is_ok : Status → Bool
is_ok Status.ok = true
is_ok _ = false

abbrev pub is_failed : Status → Bool
is_failed Status.save_failed = true
is_failed _ = false

-- The property `state`.
unfoldable pub state : AuthorityStore → Option AuthorityState
state s = if is_ok s.status then s.held else none

abbrev pub publish : Status → Option AuthorityState → AuthorityStore → AuthorityStore
publish status none s = record s { status = status }
publish status (some state) s = record s { status = status; held = some state }

abbrev by_marker : AuthorityState → Marker → Status × Option AuthorityState
by_marker state (Marker.plain id) =
    if id == state.store_id then (Status.ok, some state) else (Status.unknown, none)
by_marker state (Marker.retired id) =
    if id == state.store_id then (Status.retired, none) else (Status.unknown, none)

-- `_read`
pub read : Files → Status × Option AuthorityState
read d = elim d.store [
  | missing ↦ (elim d.marker [
    | missing ↦ (Status.uninitialised, none)
    | _ ↦ (Status.unknown, none)
  ])
  | broken ↦ (Status.unknown, none)
  | valid state ↦ (elim d.marker [ valid m ↦ by_marker state m | _ ↦ (Status.unknown, none) ])
]

pub async_load : AuthorityStore → AuthorityStore
async_load s =
    let (status, state) = read s.files in if is_failed s.status then s else publish status state s

-- One write of a file: whether it lands, and whether the call raises.
pub record Write : Type 0 where
  pub lands : Bool
  pub raises : Bool

abbrev pub put {ℓ} : {A : Type ℓ} → Write → A → File A → File A
put w new old = if w.lands then valid new else old

-- The two writes of `_persist`: the second is made where the first does not raise.
pub persist_files : Write → Write → Bool → AuthorityState → Files → Files × Bool
persist_files w₁ w₂ initial candidate d =
    let first = record d { store = put w₁ candidate d.store } in
    let both = record first { marker = put w₂ (Marker.plain candidate.store_id) d.marker } in
    if w₁.raises || not initial then (first, w₁.raises) else (both, w₂.raises)

abbrev pub is_loaded : Status × Option AuthorityState → AuthorityState → Bool
is_loaded (status, none) candidate = false
is_loaded (status, some loaded) candidate = is_ok status && same_state loaded candidate

abbrev pub reads_back : Files → AuthorityState → Bool
reads_back d candidate = is_loaded (read d) candidate

-- `_persist`: the store, and its verdict. A cancelled call is one that raises.
pub persist :
    Limits → Write → Write → Bool → AuthorityState → AuthorityStore → AuthorityStore × Bool
unfolding persist_files
persist l w₁ w₂ initial candidate s =
    let (files, raised) = persist_files w₁ w₂ initial candidate s.files in
    let written = record s { files = files } in
    if not (is_state l candidate)
    then (publish Status.save_failed none s, false)
    else if raised || not (reads_back files candidate)
    then (publish Status.save_failed none written, false)
    else (publish Status.ok (some candidate) written, true)

abbrev same_id : Option AuthorityState → ℕ → Bool
same_id none id = false
same_id (some state) id = state.store_id == id

-- The disk and the held state have the identity of the candidate.
abbrev pub may_save : Status × Option AuthorityState → Option AuthorityState → AuthorityState → Bool
may_save (status, none) held candidate = false
may_save (status, some current) held candidate =
    is_ok status && same_id held current.store_id && candidate.store_id == current.store_id

pub async_save : Limits → Write → AuthorityState → AuthorityStore → AuthorityStore × Bool
unfolding persist
async_save l w candidate s =
    let saved = persist l w w false candidate s in
    if may_save (read s.files) s.held candidate
    then saved
    else (publish Status.unknown none s, false)

-- A fresh Observe state; `id` is what `uuid4` draws.
abbrev pub fresh_observe : ℕ → Instant → RequesterKind → AuthorityState
fresh_observe id now requester = record {
  store_id = id;
  committed_mode = OperatingMode.observe;
  addon_session_id = none;
  epoch = 1;
  transition = none;
  manual_session = none;
  fallback = no_fallback;
  holds = [];
  export_supervisions = [];
  export_records = [];
  export_transitions = [];
  stop_latches = [];
  last_changed_at = now;
  requester_kind = requester;
}

abbrev pub is_absent : Status → Bool
is_absent Status.uninitialised = true
is_absent Status.retired = true
is_absent _ = false

pub async_initialise : Limits → Write → Write → ℕ → Instant → AuthorityStore → AuthorityStore × Bool
unfolding persist
async_initialise l w₁ w₂ id now s =
    let saved = persist l w₁ w₂ true (fresh_observe id now system) s in
    if is_absent (read s.files).0 && not (is_failed s.status) then saved else (s, false)

abbrev is_empty {ℓ} : {A : Type ℓ} → List A → Bool
is_empty [] = true
is_empty (x ∷ xs) = false

-- Observe, with no hold, transition or manual session.
abbrev pub at_rest : AuthorityState → Bool
at_rest state =
    is_mode state.committed_mode OperatingMode.observe
    && is_empty state.holds
    && is_none state.transition
    && is_none state.manual_session

abbrev pub is_retired : Status → Bool
is_retired Status.retired = true
is_retired _ = false

-- The end of `async_retire`: the marker is written and read back.
pub write_retired : Write → ℕ → AuthorityStore → AuthorityStore × Bool
write_retired w id s =
    let files = record s.files { marker = put w (Marker.retired id) s.files.marker } in
    let written = record s { files = files } in
    if w.raises || not (is_retired (read files).0)
    then (publish Status.save_failed none written, false)
    else (publish Status.retired none written, true)

-- What `async_retire` does with what it has read.
pub retire_read : Write → AuthorityStore → Status × Option AuthorityState → AuthorityStore × Bool
unfolding write_retired
retire_read w s (status, none) = (s, is_retired status)
retire_read w s (status, some state) =
    let next = write_retired w state.store_id s in
    if is_ok status && not (is_failed s.status) && at_rest state then next else (s, false)

pub async_retire : Write → AuthorityStore → AuthorityStore × Bool
unfolding retire_read
async_retire w s = retire_read w s (read s.files)

pub async_confirm_observe :
    Limits → Write → Write → ℕ → Instant → AuthorityStore → AuthorityStore × Bool
unfolding persist
async_confirm_observe l w₁ w₂ id now s =
    let status = (read s.files).0 in
    let saved = persist l w₁ w₂ true (fresh_observe id now repair) s in
    if is_retired status || ((is_ok status || is_absent status) && not (is_failed s.status))
    then (s, false)
    else saved
