-- ===== src/Ownership.antt =====
-- custom_components/ha_spark/ownership.py: which of the two programs owns the site. A save is
-- confirmed by its read-back, or lost, or written and not confirmed; the failure that it publishes to
-- the authority store is not part of this state.
pub mod Exclusion
mod Examples
use ha_spark.Prelude.{
  ℕ, Bool, true, false, not, ◌&&◌, ◌||◌, Option, none, some, List, [], ◌∷◌, ◌==◌, if◌then◌else◌,
  is_some, is_none,
}
use ha_spark.Authority.{OperatingMode, AuthorityState}
use ha_spark.Transitions.{is_mode}
use ha_spark.Addon.{Owner, Active, active, retired}
use ha_spark.Addon.Disk.{File, missing, broken, valid}
use ha_spark.Addon.Link.{AddonAuthority, StoreState}

pub data Refusal : Type 0 where
  store_unknown switch_pending peer_version observe_required : Refusal
  holds_present transition_present manual_present save_failed : Refusal

-- The parts of a summary that the handshake reads.
pub record Summary : Type 0 where
  pub api_version : ℕ
  pub mode : Option OperatingMode
  pub transition_target : Option OperatingMode
  pub addon_authority : Option AddonAuthority

-- `OwnershipStore`, with the file that it keeps; a file that is missing beside a renamed corrupt one
-- is broken.
pub record OwnershipStore : Type 0 where
  pub disk : File Owner
  pub owner : Owner
  pub verified : Bool
  pub reconcile : Bool
  pub last_refusal : Option Refusal

-- `OwnershipStore.__init__`
abbrev pub new_store : File Owner → OwnershipStore
new_store disk = record {
  disk = disk;
  owner = Owner.addon;
  verified = false;
  reconcile = false;
  last_refusal = none;
}

abbrev pub is_pending : Owner → Bool
is_pending Owner.pending_integration = true
is_pending Owner.pending_addon = true
is_pending _ = false

abbrev pub same_owner : Owner → Owner → Bool
same_owner Owner.addon Owner.addon = true
same_owner Owner.pending_integration Owner.pending_integration = true
same_owner Owner.integration Owner.integration = true
same_owner Owner.pending_addon Owner.pending_addon = true
same_owner _ _ = false

-- `derived_owner`, from the answers of `validate_topology`: whether each inverter is native, where
-- the topology is valid.
pub derived_owner : Option (List Bool) → Owner
derived_owner none = Owner.addon
derived_owner (some []) = Owner.addon
derived_owner (some (i ∷ inverters)) =
    if i && ha_spark.Prelude.all (λ b. b) inverters then Owner.integration else Owner.addon

pub data Saved : Type 0 where
  confirmed lost unconfirmed : Saved

abbrev unverified : Owner → OwnershipStore → OwnershipStore
unverified owner s = record s {
  owner = if is_pending owner then owner else s.owner;
  verified = false;
}

-- `_save`: the store, and its verdict.
pub save : Saved → Owner → OwnershipStore → OwnershipStore × Bool
save confirmed owner s = (record s { disk = valid owner; owner = owner; verified = true }, true)
save lost owner s = (unverified owner s, false)
save unconfirmed owner s = (record (unverified owner s) { disk = valid owner }, false)

-- The end of `async_load`, for a topology that derives `target`.
pub settle_owner : Saved → Owner → OwnershipStore → OwnershipStore
unfolding save
settle_owner w Owner.addon s = elim s.owner [
  | Owner.pending_integration ↦ (save w Owner.addon s).0
  | Owner.integration ↦ record s { reconcile = true }
  | _ ↦ s
]
settle_owner w Owner.integration s = elim s.owner [
  | Owner.pending_addon ↦ (save w Owner.integration s).0
  | Owner.addon ↦ record s { reconcile = true }
  | _ ↦ s
]
settle_owner w _ s = s

abbrev fenced : OwnershipStore → OwnershipStore
fenced s = record s { owner = Owner.pending_integration; verified = false }

abbrev wants_integration : Option Owner → Bool
wants_integration (some Owner.integration) = true
wants_integration _ = false

-- `async_load`; `target` is what the topology derives, where the store has one.
pub async_load : Saved → Option Owner → OwnershipStore → OwnershipStore
unfolding settle_owner
async_load w target s = elim s.disk [
  | missing ↦
      if wants_integration target
      then fenced s
      else record s { owner = Owner.addon; verified = true }
  | broken ↦ fenced s
  | valid owner ↦
      let read = record s { owner = owner; verified = true } in
      elim target [ none ↦ read | some t ↦ settle_owner w t read ]
]

abbrev is_ok : StoreState → Bool
is_ok StoreState.ok = true
is_ok _ = false

abbrev is_active : Active → Bool
is_active active = true
is_active retired = false

abbrev in_observe : Option OperatingMode → Bool
in_observe none = false
in_observe (some mode) = is_mode mode OperatingMode.observe

abbrev is_empty {ℓ} : {A : Type ℓ} → List A → Bool
is_empty [] = true
is_empty (x ∷ xs) = false

-- What the integration's own authority has to be before it gives the site up.
pub own_refusal : Option AuthorityState → Option Refusal
own_refusal none = some store_unknown
own_refusal (some state) =
    if not (is_mode state.committed_mode OperatingMode.observe)
    then some observe_required
    else if not (is_empty state.holds)
    then some Refusal.holds_present
    else if is_some state.transition
    then some transition_present
    else if is_some state.manual_session
    then some manual_present
    else none

-- The conditions on the summary.
pub peer_refusal : Owner → Option AuthorityState → Summary → AddonAuthority → Option Refusal
unfolding own_refusal
peer_refusal owner authority summary addon =
    if not (is_ok addon.store_state)
      || (same_owner owner Owner.addon && not (is_active addon.active))
    then some store_unknown
    else if not (in_observe addon.mode)
    then some observe_required
    else if addon.holds_present
    then some Refusal.holds_present
    else if not (in_observe summary.mode) || is_some summary.transition_target
    then some transition_present
    else if same_owner owner Owner.integration
    then own_refusal authority
    else none

abbrev v4_addon : Option Summary → Option (Summary × AddonAuthority)
v4_addon none = none
v4_addon (some summary) = elim summary.addon_authority [
  | none ↦ none
  | some addon ↦ if summary.api_version == 4 then some (summary, addon) else none
]

pub refusal : OwnershipStore → Option AuthorityState → Owner → Option Summary → Option Refusal
unfolding peer_refusal
refusal s authority target summary =
    if not s.verified
    then some store_unknown
    else if is_pending s.owner
    then some switch_pending
    else if same_owner target s.owner
    then none
    else elim (v4_addon summary) [
      | none ↦ some peer_version
      | some (m, addon) ↦ peer_refusal s.owner authority m addon
    ]

abbrev pending_for : Owner → Owner
pending_for Owner.integration = Owner.pending_integration
pending_for _ = Owner.pending_addon

-- `async_request`, for the target "addon" or "integration".
pub async_request :
    Saved
    → Option AuthorityState
    → Owner
    → Option Summary
    → OwnershipStore
    → OwnershipStore × Option Refusal
unfolding refusal save
async_request w authority target summary s = elim (refusal s authority target summary) [
  | some reason ↦ (s, some reason)
  | none ↦
      let (next, saved) = save w (pending_for target) s in
      if same_owner target s.owner
      then (record s { last_refusal = none }, none)
      else (next, if saved then none else some Refusal.save_failed)
]

abbrev confirmed_before : Owner → Owner
confirmed_before Owner.pending_integration = Owner.addon
confirmed_before _ = Owner.integration

-- `_abort`
pub abort : Saved → Refusal → OwnershipStore → OwnershipStore × Option Refusal
unfolding save
abort w reason s =
    let (next, saved) = save w (confirmed_before s.owner) s in
    let why = if saved then some reason else some Refusal.save_failed in
    if is_pending s.owner then (record next { last_refusal = why }, why) else (s, none)

-- The reason to withdraw a pending request.
pub pending_refusal : Summary → Option Refusal
pending_refusal summary = elim (v4_addon (some summary)) [
  | none ↦ some peer_version
  | some (m, addon) ↦
      if not (is_ok addon.store_state)
      then some store_unknown
      else if not (in_observe addon.mode)
      then some observe_required
      else if addon.holds_present
      then some Refusal.holds_present
      else if is_some m.transition_target
      then some transition_present
      else none
]

-- A fresh Observe authority, at epoch 1.
abbrev is_fresh : Option AuthorityState → Bool
is_fresh none = false
is_fresh (some state) =
    is_mode state.committed_mode OperatingMode.observe
    && (state.epoch == 1)
    && is_empty state.holds
    && is_none state.transition
    && is_none state.manual_session

abbrev clear_refusal : OwnershipStore × Bool → OwnershipStore
clear_refusal (s, saved) = if saved then record s { last_refusal = none } else s

-- The end of `async_advance`: `authority` is the store's state after `async_initialise`, where that
-- is called, and `retires` the verdict of `async_retire`.
pub complete : Saved → Option AuthorityState → Bool → Active → OwnershipStore → OwnershipStore
unfolding save
complete w authority retires answer s = elim s.owner [
  | Owner.pending_integration ↦
      if not (is_active answer) && is_fresh authority
      then clear_refusal (save w Owner.integration s)
      else s
  | Owner.pending_addon ↦
      if is_active answer && retires then clear_refusal (save w Owner.addon s) else s
  | _ ↦ s
]

abbrev other_owner : Owner → Owner
other_owner Owner.addon = Owner.integration
other_owner _ = Owner.addon

-- The branch of `async_advance` that follows a restored topology.
pub async_reconcile :
    Saved → Option AuthorityState → Summary → OwnershipStore → OwnershipStore × Option Refusal
unfolding refusal save
async_reconcile w authority summary s =
    let target = other_owner s.owner in
    elim (refusal s authority target (some summary)) [
      | some reason ↦ (record s { last_refusal = some reason }, some reason)
      | none ↦
          let (next, saved) = save w (pending_for target) s in
          (if saved then record next { reconcile = false } else next, none)
    ]

abbrev matches_topology : Option Owner → Owner → Bool
matches_topology none owner = false
matches_topology (some target) owner = same_owner target owner

-- The branch of `async_advance` for no restored topology.
pub progress :
    Saved
    → Option AuthorityState
    → Bool
    → Option Owner
    → Summary
    → OwnershipStore
    → OwnershipStore × Option Refusal
unfolding abort pending_refusal complete
progress w authority retires target summary s =
    let settled =
      if s.verified && not (is_pending s.owner) && matches_topology target s.owner
      then record s { last_refusal = none }
      else s in
    if not s.verified
    then (settled, none)
    else elim (if is_pending s.owner then pending_refusal summary else none) [
      | some reason ↦ abort w reason settled
      | none ↦ (elim summary.addon_authority [
        | none ↦ (settled, none)
        | some addon ↦ (complete w authority retires addon.active settled, none)
      ])
    ]

pub async_advance :
    Saved
    → Option AuthorityState
    → Bool
    → Option Owner
    → Summary
    → OwnershipStore
    → OwnershipStore × Option Refusal
unfolding async_reconcile progress
async_advance w authority retires target summary s =
    if s.reconcile
    then async_reconcile w authority summary s
    else progress w authority retires target summary s

-- `authority_owner` of authority.py, for an entry with an ownership store: the owner that a snapshot
-- names; `authority` is the state of the integration's authority store.
pub authority_owner : Option AuthorityState → OwnershipStore → Owner
authority_owner authority s =
    if not s.verified || s.reconcile
    then Owner.pending_integration
    else if same_owner s.owner Owner.integration && is_none authority
    then Owner.pending_integration
    else s.owner
