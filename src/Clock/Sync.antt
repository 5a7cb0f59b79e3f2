-- ===== src/Clock/Sync.antt =====
-- custom_components/ha_spark/native_clock.py: the sync of one inverter's clock. The inverter, and all
-- that other code decides while the call waits, are a world that the call steps through.
pub mod Outcome
use ha_spark.Prelude.{
  ℕ, zero, suc, ◌≤◌, ◌≡◌, refl, sym, ap, ◌∙◌, Bool, true, false, not, ◌&&◌, ◌||◌, ◌==◌, ◌⊎◌, inl,
  inr, Option, none, some, List, [], ◌∷◌, length, leb, if◌then◌else◌, is_some, is_none, arith,
  Bool-cases, if_both, if_cases,
}
use ha_spark.Prelude.Int.{ℤ, pos_part, neg_part}
use ha_spark.Authority.{Instant, OperatingMode, AuthorityState}
use ha_spark.Deadline.{Zone}
use ha_spark.NativeSlots.{Words, valid_words}
use ha_spark.NativeWrite.{in_mode}
use ha_spark.Clock.{Calendar, read_back_tolerance, clock_error, clock_registers}

pub data ClockReason : Type 0 where
  authority_unknown not_owner stale_authority transition_in_progress : ClockReason
  not_available invalid_household_zone read_only mode : ClockReason

-- What `_refusal` looks at.
pub record ClockConditions : Type 0 where
  pub state : Option AuthorityState
  pub owned : Bool
  pub running : Bool
  pub polling : Bool
  pub closed : Bool
  pub zone : Option Zone
  pub device_valid : Bool

abbrev pub is_number : Option ℕ → ℕ → Bool
is_number none n = false
is_number (some m) n = m == n

-- `_refusal`, of a known state.
abbrev pub known_refusal :
    Option ℕ → Option ℕ → Bool → ClockConditions → AuthorityState → Option ClockReason
known_refusal epoch store_id automatic c state =
    if not c.owned
    then some not_owner
    else if not (is_number epoch state.epoch) || not (is_number store_id state.store_id)
    then some stale_authority
    else if is_some state.transition
    then some transition_in_progress
    else if not c.running || not c.polling || c.closed
    then some not_available
    else if is_none c.zone
    then some invalid_household_zone
    else if not c.device_valid
    then some read_only
    else if automatic
        && (not (in_mode state OperatingMode.protect || in_mode state OperatingMode.optimise)
            || is_some state.manual_session)
    then some mode
    else none

-- `_refusal`
pub clock_refusal : Option ℕ → Option ℕ → Bool → ClockConditions → Option ClockReason
clock_refusal epoch store_id automatic c = elim c.state [
  | none ↦ some authority_unknown
  | some state ↦ known_refusal epoch store_id automatic c state
]

-- What a sync asks of the world. A read gives `none` for an error or an exception, a write for an
-- exception; `lock` is the wait for the bus.
pub record ClockBus {ℓ} (W : Type ℓ) : Type ℓ where
  pub conditions : W → ClockConditions
  pub lock : W → W
  pub read : W → W × Option Words
  pub connection : W → ℕ
  pub write : Words → W → W × Option Bool
  pub wait : W → W
  pub now : W → Instant

pub data SyncOutcome : Type 0 where
  applied unverified failed : SyncOutcome
  refused : ClockReason → SyncOutcome

-- The world before a write, and what was written.
pub record ClockWrite {ℓ} (W : Type ℓ) : Type ℓ where
  pub before : W
  pub words : Words

-- A read after the write, with the connection before and after it.
pub record ClockRead : Type 0 where
  pub at : Instant
  pub words : Option Words
  pub connection_before : ℕ
  pub connection_after : ℕ

-- The world, with the writes and the reads after them, newest first; `reading` is the cached frame.
pub record Sync {ℓ} (W : Type ℓ) : Type ℓ where
  pub world : W
  pub writes : List (ClockWrite W)
  pub reads : List ClockRead
  pub reading : Option (Instant × Words × ℕ)
  pub mismatched : Bool

abbrev pub is_close : Option ℤ → Bool
is_close none = false
is_close (some e) = leb (pos_part e) read_back_tolerance && leb (neg_part e) read_back_tolerance

module _ {ℓ} {W : Type ℓ} (bus : ClockBus W) (cal : Calendar) where
  -- A read of the clock, noted.
  pub read_clock : Sync W → Sync W × ClockRead
  read_clock s =
      let (w, words) = bus.read s.world in
      let one : ClockRead = record {
        at = bus.now w;
        words = words;
        connection_before = bus.connection s.world;
        connection_after = bus.connection w;
      } in
      (record s { world = w; reads = one ∷ s.reads }, one)

  abbrev pub is_frame : Words → Bool
  is_frame words = length words == 6 && valid_words words

  -- What a read shows: nothing after an error or on another connection.
  abbrev pub shown : ClockRead → Option Words
  shown r = if r.connection_before == r.connection_after then r.words else none

  abbrev pub is_right : Zone → ClockRead → Bool
  is_right zone r = elim (shown r) [
    | none ↦ false
    | some words ↦ is_close (clock_error cal zone words r.at)
  ]

  abbrev pub cached : ClockRead → Option (Instant × Words × ℕ) → Option (Instant × Words × ℕ)
  cached r old = elim (shown r) [
    | none ↦ old
    | some words ↦ if is_frame words then some (r.at, words, r.connection_before) else old
  ]

  -- The loop of the read-back.
  pub verify : ℕ → Bool → Zone → Sync W → Sync W × Bool
  verify zero waits zone s = (s, false)
  verify (suc n) waits zone s =
      let from = if waits then record s { world = bus.wait s.world } else s in
      let (next, r) = read_clock from in
      let kept : Sync W = record next { reading = cached r next.reading } in
      let later = verify n true zone kept in if is_right zone r then (kept, true) else later

  abbrev pub outcome_of : Sync W × Bool → Sync W × SyncOutcome
  outcome_of (s, true) = (s, applied)
  outcome_of (s, false) = (record s { mismatched = true }, unverified)

  -- The write, and what follows it.
  pub write_clock : Zone → Sync W → Sync W × SyncOutcome
  write_clock zone s =
      let words = clock_registers cal zone (bus.now s.world) in
      let (w, ok) = bus.write words s.world in
      let written : Sync W = record s {
        world = w;
        writes = record { before = s.world; words = words } ∷ s.writes;
      } in
      let verified = outcome_of (verify 3 false zone written) in
      let is_ok : Bool = elim ok [ none ↦ false | some b ↦ b ] in
      if is_ok then verified else (record written { mismatched = true }, failed)

  -- Under the second check.
  abbrev pub sync_zone : Option Zone → Sync W → Sync W × SyncOutcome
  sync_zone none s = (s, failed)
  sync_zone (some zone) s = write_clock zone s

  abbrev pub checked :
      Option ℕ → Option ℕ → Bool → (Sync W → Sync W × SyncOutcome) → Sync W → Sync W × SyncOutcome
  checked epoch store_id automatic rest s =
      let done = rest s in
      elim (clock_refusal epoch store_id automatic (bus.conditions s.world)) [
        | some r ↦ (s, refused r)
        | none ↦ done
      ]

  abbrev pub epoch_of : Option ℕ → Option AuthorityState → Option ℕ
  epoch_of (some e) state = some e
  epoch_of none none = none
  epoch_of none (some state) = some state.epoch

  abbrev pub store_of : Option AuthorityState → Option ℕ
  store_of none = none
  store_of (some state) = some state.store_id

  -- After the first read, whatever it gave.
  abbrev pub after_read : Sync W → Sync W
  after_read s = record s { world = (bus.read s.world).0 }

  -- `async_sync`, of an inverter that is there.
  pub sync : Option ℕ → Bool → Sync W → Sync W × SyncOutcome
  sync epoch automatic s =
      let state = (bus.conditions s.world).state in
      let e = epoch_of epoch state in
      let store_id = store_of state in
      checked e store_id automatic
        (λ locked.
          checked e store_id automatic (λ again. sync_zone (bus.conditions again.world).zone again)
            (after_read locked))
        (record s { world = bus.lock s.world })
