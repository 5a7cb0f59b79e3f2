-- ===== src/NativeSlots.antt =====
-- custom_components/ha_spark/native_verify.py and native_slots.py: the schedule slots of an inverter.
-- The registers, and all that other code decides while a call waits, are a world that the calls step
-- through; `Bus` is what they may ask of it.
pub mod Confirm
pub mod Block
pub mod Allowed
pub mod Clear
mod Examples
use ha_spark.Prelude.{
  ℕ, zero, suc, ◌+◌, ◌-◌, Bool, true, false, not, ◌&&◌, ◌||◌, Option, none, some, List, [], ◌∷◌,
  ◌++◌, ltb, leb, ◌==◌, if◌then◌else◌, length, take, drop, any, all, is_none, is_some,
}

abbrev pub Words : Type 0
Words = List ℕ

-- `IntentResult`, without the current: its outcome, and whether it has a reason is its refusal.
pub data Outcome : Type 0 where
  applied unchanged refused unverified failed : Outcome

-- `wait` is one second of sleep. `permits` is that `_refusal` names no reason, `exports` that the
-- check for a discharge half is there and names none.
pub record Bus {ℓ} (W : Type ℓ) : Type ℓ where
  pub read_holding : ℕ → W → W × Option Words
  pub write : ℕ → Words → W → W × Bool
  pub read_current : W → W × Option ℕ
  pub wait : W → W
  pub soc_trusted : W → Bool
  pub permits : W → Bool
  pub exports : W → Bool

-- A write, with the world before it.
pub record SlotWrite {ℓ} (W : Type ℓ) : Type ℓ where
  pub before : W
  pub address : ℕ
  pub target : Words

-- The world and what this object notes, with the reads and writes so far, newest first.
pub record NativeSlots {ℓ} (W : Type ℓ) : Type ℓ where
  pub world : W
  pub mismatched : Bool
  pub zero_half_confirmed : Bool
  pub soc_required : Bool
  pub planned_discharge : Words
  pub seen : List (ℕ × Option Words)
  pub writes : List (SlotWrite W)

-- `valid_words`
abbrev pub valid_words : Words → Bool
valid_words words = all (λ v. leb v 65535) words

pub same_words : Words → Words → Bool
same_words [] [] = true
same_words [] (y ∷ ys) = false
same_words (x ∷ xs) [] = false
same_words (x ∷ xs) (y ∷ ys) = x == y && same_words xs ys

abbrev pub matches : Words → Option Words → Bool
matches target none = false
matches target (some words) = same_words words target

-- `any`, on registers.
abbrev pub is_set : Words → Bool
is_set words = any (λ v. not (v == 0)) words

abbrev pub slot_1 : ℕ
slot_1 = 43143

abbrev pub checked : Option Words → Option Words
checked none = none
checked (some words) = if length words == 8 && valid_words words then some words else none

abbrev pub zeros : Words
zeros = 0 ∷ 0 ∷ 0 ∷ 0 ∷ []

module _ {ℓ} {W : Type ℓ} (bus : Bus W) where
  -- `read`
  unfoldable pub read : ℕ → NativeSlots W → NativeSlots W × Option Words
  read address s =
      let (w, words) = bus.read_holding address s.world in
      let result = checked words in
      (record s { world = w; seen = (address, result) ∷ s.seen }, result)

  abbrev pub mismatch : NativeSlots W → NativeSlots W
  mismatch s = record s { mismatched = true }

  abbrev pub sleep : NativeSlots W → NativeSlots W
  sleep s = record s { world = bus.wait s.world }

  -- The tries of `confirm`; each but a first one waits before it reads.
  unfoldable pub tries : ℕ → Bool → ℕ → Words → NativeSlots W → NativeSlots W × Bool
  unfolding read
  tries zero waits address target s = (s, false)
  tries (suc n) waits address target s =
      let (next, words) = read address (if waits then sleep s else s) in
      let later = tries n true address target (mismatch next) in
      if matches target words then (next, true) else later

  -- The further reads of `confirm`.
  unfoldable pub sustains : ℕ → ℕ → Words → NativeSlots W → NativeSlots W × Bool
  unfolding read
  sustains zero address target s = (s, true)
  sustains (suc n) address target s =
      let (next, words) = read address (sleep s) in
      let later = sustains n address target next in
      if matches target words then later else (mismatch next, false)

  abbrev pub sustain : Bool → ℕ → Words → NativeSlots W × Bool → NativeSlots W × Bool
  sustain sustained address target (s, false) = (s, false)
  sustain sustained address target (s, true) =
      let five = sustains 5 address target s in
      if not (is_set target) || sustained then five else (s, true)

  -- `confirm`
  unfoldable pub confirm : Bool → Bool → ℕ → Words → NativeSlots W → NativeSlots W × Bool
  unfolding tries sustains
  confirm changed sustained address target s =
      sustain sustained address target (tries 3 changed address target s)

  abbrev pub half_confirmed : ℕ → Bool → NativeSlots W → NativeSlots W
  half_confirmed address b s = if address == slot_1 then record s { zero_half_confirmed = b } else s

  -- The discharge half of Slot 1 is to become zero.
  abbrev pub is_sustained : ℕ → Words → Bool
  is_sustained address target = address == slot_1 && not (is_set (drop 4 target))

  -- The conditions of a write that concern the world at that moment.
  abbrev pub is_allowed : SlotWrite W → Bool
  is_allowed w =
      bus.permits w.before
      && not (w.address == slot_1 && is_set (drop 4 w.target) && not (bus.exports w.before))

  abbrev pub may_write : ℕ → Words → NativeSlots W → Bool
  may_write address target s =
      not (s.soc_required && not (bus.soc_trusted s.world))
      && is_allowed (record { before = s.world; address = address; target = target })

  abbrev pub after_write : ℕ → Words → NativeSlots W × Bool → NativeSlots W × Outcome
  after_write address target (s, verified) = (
    half_confirmed address (verified && is_sustained address target) s,
    (if verified then applied else unverified),
  )

  -- `block`, from its write on.
  pub write_block : ℕ → Words → NativeSlots W → NativeSlots W × Outcome
  unfolding confirm
  write_block address target s =
      let (w, ok) = bus.write address target s.world in
      let written = record s {
        world = w;
        writes = record { before = s.world; address = address; target = target } ∷ s.writes;
      } in
      let confirmed = confirm true (is_sustained address target) address target written in
      if not (may_write address target s)
      then (s, refused)
      else if not ok
      then (written, failed)
      else after_write address target confirmed

  -- `block`, where the registers hold the target already.
  abbrev pub resident_block : ℕ → Words → NativeSlots W × Bool → NativeSlots W × Outcome
  resident_block address target (s, true) =
      (half_confirmed address (is_sustained address target) s, unchanged)
  resident_block address target (s, false) =
      let written = write_block address target s in
      if is_set target then (s, unverified) else written

  abbrev pub block_from : ℕ → Words → NativeSlots W × Option Words → NativeSlots W × Outcome
  block_from address target (s, none) = (s, failed)
  block_from address target (s, some resident) =
      let same =
        resident_block address target
          (confirm false (is_sustained address target) address target s) in
      let other = write_block address target s in if same_words resident target then same else other

  -- `block`
  pub block : ℕ → Words → NativeSlots W → NativeSlots W × Outcome
  unfolding read confirm write_block
  block address target s = block_from address target (read address s)

  abbrev pub all_zero : Words
  all_zero = zeros ++ zeros

  -- `confirm([0] * 8, ...)` of Slot 1.
  pub confirm_zero : NativeSlots W → NativeSlots W × Bool
  unfolding confirm
  confirm_zero s = confirm false false slot_1 all_zero s

  abbrev pub clear_again : NativeSlots W × Option Words → NativeSlots W × Outcome
  clear_again (s, none) = (s, failed)
  clear_again (s, some resident) = block slot_1 (take 4 resident ++ zeros) s

  abbrev pub clear_zero : NativeSlots W × Bool → NativeSlots W × Outcome
  clear_zero (s, true) = (record s { zero_half_confirmed = true }, unchanged)
  clear_zero (s, false) = clear_again (read slot_1 s)

  abbrev pub clear_from : NativeSlots W × Option Words → NativeSlots W × Outcome
  clear_from (s, none) = (s, failed)
  clear_from (s, some resident) =
      let zero = clear_zero (confirm_zero s) in
      let set = clear_again (s, some resident) in if is_set resident then set else zero

  -- `clear_discharge`
  pub clear_discharge : NativeSlots W → NativeSlots W × Outcome
  unfolding read block confirm_zero
  clear_discharge s = clear_from (read slot_1 s)

  abbrev pub arm_again : Words → NativeSlots W × Option Words → NativeSlots W × Outcome
  arm_again discharge (s, none) = (s, failed)
  arm_again discharge (s, some resident) = block slot_1 (take 4 resident ++ discharge) s

  abbrev pub arm_zero : Words → Words → NativeSlots W × Bool → NativeSlots W × Outcome
  arm_zero discharge resident (s, true) = arm_again discharge (s, some resident)
  arm_zero discharge resident (s, false) = arm_again discharge (read slot_1 s)

  abbrev pub arm_from : Words → Bool → NativeSlots W × Option Words → NativeSlots W × Outcome
  arm_from discharge zero_charge (s, none) = (s, failed)
  arm_from discharge zero_charge (s, some resident) =
      let replaced = block slot_1 (zeros ++ discharge) s in
      let zero = arm_zero discharge resident (confirm_zero s) in
      let kept = arm_again discharge (s, some resident) in
      if zero_charge then replaced else if is_set resident then kept else zero

  -- `arm`
  pub arm : Words → Bool → NativeSlots W → NativeSlots W × Outcome
  unfolding read block confirm_zero
  arm discharge zero_charge s = arm_from discharge zero_charge (read slot_1 s)

  abbrev pub kept_half : Words → Words → Words
  kept_half planned resident =
      if is_set planned && same_words (drop 4 resident) planned then planned else zeros

  -- `prepare`, from the reading of the current on; `apart` is that it is more than 0.05 A off.
  abbrev pub prepare_active : (ℕ → Bool) → Words → NativeSlots W × Bool → NativeSlots W × Outcome
  prepare_active apart resident (s, false) = (s, unchanged)
  prepare_active apart resident (s, true) =
      let (w, amps) = bus.read_current s.world in
      let next : NativeSlots W = record s { world = w } in
      let zeroed = block slot_1 (zeros ++ kept_half s.planned_discharge resident) next in
      let off : Bool = elim amps [ none ↦ true | some a ↦ apart a ] in
      if off then zeroed else (next, unchanged)

  abbrev pub not_zero : NativeSlots W × Bool → NativeSlots W × Bool
  not_zero (s, b) = (s, not b)

  abbrev pub prepare_from : (ℕ → Bool) → NativeSlots W × Option Words → NativeSlots W × Outcome
  prepare_from apart (s, none) = (s, failed)
  prepare_from apart (s, some resident) =
      prepare_active apart resident
        (if is_set resident then (s, true) else not_zero (confirm_zero s))

  -- `prepare`
  pub prepare : (ℕ → Bool) → NativeSlots W → NativeSlots W × Outcome
  unfolding read block confirm_zero
  prepare apart s = prepare_from apart (read slot_1 s)
