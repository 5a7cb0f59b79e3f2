-- ===== src/NativeVerify.antt =====
-- custom_components/ha_spark/native_verify.py: the read-back of a write, for any state of the caller.
pub mod Confirm
pub mod Slots
use ha_spark.Prelude.{ℕ, zero, suc, Bool, true, false, not, ◌||◌, Option, if◌then◌else◌}
use ha_spark.NativeSlots.{Words, matches, is_set}

-- What a caller hands over: its read, its sleep of one second and its note of a mismatch.
pub record Reader {ℓ} (S : Type ℓ) : Type ℓ where
  pub read : S → S × Option Words
  pub sleep : S → S
  pub mismatch : S → S

module _ {ℓ} {S : Type ℓ} (r : Reader S) where
  -- The tries; each but a first one waits before it reads.
  pub tries : ℕ → Bool → Words → S → S × Bool
  tries zero waits target s = (s, false)
  tries (suc n) waits target s =
      let (next, words) = r.read (if waits then r.sleep s else s) in
      let later = tries n true target (r.mismatch next) in
      if matches target words then (next, true) else later

  -- The further reads.
  pub sustains : ℕ → Words → S → S × Bool
  sustains zero target s = (s, true)
  sustains (suc n) target s =
      let (next, words) = r.read (r.sleep s) in
      let later = sustains n target next in
      if matches target words then later else (r.mismatch next, false)

  abbrev pub sustain : Bool → Words → S × Bool → S × Bool
  sustain sustained target (s, false) = (s, false)
  sustain sustained target (s, true) =
      let five = sustains 5 target s in if not (is_set target) || sustained then five else (s, true)

  -- `confirm`
  pub confirm : Bool → Bool → Words → S → S × Bool
  confirm changed sustained target s = sustain sustained target (tries 3 changed target s)
