-- ===== src/NativeVerify/Slots.antt =====
-- The confirmation of the schedule slots is that of any caller, on the read of one block.
use ha_spark.Prelude.{ℕ, zero, suc, Bool, true, false, if◌then◌else◌, ap, ◌≡◌, refl, not, ◌||◌, ◌∙◌}
use ha_spark.NativeSlots.{Words, Bus, NativeSlots, is_set, matches, read, sleep, mismatch}
use ha_spark.NativeVerify.{Reader}

module _ {ℓ} {W : Type ℓ} (bus : Bus W) where
  abbrev pub block_reader : ℕ → Reader (NativeSlots W)
  block_reader address = record {
    read = read bus address;
    sleep = sleep bus;
    mismatch = mismatch bus;
  }

  tries-block :
      (n : ℕ) (waits : Bool) (address : ℕ) (target : Words) (s : NativeSlots W)
      → ha_spark.NativeSlots.tries bus n waits address target s
        ≡ ha_spark.NativeVerify.tries (block_reader address) n waits target s
  unfolding ha_spark.NativeSlots.tries ha_spark.NativeVerify.tries
  tries-block zero waits address target s = refl
  tries-block (suc n) waits address target s =
      let from = if waits then sleep bus s else s in
      let (next, words) = read bus address from in
      ap (λ later. if matches target words then (next, true) else later)
        (tries-block n true address target (mismatch bus next))

  sustains-block :
      (n address : ℕ) (target : Words) (s : NativeSlots W)
      → ha_spark.NativeSlots.sustains bus n address target s
        ≡ ha_spark.NativeVerify.sustains (block_reader address) n target s
  unfolding ha_spark.NativeSlots.sustains ha_spark.NativeVerify.sustains
  sustains-block zero address target s = refl
  sustains-block (suc n) address target s =
      let (next, words) = read bus address (sleep bus s) in
      ap (λ later. if matches target words then later else (mismatch bus next, false))
        (sustains-block n address target next)

  sustain-block :
      (sustained : Bool) (address : ℕ) (target : Words) (r : NativeSlots W × Bool)
      → ha_spark.NativeSlots.sustain bus sustained address target r
        ≡ ha_spark.NativeVerify.sustain (block_reader address) sustained target r
  sustain-block sustained address target (s, false) = refl
  sustain-block sustained address target (s, true) =
      ap (λ five. if not (is_set target) || sustained then five else (s, true))
        (sustains-block 5 address target s)

  confirm-block :
      (changed sustained : Bool) (address : ℕ) (target : Words) (s : NativeSlots W)
      → ha_spark.NativeSlots.confirm bus changed sustained address target s
        ≡ ha_spark.NativeVerify.confirm (block_reader address) changed sustained target s
  unfolding ha_spark.NativeSlots.confirm ha_spark.NativeVerify.confirm
  confirm-block changed sustained address target s =
      ap (ha_spark.NativeSlots.sustain bus sustained address target)
        (tries-block 3 changed address target s)
      ∙ sustain-block sustained address target
          (ha_spark.NativeVerify.tries (block_reader address) 3 changed target s)
