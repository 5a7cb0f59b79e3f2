-- ===== src/NativeSlots/Allowed.antt =====
-- No operation on the slots makes a write that was not allowed at its moment.
use ha_spark.Prelude.{
  ℕ, Bool, true, false, Option, none, some, List, [], ◌∷◌, ◌++◌, if◌then◌else◌, take, ◌≡◌, refl,
  inl, inr, All, if_both,
}
use ha_spark.NativeSlots.{Words, Outcome, Bus, NativeSlots, is_set, slot_1, read, confirm}
use ha_spark.NativeSlots.{applied, unchanged, refused, unverified, failed, is_allowed, block}
use ha_spark.NativeSlots.Confirm.{read-IsRead, confirm_lem}
use ha_spark.NativeSlots.Block.{Wrote, OutcomeOk, block_lem}
use ha_spark.NativeSlots.{
  all_zero, zeros, confirm_zero, clear_again, clear_zero, clear_from, clear_discharge, arm_again,
  arm_zero, arm_from, arm, kept_half, prepare_active, not_zero, prepare_from, prepare,
}

-- The calls on one object.
pub data SlotCall : Type 0 where
  call_block : ℕ → Words → SlotCall
  call_clear : SlotCall
  call_arm : Words → Bool → SlotCall
  call_prepare : (ℕ → Bool) → SlotCall

module _ {ℓ} {W : Type ℓ} (bus : Bus W) where
  -- Every write so far was allowed when it was made.
  unfoldable pub IsSafe : NativeSlots W → Type 0
  IsSafe s = All (λ w. is_allowed bus w ≡ true) s.writes

  read-IsSafe : (s t : NativeSlots W) → t.writes ≡ s.writes → IsSafe s → IsSafe t
  unfolding IsSafe
  read-IsSafe s t e h = rw (e) h

  Wrote-IsSafe :
      (address : ℕ) (target : Words) (s t : NativeSlots W)
      → Wrote bus address target s t
      → IsSafe s
      → IsSafe t
  unfolding IsSafe
  Wrote-IsSafe address target s t (inl e) h = rw (e) h
  Wrote-IsSafe address target s t (inr w) h = rw (w.added) (w.allowed, h)

  outcome-IsSafe :
      (address : ℕ) (target : Words) (s : NativeSlots W) (x : NativeSlots W × Outcome)
      → OutcomeOk bus address target s x
      → IsSafe s
      → IsSafe x.0
  outcome-IsSafe address target s (t, applied) o h = Wrote-IsSafe address target s t (inr o.0) h
  outcome-IsSafe address target s (t, unchanged) o h = Wrote-IsSafe address target s t (inl o.0) h
  outcome-IsSafe address target s (t, refused) o h = Wrote-IsSafe address target s t (inl o) h
  outcome-IsSafe address target s (t, unverified) o h = Wrote-IsSafe address target s t o h
  outcome-IsSafe address target s (t, failed) o h = Wrote-IsSafe address target s t o h

  block-IsSafe :
      (address : ℕ) (target : Words) (s : NativeSlots W)
      → IsSafe s
      → IsSafe (block bus address target s).0
  block-IsSafe address target s h =
      outcome-IsSafe address target s (block bus address target s) (block_lem bus address target s)
        h

  zero-IsSafe : (s : NativeSlots W) → IsSafe s → IsSafe (confirm_zero bus s).0
  unfolding confirm_zero
  zero-IsSafe s h =
      read-IsSafe s (confirm bus false false slot_1 (all_zero bus) s).0
        (confirm_lem bus false false slot_1 (all_zero bus) s).0.writes h

  slot-IsSafe : (s : NativeSlots W) → IsSafe s → IsSafe (read bus slot_1 s).0
  slot-IsSafe s h = read-IsSafe s (read bus slot_1 s).0 (read-IsRead bus slot_1 s).writes h

  clear_again-IsSafe :
      (x : NativeSlots W × Option Words) → IsSafe x.0 → IsSafe (clear_again bus x).0
  clear_again-IsSafe (s, none) h = h
  clear_again-IsSafe (s, some r) h = block-IsSafe slot_1 (take 4 r ++ zeros) s h

  clear_zero-IsSafe : (x : NativeSlots W × Bool) → IsSafe x.0 → IsSafe (clear_zero bus x).0
  clear_zero-IsSafe (s, true) h = read-IsSafe s (record s { zero_half_confirmed = true }) refl h
  clear_zero-IsSafe (s, false) h = clear_again-IsSafe (read bus slot_1 s) (slot-IsSafe s h)

  clear-IsSafe : (x : NativeSlots W × Option Words) → IsSafe x.0 → IsSafe (clear_from bus x).0
  clear-IsSafe (s, none) h = h
  clear-IsSafe (s, some r) h =
      if_both (λ (x : NativeSlots W × Outcome). IsSafe x.0) (is_set r) (clear_again bus (s, some r))
        (clear_zero bus (confirm_zero bus s)) (clear_again-IsSafe (s, some r) h)
        (clear_zero-IsSafe (confirm_zero bus s) (zero-IsSafe s h))

  arm_again-IsSafe :
      (d : Words) (x : NativeSlots W × Option Words) → IsSafe x.0 → IsSafe (arm_again bus d x).0
  arm_again-IsSafe d (s, none) h = h
  arm_again-IsSafe d (s, some r) h = block-IsSafe slot_1 (take 4 r ++ d) s h

  arm_zero-IsSafe :
      (d r : Words) (x : NativeSlots W × Bool) → IsSafe x.0 → IsSafe (arm_zero bus d r x).0
  arm_zero-IsSafe d r (s, true) h = arm_again-IsSafe d (s, some r) h
  arm_zero-IsSafe d r (s, false) h = arm_again-IsSafe d (read bus slot_1 s) (slot-IsSafe s h)

  arm-IsSafe :
      (d : Words) (z : Bool) (x : NativeSlots W × Option Words)
      → IsSafe x.0
      → IsSafe (arm_from bus d z x).0
  arm-IsSafe d z (s, none) h = h
  arm-IsSafe d true (s, some r) h = block-IsSafe slot_1 (zeros ++ d) s h
  arm-IsSafe d false (s, some r) h =
      if_both (λ (x : NativeSlots W × Outcome). IsSafe x.0) (is_set r) (arm_again bus d (s, some r))
        (arm_zero bus d r (confirm_zero bus s)) (arm_again-IsSafe d (s, some r) h)
        (arm_zero-IsSafe d r (confirm_zero bus s) (zero-IsSafe s h))

  prepare_active-IsSafe :
      (apart : ℕ → Bool) (r : Words) (x : NativeSlots W × Bool)
      → IsSafe x.0
      → IsSafe (prepare_active bus apart r x).0
  prepare_active-IsSafe apart r (s, false) h = h
  prepare_active-IsSafe apart r (s, true) h =
      let (w, amps) = bus.read_current s.world in
      let next : NativeSlots W = record s { world = w } in
      let moved : IsSafe next = read-IsSafe s next refl h in
      if_both (λ (x : NativeSlots W × Outcome). IsSafe x.0)
        (elim amps [ none ↦ true | some a ↦ apart a ])
        (block bus slot_1 (zeros ++ kept_half bus s.planned_discharge r) next) (next, unchanged)
        (block-IsSafe slot_1 (zeros ++ kept_half bus s.planned_discharge r) next moved) moved

  not_zero-IsSafe : (x : NativeSlots W × Bool) → IsSafe x.0 → IsSafe (not_zero bus x).0
  not_zero-IsSafe (s, b) h = h

  prepare-IsSafe :
      (apart : ℕ → Bool) (x : NativeSlots W × Option Words)
      → IsSafe x.0
      → IsSafe (prepare_from bus apart x).0
  prepare-IsSafe apart (s, none) h = h
  prepare-IsSafe apart (s, some r) h =
      let from = if is_set r then (s, true) else not_zero bus (confirm_zero bus s) in
      prepare_active-IsSafe apart r from (
        if_both (λ (x : NativeSlots W × Bool). IsSafe x.0) (is_set r) (s, true)
          (not_zero bus (confirm_zero bus s)) h
          (not_zero-IsSafe (confirm_zero bus s) (zero-IsSafe s h)))

  pub slot_call : SlotCall → NativeSlots W → NativeSlots W
  unfolding block clear_discharge arm prepare
  slot_call (call_block address target) s = (block bus address target s).0
  slot_call call_clear s = (clear_discharge bus s).0
  slot_call (call_arm d z) s = (arm bus d z s).0
  slot_call (call_prepare apart) s = (prepare bus apart s).0

  pub slot_run : List SlotCall → NativeSlots W → NativeSlots W
  unfolding slot_call
  slot_run [] s = s
  slot_run (c ∷ rest) s = slot_run rest (slot_call c s)

  call-IsSafe : (c : SlotCall) (s : NativeSlots W) → IsSafe s → IsSafe (slot_call c s)
  unfolding slot_call clear_discharge arm prepare
  call-IsSafe (call_block address target) s h = block-IsSafe address target s h
  call-IsSafe call_clear s h = clear-IsSafe (read bus slot_1 s) (slot-IsSafe s h)
  call-IsSafe (call_arm d z) s h = arm-IsSafe d z (read bus slot_1 s) (slot-IsSafe s h)
  call-IsSafe (call_prepare apart) s h = prepare-IsSafe apart (read bus slot_1 s) (slot-IsSafe s h)

  run-IsSafe : (calls : List SlotCall) (s : NativeSlots W) → IsSafe s → IsSafe (slot_run calls s)
  unfolding slot_run
  run-IsSafe [] s h = h
  run-IsSafe (c ∷ rest) s h = run-IsSafe rest (slot_call c s) (call-IsSafe c s h)

  -- `__init__`, with `soc_required` as `window` sets it.
  abbrev pub new_slots : W → Bool → Words → NativeSlots W
  new_slots w soc_required planned = record {
    world = w;
    mismatched = false;
    zero_half_confirmed = false;
    soc_required = soc_required;
    planned_discharge = planned;
    seen = [];
    writes = [];
  }

  new-IsSafe :
      (w : W) (soc_required : Bool) (planned : Words) → IsSafe (new_slots w soc_required planned)
  unfolding IsSafe
  new-IsSafe w soc_required planned = tt

  -- Whatever blocks, clearances, armings and preparations are run on one object, over any registers
  -- and with anything else going on: each write was permitted by the authority in the world that it
  -- was made in, and by the export check if it set the discharge half of Slot 1.
  pub slot_run-IsSafe :
      (calls : List SlotCall) (w : W) (soc_required : Bool) (planned : Words)
      → IsSafe (slot_run calls (new_slots w soc_required planned))
  slot_run-IsSafe calls w soc_required planned =
      run-IsSafe calls (new_slots w soc_required planned) (new-IsSafe w soc_required planned)
