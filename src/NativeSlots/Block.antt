-- ===== src/NativeSlots/Block.antt =====
-- `block`: a slot is written whole, once at most, and read back.
use ha_spark.Prelude.{
  ℕ, Bool, true, false, not, ◌&&◌, Option, none, some, ◌∷◌, ◌==◌, if◌then◌else◌, arith, ◌≡◌, refl,
  ap, ◌∙◌, inl, inr, ◌⊎◌, if_both, if_else,
}
use ha_spark.NativeSlots.{
  Words, Outcome, Bus, SlotWrite, NativeSlots, same_words, is_set, slot_1, read, confirm,
}
use ha_spark.NativeSlots.{
  applied, unchanged, refused, unverified, failed, is_sustained, is_allowed, may_write,
  half_confirmed, after_write, write_block, resident_block, block_from, block,
}
use ha_spark.NativeSlots.Confirm.{Confirmed, IsRead, read-IsRead, reads_of, Sustained, confirm_lem}

module _ {ℓ} {W : Type ℓ} (bus : Bus W) where
  -- One more write, of this target, and allowed when it was made.
  pub record Written (address : ℕ) (target : Words) (s t : NativeSlots W) : Type ℓ where
    pub write : SlotWrite W
    pub added : t.writes ≡ write ∷ s.writes
    pub allowed : is_allowed bus write ≡ true
    pub address_of : write.address ≡ address
    pub target_of : write.target ≡ target

  abbrev pub Wrote : ℕ → Words → NativeSlots W → NativeSlots W → Type ℓ
  Wrote address target s t = (t.writes ≡ s.writes) ⊎ Written address target s t

  abbrev pub ReadBack : ℕ → Words → NativeSlots W → Type 0
  ReadBack address target t =
      Confirmed bus (reads_of bus (is_sustained bus address target) target) address target t

  -- What each outcome of `block` says of its writes and of the last reads.
  abbrev pub OutcomeOk : ℕ → Words → NativeSlots W → NativeSlots W × Outcome → Type ℓ
  OutcomeOk address target s (t, applied) = Written address target s t × ReadBack address target t
  OutcomeOk address target s (t, unchanged) = (t.writes ≡ s.writes) × ReadBack address target t
  OutcomeOk address target s (t, refused) = t.writes ≡ s.writes
  OutcomeOk address target s (t, unverified) = Wrote address target s t
  OutcomeOk address target s (t, failed) = Wrote address target s t

  half_confirmed-writes :
      (address : ℕ) (b : Bool) (s : NativeSlots W)
      → ((half_confirmed bus address b s).writes ≡ s.writes)
        × ((half_confirmed bus address b s).seen ≡ s.seen)
  half_confirmed-writes address b s =
      if_both (λ (t : NativeSlots W). (t.writes ≡ s.writes) × (t.seen ≡ s.seen)) (address == slot_1)
        (record s { zero_half_confirmed = b }) s (refl, refl) (refl, refl)

  carry :
      (address : ℕ) (target : Words) (s t u : NativeSlots W)
      → Written address target s t
      → u.writes ≡ t.writes
      → Written address target s u
  carry address target s t u h e = record {
    write = h.write;
    added = e ∙ h.added;
    allowed = h.allowed;
    address_of = h.address_of;
    target_of = h.target_of;
  }

  after_write_ok :
      (address : ℕ) (target : Words) (s t : NativeSlots W)
      → Written address target s t
      → (x : NativeSlots W × Bool)
      → Sustained bus (reads_of bus (is_sustained bus address target) target) address target t x
      → OutcomeOk address target s (after_write bus address target x)
  after_write_ok address target s t h (u, true) k =
      let b = true && is_sustained bus address target in
      let (same, seen) = half_confirmed-writes address b u in
      (
        carry address target s t (half_confirmed bus address b u) h (same ∙ k.0.writes),
        rw (seen) (k.1 refl),
      )
  after_write_ok address target s t h (u, false) k =
      let (same, _) = half_confirmed-writes address false u in
      inr (carry address target s t (half_confirmed bus address false u) h (same ∙ k.0.writes))

  write_block_ok :
      (address : ℕ) (target : Words) (s : NativeSlots W)
      → OutcomeOk address target s (write_block bus address target s)
  unfolding write_block
  write_block_ok address target s =
      let (w, ok) = bus.write address target s.world in
      let write : SlotWrite W = record { before = s.world; address = address; target = target } in
      let written : NativeSlots W = record s { world = w; writes = write ∷ s.writes } in
      let confirmed = confirm bus true (is_sustained bus address target) address target written in
      let rest = if not ok then (written, failed) else after_write bus address target confirmed in
      if_else (OutcomeOk address target s) (not (may_write bus address target s)) (s, refused) rest
        refl
        (λ e.
          let one : Written address target s written = record {
            write = write;
            added = refl;
            allowed = ground (arith, e);
            address_of = refl;
            target_of = refl;
          } in
          if_both (OutcomeOk address target s) (not ok) (written, failed)
            (after_write bus address target confirmed) (inr one)
            (after_write_ok address target s written one confirmed
              (confirm_lem bus true (is_sustained bus address target) address target written)))

  -- The same from an earlier state, with reads alone in between.
  Written-earlier :
      (address : ℕ) (target : Words) (s t u : NativeSlots W)
      → t.writes ≡ s.writes
      → Written address target t u
      → Written address target s u
  Written-earlier address target s t u e h = record {
    write = h.write;
    added = h.added ∙ ap (λ ws. h.write ∷ ws) e;
    allowed = h.allowed;
    address_of = h.address_of;
    target_of = h.target_of;
  }

  Wrote-earlier :
      (address : ℕ) (target : Words) (s t u : NativeSlots W)
      → t.writes ≡ s.writes
      → Wrote address target t u
      → Wrote address target s u
  Wrote-earlier address target s t u e (inl p) = inl (p ∙ e)
  Wrote-earlier address target s t u e (inr w) = inr (Written-earlier address target s t u e w)

  pub outcome_earlier :
      (address : ℕ) (target : Words) (s t : NativeSlots W) (x : NativeSlots W × Outcome)
      → t.writes ≡ s.writes
      → OutcomeOk address target t x
      → OutcomeOk address target s x
  outcome_earlier address target s t (u, applied) e h =
      (Written-earlier address target s t u e h.0, h.1)
  outcome_earlier address target s t (u, unchanged) e h = (h.0 ∙ e, h.1)
  outcome_earlier address target s t (u, refused) e h = h ∙ e
  outcome_earlier address target s t (u, unverified) e h = Wrote-earlier address target s t u e h
  outcome_earlier address target s t (u, failed) e h = Wrote-earlier address target s t u e h

  resident_ok :
      (address : ℕ) (target : Words) (s : NativeSlots W) (x : NativeSlots W × Bool)
      → Sustained bus (reads_of bus (is_sustained bus address target) target) address target s x
      → OutcomeOk address target s (resident_block bus address target x)
  resident_ok address target s (t, true) k =
      let (same, seen) = half_confirmed-writes address (is_sustained bus address target) t in
      (same ∙ k.0.writes, rw (seen) (k.1 refl))
  resident_ok address target s (t, false) k =
      if_both (OutcomeOk address target s) (is_set target) (t, unverified)
        (write_block bus address target t) (inl k.0.writes)
        (outcome_earlier address target s t (write_block bus address target t) k.0.writes
          (write_block_ok address target t))

  block_from_ok :
      (address : ℕ) (target : Words) (s : NativeSlots W) (x : NativeSlots W × Option Words)
      → IsRead bus s x.0
      → OutcomeOk address target s (block_from bus address target x)
  block_from_ok address target s (t, none) r = inl r.writes
  block_from_ok address target s (t, some resident) r =
      let back = confirm bus false (is_sustained bus address target) address target t in
      outcome_earlier address target s t (block_from bus address target (t, some resident)) r.writes
        (if_both (OutcomeOk address target t) (same_words resident target)
          (resident_block bus address target back) (write_block bus address target t)
          (resident_ok address target t back
            (confirm_lem bus false (is_sustained bus address target) address target t))
          (write_block_ok address target t))

  -- `block` makes at most one write: of the whole target, allowed by the authority at that moment, and
  -- by the export check too where it sets the discharge half of Slot 1. "applied" has written,
  -- "unchanged" and "refused" have not, and after "applied" and "unchanged" the last read gave the
  -- target, or the last six where the target or the discharge half is zero.
  pub block_lem :
      (address : ℕ) (target : Words) (s : NativeSlots W)
      → OutcomeOk address target s (block bus address target s)
  unfolding block
  block_lem address target s =
      block_from_ok address target s (read bus address s) (read-IsRead bus address s)
