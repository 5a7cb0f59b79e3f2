-- ===== src/NativeWrite/Commit/Once.antt =====
-- One transaction of a charge current: its write, its read-back and what is remembered of it.
use ha_spark.Prelude.{
  inl, Option, ℕ, String, Bool, true, false, none, some, if◌then◌else◌, arith, ◌≡◌, refl, ap, ◌∙◌,
  inr, if_cases, ◌≢◌, ◌⊎◌,
}
use ha_spark.Float.{Float, min_f}
use ha_spark.NativeSlots.{refused, failed}
use ha_spark.NativeWrite.{refusal, WriteReason, grid_charge_not_permitted}
use ha_spark.NativeWrite.Commit.{
  CommitBus, CommitOptions, Boundary, IntentResult, amps, read, read_permission, refuse,
  compare_current, on_resident, on_permission, commit, permits_grid_charge, one_word,
}
use ha_spark.NativeWrite.Commit.Promise.{here, input, holding, Unwritten, Kept, Others, CommitOk}
use ha_spark.NativeWrite.Commit.Steps.{
  refused_or, forgotten, Others-put, Others-Kept, commit_earlier, compare_ok,
}

module _ {ℓ} {W F : Type ℓ} ⦃f : Float F⦄ (floor_6 : F → ℕ) (bus : CommitBus W) where
  -- The current that is written for a request, from a resident one.
  abbrev pub effective : CommitOptions → F → ℕ → F
  effective o current resident = if o.lower_only then min_f current (amps resident) else current

  -- The words that a transaction reads from its world: the permission for grid charge, and after it
  -- the resident current.
  abbrev pub permission_read : Boundary W F → Option ℕ
  permission_read s = one_word (bus.read_input s.world).1

  abbrev pub resident_read : Boundary W F → Option ℕ
  resident_read s = one_word (bus.read_holding (bus.read_input s.world).0).1

  abbrev pub is_charge_permitted : Option ℕ → Bool
  is_charge_permitted none = false
  is_charge_permitted (some word) = permits_grid_charge word

  -- Nothing is written and nothing is remembered anew.
  abbrev pub Untouched : String → Boundary W F → Boundary W F × IntentResult F → Type ℓ
  Untouched device s (t, r) =
      Unwritten floor_6 bus s t × (r.written_a ≡ none) × Others floor_6 bus device s t

  -- What stops a transaction before it compares the currents.
  abbrev pub Stopped :
      CommitOptions → ℕ → String → Boundary W F → Boundary W F × IntentResult F → Type ℓ
  Stopped o epoch device s (t, r) =
      ((refusal o.flags epoch (bus.conditions s.world) ≢ none)
          ⊎ (is_charge_permitted (permission_read s) ≡ false))
        × (r.outcome ≡ refused)
        × (t.written_a device ≡ s.written_a device)
      ⊎ (resident_read s ≡ none) × (r.outcome ≡ failed) × (t.written_a device ≡ none)

  -- A transaction that compares the current that it has read with the one asked for.
  abbrev pub Compared :
      CommitOptions → ℕ → String → F → Boundary W F → Boundary W F × IntentResult F → Type ℓ
  Compared o epoch device current s x =
      (refusal o.flags epoch (bus.conditions s.world) ≡ none)
      × (is_charge_permitted (permission_read s) ≡ true)
      × (resident : ℕ) × (resident_read s ≡ some resident)
      × CommitOk floor_6 bus o epoch device (effective o current resident) resident s x

  abbrev pub TransactionOk :
      CommitOptions → ℕ → String → F → Boundary W F → Boundary W F × IntentResult F → Type ℓ
  TransactionOk o epoch device current s x =
      Untouched device s x × Stopped o epoch device s x ⊎ Compared o epoch device current s x

  -- A transaction up to its first read is refused.
  stopped_early :
      (o : CommitOptions) (epoch : ℕ) (device : String) (current : F) (s t : Boundary W F)
      (r : WriteReason)
      → Kept floor_6 bus s t
      → (refusal o.flags epoch (bus.conditions s.world) ≢ none)
        ⊎ (is_charge_permitted (permission_read s) ≡ false)
      → TransactionOk o epoch device current s (t, refuse r)
  stopped_early o epoch device current s t r k why =
      let others : Others floor_6 bus device s t =
        Others-Kept floor_6 bus device s s t (λ other e. refl) k in
      inl (((k.writes, k.world), refl, others), inl (why, refl, ap (λ m. m device) k.written_a))

  resident_ok :
      (o : CommitOptions) (epoch : ℕ) (device : String) (current : F) (s : Boundary W F)
      (x : Boundary W F × Option ℕ)
      → refusal o.flags epoch (bus.conditions s.world) ≡ none
      → is_charge_permitted (permission_read s) ≡ true
      → resident_read s ≡ x.1
      → Kept floor_6 bus s x.0
      → TransactionOk o epoch device current s (on_resident floor_6 bus o epoch device current x)
  resident_ok o epoch device current s (t, none) permitted charge seen k =
      let others : Others floor_6 bus device s t =
        Others-Kept floor_6 bus device s s t (λ other e. refl) k in
      inl (
        ((k.writes, k.world), refl, Others-put floor_6 bus device none s t others),
        inr (seen, refl, forgotten floor_6 bus device t),
      )
  resident_ok o epoch device current s (t, some resident) permitted charge seen k =
      let asked : F = effective o current resident in
      inr (
        permitted,
        charge,
        resident,
        seen,
        commit_earlier floor_6 bus o epoch device asked resident s t
            (compare_current floor_6 bus o epoch device asked resident t) k
            (compare_ok floor_6 bus o epoch device asked resident t),
      )

  permission_ok :
      (o : CommitOptions) (epoch : ℕ) (device : String) (current : F) (s : Boundary W F)
      (word : Option ℕ)
      → refusal o.flags epoch (bus.conditions s.world) ≡ none
      → permission_read s ≡ word
      → TransactionOk o epoch device current s
          (on_permission floor_6 bus o epoch device current ((read_permission bus s).0, word))
  unfolding read read_permission
  permission_ok o epoch device current s none permitted seen =
      stopped_early o epoch device current s (read_permission bus s).0 grid_charge_not_permitted
        (record { world = input here; writes = refl; written_a = refl })
        (inr (ap is_charge_permitted seen))
  permission_ok o epoch device current s (some word) permitted seen =
      let after = (read_permission bus s).0 in
      let Ok : Boundary W F × IntentResult F → Type ℓ = TransactionOk o epoch device current s in
      if_cases Ok (permits_grid_charge word)
        (on_resident floor_6 bus o epoch device current (read bus device after))
        (after, refuse grid_charge_not_permitted)
        (λ charge.
          resident_ok o epoch device current s (read bus device after) permitted
            (ap is_charge_permitted seen ∙ charge) refl
            (record { world = holding (input here); writes = refl; written_a = refl }))
        (λ refused.
          stopped_early o epoch device current s after grid_charge_not_permitted
            (record { world = input here; writes = refl; written_a = refl })
            (inr (ap is_charge_permitted seen ∙ refused)))

  -- A transaction of a charge current, whatever the inverter and the rest of the program do meanwhile.
  -- It is refused with nothing written where its write conditions refuse or the register read does not
  -- permit grid charge, and fails with nothing written where the current cannot be read. Otherwise it
  -- makes at most one write, and what else it does to the world are reads and waits. That write is of
  -- this inverter, and of the current asked for, or with `lower_only` of the least of it and the current
  -- that was read; it was permitted in the world that it was made in, where the SoC was trusted if the
  -- write is above the current that was read or `soc_required`, but for a call that is exempt. "applied"
  -- has written, "unchanged" and "refused" have not; after "applied" and "unchanged" the last read gave
  -- the target, or the last six for zero, and the current is remembered; after "refused" nothing is
  -- remembered anew, after "failed" and "unverified" the current is forgotten; and the currents of other
  -- inverters stay as they are.
  pub commit_lem :
      (o : CommitOptions) (epoch : ℕ) (device : String) (current : F) (s : Boundary W F)
      → TransactionOk o epoch device current s (commit floor_6 bus o epoch device current s)
  unfolding commit read_permission
  commit_lem o epoch device current s =
      refused_or (TransactionOk o epoch device current s)
        (refusal o.flags epoch (bus.conditions s.world)) (λ r. (s, refuse r))
        (on_permission floor_6 bus o epoch device current (read_permission bus s))
        (λ r e.
          stopped_early o epoch device current s s r
            (record { world = here; writes = refl; written_a = refl })
            (inl (λ h. ground (arith, h, e))))
        (λ permitted.
          permission_ok o epoch device current s (read_permission bus s).1 permitted refl)
