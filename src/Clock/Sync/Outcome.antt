-- ===== src/Clock/Sync/Outcome.antt =====
-- What a sync of a clock has written and read.
use ha_spark.Prelude.{
  ℕ, zero, suc, ◌≡◌, refl, ap, ◌∙◌, Bool, true, false, Option, none, some, List, [], ◌∷◌,
  if◌then◌else◌, arith, if_both, if_cases,
}
use ha_spark.Authority.{AuthorityState}
use ha_spark.Deadline.{Zone}
use ha_spark.Clock.{Calendar, clock_registers}
use ha_spark.Clock.Sync.{
  ClockReason, ClockConditions, ClockBus, SyncOutcome, applied, unverified, failed, refused,
  ClockWrite, ClockRead, Sync, clock_refusal, read_clock, is_right, cached, verify, outcome_of,
  write_clock, sync_zone, checked, epoch_of, store_of, after_read, sync,
}

module _ {ℓ} {W : Type ℓ} (bus : ClockBus W) (cal : Calendar) where
  -- One write more, of the household clock at that moment, which was permitted then.
  pub record Written (epoch store_id : Option ℕ) (automatic : Bool) (s t : Sync W) : Type ℓ where
    pub write : ClockWrite W
    pub zone : Zone
    pub added : t.writes ≡ write ∷ s.writes
    pub zone_of : (bus.conditions write.before).zone ≡ some zone
    pub permitted : clock_refusal epoch store_id automatic (bus.conditions write.before) ≡ none
    pub words_of : write.words ≡ clock_registers cal zone (bus.now write.before)

  -- The newest read shows the clock of this zone, to ten seconds.
  abbrev pub LastRight : Zone → List ClockRead → Type 0
  LastRight zone [] = ⊥
  LastRight zone (r ∷ rest) = is_right bus cal zone r ≡ true

  -- What each outcome says.
  abbrev pub SyncOk : Option ℕ → Option ℕ → Bool → Sync W → Sync W × SyncOutcome → Type ℓ
  SyncOk epoch store_id automatic s (t, applied) =
      (w : Written epoch store_id automatic s t) × LastRight w.zone t.reads
      × (t.mismatched ≡ s.mismatched)
  SyncOk epoch store_id automatic s (t, unverified) =
      Written epoch store_id automatic s t × (t.mismatched ≡ true)
  SyncOk epoch store_id automatic s (t, failed) =
      Written epoch store_id automatic s t × (t.mismatched ≡ true)
  SyncOk epoch store_id automatic s (t, refused r) =
      (t.writes ≡ s.writes) × (t.mismatched ≡ s.mismatched)

  abbrev written_later :
      (epoch store_id : Option ℕ) (automatic : Bool) (s t u : Sync W)
      → Written epoch store_id automatic s t
      → u.writes ≡ t.writes
      → Written epoch store_id automatic s u
  written_later epoch store_id automatic s t u w e = record {
    write = w.write;
    zone = w.zone;
    added = e ∙ w.added;
    zone_of = w.zone_of;
    permitted = w.permitted;
    words_of = w.words_of;
  }

  abbrev written_earlier :
      (epoch store_id : Option ℕ) (automatic : Bool) (s t u : Sync W)
      → t.writes ≡ s.writes
      → Written epoch store_id automatic t u
      → Written epoch store_id automatic s u
  written_earlier epoch store_id automatic s t u e w = record {
    write = w.write;
    zone = w.zone;
    added = w.added ∙ ap (λ ws. w.write ∷ ws) e;
    zone_of = w.zone_of;
    permitted = w.permitted;
    words_of = w.words_of;
  }

  -- The same from an earlier state, with waits and reads alone in between.
  checked_earlier :
      (epoch store_id : Option ℕ) (automatic : Bool) (s t : Sync W)
      → t.writes ≡ s.writes
      → t.mismatched ≡ s.mismatched
      → (x : Sync W × SyncOutcome) → SyncOk epoch store_id automatic t x
      → SyncOk epoch store_id automatic s x
  checked_earlier epoch store_id automatic s t e m (u, applied) (w, last, mark) =
      (written_earlier epoch store_id automatic s t u e w, last, mark ∙ m)
  checked_earlier epoch store_id automatic s t e m (u, unverified) (w, mark) =
      (written_earlier epoch store_id automatic s t u e w, mark)
  checked_earlier epoch store_id automatic s t e m (u, failed) (w, mark) =
      (written_earlier epoch store_id automatic s t u e w, mark)
  checked_earlier epoch store_id automatic s t e m (u, refused r) (writes, mark) =
      (writes ∙ e, mark ∙ m)

  abbrev Verified : Zone → Sync W → Sync W × Bool → Type ℓ
  Verified zone s (t, b) =
      (t.writes ≡ s.writes) × (t.mismatched ≡ s.mismatched) × (b ≡ true → LastRight zone t.reads)

  verify_lem :
      (n : ℕ) (waits : Bool) (zone : Zone) (s : Sync W)
      → Verified zone s (verify bus cal n waits zone s)
  unfolding verify read_clock
  verify_lem zero waits zone s = (refl, refl, λ h. ground (arith, h))
  verify_lem (suc n) waits zone s =
      let from = if waits then record s { world = bus.wait s.world } else s in
      let (next, r) = read_clock bus cal from in
      let kept : Sync W = record next { reading = cached bus cal r next.reading } in
      let (same_writes, same_mark) =
        if_both (λ (t : Sync W). (t.writes ≡ s.writes) × (t.mismatched ≡ s.mismatched)) waits
          (record s { world = bus.wait s.world }) s (refl, refl) (refl, refl) in
      let (writes, mark, last) = verify_lem n true zone kept in
      if_cases (Verified zone s) (is_right bus cal zone r) (kept, true)
        (verify bus cal n true zone kept) (λ e. (same_writes, same_mark, λ h. e))
        (λ e. (writes ∙ same_writes, mark ∙ same_mark, last))

  outcome_ok :
      (epoch store_id : Option ℕ) (automatic : Bool) (s t : Sync W) (x : Sync W × Bool)
      → (w : Written epoch store_id automatic s t) → t.mismatched ≡ s.mismatched
      → Verified w.zone t x
      → SyncOk epoch store_id automatic s (outcome_of bus cal x)
  outcome_ok epoch store_id automatic s t (u, true) w e (writes, mark, last) =
      (written_later epoch store_id automatic s t u w writes, last refl, mark ∙ e)
  outcome_ok epoch store_id automatic s t (u, false) w e (writes, mark, last) =
      (written_later epoch store_id automatic s t (record u { mismatched = true }) w writes, refl)

  write_ok :
      (epoch store_id : Option ℕ) (automatic : Bool) (zone : Zone) (s : Sync W)
      → (bus.conditions s.world).zone ≡ some zone
      → clock_refusal epoch store_id automatic (bus.conditions s.world) ≡ none
      → SyncOk epoch store_id automatic s (write_clock bus cal zone s)
  unfolding write_clock
  write_ok epoch store_id automatic zone s known permitted =
      let words = clock_registers cal zone (bus.now s.world) in
      let (w, ok) = bus.write words s.world in
      let write : ClockWrite W = record { before = s.world; words = words } in
      let written : Sync W = record s { world = w; writes = write ∷ s.writes } in
      let one : Written epoch store_id automatic s written = record {
        write = write;
        zone = zone;
        added = refl;
        zone_of = known;
        permitted = permitted;
        words_of = refl;
      } in
      let is_ok : Bool = elim ok [ none ↦ false | some b ↦ b ] in
      if_both (SyncOk epoch store_id automatic s) is_ok
        (outcome_of bus cal (verify bus cal 3 false zone written))
        (record written { mismatched = true }, failed)
        (outcome_ok epoch store_id automatic s written (verify bus cal 3 false zone written) one
          refl (verify_lem 3 false zone written))
        (
          written_later epoch store_id automatic s written (record written { mismatched = true })
              one refl,
          refl,
        )

  -- A permitted sync has a zone.
  zone_known :
      (epoch store_id : Option ℕ) (automatic : Bool) (c : ClockConditions)
      (o : Option AuthorityState)
      → c.state ≡ o
      → clock_refusal epoch store_id automatic c ≡ none
      → c.zone ≡ none
      → ⊥
  unfolding clock_refusal
  zone_known epoch store_id automatic c o e permitted h = ground (arith, permitted, h)

  zone_ok :
      (epoch store_id : Option ℕ) (automatic : Bool) (o : Option Zone) (s : Sync W)
      → (bus.conditions s.world).zone ≡ o
      → clock_refusal epoch store_id automatic (bus.conditions s.world) ≡ none
      → SyncOk epoch store_id automatic s (sync_zone bus cal o s)
  zone_ok epoch store_id automatic none s known permitted = absurd (
      zone_known epoch store_id automatic (bus.conditions s.world) (bus.conditions s.world).state
        refl permitted known)
  zone_ok epoch store_id automatic (some zone) s known permitted =
      write_ok epoch store_id automatic zone s known permitted

  checked_ok :
      (epoch store_id : Option ℕ) (automatic : Bool) (rest : Sync W → Sync W × SyncOutcome)
      (o : Option ClockReason) (s : Sync W)
      → clock_refusal epoch store_id automatic (bus.conditions s.world) ≡ o
      → (o ≡ none → SyncOk epoch store_id automatic s (rest s))
      → SyncOk epoch store_id automatic s (elim o [ some r ↦ (s, refused r) | none ↦ rest s ])
  checked_ok epoch store_id automatic rest none s e h = h refl
  checked_ok epoch store_id automatic rest (some r) s e h = (refl, refl)

  -- A sync writes at most once, the household clock of that moment, in a world where the authority, the
  -- controller and the device permitted it, for the epoch and the store of its start where the caller
  -- gives no epoch. Refused, it has written nothing; applied, its last read showed the household clock
  -- to ten seconds on an unbroken connection; otherwise the inverter is marked for a check.
  pub sync_lem :
      (epoch : Option ℕ) (automatic : Bool) (s : Sync W)
      → SyncOk
          (epoch_of bus cal epoch (bus.conditions s.world).state)
          (store_of bus cal (bus.conditions s.world).state)
          automatic
          s
          (sync bus cal epoch automatic s)
  unfolding sync
  sync_lem epoch automatic s =
      let e = epoch_of bus cal epoch (bus.conditions s.world).state in
      let store_id = store_of bus cal (bus.conditions s.world).state in
      let locked : Sync W = record s { world = bus.lock s.world } in
      let again = after_read bus cal locked in
      let end : Sync W → Sync W × SyncOutcome =
        λ t. sync_zone bus cal (bus.conditions t.world).zone t in
      checked_earlier e store_id automatic s locked refl refl
        (checked bus cal e store_id automatic
          (λ l. checked bus cal e store_id automatic end (after_read bus cal l)) locked)
        (checked_ok e store_id automatic
          (λ l. checked bus cal e store_id automatic end (after_read bus cal l))
          (clock_refusal e store_id automatic (bus.conditions locked.world)) locked refl
          (λ _.
            checked_earlier e store_id automatic locked again refl refl
              (checked bus cal e store_id automatic end again)
              (checked_ok e store_id automatic end
                (clock_refusal e store_id automatic (bus.conditions again.world)) again refl
                (λ permitted.
                  zone_ok e store_id automatic (bus.conditions again.world).zone again refl
                    permitted))))
