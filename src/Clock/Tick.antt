-- ===== src/Clock/Tick.antt =====
-- custom_components/ha_spark/native_clock.py: the retries of a due clock change and the repair issue of a
-- drift. The sync of one inverter, of Clock/Sync on its own bus, is an argument of the tick.
use ha_spark.Prelude.{
  ℕ, ◌+◌, ◌*◌, ◌/◌, ◌≡◌, refl, ap, ◌∙◌, Bool, true, false, not, ◌&&◌, ◌==◌, Option, none, some,
  List, [], ◌∷◌, leb, if◌then◌else◌, arith, if_both, if_cases,
}
use ha_spark.Prelude.Int.{ℤ, pos_part, neg_part}
use ha_spark.Authority.{Instant, second}
use ha_spark.Deadline.{Zone}
use ha_spark.NativeSlots.{Words}
use ha_spark.Clock.{Calendar, stale_after, drift_tolerance, fail_at, clock_error, last_clock_change}
use ha_spark.Clock.Sync.{SyncOutcome}

-- What a check does to the repair issue of one inverter.
pub data DriftIssue : Type 0 where
  kept cleared warned failing : DriftIssue

-- Of an error of the clock; `abs(error)` has one part that is zero.
abbrev pub issue_of : Option ℤ → DriftIssue
issue_of none = kept
issue_of (some e) =
    let size = pos_part e + neg_part e in
    if leb size drift_tolerance then cleared else if leb fail_at size then failing else warned

abbrev pub is_fresh : Instant → Instant → Bool
is_fresh now read_at = leb read_at now && leb now (read_at + stale_after)

-- `check_drift`, of one inverter: the reading is `none` where there is none or it has no registers.
pub check_drift : Calendar → Option Zone → Instant → Option (Instant × Words) → DriftIssue
check_drift cal none now reading = kept
check_drift cal (some zone) now none = kept
check_drift cal (some zone) now (some (read_at, words)) =
    if is_fresh now read_at then issue_of (clock_error cal zone words read_at) else kept

-- The world, the episodes handled and those whose failure was logged, with the syncs tried, newest first.
pub record Episodes {ℓ} (W : Type ℓ) : Type ℓ where
  pub world : W
  pub handled : ℕ → Option ℕ
  pub failure_logged : ℕ → Option ℕ
  pub tried : List ℕ

abbrev pub is_episode : Option ℕ → ℕ → Bool
is_episode none change = false
is_episode (some c) change = c == change

abbrev pub put : ℕ → ℕ → (ℕ → Option ℕ) → ℕ → Option ℕ
put id change m other = if other == id then some change else m other

abbrev pub is_unconfirmed : SyncOutcome → Bool
is_unconfirmed SyncOutcome.applied = false
is_unconfirmed (SyncOutcome.refused _) = false
is_unconfirmed SyncOutcome.unverified = true
is_unconfirmed SyncOutcome.failed = true

abbrev pub is_applied : SyncOutcome → Bool
is_applied SyncOutcome.applied = true
is_applied (SyncOutcome.refused _) = false
is_applied SyncOutcome.unverified = false
is_applied SyncOutcome.failed = false

module _ {ℓ} {W : Type ℓ} (sync_one : ℕ → W → W × SyncOutcome) (now : Instant) (change : ℕ) where
  -- The episodes after a sync of inverter `id`.
  abbrev pub noted : ℕ → Episodes W → W × SyncOutcome → Episodes W
  noted id s (w, outcome) =
      let next = record s { world = w; tried = id ∷ s.tried } in
      if is_applied outcome
      then record next { handled = put id change s.handled }
      else if is_unconfirmed outcome
          && leb (change * second + fail_at) now
          && not (is_episode (s.failure_logged id) change)
      then record next { failure_logged = put id change s.failure_logged }
      else next

  -- The body of the loop.
  pub retry : ℕ → Episodes W → Episodes W
  retry id s = if is_episode (s.handled id) change then s else noted id s (sync_one id s.world)

  -- The loop of `async_tick`, where a change is due.
  pub retry_all : List ℕ → Episodes W → Episodes W
  retry_all [] s = s
  retry_all (id ∷ ids) s = retry_all ids (retry id s)

  put_self :
      (id other : ℕ) (m : ℕ → Option ℕ)
      → is_episode (m other) change ≡ true
      → is_episode (put id change m other) change ≡ true
  put_self id other m h = ground arith

  -- An inverter whose clock change is handled stays so, whatever other inverters answer.
  noted-handled :
      (id other : ℕ) (s : Episodes W) (r : W × SyncOutcome)
      → is_episode (s.handled other) change ≡ true
      → is_episode ((noted id s r).handled other) change ≡ true
  noted-handled id other s (w, outcome) h =
      if_both (λ (next : Episodes W). is_episode (next.handled other) change ≡ true)
        (is_applied outcome) _ _ (put_self id other s.handled h)
        (if_both (λ (next : Episodes W). is_episode (next.handled other) change ≡ true)
          (is_unconfirmed outcome
            && leb (change * second + fail_at) now
            && not (is_episode (s.failure_logged id) change))
          _ _ h h)

  retry-handled :
      (id other : ℕ) (s : Episodes W)
      → is_episode (s.handled other) change ≡ true
      → is_episode ((retry id s).handled other) change ≡ true
  unfolding retry
  retry-handled id other s h =
      if_both (λ (next : Episodes W). is_episode (next.handled other) change ≡ true)
        (is_episode (s.handled id) change) _ _ h (noted-handled id other s (sync_one id s.world) h)

  retry_all-handled :
      (ids : List ℕ) (other : ℕ) (s : Episodes W)
      → is_episode (s.handled other) change ≡ true
      → is_episode ((retry_all ids s).handled other) change ≡ true
  unfolding retry_all
  retry_all-handled [] other s h = h
  retry_all-handled (id ∷ ids) other s h =
      retry_all-handled ids other (retry id s) (retry-handled id other s h)

  -- The change is handled for each inverter of a list.
  pub data IsSettled (m : ℕ → Option ℕ) : List ℕ → Type 0 where
    none_left : IsSettled m []
    settled :
        {id : ℕ} {ids : List ℕ}
        → is_episode (m id) change ≡ true
        → IsSettled m ids
        → IsSettled m (id ∷ ids)

  retry_all-idle : (ids : List ℕ) (s : Episodes W) → IsSettled s.handled ids → retry_all ids s ≡ s
  unfolding retry_all retry
  retry_all-idle [] s h = refl
  retry_all-idle (id ∷ ids) s (settled h rest) =
      ap (λ b. retry_all ids (if b then s else noted id s (sync_one id s.world))) h
      ∙ retry_all-idle ids s rest

  noted_settled :
      (id : ℕ) (s : Episodes W) (r : W × SyncOutcome)
      → is_applied r.1 ≡ true
      → is_episode ((noted id s r).handled id) change ≡ true
  noted_settled id s (w, SyncOutcome.applied) h = ground arith
  noted_settled id s (w, SyncOutcome.refused _) h = ground arith
  noted_settled id s (w, SyncOutcome.unverified) h = ground arith
  noted_settled id s (w, SyncOutcome.failed) h = ground arith

  retry_settled :
      (id : ℕ) (s : Episodes W)
      → is_applied (sync_one id s.world).1 ≡ true
      → is_episode ((retry id s).handled id) change ≡ true
  unfolding retry
  retry_settled id s h =
      if_cases (λ (next : Episodes W). is_episode (next.handled id) change ≡ true)
        (is_episode (s.handled id) change) _ _ (λ done. done)
        (λ _. noted_settled id s (sync_one id s.world) h)

  retry_all-IsSettled :
      ((id : ℕ) (w : W) → is_applied (sync_one id w).1 ≡ true)
      → (ids : List ℕ) (s : Episodes W) → IsSettled (retry_all ids s).handled ids
  unfolding retry_all
  retry_all-IsSettled applies [] s = none_left
  retry_all-IsSettled applies (id ∷ ids) s =
      settled (retry_all-handled ids id (retry id s) (retry_settled id s (applies id s.world)))
        (retry_all-IsSettled applies ids (retry id s))

  -- Where every sync is applied, a second tick for the same clock change does nothing.
  retry_all-once :
      ((id : ℕ) (w : W) → is_applied (sync_one id w).1 ≡ true)
      → (ids : List ℕ) (s : Episodes W) → retry_all ids (retry_all ids s) ≡ retry_all ids s
  retry_all-once applies ids s =
      retry_all-idle ids (retry_all ids s) (retry_all-IsSettled applies ids s)

module _ {ℓ} {W : Type ℓ} (sync_one : ℕ → W → W × SyncOutcome) where
  abbrev pub on_change : Instant → List ℕ → Option (Option ℕ) → Episodes W → Episodes W
  on_change now ids none s = s
  on_change now ids (some none) s = s
  on_change now ids (some (some change)) s = retry_all sync_one now change ids s

  -- `async_tick` after its check of the drift, for the inverters of a list.
  pub tick : Instant → Option Zone → List ℕ → Episodes W → Episodes W
  tick now none ids s = s
  tick now (some zone) ids s = on_change now ids (last_clock_change zone (now / second)) s

  on_change-once :
      ((id : ℕ) (w : W) → is_applied (sync_one id w).1 ≡ true)
      → (now : Instant) (ids : List ℕ) (found : Option (Option ℕ)) (s : Episodes W)
      → on_change now ids found (on_change now ids found s) ≡ on_change now ids found s
  on_change-once applies now ids none s = refl
  on_change-once applies now ids (some none) s = refl
  on_change-once applies now ids (some (some change)) s =
      retry_all-once sync_one now change applies ids s

  -- Where every sync is applied, a second tick at the same time does nothing.
  tick-once :
      ((id : ℕ) (w : W) → is_applied (sync_one id w).1 ≡ true)
      → (now : Instant) (zone : Option Zone) (ids : List ℕ) (s : Episodes W)
      → tick now zone ids (tick now zone ids s) ≡ tick now zone ids s
  unfolding tick
  tick-once applies now none ids s = refl
  tick-once applies now (some zone) ids s =
      on_change-once applies now ids (last_clock_change zone (now / second)) s
