-- ===== src/NativeWrite/Commit/Promise.antt =====
-- What a transaction of a charge current promises of its write, its read-back and what is remembered.
use ha_spark.Prelude.{
  str_eq, Option, ℕ, String, true, false, none, some, List, [], ◌∷◌, ◌≡◌, refl, ◌∙◌, ◌⊎◌,
}
use ha_spark.Float.{Float}
use ha_spark.NativeSlots.{Words, Outcome}
use ha_spark.NativeSlots.{applied, unchanged, refused, unverified, failed}
use ha_spark.NativeVerify.Confirm.{ReaderLaws, reads_of, Confirmed}
use ha_spark.NativeWrite.{refusal}
use ha_spark.NativeWrite.Commit.{
  current_word, CommitBus, CommitOptions, CurrentWrite, Boundary, IntentResult, read, reader,
  untrusted,
}

module _ {ℓ} {W F : Type ℓ} ⦃f : Float F⦄ (floor_6 : F → ℕ) (bus : CommitBus W) where
  -- The worlds that reads and waits lead to.
  pub data Reads (v : W) : W → Type ℓ where
    here : Reads v v
    input : {w : W} → Reads v w → Reads v (bus.read_input w).0
    holding : {w : W} → Reads v w → Reads v (bus.read_holding w).0
    waited : {w : W} → Reads v w → Reads v (bus.wait w)

  pub Reads-trans : {u v w : W} → Reads u v → Reads v w → Reads u w
  Reads-trans p here = p
  Reads-trans p (input q) = input (Reads-trans p q)
  Reads-trans p (holding q) = holding (Reads-trans p q)
  Reads-trans p (waited q) = waited (Reads-trans p q)

  -- The state after reads and waits: no write, and the same currents remembered.
  pub record Kept (s t : Boundary W F) : Type ℓ where
    pub world : Reads s.world t.world
    pub writes : t.writes ≡ s.writes
    pub written_a : t.written_a ≡ s.written_a

  pub Kept-chain : (s t u : Boundary W F) → Kept s t → Kept t u → Kept s u
  Kept-chain s t u a b = record {
    world = Reads-trans a.world b.world;
    writes = b.writes ∙ a.writes;
    written_a = b.written_a ∙ a.written_a;
  }

  abbrev pub entry : String → Option Words → String × Option Words
  entry device words = (device, words)

  abbrev pub seen_of : Boundary W F → List (String × Option Words)
  seen_of s = s.seen

  pub reader_laws : (device : String) → ReaderLaws (reader bus device) seen_of (entry device) Kept
  unfolding read
  reader_laws device = record {
    same = λ s. record { world = here; writes = refl; written_a = refl };
    chain = Kept-chain;
    keeps_read = λ s. record { world = holding here; writes = refl; written_a = refl };
    keeps_sleep = λ s. record { world = waited here; writes = refl; written_a = refl };
    keeps_mismatch = λ s. record { world = here; writes = refl; written_a = refl };
    logs = λ s. refl;
    sleep_seen = λ s. refl;
  }

  -- The last reads of the current gave this target: six for zero, otherwise one.
  abbrev pub ReadBack : String → ℕ → Boundary W F → Type 0
  ReadBack device target t =
      Confirmed seen_of (entry device) (reads_of false (target ∷ [])) (target ∷ []) t

  -- One more write, of this current, that all conditions permitted in the world that it was made in: the
  -- world is that of reads and waits, this write on the bus, and again reads and waits.
  pub record Written (o : CommitOptions) (epoch : ℕ) (device : String) (current : F) (resident : ℕ)
      (s t : Boundary W F) : Type ℓ where
    pub write : CurrentWrite W
    pub added : t.writes ≡ write ∷ s.writes
    pub came : Reads s.world write.before
    pub went : Reads (bus.write write.target write.before).0 t.world
    pub device_of : write.device ≡ device
    pub resident_of : write.resident ≡ resident
    pub target_of : write.target ≡ current_word floor_6 current
    pub permitted : refusal o.flags epoch (bus.conditions write.before) ≡ none
    pub trusted : untrusted bus o write.resident write.target write.before ≡ false

  -- No write, but reads and waits alone.
  abbrev pub Unwritten : Boundary W F → Boundary W F → Type ℓ
  Unwritten s t = (t.writes ≡ s.writes) × Reads s.world t.world

  abbrev pub Wrote : CommitOptions → ℕ → String → F → ℕ → Boundary W F → Boundary W F → Type ℓ
  Wrote o epoch device current resident s t =
      Unwritten s t ⊎ Written o epoch device current resident s t

  abbrev pub Remembers : String → F → Boundary W F → IntentResult F → Type ℓ
  Remembers device current t r =
      ReadBack device (current_word floor_6 current) t
      × (t.written_a device ≡ some current)
      × (r.written_a ≡ some current)

  -- What each outcome says.
  abbrev pub OutcomeOk :
      CommitOptions
      → ℕ
      → String
      → F
      → ℕ
      → Boundary W F
      → Boundary W F
      → IntentResult F
      → Outcome
      → Type ℓ
  OutcomeOk o epoch device current resident s t r applied =
      Written o epoch device current resident s t × Remembers device current t r
  OutcomeOk o epoch device current resident s t r unchanged =
      Unwritten s t × Remembers device current t r
  OutcomeOk o epoch device current resident s t r refused =
      Unwritten s t × (t.written_a device ≡ s.written_a device) × (r.written_a ≡ none)
  OutcomeOk o epoch device current resident s t r unverified =
      Wrote o epoch device current resident s t
      × (t.written_a device ≡ none)
      × (t.mismatches device ≡ true)
  OutcomeOk o epoch device current resident s t r failed =
      Wrote o epoch device current resident s t × (t.written_a device ≡ none) × (r.written_a ≡ none)

  abbrev pub Others : String → Boundary W F → Boundary W F → Type ℓ
  Others device s t =
      (other : String) → str_eq device other ≡ false → t.written_a other ≡ s.written_a other

  abbrev pub CommitOk :
      CommitOptions → ℕ → String → F → ℕ → Boundary W F → Boundary W F × IntentResult F → Type ℓ
  CommitOk o epoch device current resident s (t, r) =
      OutcomeOk o epoch device current resident s t r r.outcome × Others device s t
