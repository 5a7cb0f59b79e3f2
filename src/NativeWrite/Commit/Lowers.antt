-- ===== src/NativeWrite/Commit/Lowers.antt =====
-- A transaction with `lower_only`, which the guard's cut asks for.
use ha_spark.Prelude.{
  ◌∙◌, if◌then◌else◌, ap, arith, true, ℕ, ◌≤◌, String, false, ◌≡◌, inl, inr, Bool-cases, Option,
  none, some, [], ◌∷◌, ◌⊎◌,
}
use ha_spark.Float.{Float, min_f}
use ha_spark.NativeSlots.{Words, Outcome}
use ha_spark.NativeSlots.{applied, unchanged, refused, unverified, failed}
use ha_spark.NativeWrite.Commit.{
  CommitBus, CommitOptions, CurrentWrite, Boundary, IntentResult, current_word, amps, commit,
  one_word,
}
use ha_spark.NativeWrite.Commit.Promise.{Reads, Unwritten, Wrote, OutcomeOk}
use ha_spark.NativeWrite.Commit.Once.{effective, resident_read, TransactionOk, commit_lem}

-- What the words of currents rely on: a register's word in amperes is finite and not above the greatest
-- one, `floor(round(_, 6))` is monotone on finite numbers up to there, and the word of a resident
-- current, a whole number of tenths, is not above it.
pub record WordLaws {ℓ} {F : Type ℓ} ⦃f : Float F⦄ (floor_6 : F → ℕ) : Type ℓ where
  pub finite_amps : (resident : ℕ) → resident ≤ 65535 → f.is_finite (amps resident) ≡ true
  pub amps_bound : (resident : ℕ) → resident ≤ 65535 → f.lt (amps 65535) (amps resident) ≡ false
  pub word_mono :
      (a b : F)
      → f.is_finite a ≡ true
      → f.is_finite b ≡ true
      → f.lt b a ≡ false
      → f.lt (amps 65535) b ≡ false
      → current_word floor_6 a ≤ current_word floor_6 b
  pub word_amps :
      (resident : ℕ) → resident ≤ 65535 → current_word floor_6 (amps resident) ≤ resident

one_word_bound : (words : Option Words) (v : ℕ) → one_word words ≡ some v → v ≤ 65535
one_word_bound none v h = ground (arith, h)
one_word_bound (some []) v h = ground (arith, h)
one_word_bound (some (x ∷ [])) v h = ground (arith, h)
one_word_bound (some (x ∷ y ∷ rest)) v h = ground (arith, h)

module _ {ℓ} {W F : Type ℓ} ⦃f : Float F⦄ (floor_6 : F → ℕ) (bus : CommitBus W) where
  written_of :
      (o : CommitOptions) (epoch : ℕ) (device : String) (current : F) (resident : ℕ)
      (s t : Boundary W F) (r : IntentResult F) (outcome : Outcome)
      → OutcomeOk floor_6 bus o epoch device current resident s t r outcome
      → Wrote floor_6 bus o epoch device current resident s t
  written_of o epoch device current resident s t r applied h = inr h.0
  written_of o epoch device current resident s t r unchanged h = inl h.0
  written_of o epoch device current resident s t r refused h = inl h.0
  written_of o epoch device current resident s t r unverified h = h.0
  written_of o epoch device current resident s t r failed h = h.0

  -- A cut is not above the resident current.
  min_word :
      (laws : WordLaws floor_6) (current : F) (resident : ℕ)
      → resident ≤ 65535
      → f.is_finite current ≡ true
      → current_word floor_6 (min_f current (amps resident)) ≤ resident
  min_word laws current resident word finite = elim (Bool-cases (f.lt (amps resident) current)) [
    | inl e ↦ rw (e) (laws.word_amps resident word)
    | inr e ↦ rw (e) (
        omega (
          arith,
          laws.word_amps resident word,
          laws.word_mono current (amps resident) finite (laws.finite_amps resident word) e
              (laws.amps_bound resident word),
        ))
  ]

  -- The world is that of reads and waits alone, or of these and one write, of a word that is not above
  -- the one that the transaction has read.
  abbrev pub NotRaised : Boundary W F → Boundary W F → Type ℓ
  NotRaised s t =
      Unwritten floor_6 bus s t
      ⊎ ((w : CurrentWrite W) × (resident : ℕ) × (t.writes ≡ w ∷ s.writes)
          × Reads floor_6 bus s.world w.before
          × Reads floor_6 bus (bus.write w.target w.before).0 t.world
          × (resident_read floor_6 bus s ≡ some resident)
          × (w.target ≤ resident))

  Wrote-NotRaised :
      (laws : WordLaws floor_6) (o : CommitOptions) (epoch : ℕ) (device : String) (current : F)
      (resident : ℕ) (s t : Boundary W F)
      → o.lower_only ≡ true
      → f.is_finite current ≡ true
      → resident_read floor_6 bus s ≡ some resident
      → Wrote floor_6 bus o epoch device (effective floor_6 bus o current resident) resident s t
      → NotRaised s t
  Wrote-NotRaised laws o epoch device current resident s t lower finite seen (inl e) = inl e
  Wrote-NotRaised laws o epoch device current resident s t lower finite seen (inr w) =
      let cut : effective floor_6 bus o current resident ≡ min_f current (amps resident) =
        ap (λ b. if b then min_f current (amps resident) else current) lower in
      let word = one_word_bound (bus.read_holding (bus.read_input s.world).0).1 resident seen in
      inr (
        w.write,
        resident,
        w.added,
        w.came,
        w.went,
        seen,
        omega (
          arith,
          w.target_of ∙ ap (current_word floor_6) cut,
          min_word laws current resident word finite,
        ),
      )

  transaction-NotRaised :
      (laws : WordLaws floor_6) (o : CommitOptions) (epoch : ℕ) (device : String) (current : F)
      (s : Boundary W F) (x : Boundary W F × IntentResult F)
      → o.lower_only ≡ true
      → f.is_finite current ≡ true
      → TransactionOk floor_6 bus o epoch device current s x
      → NotRaised s x.0
  transaction-NotRaised laws o epoch device current s (t, r) lower finite (inl h) = inl h.0.0
  transaction-NotRaised laws o epoch device current s (t, r) lower finite
        (inr (permitted, charge, resident, seen, ok)) =
      Wrote-NotRaised laws o epoch device current resident s t lower finite seen (
        written_of o epoch device (effective floor_6 bus o current resident) resident s t r
          r.outcome ok.0)

  -- With `lower_only` and a finite current, a transaction writes at most once, and then no more than the
  -- word that the inverter's register gave when the transaction read it.
  pub commit-NotRaised :
      (laws : WordLaws floor_6) (o : CommitOptions) (epoch : ℕ) (device : String) (current : F)
      (s : Boundary W F)
      → o.lower_only ≡ true
      → f.is_finite current ≡ true
      → NotRaised s (commit floor_6 bus o epoch device current s).0
  commit-NotRaised laws o epoch device current s lower finite =
      transaction-NotRaised laws o epoch device current s
        (commit floor_6 bus o epoch device current s) lower finite
        (commit_lem floor_6 bus o epoch device current s)
