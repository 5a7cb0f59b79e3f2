-- ===== src/NativeVerify/Confirm.antt =====
-- What a confirmation has read, and what it keeps.
use ha_spark.Prelude.{
  ◌∷◌, ℕ, zero, suc, ◌+◌, Bool, true, false, not, ◌||◌, Option, some, List, if◌then◌else◌, take,
  arith, ◌≡◌, refl, ap, ◌∙◌, inl, inr, Bool-cases, if_both,
}
use ha_spark.NativeSlots.{Words, matches, is_set}
use ha_spark.NativeSlots.Confirm.{copies, matches_lem}
use ha_spark.NativeVerify.{Reader, tries, sustains, sustain, confirm}

-- A log of the reads, newest first, and a relation that every read, sleep and note keeps.
pub record ReaderLaws {ℓ κ ι} {S : Type ℓ} {E : Type ι} (r : Reader S) (seen : S → List E)
    (entry : Option Words → E) (Keeps : S → S → Type κ) : Type (ℓ ⊔ κ ⊔ ι) where
  pub same : (s : S) → Keeps s s
  pub chain : (s t u : S) → Keeps s t → Keeps t u → Keeps s u
  pub keeps_read : (s : S) → Keeps s (r.read s).0
  pub keeps_sleep : (s : S) → Keeps s (r.sleep s)
  pub keeps_mismatch : (s : S) → Keeps s (r.mismatch s)
  pub logs : (s : S) → seen (r.read s).0 ≡ entry (r.read s).1 ∷ seen s
  pub sleep_seen : (s : S) → seen (r.sleep s) ≡ seen s

abbrev pub reads_of : Bool → Words → ℕ
reads_of sustained target = if not (is_set target) || sustained then 6 else 1

-- The last `n` reads gave the target.
abbrev pub Confirmed {ℓ ι} :
    {S : Type ℓ} {E : Type ι} → (S → List E) → (Option Words → E) → ℕ → Words → S → Type ι
Confirmed seen entry n target s = take n (seen s) ≡ copies n (entry (some target))

module _ {ℓ κ ι} {S : Type ℓ} {E : Type ι} (r : Reader S) (seen : S → List E)
    (entry : Option Words → E) (Keeps : S → S → Type κ) (laws : ReaderLaws r seen entry Keeps) where
  abbrev Sustained : ℕ → Words → S → S × Bool → Type (κ ⊔ ι)
  Sustained n target s (t, b) = Keeps s t × (b ≡ true → Confirmed seen entry n target t)

  read_seen :
      (n : ℕ) (target : Words) (s : S)
      → Confirmed seen entry n target s
      → matches target (r.read s).1 ≡ true
      → Confirmed seen entry (suc n) target (r.read s).0
  unfolding copies
  read_seen n target s c h =
      let p = matches_lem target (r.read s).1 h in
      ap (take (suc n)) (laws.logs s)
      ∙ ap (λ o. entry o ∷ take n (seen s)) p
      ∙ ap (λ xs. entry (some target) ∷ xs) c

  next_read : (waits : Bool) (s : S) → Keeps s (r.read (if waits then r.sleep s else s)).0
  next_read waits s =
      let from = if waits then r.sleep s else s in
      laws.chain s from (r.read from).0
        (if_both (Keeps s) waits (r.sleep s) s (laws.keeps_sleep s) (laws.same s))
        (laws.keeps_read from)

  tries_lem :
      (n : ℕ) (waits : Bool) (target : Words) (s : S)
      → Sustained 1 target s (tries r n waits target s)
  unfolding tries copies
  tries_lem zero waits target s = (laws.same s, λ h. ground (arith, h))
  tries_lem (suc n) waits target s =
      let from = if waits then r.sleep s else s in
      let next = (r.read from).0 in
      let later = tries_lem n true target (r.mismatch next) in
      let kept =
        laws.chain s next (r.mismatch next) (next_read waits s) (laws.keeps_mismatch next) in
      elim (Bool-cases (matches target (r.read from).1)) [
        | inl e ↦ rw (e) (next_read waits s, λ h. read_seen 0 target from refl e)
        | inr e ↦ rw (e) (
          laws.chain s (r.mismatch next) (tries r n true target (r.mismatch next)).0 kept later.0,
          later.1,
        )
      ]

  sustains_lem :
      (n k : ℕ) (target : Words) (s : S)
      → Confirmed seen entry k target s
      → Sustained (n + k) target s (sustains r n target s)
  unfolding sustains
  sustains_lem zero k target s c =
      let same : 0 + k ≡ k = omega arith in (laws.same s, λ h. rw (same) c)
  sustains_lem (suc n) k target s c =
      let next = (r.read (r.sleep s)).0 in
      elim (Bool-cases (matches target (r.read (r.sleep s)).1)) [
        | inl e ↦
            let slept = ap (take k) (laws.sleep_seen s) ∙ c in
            let seen_more = read_seen k target (r.sleep s) slept e in
            let later = sustains_lem n (suc k) target next seen_more in
            let same : n + suc k ≡ suc n + k = omega arith in
            rw (e) (
              laws.chain s next (sustains r n target next).0 (next_read true s) later.0,
              λ h. rw⁻¹ (same) (later.1 h),
            )
        | inr e ↦ rw (e) (
          laws.chain s next (r.mismatch next) (next_read true s) (laws.keeps_mismatch next),
          λ h. ground (arith, h),
        )
      ]

  confirm_from :
      (sustained : Bool) (target : Words) (s : S) (x : S × Bool)
      → Sustained 1 target s x
      → Sustained (reads_of sustained target) target s (sustain r sustained target x)
  confirm_from sustained target s (t, false) h = (h.0, λ e. ground (arith, e))
  confirm_from sustained target s (t, true) h =
      let five = sustains_lem 5 1 target t (h.1 refl) in
      elim (Bool-cases (not (is_set target) || sustained)) [
        | inl e ↦ rw (e) (laws.chain s t (sustains r 5 target t).0 h.0 five.0, five.1)
        | inr e ↦ rw (e) (h.0, h.1)
      ]

  -- A confirmation keeps what each read, sleep and note keeps, and when it answers `true` its last
  -- read gave the target, or its last six where the target is zero or the caller asks for it.
  pub confirm_lem :
      (changed sustained : Bool) (target : Words) (s : S)
      → Keeps s (confirm r changed sustained target s).0
        × ((confirm r changed sustained target s).1 ≡ true
            → Confirmed seen entry
                (reads_of sustained target)
                target
                (confirm r changed sustained target s).0)
  unfolding confirm
  confirm_lem changed sustained target s =
      confirm_from sustained target s (tries r 3 changed target s) (tries_lem 3 changed target s)
