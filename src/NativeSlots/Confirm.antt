-- ===== src/NativeSlots/Confirm.antt =====
-- What a confirmation has seen.
use ha_spark.Prelude.{
  ℕ, zero, suc, ◌+◌, Bool, true, false, not, ◌||◌, Option, none, some, List, [], ◌∷◌, if◌then◌else◌,
  take, arith, ◌≡◌, refl, ap, ◌∙◌, inl, inr, Bool-cases, if_both,
}
use ha_spark.NativeSlots.{
  Words, Bus, NativeSlots, same_words, matches, is_set, read, tries, sustains, sustain, confirm,
  sleep, mismatch,
}

same_words_lem : (a b : Words) → same_words a b ≡ true → a ≡ b
unfolding same_words
same_words_lem [] [] h = refl
same_words_lem [] (y ∷ ys) h = ground (arith, h)
same_words_lem (x ∷ xs) [] h = ground (arith, h)
same_words_lem (x ∷ xs) (y ∷ ys) h = ground (arith, h, same_words_lem xs ys (ground (arith, h)))

pub matches_lem : (target : Words) (o : Option Words) → matches target o ≡ true → o ≡ some target
matches_lem target none h = ground (arith, h)
matches_lem target (some words) h = ap some (same_words_lem words target h)

unfoldable pub copies {ℓ} : {A : Type ℓ} → ℕ → A → List A
copies zero x = []
copies (suc n) x = x ∷ copies n x

module _ {ℓ} {W : Type ℓ} (bus : Bus W) where
  -- The last `n` reads were of this address, and read the target.
  abbrev pub Confirmed : ℕ → ℕ → Words → NativeSlots W → Type 0
  Confirmed n address target s = take n s.seen ≡ copies n (address, some target)

  -- The state after reads and waits: no write, and the settings as before.
  pub record IsRead (s t : NativeSlots W) : Type ℓ where
    pub writes : t.writes ≡ s.writes
    pub soc : t.soc_required ≡ s.soc_required
    pub planned : t.planned_discharge ≡ s.planned_discharge

  pub read-IsRead : (address : ℕ) (s : NativeSlots W) → IsRead s (read bus address s).0
  unfolding read
  read-IsRead address s = record { writes = refl; soc = refl; planned = refl }

  pub read_seen :
      (n address : ℕ) (target : Words) (s : NativeSlots W)
      → Confirmed n address target s
      → matches target (read bus address s).1 ≡ true
      → Confirmed (suc n) address target (read bus address s).0
  unfolding read copies
  read_seen n address target s c h =
      let p = matches_lem target (read bus address s).1 h in rw (p, c) refl

  pub IsRead-refl : (s : NativeSlots W) → IsRead s s
  IsRead-refl s = record { writes = refl; soc = refl; planned = refl }

  pub IsRead-trans : (s t u : NativeSlots W) → IsRead s t → IsRead t u → IsRead s u
  IsRead-trans s t u a b = record {
    writes = b.writes ∙ a.writes;
    soc = b.soc ∙ a.soc;
    planned = b.planned ∙ a.planned;
  }

  -- After a wait and a read.
  next_read :
      (waits : Bool) (address : ℕ) (s : NativeSlots W)
      → IsRead s (read bus address (if waits then sleep bus s else s)).0
  next_read waits address s =
      let from = if waits then sleep bus s else s in
      IsRead-trans s from (read bus address from).0
        (if_both (IsRead s) waits (sleep bus s) s
          (record { writes = refl; soc = refl; planned = refl }) (IsRead-refl s))
        (read-IsRead address from)

  abbrev Tried : ℕ → Words → NativeSlots W → NativeSlots W × Bool → Type ℓ
  Tried address target s (t, b) = IsRead s t × (b ≡ true → Confirmed 1 address target t)

  tries_lem :
      (n : ℕ) (waits : Bool) (address : ℕ) (target : Words) (s : NativeSlots W)
      → Tried address target s (tries bus n waits address target s)
  unfolding tries copies
  tries_lem zero waits address target s = (IsRead-refl s, λ h. ground (arith, h))
  tries_lem (suc n) waits address target s =
      let from = if waits then sleep bus s else s in
      let next = (read bus address from).0 in
      let later = tries_lem n true address target (mismatch bus next) in
      elim (Bool-cases (matches target (read bus address from).1)) [
        | inl e ↦ rw (e) (next_read waits address s, λ h. read_seen 0 address target from refl e)
        | inr e ↦ rw (e) (
          IsRead-trans s next (tries bus n true address target (mismatch bus next)).0
              (next_read waits address s)
              (record { writes = later.0.writes; soc = later.0.soc; planned = later.0.planned }),
          later.1,
        )
      ]

  abbrev pub Sustained : ℕ → ℕ → Words → NativeSlots W → NativeSlots W × Bool → Type ℓ
  Sustained n address target s (t, b) = IsRead s t × (b ≡ true → Confirmed n address target t)

  sustains_lem :
      (n k address : ℕ) (target : Words) (s : NativeSlots W)
      → Confirmed k address target s
      → Sustained (n + k) address target s (sustains bus n address target s)
  unfolding sustains
  sustains_lem zero k address target s c =
      let same : 0 + k ≡ k = omega arith in (IsRead-refl s, λ h. rw (same) c)
  sustains_lem (suc n) k address target s c =
      elim (Bool-cases (matches target (read bus address (sleep bus s)).1)) [
        | inl e ↦
            let next = (read bus address (sleep bus s)).0 in
            let seen = read_seen k address target (sleep bus s) c e in
            let later = sustains_lem n (suc k) address target next seen in
            let same : n + suc k ≡ suc n + k = omega arith in
            rw (e) (
              IsRead-trans s next (sustains bus n address target next).0 (next_read true address s)
                  later.0,
              λ h. rw⁻¹ (same) (later.1 h),
            )
        | inr e ↦ rw (e) (
          record {
            writes = (next_read true address s).writes;
            soc = (next_read true address s).soc;
            planned = (next_read true address s).planned;
          },
          λ h. ground (arith, h),
        )
      ]

  abbrev pub reads_of : Bool → Words → ℕ
  reads_of sustained target = if not (is_set target) || sustained then 6 else 1

  confirm_from :
      (sustained : Bool) (address : ℕ) (target : Words) (s : NativeSlots W)
      (x : NativeSlots W × Bool)
      → Tried address target s x
      → Sustained
          (reads_of sustained target)
          address
          target
          s
          (sustain bus sustained address target x)
  confirm_from sustained address target s (t, false) h = (h.0, λ e. ground (arith, e))
  confirm_from sustained address target s (t, true) h =
      let five = sustains_lem 5 1 address target t (h.1 refl) in
      elim (Bool-cases (not (is_set target) || sustained)) [
        | inl e ↦ rw (e) (IsRead-trans s t (sustains bus 5 address target t).0 h.0 five.0, five.1)
        | inr e ↦ rw (e) (h.0, h.1)
      ]

  -- A confirmation writes nothing, and when it answers `true` its last read of the address gave the
  -- target, or its last six where the target is zero or the caller asks for it.
  pub confirm_lem :
      (changed sustained : Bool) (address : ℕ) (target : Words) (s : NativeSlots W)
      → Sustained
          (reads_of sustained target)
          address
          target
          s
          (confirm bus changed sustained address target s)
  unfolding confirm
  confirm_lem changed sustained address target s =
      confirm_from sustained address target s (tries bus 3 changed address target s)
        (tries_lem 3 changed address target s)
