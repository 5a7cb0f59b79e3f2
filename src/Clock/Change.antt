-- ===== src/Clock/Change.antt =====
-- The bisection ends, and finds a change of the clock.
use ha_spark.Prelude.{
  ap, inl, ltb, false, ℕ, zero, suc, ◌+◌, ◌-◌, ◌/◌, ◌≤◌, ◌<◌, ◌≡◌, refl, ◌∙◌, true, none, some,
  arith, inr, Bool-cases, ◌⊎◌,
}
use ha_spark.Deadline.{Zone}
use ha_spark.Clock.{same_offset, bisect, last_clock_change, lookback_s}

-- The offset changes from the second before `hi` to `hi`, to one that is not that of `start`.
pub record IsChange (zone : Zone) (start end hi : ℕ) : Type 0 where
  pub after_start : start < hi
  pub by_end : hi ≤ end
  pub changed : same_offset zone hi start ≡ false
  pub before : same_offset zone (hi - 1) start ≡ true

same_offset_refl : (zone : Zone) (a : ℕ) → same_offset zone a a ≡ true
same_offset_refl zone a = ground arith

same_offset_sym : (zone : Zone) (a b : ℕ) → same_offset zone a b ≡ same_offset zone b a
same_offset_sym zone a b = ground arith

-- From a second with the old offset to one with another, bisection ends, at a change.
bisect_finds :
    (fuel : ℕ) (zone : Zone) (start lo hi end : ℕ)
    → lo < hi
    → start ≤ lo
    → hi ≤ end
    → hi ≤ fuel + lo
    → same_offset zone lo start ≡ true
    → same_offset zone hi start ≡ false
    → (found : ℕ) × (bisect fuel zone start lo hi ≡ some found) × IsChange zone start end found
unfolding bisect
bisect_finds zero zone start lo hi end a b c d e f = ground (arith, a, d)
bisect_finds (suc fuel) zone start lo hi end a b c d e f =
    let mid = (lo + hi) / 2 in
    elim (Bool-cases (ltb 1 (hi - lo))) [
      | inl wide ↦ elim (Bool-cases (same_offset zone mid start)) [
        | inl old ↦
            rw (wide, old)
              (bisect_finds fuel zone start mid hi end (ground (arith, wide)) (ground (arith, a, b))
                c (ground (arith, wide, d)) old f)
        | inr new ↦
            rw (wide, new)
              (bisect_finds fuel zone start lo mid end (ground (arith, wide)) b
                (ground (arith, a, c)) (ground (arith, wide, d)) e new)
      ]
      | inr narrow ↦
          let next : hi - 1 ≡ lo = ground (arith, narrow, a) in
          rw (narrow) (
            hi,
            refl,
            record {
              after_start = ground (arith, a, b);
              by_end = c;
              changed = f;
              before = ap (λ s. same_offset zone s start) next ∙ e;
            },
          )
    ]

-- In a zone, for a second after the first six hours of the epoch: where the offset six hours before
-- differs, `last_clock_change` returns a second of that time at which the offset changed from the old
-- one; where it does not, it returns no change.
pub last_clock_change_lem :
    (zone : Zone) (end : ℕ)
    → lookback_s ≤ end
    → ((same_offset zone (end - lookback_s) end ≡ true) × (last_clock_change zone end ≡ some none))
      ⊎ ((same_offset zone (end - lookback_s) end ≡ false)
          × ((found : ℕ) × (last_clock_change zone end ≡ some (some found))
              × IsChange zone (end - lookback_s) end found))
unfolding last_clock_change
last_clock_change_lem zone end late =
    let start = end - lookback_s in
    elim (Bool-cases (same_offset zone start end)) [
      | inl e ↦ inl (e, rw (e) refl)
      | inr e ↦
          let (found, done, change) =
            bisect_finds lookback_s zone start start end end (omega (arith, late)) (omega arith)
              (omega arith) (omega (arith, late)) (same_offset_refl zone start)
              (same_offset_sym zone end start ∙ e) in
          inr (e, (found, rw (e, done) refl, change))
    ]

-- With one change of the offset in the last six hours, it is the one that is found.
pub last_clock_change_finds :
    (zone : Zone) (end at : ℕ)
    → lookback_s ≤ end
    → end - lookback_s < at
    → at ≤ end
    → ((s : ℕ) → end - lookback_s ≤ s → s < at → same_offset zone s (end - lookback_s) ≡ true)
    → ((s : ℕ) → at ≤ s → s ≤ end → same_offset zone s (end - lookback_s) ≡ false)
    → last_clock_change zone end ≡ some (some at)
last_clock_change_finds zone end at late a b old new =
    let start = end - lookback_s in
    elim (last_clock_change_lem zone end late) [
      | inl (same, none_found) ↦
          ground (arith, same, new end b (omega arith), same_offset_sym zone start end)
      | inr (differs, (found, done, change)) ↦
          let this : found ≡ at = elim (Bool-cases (ltb found at)) [
            | inl early ↦ ground (
              arith,
              old found (omega (arith, change.after_start)) (ground (arith, early)),
              change.changed,
            )
            | inr late ↦ elim (Bool-cases (ltb at found)) [
              | inl after ↦ ground (
                arith,
                new (found - 1) (ground (arith, after)) (omega (arith, change.by_end)),
                change.before,
              )
              | inr not_after ↦ ground (arith, late, not_after)
            ]
          ] in
          done ∙ ap (λ s. some (some s)) this
    ]
