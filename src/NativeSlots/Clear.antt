-- ===== src/NativeSlots/Clear.antt =====
-- What `clear_discharge` leaves.
use ha_spark.Prelude.{
  Bool, true, false, Option, none, some, [], ◌∷◌, ◌++◌, length, take, drop, arith, ◌≡◌, refl, ◌∙◌,
  inl, if_both,
}
use ha_spark.NativeSlots.{Words, Outcome, Bus, NativeSlots, is_set, slot_1, read, checked}
use ha_spark.NativeSlots.{is_sustained, block}
use ha_spark.NativeSlots.Confirm.{read-IsRead, reads_of, Sustained, confirm_lem}
use ha_spark.NativeSlots.Block.{OutcomeOk, outcome_earlier, block_lem}
use ha_spark.NativeSlots.{
  all_zero, zeros, confirm_zero, clear_again, clear_zero, clear_from, clear_discharge,
}

-- Four registers and four zeros.
abbrev pub half_zero : Words → Words
half_zero half = half ++ zeros

checked-length : (o : Option Words) (r : Words) → checked o ≡ some r → length r ≡ 8
checked-length none r h = ground (arith, h)
checked-length (some words) r h = ground (arith, h)

half_is_zero :
    (r : Words) → length r ≡ 8 → (length (take 4 r) ≡ 4) × (drop 4 (take 4 r ++ zeros) ≡ zeros)
half_is_zero (a ∷ b ∷ c ∷ d ∷ rest) h = (refl, refl)
half_is_zero [] h = ground (arith, h)
half_is_zero (a ∷ []) h = ground (arith, h)
half_is_zero (a ∷ b ∷ []) h = ground (arith, h)
half_is_zero (a ∷ b ∷ c ∷ []) h = ground (arith, h)

module _ {ℓ} {W : Type ℓ} (bus : Bus W) where
  -- A block whose discharge half is zero, what the call says of writing it, and that a confirmation of
  -- it takes six reads.
  pub record Cleared (s : NativeSlots W) (x : NativeSlots W × Outcome) : Type ℓ where
    pub half : Words
    pub four : length half ≡ 4
    pub outcome : OutcomeOk bus slot_1 (half_zero half) s x
    pub reads : reads_of bus (is_sustained bus slot_1 (half_zero half)) (half_zero half) ≡ 6

  six :
      (half : Words)
      → drop 4 (half ++ zeros) ≡ zeros
      → reads_of bus (is_sustained bus slot_1 (half_zero half)) (half_zero half) ≡ 6
  six half h = rw (h) (ground arith)

  again-Cleared :
      (s : NativeSlots W) (x : NativeSlots W × Option Words)
      → x.0.writes ≡ s.writes
      → ((r : Words) → x.1 ≡ some r → length r ≡ 8)
      → Cleared s (clear_again bus x)
  again-Cleared s (t, none) e k = record {
    half = zeros;
    four = refl;
    outcome = inl e;
    reads = six zeros refl;
  }
  again-Cleared s (t, some r) e k =
      let (four, cleared) = half_is_zero r (k r refl) in
      record {
        half = take 4 r;
        four = four;
        outcome =
            outcome_earlier bus slot_1 (half_zero (take 4 r)) s t
              (block bus slot_1 (take 4 r ++ zeros) t) e
              (block_lem bus slot_1 (take 4 r ++ zeros) t);
        reads = six (take 4 r) cleared;
      }

  slot_length : (s : NativeSlots W) (r : Words) → (read bus slot_1 s).1 ≡ some r → length r ≡ 8
  unfolding read
  slot_length s r h = checked-length (bus.read_holding slot_1 s.world).1 r h

  zero-Cleared :
      (s t : NativeSlots W) (x : NativeSlots W × Bool)
      → t.writes ≡ s.writes
      → Sustained bus 6 slot_1 (all_zero bus) t x
      → Cleared s (clear_zero bus x)
  zero-Cleared s t (u, true) e k = record {
    half = zeros;
    four = refl;
    outcome = (k.0.writes ∙ e, k.1 refl);
    reads = six zeros refl;
  }
  zero-Cleared s t (u, false) e k =
      again-Cleared s (read bus slot_1 u) ((read-IsRead bus slot_1 u).writes ∙ k.0.writes ∙ e)
        (slot_length u)

  from_Cleared :
      (s : NativeSlots W) (x : NativeSlots W × Option Words)
      → x.0.writes ≡ s.writes
      → ((r : Words) → x.1 ≡ some r → length r ≡ 8)
      → Cleared s (clear_from bus x)
  unfolding confirm_zero
  from_Cleared s (t, none) e k = record {
    half = zeros;
    four = refl;
    outcome = inl e;
    reads = six zeros refl;
  }
  from_Cleared s (t, some r) e k =
      if_both (Cleared s) (is_set r) (clear_again bus (t, some r))
        (clear_zero bus (confirm_zero bus t)) (again-Cleared s (t, some r) e k)
        (zero-Cleared s t (confirm_zero bus t) e
          (confirm_lem bus false false slot_1 (all_zero bus) t))

  -- `clear_discharge` writes at most one block, four registers and a discharge half of four zeros, and
  -- after "applied" and "unchanged" the last six reads of Slot 1 all gave that block.
  pub clear_discharge-Cleared : (s : NativeSlots W) → Cleared s (clear_discharge bus s)
  unfolding clear_discharge
  clear_discharge-Cleared s =
      from_Cleared s (read bus slot_1 s) (read-IsRead bus slot_1 s).writes (slot_length s)
