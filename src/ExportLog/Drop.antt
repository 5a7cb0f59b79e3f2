-- ===== src/ExportLog/Drop.antt =====
-- One round of `trim`: it deletes one row, an acknowledged one if there is any.
use ha_spark.Prelude.{
  ℕ, zero, suc, ◌+◌, ◌≤◌, ◌<◌, ◌≡◌, ◌⊎◌, inl, inr, Bool, not, Option, none, some, List, [], ◌∷◌,
  arith, String, length, count, Option-cases,
}
use ha_spark.Authority.{ExportTransition}
use ha_spark.ExportLog.{index_of, remove_at, oldest_over, drop_one, of_inverter}

abbrev pub is_acked : ExportTransition → Bool
is_acked row = row.acked

abbrev pub is_pending : ExportTransition → Bool
is_pending row = not row.acked

-- The number of unacknowledged rows.
abbrev pub pending : List ExportTransition → ℕ
pending = count is_pending

pub pending-acked :
    (rows : List ExportTransition) → pending rows + count is_acked rows ≡ length rows
pending-acked [] = omega arith
pending-acked (row ∷ rows) = ground (arith, pending-acked rows)

module _ (p : ExportTransition → Bool) where
  index_of-lt : (rows : List ExportTransition) (i : ℕ) → index_of p rows ≡ some i → i < length rows
  unfolding index_of
  index_of-lt [] i h = ground arith
  index_of-lt (row ∷ rows) zero h = omega arith
  index_of-lt (row ∷ rows) (suc i) h = ground (arith, index_of-lt rows i)

  index_of-none : (rows : List ExportTransition) → index_of p rows ≡ none → count p rows ≡ 0
  unfolding index_of
  index_of-none [] h = omega arith
  index_of-none (row ∷ rows) h = ground (arith, index_of-none rows)

  count-remove_at :
      (rows : List ExportTransition) (i : ℕ)
      → index_of p rows ≡ some i
      → suc (count p (remove_at i rows)) ≡ count p rows
  unfolding index_of remove_at
  count-remove_at [] i h = ground arith
  count-remove_at (row ∷ rows) zero h = ground arith
  count-remove_at (row ∷ rows) (suc i) h = ground (arith, count-remove_at rows i)

  count-remove_at-le :
      (rows : List ExportTransition) (i : ℕ) → count p (remove_at i rows) ≤ count p rows
  unfolding remove_at
  count-remove_at-le [] i = omega arith
  count-remove_at-le (row ∷ rows) zero = ground arith
  count-remove_at-le (row ∷ rows) (suc i) = ground (arith, count-remove_at-le rows i)

length-remove_at :
    (rows : List ExportTransition) (i : ℕ)
    → i < length rows
    → suc (length (remove_at i rows)) ≡ length rows
unfolding remove_at
length-remove_at [] i h = absurd (omega arith)
length-remove_at (row ∷ rows) zero h = omega arith
length-remove_at (row ∷ rows) (suc i) h = omega (arith, length-remove_at rows i (omega arith))

oldest_over-lt :
    (over : Option String) (rows : List ExportTransition)
    → 0 < length rows
    → oldest_over over rows < length rows
unfolding oldest_over
oldest_over-lt none rows h = h
oldest_over-lt (some k) rows h = elim (Option-cases (index_of (of_inverter k) rows)) [
  | inl e ↦ ground (arith, e)
  | inr (i, e) ↦ ground (arith, e, index_of-lt (of_inverter k) rows i e)
]

-- What one round does: a row goes, and an unacknowledged one only if none is acknowledged.
pub record IsDrop (kept rest : List ExportTransition) (one : ℕ) : Type 0 where
  pub shorter : suc (length rest) ≡ length kept
  pub conserved : pending rest + one ≡ pending kept
  pub fewer : (p : ExportTransition → Bool) → count p rest ≤ count p kept
  pub reason : (one ≡ 0) ⊎ (count is_acked kept ≡ 0)

pub drop_one-IsDrop :
    (over : Option String) (kept : List ExportTransition)
    → 0 < length kept
    → IsDrop kept (drop_one over kept).0 (drop_one over kept).1
unfolding drop_one
drop_one-IsDrop over kept h = elim (Option-cases (index_of is_acked kept)) [
  | inl e ↦
      let i : ℕ = oldest_over over kept in
      let len : suc (length (remove_at i kept)) ≡ length kept =
        length-remove_at kept i (oldest_over-lt over kept h) in
      let none_acked : count is_acked kept ≡ 0 = index_of-none is_acked kept e in
      rw (e, drop_one)
        (record {
          shorter = len;
          conserved = omega (
            arith,
            pending-acked kept,
            pending-acked (remove_at i kept),
            count-remove_at-le is_acked kept i,
          );
          fewer = λ p. count-remove_at-le p kept i;
          reason = inr none_acked;
        })
  | inr (i, e) ↦
      let len : suc (length (remove_at i kept)) ≡ length kept =
        length-remove_at kept i (index_of-lt is_acked kept i e) in
      let one_acked : suc (count is_acked (remove_at i kept)) ≡ count is_acked kept =
        count-remove_at is_acked kept i e in
      rw (e, drop_one)
        (record {
          shorter = len;
          conserved = omega (arith, pending-acked kept, pending-acked (remove_at i kept));
          fewer = λ p. count-remove_at-le p kept i;
          reason = inl (omega arith);
        })
]
