-- ===== src/ExportLog/Trim.antt =====
-- `trim` returns, within the caps, and loses no unacknowledged row that it does not report.
use ha_spark.Prelude.{
  ℕ, zero, suc, ◌+◌, ◌≤◌, ◌<◌, ◌≡◌, ◌⊎◌, inl, inr, Bool, true, false, not, Option, none, some, List,
  [], ◌∷◌, arith, String, length, count, keep, Bool-cases, refl,
}
use ha_spark.Authority.{Instant, ExportTransition}
use ha_spark.ExportLog.{
  max_per_inverter, within, tally, reserved, first_over, bump, drop_one, trim_loop, trim, is_spent,
}
use ha_spark.ExportLog.Tally.{IsWithin, within-IsWithin}
use ha_spark.ExportLog.Drop.{is_acked, pending, IsDrop, drop_one-IsDrop}

within_nil :
    (reserve : ℕ) (o : Option String) → reserve ≤ max_per_inverter → (within [] reserve o).0 ≡ true
unfolding within tally reserved first_over bump
within_nil reserve none h = ground arith
within_nil reserve (some k) h = ground arith

-- The rows kept of `before`, and the count of unacknowledged rows dropped.
pub record IsTrimmed (reserve : ℕ) (o : Option String) (before : List ExportTransition)
    (dropped_before : ℕ) (kept : List ExportTransition) (dropped : ℕ) : Type 0 where
  pub caps : IsWithin kept reserve o
  pub conserved : pending kept + dropped ≡ pending before + dropped_before
  pub fewer : (p : ExportTransition → Bool) → count p kept ≤ count p before
  pub acked_first : (dropped ≡ dropped_before) ⊎ (count is_acked kept ≡ 0)

abbrev pub Trims :
    ℕ → Option String → List ExportTransition → ℕ → Option (List ExportTransition × ℕ) → Type 0
Trims reserve o before dropped_before none = ⊥
Trims reserve o before dropped_before (some (kept, dropped)) =
    IsTrimmed reserve o before dropped_before kept dropped

within_pos :
    (reserve : ℕ) (o : Option String) (kept : List ExportTransition)
    → reserve ≤ max_per_inverter
    → (within kept reserve o).0 ≡ false
    → 0 < length kept
within_pos reserve o [] hr e = ground (arith, within_nil reserve o hr, e)
within_pos reserve o (row ∷ rows) hr e = omega arith

Trims-drop :
    (reserve : ℕ) (o : Option String) (kept rest : List ExportTransition) (one dropped : ℕ)
    (r : Option (List ExportTransition × ℕ))
    → IsDrop kept rest one
    → Trims reserve o rest (dropped + one) r
    → Trims reserve o kept dropped r
Trims-drop reserve o kept rest one dropped none d t = t
Trims-drop reserve o kept rest one dropped (some (final, total)) d t = record {
  caps = t.caps;
  conserved = omega (arith, t.conserved, d.conserved);
  fewer = λ p. omega (arith, t.fewer p, d.fewer p);
  acked_first = ground (arith, t.acked_first, t.fewer is_acked, d.fewer is_acked, d.reason);
}

trim_loop-Trims :
    (fuel reserve : ℕ) (o : Option String) (kept : List ExportTransition) (dropped : ℕ)
    → reserve ≤ max_per_inverter
    → length kept < fuel
    → Trims reserve o kept dropped (trim_loop fuel reserve o kept dropped)
unfolding trim_loop
trim_loop-Trims zero reserve o kept dropped hr hf = absurd (omega arith)
trim_loop-Trims (suc fuel) reserve o kept dropped hr hf =
    elim (Bool-cases (within kept reserve o).0) [
      | inl e ↦
          rw (e, trim_loop, Trims)
            (record {
              caps = within-IsWithin kept reserve o e;
              conserved = refl;
              fewer = λ p. omega arith;
              acked_first = inl refl;
            })
      | inr e ↦
          rw (e, trim_loop, Trims)
            (let (ok, over) = within kept reserve o in
              let d : IsDrop kept (drop_one over kept).0 (drop_one over kept).1 =
                drop_one-IsDrop over kept (within_pos reserve o kept hr e) in
              Trims-drop reserve o kept (drop_one over kept).0 (drop_one over kept).1 dropped
                (trim_loop fuel reserve o (drop_one over kept).0 (dropped + (drop_one over kept).1))
                d
                (trim_loop-Trims fuel reserve o (drop_one over kept).0
                  (dropped + (drop_one over kept).1) hr (omega (arith, d.shorter))))
    ]

is_spent_acked :
    (now : Instant) (row : ExportTransition) → is_spent now row ≡ true → row.acked ≡ true
is_spent_acked now row h = ground arith

pending-keep_live :
    (now : Instant) (rows : List ExportTransition)
    → pending (keep (λ row. not (is_spent now row)) rows) ≡ pending rows
pending-keep_live now [] = refl
pending-keep_live now (row ∷ rows) = ground (arith, pending-keep_live now rows)

count-keep-le :
    (p q : ExportTransition → Bool) (rows : List ExportTransition)
    → count p (keep q rows) ≤ count p rows
count-keep-le p q [] = omega arith
count-keep-le p q (row ∷ rows) = ground (arith, count-keep-le p q rows)

Trims-eq-some :
    (reserve : ℕ) (o : Option String) (before : List ExportTransition) (dropped : ℕ)
    (r : Option (List ExportTransition × ℕ))
    → Trims reserve o before dropped r
    → (kept : List ExportTransition) × (total : ℕ) × (r ≡ some (kept, total))
      × IsTrimmed reserve o before dropped kept total
Trims-eq-some reserve o before dropped none t = absurd t
Trims-eq-some reserve o before dropped (some (kept, total)) t = (kept, total, refl, t)

-- `trim` always returns when the reservation is at most the cap of an inverter. What it keeps leaves
-- room for the reservation under the cap of the log and under each inverter's cap; it has no row
-- more often than the log had; the number that it reports is exactly the number of unacknowledged
-- rows that it dropped; and it reports a drop only if it keeps no acknowledged row.
pub trim_returns :
    (rows : List ExportTransition) (now : Instant) (reserve : ℕ) (o : Option String)
    → reserve ≤ max_per_inverter
    → (kept : List ExportTransition) × (dropped : ℕ) × (trim rows now reserve o
        ≡ some (kept, dropped))
      × IsWithin kept reserve o
      × ((p : ExportTransition → Bool) → count p kept ≤ count p rows)
      × (pending kept + dropped ≡ pending rows)
      × ((dropped ≡ 0) ⊎ (count is_acked kept ≡ 0))
unfolding trim
trim_returns rows now reserve o hr =
    let live : List ExportTransition = keep (λ row. not (is_spent now row)) rows in
    let (kept, dropped, e, t) =
      Trims-eq-some reserve o live 0 (trim_loop (suc (length live)) reserve o live 0)
        (trim_loop-Trims (suc (length live)) reserve o live 0 hr (omega arith)) in
    (
      kept,
      dropped,
      e,
      t.caps,
      λ p. omega (arith, t.fewer p, count-keep-le p (λ row. not (is_spent now row)) rows),
      omega (arith, t.conserved, pending-keep_live now rows),
      t.acked_first,
    )
