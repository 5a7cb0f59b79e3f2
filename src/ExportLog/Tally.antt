-- ===== src/ExportLog/Tally.antt =====
-- What `within` decides: the caps on the whole log and on each inverter.
use ha_spark.Prelude.{
  ℕ, ◌+◌, ◌≤◌, String, ◌≡◌, true, Option, none, some, List, [], ◌∷◌, arith, if◌then◌else◌, length,
  count, str_eq, eq_iff,
}
use ha_spark.Authority.{ExportTransition}
use ha_spark.ExportLog.{
  max_total, max_per_inverter, of_inverter, Counts, bump, tally, first_over, reserved, within,
}

-- `counts.get(key, 0)`
look : String → Counts → ℕ
look k [] = 0
look k ((j, n) ∷ rest) = if str_eq j k then n else look k rest

look-bump :
    (j k : String) (n : ℕ) (c : Counts)
    → look j (bump k n c) ≡ look j c + (if str_eq k j then n else 0)
unfolding look bump
look-bump j k n [] = ground arith
look-bump j k n ((i, m) ∷ rest) =
    ground (arith, look-bump j k n rest, eq_iff i k, eq_iff i j, eq_iff k j)

look-tally :
    (j : String) (c : Counts) (rows : List ExportTransition)
    → look j (tally c rows) ≡ look j c + count (of_inverter j) rows
unfolding tally
look-tally j c [] = omega arith
look-tally j c (row ∷ rows) =
    omega (arith, look-tally j (bump row.inverter_id 1 c) rows, look-bump j row.inverter_id 1 c)

look-first_over : (j : String) (c : Counts) → first_over c ≡ none → look j c ≤ max_per_inverter
unfolding look first_over
look-first_over j [] h = omega arith
look-first_over j ((k, n) ∷ rest) h = ground (arith, look-first_over j rest)

-- What is asked for one inverter by the reservation.
abbrev pub share : ℕ → Option String → String → ℕ
share reserve none j = 0
share reserve (some k) j = if str_eq k j then reserve else 0

look-reserved :
    (j : String) (reserve : ℕ) (o : Option String) (c : Counts)
    → look j (reserved reserve o c) ≡ look j c + share reserve o j
unfolding reserved
look-reserved j reserve none c = omega arith
look-reserved j reserve (some k) c = look-bump j k reserve c

-- The caps with room for the reservation.
pub record IsWithin (rows : List ExportTransition) (reserve : ℕ) (o : Option String) : Type 0 where
  pub total : length rows + reserve ≤ max_total
  pub each : (j : String) → count (of_inverter j) rows + share reserve o j ≤ max_per_inverter

pub within-IsWithin :
    (rows : List ExportTransition) (reserve : ℕ) (o : Option String)
    → (within rows reserve o).0 ≡ true
    → IsWithin rows reserve o
unfolding within look
within-IsWithin rows reserve o h = record {
  total = ground arith;
  each = λ j. ground (
    arith,
    look-first_over j (reserved reserve o (tally [] rows)),
    look-reserved j reserve o (tally [] rows),
    look-tally j [] rows,
  );
}
