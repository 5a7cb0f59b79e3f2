-- ===== src/Float.antt =====
-- What the program does with a Python `float`: arithmetic, comparisons and `isfinite`. The IEEE
-- arithmetic is not part of the repository, so it is a parameter, and a theorem that needs a law of
-- it says so. `fixed` meets the laws with whole numbers, and none for infinities and NaN.
pub mod Order
use ha_spark.Prelude.{
  ℕ, ◌+◌, ◌-◌, ◌*◌, ◌/◌, Bool, true, false, ltb, leb, ◌==◌, Option, none, some, is_some,
  if◌then◌else◌,
}
use ha_spark.Prelude.Int.{
  ℤ, pos, negsuc, pos_part, neg_part, ◌+ℤ◌, ◌-ℤ◌, ◌*ℤ◌, neg, ltbℤ, lebℤ, eqbℤ,
}

pub record Float {ℓ} (F : Type ℓ) : Type ℓ where
  pub of_nat : ℕ → F
  pub add : F → F → F
  pub sub : F → F → F
  pub mul : F → F → F
  pub div : F → F → F
  pub negate : F → F
  pub abs : F → F
  pub lt : F → F → Bool
  pub le : F → F → Bool
  pub eq : F → F → Bool
  pub is_finite : F → Bool

module _ {ℓ} {F : Type ℓ} ⦃f : Float F⦄ where
  -- `min(a, b)` and `max(a, b)` return the first argument unless the second is less, or greater.
  abbrev pub min_f : F → F → F
  min_f a b = if f.lt b a then b else a

  abbrev pub max_f : F → F → F
  max_f a b = if f.lt a b then b else a

  abbrev pub zero_f : F
  zero_f = f.of_nat 0

abbrev pub Fixed : Type 0
Fixed = Option ℤ

abbrev lift₁ : (ℤ → ℤ) → Fixed → Fixed
lift₁ g none = none
lift₁ g (some a) = some (g a)

abbrev lift₂ : (ℤ → ℤ → ℤ) → Fixed → Fixed → Fixed
lift₂ g (some a) (some b) = some (g a b)
lift₂ g _ _ = none

abbrev test₂ : (ℤ → ℤ → Bool) → Fixed → Fixed → Bool
test₂ g (some a) (some b) = g a b
test₂ g _ _ = false

abbrev absℤ : ℤ → ℤ
absℤ (pos n) = pos n
absℤ (negsuc n) = neg (negsuc n)

abbrev divℤ : ℤ → ℤ → ℤ
divℤ a b = pos (pos_part a / pos_part b) -ℤ pos (neg_part a / pos_part b)

instance abbrev pub fixed : Float Fixed
fixed = record {
  of_nat = λ n. some (pos n);
  add = lift₂ ◌+ℤ◌;
  sub = lift₂ ◌-ℤ◌;
  mul = lift₂ ◌*ℤ◌;
  div = lift₂ divℤ;
  negate = lift₁ neg;
  abs = lift₁ absℤ;
  lt = test₂ ltbℤ;
  le = test₂ lebℤ;
  eq = test₂ eqbℤ;
  is_finite = is_some;
}

-- Whole numbers, where every number is finite.
instance abbrev pub whole : Float ℕ
whole = record {
  of_nat = λ n. n;
  add = ◌+◌;
  sub = ◌-◌;
  mul = ◌*◌;
  div = ◌/◌;
  negate = λ n. 0;
  abs = λ n. n;
  lt = ltb;
  le = leb;
  eq = ◌==◌;
  is_finite = λ n. true;
}
