-- ===== src/Float/Order.antt =====
-- The order of floats, and the least of two.
use ha_spark.Prelude.{ℕ, true, false, arith, ◌≡◌, refl, inl, inr, Bool-cases}
use ha_spark.Float.{Float, min_f, whole}

-- What the comparisons of floats are relied on for, with infinities and NaN.
pub record OrderLaws {ℓ} (F : Type ℓ) ⦃f : Float F⦄ : Type ℓ where
  pub irreflexive : (a : F) → f.lt a a ≡ false
  pub asymmetric : (a b : F) → f.lt a b ≡ true → f.lt b a ≡ false
  pub finite_zero : f.is_finite (f.of_nat 0) ≡ true
  pub transitive :
      (a b c : F) → f.is_finite b ≡ true → f.lt b a ≡ false → f.lt c b ≡ false → f.lt c a ≡ false

module _ {ℓ} {F : Type ℓ} ⦃f : Float F⦄ (laws : OrderLaws F) where
  -- `a` is not above `b`.
  abbrev pub NotAbove : F → F → Type 0
  NotAbove a b = f.lt b a ≡ false

  pub min_left : (a b : F) → NotAbove (min_f a b) a
  min_left a b = elim (Bool-cases (f.lt b a)) [
    | inl e ↦ rw (e) (laws.asymmetric b a e)
    | inr e ↦ rw (e) (laws.irreflexive a)
  ]

  pub min_right : (a b : F) → NotAbove (min_f a b) b
  min_right a b = elim (Bool-cases (f.lt b a)) [
    | inl e ↦ rw (e) (laws.irreflexive b)
    | inr e ↦ rw (e) e
  ]

  pub min_finite :
      (a b : F) → f.is_finite a ≡ true → f.is_finite b ≡ true → f.is_finite (min_f a b) ≡ true
  min_finite a b h k = elim (Bool-cases (f.lt b a)) [ inl e ↦ rw (e) k | inr e ↦ rw (e) h ]

  pub NotAbove-trans :
      (a b c : F) → f.is_finite b ≡ true → NotAbove a b → NotAbove b c → NotAbove a c
  NotAbove-trans a b c h k l = laws.transitive a b c h k l

pub whole_laws : OrderLaws ℕ
whole_laws = record {
  irreflexive = λ a. ground arith;
  finite_zero = refl;
  asymmetric = λ a b h. ground (arith, h);
  transitive = λ a b c h k l. ground (arith, k, l);
}
