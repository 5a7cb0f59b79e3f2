-- ===== src/SocTrust/Sound.antt =====
-- What `check_soc` trusts.
use ha_spark.Prelude.{ℕ, ◌+◌, ◌≤◌, ◌≡◌, refl, true, ◌&&◌, Option, none, some, arith}
use ha_spark.Float.{Float, zero_f}
use ha_spark.Authority.{Instant}
use ha_spark.SocTrust.{BankTrust, is_trusted}
use ha_spark.SocTrust.{judge_time, absent, unfit, parsed, check_soc, Value}

module _ {ℓ} {F : Type ℓ} ⦃f : Float F⦄ where
  -- A value that is trusted: within the range, read, and not from the future or too old.
  pub record IsSound (r : BankTrust F) (now : Instant) (max_age : ℕ) : Type ℓ where
    pub x : F
    pub at : Instant
    pub value : r.value ≡ some x
    pub range : f.is_finite x && f.le zero_f x && f.le x (f.of_nat 100) ≡ true
    pub read : r.read_at ≡ some at
    pub past : at ≤ now
    pub age : now ≤ at + max_age

  -- `check_soc` trusts only a finite number from 0 to 100, with a read time that is not in the future
  -- and no older than the age allowed.
  pub check_soc-IsSound :
      (value : Value F) (read : Option Instant) (now : Instant) (max_age : ℕ)
      (baseline energy : Option F) (capacity : F)
      → is_trusted (check_soc value read now max_age baseline energy capacity).trust ≡ true
      → IsSound (check_soc value read now max_age baseline energy capacity) now max_age
  unfolding check_soc judge_time
  check_soc-IsSound absent read now max_age baseline energy capacity h = ground (arith, h)
  check_soc-IsSound unfit read now max_age baseline energy capacity h = ground (arith, h)
  check_soc-IsSound (parsed none) read now max_age baseline energy capacity h = ground (arith, h)
  check_soc-IsSound (parsed (some y)) none now max_age baseline energy capacity h =
      ground (arith, h)
  check_soc-IsSound (parsed (some y)) (some t) now max_age baseline energy capacity h = record {
    x = y;
    at = t;
    value = ground (arith, h);
    range = ground (arith, h);
    read = refl;
    past = ground (arith, h);
    age = ground (arith, h);
  }
