-- ===== src/SocTrust/Blocked.antt =====
-- A bank that is blocked stays so until it has recovered for long enough.
use ha_spark.Prelude.{
  ℕ, ◌+◌, ◌*◌, ◌≤◌, ◌≡◌, inl, inr, refl, ap, Bool, true, false, not, ◌&&◌, ◌||◌, Option, none, some,
  List, ◌∷◌, leb, ◌==◌, if◌then◌else◌, any, arith, Bool-cases,
}
use ha_spark.Float.{Float}
use ha_spark.Authority.{Instant}
use ha_spark.SocTrust.{
  Policy, BankTrust, SocStatus, is_ok, is_trusted, Recovery, Observation, minute_length, minute_of,
  instant_of, in_sequence, or_now, no_newer, fail, continued, advanced, recover, settle,
}

-- The minutes in which a newer read passed, the last first.
abbrev pub Passes : Type 0
Passes = List ℕ

abbrev pub passed : ℕ → Passes → Bool
passed m passes = any (λ n. n == m) passes

-- A recovery that has gone on since a time has a pass in each minute from then to its last.
pub record IsBacked (passes : Passes) (since : Instant) (last : ℕ) : Type 0 where
  pub first : minute_of since ≤ last
  pub each : (m : ℕ) → minute_of since ≤ m → m ≤ last → passed m passes ≡ true

abbrev Backed : Passes → Option Instant → Option ℕ → Type 0
Backed passes none last = Unit
Backed passes (some since) none = ⊥
Backed passes (some since) (some last) = IsBacked passes since last

abbrev pub RecoveryBacked : Passes → Recovery → Type 0
RecoveryBacked passes r = Backed passes r.since r.recovery_minute

more_Backed :
    (m : ℕ) (passes : Passes) (since : Option Instant) (last : Option ℕ)
    → Backed passes since last
    → Backed (m ∷ passes) since last
more_Backed m passes none last h = tt
more_Backed m passes (some since) none h = h
more_Backed m passes (some since) (some last) h = record {
  first = h.first;
  each = λ k a b. ground (arith, h.each k a b);
}

-- One more pass, in the minute `n` after the last one or at the start of a recovery.
next_Backed :
    (passes : Passes) (since : Option Instant) (last : Option ℕ) (now : Instant) (n : ℕ)
    → n ≡ minute_of now
    → Backed passes since last
    → in_sequence last n ≡ true
    → IsBacked (n ∷ passes) (or_now since now) n
next_Backed passes none last now n e h s = record {
  first = omega (arith, e);
  each = λ m a b. ground (arith, e, a, b);
}
next_Backed passes (some since) none now n e h s = elim h [ ]
next_Backed passes (some since) (some last) now n e h s = record {
  first = ground (arith, h.first, s);
  each = λ m a b. elim (Bool-cases (leb m last)) [
    | inl k ↦ ground (arith, h.each m a (ground (arith, k)))
    | inr k ↦ ground (arith, k, b, s)
  ];
}

advanced_Backed :
    (policy : Policy) (read : Option Instant) (now : Instant) (passes : Passes) (r : Recovery)
    → RecoveryBacked passes r
    → RecoveryBacked
        (minute_of now ∷ passes)
        (advanced policy true read now (continued true read (minute_of now) r))
advanced_Backed policy read now passes r h =
    let n = minute_of now in
    elim (Bool-cases
      (not true || not (in_sequence r.recovery_minute n) || no_newer read r.recovery_read)) [
        | inl e ↦ rw (e) (next_Backed passes none none now n refl tt refl)
        | inr e ↦
            rw (e) (next_Backed passes r.since r.recovery_minute now n refl h (ground (arith, e)))
      ]

-- The passes after a verdict.
abbrev pub noted : Bool → SocStatus → ℕ → Passes → Passes
noted fresh reason minute passes = if fresh && is_ok reason then minute ∷ passes else passes

noted_Backed :
    (b : Bool) (m : ℕ) (passes : Passes) (r : Recovery)
    → RecoveryBacked passes r
    → RecoveryBacked (if b then m ∷ passes else passes) r
noted_Backed true m passes r h = more_Backed m passes r.since r.recovery_minute h
noted_Backed false m passes r h = h

-- What ends a block: enough time, with a pass in each minute of it, and no fallback.
pub record HasRecovered (policy : Policy) (passes : Passes) (now : Instant) (fallback : Bool)
    : Type 0 where
  pub no_fallback : fallback ≡ false
  pub since : Instant
  pub long : since + policy.recovery_minutes * minute_length ≤ now
  pub backed : IsBacked passes since (minute_of now)

chosen {ℓ} :
    {A : Type ℓ} (a b : Bool) (x y z : A)
    → a ≡ false
    → b ≡ false
    → (if a then x else if b then y else z) ≡ z
chosen a b x y z p q = rw (p, q) refl

module _ {ℓ} {F : Type ℓ} ⦃f : Float F⦄ where
  -- A trusted verdict is one with the reason "ok".
  abbrev pub Honest : BankTrust F → Type 0
  Honest r = is_trusted r.trust ≡ true → is_ok r.reason ≡ true

  abbrev pub Settled :
      Policy → Bool → Observation F → Bool → Passes → Recovery × BankTrust F → Type 0
  Settled policy fresh o blocked passes (r, view) =
      RecoveryBacked passes r
      × (blocked ≡ true
          → is_trusted view.trust ≡ true
          → HasRecovered policy passes o.now o.fallback_active)
      × (is_trusted view.trust ≡ true → r.blocked ≡ false)

  settle_blocked :
      (policy : Policy) (fresh : Bool) (o : Observation F) (result : BankTrust F) (r : Recovery)
      (passes : Passes)
      → RecoveryBacked passes r
      → r.blocked ≡ true
      → is_ok result.reason ≡ true
      → Settled policy fresh o r.blocked
          (noted fresh result.reason (minute_of o.now) passes)
          (recover policy fresh o result r)
  unfolding recover
  settle_blocked policy false o result r passes h b e =
      (tt, λ _ t. ground (arith, t), λ t. ground (arith, t))
  settle_blocked policy true o result r passes h b e =
      let read = instant_of o.read_at in
      let next = advanced policy true read o.now (continued true read (minute_of o.now) r) in
      let backed = advanced_Backed policy read o.now passes r h in
      elim (Bool-cases (next.recovery_ready && not o.fallback_active)) [
        | inl k ↦
            rw (e, k)
              (
                tt,
                λ _ _. record {
                  no_fallback = ground (arith, k);
                  since = or_now (continued true read (minute_of o.now) r).since o.now;
                  long = ground (arith, k);
                  backed = backed;
                },
                λ _. refl,
              )
        | inr k ↦ rw (e, k) (backed, λ _ t. ground (arith, t), λ t. ground (arith, t))
      ]

  settles :
      (policy : Policy) (fresh : Bool) (o : Observation F) (result : BankTrust F) (r : Recovery)
      → is_ok result.reason ≡ true
      → r.blocked ≡ true
      → settle policy fresh o result r ≡ recover policy fresh o result r
  unfolding settle
  settles policy fresh o result r e b =
      let next = recover policy fresh o result r in
      let first : not (is_ok result.reason) ≡ false = ap not e in
      let second : not r.blocked ≡ false = ap not b in
      chosen (not (is_ok result.reason)) (not r.blocked) (fail policy o.count r, result)
        (record r { failures = 0 }, result) next first second

  pub settle_ok :
      (policy : Policy) (fresh : Bool) (o : Observation F) (result : BankTrust F) (r : Recovery)
      (passes : Passes)
      → RecoveryBacked passes r
      → Honest result
      → Settled policy fresh o r.blocked
          (noted fresh result.reason (minute_of o.now) passes)
          (settle policy fresh o result r)
  unfolding settle
  settle_ok policy fresh o result r passes h honest = elim (Bool-cases (is_ok result.reason)) [
    | inr e ↦ rw (e) (tt, λ _ t. ground (arith, honest t, e), λ t. ground (arith, honest t, e))
    | inl e ↦ elim (Bool-cases r.blocked) [
      | inl b ↦
          rw (settles policy fresh o result r e b)
            (settle_blocked policy fresh o result r passes h b e)
      | inr b ↦
          rw (e, b)
            (
              noted_Backed (fresh && true) (minute_of o.now) passes r h,
              λ k t. ground (arith, k),
              λ t. refl,
            )
    ]
  ]

  -- A verdict keeps whether it passed.
  pub settle_reason :
      (policy : Policy) (fresh : Bool) (o : Observation F) (result : BankTrust F) (r : Recovery)
      → is_ok (settle policy fresh o result r).1.reason ≡ is_ok result.reason
  unfolding settle recover
  settle_reason policy fresh o result r = ground arith
