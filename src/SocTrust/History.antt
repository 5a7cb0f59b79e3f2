-- ===== src/SocTrust/History.antt =====
-- The trust in a bank over its observations.
mod Examples
use ha_spark.Prelude.{
  ℕ, suc, ◌+◌, ◌-◌, ◌*◌, ◌/◌, ◌≤◌, ◌<◌, ◌≡◌, ◌≢◌, ◌⊎◌, inl, inr, refl, ap, ◌∙◌, Bool, true, false,
  not, ◌&&◌, ◌||◌, Option, none, some, List, [], ◌∷◌, ltb, leb, ◌==◌, if◌then◌else◌, any, arith,
  Bool-cases, if_both, if_else,
}
use ha_spark.Float.{Float, zero_f}
use ha_spark.Authority.{Instant, second}
use ha_spark.SocTrust.{
  Policy, BankTrust, Trust, trusted, recovering, SocStatus, ok, is_ok, is_trusted, Recovery,
  SocMonitor, Observation, minute_length, minute_of, instant_of, in_sequence, or_now, no_newer,
  reset_recovery, fail, is_later, continued, advanced, accepted, recover, settle, judge_fresh,
  judge_kept, lost, observe_minute, observe_again, same_minute, observe,
}
use ha_spark.SocTrust.{
  increases_allowed, fallback_requested, judge_time, absent, unfit, parsed, new_monitor, untrusted,
  check_soc, judged, trust_of, status_of, parse, Value, Evidence, kept_value,
}
use ha_spark.SocTrust.Blocked.{
  Passes, passed, RecoveryBacked, HasRecovered, noted, Honest, Settled, settle_ok, settle_reason,
}

trust_ok : (s : SocStatus) → is_trusted (trust_of s) ≡ true → is_ok s ≡ true
trust_ok s h = ground (arith, h)

with_policy :
    (p q : Policy) (passes : Passes) (now : Instant) (fallback : Bool)
    → p ≡ q
    → HasRecovered p passes now fallback
    → HasRecovered q passes now fallback
with_policy p q passes now fallback e h = rw⁻¹ (e) h

module _ {ℓ} {F : Type ℓ} ⦃f : Float F⦄ where
  check_soc-Honest :
      (value : Value F) (read : Option Instant) (now : Instant) (max_age : ℕ)
      (baseline energy : Option F) (capacity : F)
      → Honest (check_soc value read now max_age baseline energy capacity)
  unfolding check_soc
  check_soc-Honest value read now max_age baseline energy capacity =
      trust_ok (status_of max_age now baseline energy capacity read (parse value))

  fresh-Honest :
      (max_age : ℕ) (o : Observation F) (e : Evidence F) → Honest (judge_fresh max_age o e).1
  unfolding judge_fresh
  fresh-Honest max_age o e =
      let read = instant_of o.read_at in
      if_both Honest _ _ _ (check_soc-Honest o.value read o.now max_age none none zero_f)
        (check_soc-Honest o.value read o.now max_age _ _ _)

  kept-Honest :
      (max_age : ℕ) (o : Observation F) (view : BankTrust F) (e : Evidence F)
      → Honest (judge_kept max_age o view e).1
  unfolding judge_kept
  kept-Honest max_age o view e =
      if_both Honest _ _ _ (trust_ok view.reason)
        (check_soc-Honest (kept_value view.value) view.read_at o.now max_age none none zero_f)

  lost-Honest : (r : BankTrust F) → Honest (lost r)
  lost-Honest r h = ground (arith, h)

  abbrev is_fresh : Observation F → SocMonitor F → Bool
  is_fresh o m = is_later (instant_of o.read_at) m.evidence.read_at

  abbrev verdict : Observation F → SocMonitor F → BankTrust F
  verdict o m =
      let newer = judge_fresh m.policy.max_age o m.evidence in
      let older = judge_kept m.policy.max_age o m.view m.evidence in
      let judgement = (if is_fresh o m then newer else older).1 in
      if o.valid then judgement else lost judgement

  verdict-Honest : (o : Observation F) (m : SocMonitor F) → Honest (verdict o m)
  verdict-Honest o m =
      let newer = judge_fresh m.policy.max_age o m.evidence in
      let older = judge_kept m.policy.max_age o m.view m.evidence in
      let judgement = (if is_fresh o m then newer else older).1 in
      if_both Honest o.valid judgement (lost judgement)
        (if_both (λ (x : Evidence F × BankTrust F). Honest x.1) (is_fresh o m) newer older
          (fresh-Honest m.policy.max_age o m.evidence)
          (kept-Honest m.policy.max_age o m.view m.evidence))
        (lost-Honest judgement)

  -- The invariant of a monitor: its recovery is backed by passes, and no trusted bank is blocked.
  pub record IsMonitor (passes : Passes) (m : SocMonitor F) : Type 0 where
    pub backed : RecoveryBacked passes m.recovery
    pub unblocked : is_trusted m.view.trust ≡ true → m.recovery.blocked ≡ false

  minute_ok :
      (o : Observation F) (m : SocMonitor F) (passes : Passes)
      → RecoveryBacked passes m.recovery
      → Settled m.policy
          (is_fresh o m)
          o
          m.recovery.blocked
          (noted (is_fresh o m) (verdict o m).reason (minute_of o.now) passes)
          ((observe_minute o m).recovery, (observe_minute o m).view)
  unfolding observe_minute
  minute_ok o m passes h =
      settle_ok m.policy (is_fresh o m) o (verdict o m) m.recovery passes h (verdict-Honest o m)

  minute_reason :
      (o : Observation F) (m : SocMonitor F)
      → is_ok (observe_minute o m).view.reason ≡ is_ok (verdict o m).reason
  unfolding observe_minute
  minute_reason o m = settle_reason m.policy (is_fresh o m) o (verdict o m) m.recovery

  again_ok :
      (o : Observation F) (m : SocMonitor F) (passes : Passes)
      → RecoveryBacked passes m.recovery
      → RecoveryBacked passes (observe_again o m).recovery
  unfolding observe_again
  again_ok o m passes h =
      if_both (λ (n : SocMonitor F). RecoveryBacked passes n.recovery) o.valid _ _ h
        (if_both (λ (n : SocMonitor F). RecoveryBacked passes n.recovery) m.minute_failed _ _ h tt)

  again_trust :
      (o : Observation F) (m : SocMonitor F)
      → is_trusted (observe_again o m).view.trust ≡ true
      → (is_trusted m.view.trust ≡ true)
        × (o.fallback_active ≡ false)
        × ((observe_again o m).recovery ≡ m.recovery)
  unfolding observe_again
  again_trust o m h = (ground (arith, h), ground (arith, h), ground (arith, h))

  -- The passes after an observation: the first one of a minute passes when its read is newer and its
  -- verdict "ok".
  pub noted_by : Observation F → SocMonitor F → Passes → Passes
  unfolding observe
  noted_by o m passes =
      if not (same_minute m.minute (minute_of o.now))
        && is_later (instant_of o.read_at) m.evidence.read_at
        && is_ok (observe o m).view.reason
      then minute_of o.now ∷ passes
      else passes

  -- What an observation leaves, where `n` is the monitor with `fallback_active` taken over.
  abbrev Observed : Observation F → SocMonitor F → Passes → SocMonitor F → Type 0
  Observed o n passes m =
      IsMonitor passes m
      × (n.recovery.blocked ≡ true
          → is_trusted m.view.trust ≡ true
          → HasRecovered n.policy passes o.now o.fallback_active)

  first_ok :
      (o : Observation F) (n : SocMonitor F) (passes : Passes)
      → RecoveryBacked passes n.recovery
      → Observed o n
          (if is_fresh o n && is_ok (observe_minute o n).view.reason
            then minute_of o.now ∷ passes
            else passes)
          (observe_minute o n)
  first_ok o n passes h =
      let (backed, recovered, free) = minute_ok o n passes h in
      rw (minute_reason o n) (record { backed = backed; unblocked = free }, recovered)

  second_ok :
      (o : Observation F) (n : SocMonitor F) (passes : Passes)
      → RecoveryBacked passes n.recovery
      → (is_trusted n.view.trust ≡ true → o.fallback_active ≡ false → n.recovery.blocked ≡ false)
      → Observed o n passes (observe_again o n)
  second_ok o n passes h free = (
    record {
      backed = again_ok o n passes h;
      unblocked = λ t. let (old, quiet, same) = again_trust o n t in rw (same) (free old quiet);
    },
    λ b t. let (old, quiet, same) = again_trust o n t in ground (arith, b, free old quiet),
  )

  blocked_by : Bool → SocMonitor F → SocMonitor F
  blocked_by b m =
      let blocked = record m { recovery = record m.recovery { blocked = true } } in
      if b then blocked else m

  observed_in : Bool → Observation F → SocMonitor F → SocMonitor F
  observed_in same o n = if same then observe_again o n else observe_minute o n

  Observed-ok :
      (o : Observation F) (m : SocMonitor F) (passes : Passes) (b same : Bool)
      → b ≡ o.fallback_active
      → IsMonitor passes m
      → Observed o m
          (if not same && is_fresh o m && is_ok (observed_in same o (blocked_by b m)).view.reason
            then minute_of o.now ∷ passes
            else passes)
          (observed_in same o (blocked_by b m))
  unfolding observed_in blocked_by
  Observed-ok o m passes true true e i =
      let n = record m { recovery = record m.recovery { blocked = true } } in
      let (next, recovered) = second_ok o n passes i.backed (λ _ q. ground (arith, e, q)) in
      (next, λ _ t. recovered refl t)
  Observed-ok o m passes true false e i =
      let n = record m { recovery = record m.recovery { blocked = true } } in
      let (next, recovered) = first_ok o n passes i.backed in (next, λ _ t. recovered refl t)
  Observed-ok o m passes false true e i = second_ok o m passes i.backed (λ t _. i.unblocked t)
  Observed-ok o m passes false false e i = first_ok o m passes i.backed

  observe_ok :
      (o : Observation F) (m : SocMonitor F) (passes : Passes)
      → IsMonitor passes m
      → Observed o m (noted_by o m passes) (observe o m)
  unfolding observe noted_by observed_in blocked_by
  observe_ok o m passes i =
      Observed-ok o m passes o.fallback_active (same_minute m.minute (minute_of o.now)) refl i

  pub observations : List (Observation F) → SocMonitor F × Passes → SocMonitor F × Passes
  observations [] x = x
  observations (o ∷ rest) (m, passes) = observations rest (observe o m, noted_by o m passes)

  observations_ok :
      (os : List (Observation F)) (x : SocMonitor F × Passes)
      → IsMonitor x.1 x.0
      → IsMonitor (observations os x).1 (observations os x).0
  unfolding observations
  observations_ok [] x i = i
  observations_ok (o ∷ rest) (m, passes) i =
      observations_ok rest (observe o m, noted_by o m passes) (observe_ok o m passes i).0

  new_IsMonitor : (policy : Policy) → IsMonitor [] (new_monitor policy)
  new_IsMonitor policy = record { backed = tt; unblocked = λ h. ground (arith, h) }

  abbrev HasPolicy : Policy → SocMonitor F → Type 0
  HasPolicy policy m = m.policy ≡ policy

  kept_policy : (b : Bool) (m : SocMonitor F) → HasPolicy m.policy (blocked_by b m)
  unfolding blocked_by
  kept_policy b m = if_both (HasPolicy m.policy) b _ _ refl refl

  again-HasPolicy : (o : Observation F) (n : SocMonitor F) → HasPolicy n.policy (observe_again o n)
  unfolding observe_again
  again-HasPolicy o n =
      if_both (HasPolicy n.policy) o.valid _ _ refl
        (if_both (HasPolicy n.policy) n.minute_failed _ _ refl refl)

  minute-HasPolicy :
      (o : Observation F) (n : SocMonitor F) → HasPolicy n.policy (observe_minute o n)
  unfolding observe_minute
  minute-HasPolicy o n = refl

  observe-HasPolicy : (o : Observation F) (m : SocMonitor F) → HasPolicy m.policy (observe o m)
  unfolding observe blocked_by
  observe-HasPolicy o m =
      let n = blocked_by o.fallback_active m in
      let kept : HasPolicy m.policy n = kept_policy o.fallback_active m in
      if_both (HasPolicy m.policy) (same_minute m.minute (minute_of o.now)) _ _
        (again-HasPolicy o _ ∙ kept) (minute-HasPolicy o _ ∙ kept)

  observations-HasPolicy :
      (os : List (Observation F)) (x : SocMonitor F × Passes)
      → HasPolicy x.0.policy (observations os x).0
  unfolding observations
  observations-HasPolicy [] x = refl
  observations-HasPolicy (o ∷ rest) (m, passes) =
      observations-HasPolicy rest (observe o m, noted_by o m passes) ∙ observe-HasPolicy o m

  -- After any observations of a new monitor: if the bank is blocked and the next observation makes it trusted, then
  -- no fallback is active, and there is a time, the recovery minutes of the policy ago or more, from
  -- which on each minute has a pass, this one included.
  pub observe-HasRecovered :
      (policy : Policy) (os : List (Observation F)) (o : Observation F)
      → (observations os (new_monitor policy, [])).0.recovery.blocked ≡ true
      → is_trusted (observe o (observations os (new_monitor policy, [])).0).view.trust ≡ true
      → HasRecovered policy
          (noted_by o
            (observations os (new_monitor policy, [])).0
            (observations os (new_monitor policy, [])).1)
          o.now
          o.fallback_active
  observe-HasRecovered policy os o b t =
      let (m, passes) = observations os (new_monitor policy, []) in
      with_policy m.policy policy (noted_by o m passes) o.now o.fallback_active
        (observations-HasPolicy os (new_monitor policy, []))
        ((observe_ok o m passes
            (observations_ok os (new_monitor policy, []) (new_IsMonitor policy))).1
          b t)

  -- After any observations of a new monitor, a bank whose increases are allowed is not blocked, so no
  -- fallback is requested for it.
  pub increases_allowed-unblocked :
      (policy : Policy) (os : List (Observation F))
      → increases_allowed (observations os (new_monitor policy, [])).0 ≡ true
      → ((observations os (new_monitor policy, [])).0.recovery.blocked ≡ false)
        × (fallback_requested (observations os (new_monitor policy, [])).0 ≡ false)
  increases_allowed-unblocked policy os h =
      let i = observations_ok os (new_monitor policy, []) (new_IsMonitor policy) in
      (i.unblocked h, ground (arith, i.unblocked h))
