-- ===== src/Addon/Sealed.antt =====
-- A retirement marker stays: only a snapshot that names the add-on takes it away.
use ha_spark.Prelude.{◌≡◌, ◌≢◌, refl, Bool, true, some, ℕ, arith, List, String}
use ha_spark.Authority.{Instant}
use ha_spark.Addon.Disk.{AddonHold, AddonState, Requester}
use ha_spark.Addon.{
  Store, Write, Owner, active, retired, start_process, confirm_observe, save, is_retirement,
  save_holds, save_fallback, save_readiness_notice, handover,
}
use ha_spark.Addon.Link.{
  AddonAuthority, receive, receive_pending, report, retirement_status, live_report,
}

abbrev pub is_sealed : Store → Bool
is_sealed s = is_retirement s.files.marker

save-marker :
    (w : Write) (s : Store) (state : AddonState) → (save w s state).0.files.marker ≡ s.files.marker
unfolding save
save-marker w s state = ground arith

pub start-sealed :
    (w₁ w₂ : Write) (id : ℕ) (now : Instant) (s : Store)
    → is_sealed s ≡ true
    → is_sealed (start_process w₁ w₂ id now s).0 ≡ true
unfolding start_process
start-sealed w₁ w₂ id now s h = ground (arith, h)

pub confirm-sealed :
    (w₁ w₂ : Write) (id : ℕ) (now : Instant) (requester : Requester) (s : Store)
    → is_sealed s ≡ true
    → is_sealed (confirm_observe w₁ w₂ id now requester s).0 ≡ true
unfolding confirm_observe
confirm-sealed w₁ w₂ id now requester s h = ground (arith, h)

pub saves-sealed :
    (w : Write) (holds : List AddonHold) (active? : Bool) (cause : String) (notified : Bool)
    (now : Instant) (s : Store)
    → is_sealed s ≡ true
    → (is_sealed (save_holds w holds now s).0 ≡ true)
      × (is_sealed (save_fallback w active? cause now s).0 ≡ true)
      × (is_sealed (save_readiness_notice w notified s).0 ≡ true)
unfolding save_holds save_fallback save_readiness_notice
saves-sealed w holds active? cause notified now s h =
    (ground (arith, h), ground (arith, h), ground (arith, h))

pub handover-sealed :
    (w₀ w₁ w₂ : Write) (fresh : AddonState) (owner : Owner) (s : Store)
    → owner ≢ Owner.addon
    → is_sealed s ≡ true
    → is_sealed (handover w₀ w₁ w₂ fresh owner s).0 ≡ true
unfolding handover
handover-sealed w₀ w₁ w₂ fresh owner s ne h = ground (arith, ne, h)

report-sealed : (s : Store) → (report s).active ≡ retired → is_sealed s ≡ true
unfolding report retirement_status
report-sealed s h = ground (arith, h)

fresh-report : (s : Store) → (live_report s).active ≡ active
unfolding live_report
fresh-report s = refl

pub receive-sealed :
    (w₀ w₁ w₂ : Write) (fresh : AddonState) (native : Bool) (owner : Owner) (s next : Store)
    (answer : AddonAuthority)
    → receive w₀ w₁ w₂ fresh native owner s ≡ some (next, answer)
    → (owner ≢ Owner.addon → is_sealed s ≡ true → is_sealed next ≡ true)
      × (answer.active ≡ retired → is_sealed next ≡ true)
unfolding receive receive_pending
receive-sealed w₀ w₁ w₂ fresh native owner s next answer h = (
  λ ne sealed. ground (arith, ne, sealed, h, handover-sealed w₀ w₁ w₂ fresh owner s ne sealed),
  λ a. ground (arith, a, h, report-sealed next),
)
