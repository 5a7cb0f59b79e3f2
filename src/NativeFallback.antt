-- ===== src/NativeFallback.antt =====
-- custom_components/ha_spark/native_fallback_control.py: the causes of a fallback, its writes and its
-- end. Notifications are left out. What the rest of the program is and does is a world that the calls
-- step through.
pub mod Saves
mod Examples
use ha_spark.Prelude.{
  ℕ, suc, ◌+◌, ◌*◌, String, Bool, true, false, not, ◌&&◌, ◌||◌, Option, none, some, List, [], ◌∷◌,
  ltb, leb, ◌==◌, str_eq, if◌then◌else◌, is_some, is_none, or_else, any, all, keep,
}
use ha_spark.Authority.{
  Instant, second, OperatingMode, FallbackCause, FallbackState, no_fallback, AuthorityState,
}
use ha_spark.NativeSlots.{Outcome}
use ha_spark.NativeWrite.{in_mode, leaves, is_empty}
use ha_spark.NativeWrite.Commit.{put}
use ha_spark.NativeWrite.Transaction.{is_good}

-- `writes.last_apply`
pub record LastApply : Type 0 where
  pub epoch : ℕ
  pub at : Instant
  pub ok : Bool

-- What an evaluation asks of the world. `save` is `async_fallback_held`; `apply` is `async_fallback`
-- of one inverter, with the epoch of what it verified; `cancel` is `_cancel_export`.
pub record Surroundings {ℓ} (W : Type ℓ) : Type ℓ where
  pub authority : W → Option AuthorityState
  pub owned : W → Bool
  pub startup_complete : W → Bool
  pub permits_non_protection : Instant → W → Bool
  pub connected : W → Bool
  pub recovery_ready : W → Bool
  pub fallback_requested : W → Bool
  pub has_schedule : W → Bool
  pub native : W → List String
  pub last_apply : W → Option LastApply
  pub save : FallbackState → Instant → W → W × Bool
  pub apply : String → ℕ → W → W × Outcome × Option ℕ
  pub cancel : ℕ → W → W × Bool

-- A save, with the state that it was decided on, the time, the waits for an exit and the world before.
pub record SaveCall {ℓ} (W : Type ℓ) : Type ℓ where
  pub fallback : FallbackState
  pub state : AuthorityState
  pub at : Instant
  pub exit_since : Option Instant
  pub retry_at : Option Instant
  pub before : W

-- The world and `NativeFallback`, with the saves and the inverters that were written, newest first.
-- Of what is verified for an inverter only the epoch is kept.
pub record NativeFallback {ℓ} (W : Type ℓ) : Type ℓ where
  pub world : W
  pub verified : String → Option ℕ
  pub attempts : String → ℕ
  pub backoff : String → Option Instant
  pub retry_at : Option Instant
  pub reapply_at : Option Instant
  pub exit_since : Option Instant
  pub liveness_since : Option Instant
  pub saves : List (SaveCall W)
  pub applies : List (String × Instant)

abbrev pub liveness_recovery : ℕ
liveness_recovery = 300 * second

abbrev pub retry : ℕ
retry = 300 * second

abbrev pub max_attempts : ℕ
max_attempts = 3

-- `plan_verified`
abbrev pub plan_verified : Option LastApply → ℕ → Instant → Bool
plan_verified none epoch since = false
plan_verified (some last) epoch since = last.epoch == epoch && leb since last.at && last.ok

-- `failed` of `_exit_pending`.
abbrev pub plan_failed : Option LastApply → ℕ → Instant → Bool
plan_failed none epoch since = false
plan_failed (some last) epoch since = last.epoch == epoch && leb since last.at && not last.ok

abbrev pub is_before : Instant → Option Instant → Bool
is_before now none = false
is_before now (some at) = ltb now at

-- `now - since >= limit`, where `since` is known.
abbrev pub lasted : ℕ → Option Instant → Instant → Bool
lasted limit none now = false
lasted limit (some since) now = leb (since + limit) now

abbrev pub is_liveness : FallbackCause → Bool
is_liveness FallbackCause.addon_liveness = true
is_liveness FallbackCause.soc_integrity = false

abbrev pub is_soc : FallbackCause → Bool
is_soc FallbackCause.addon_liveness = false
is_soc FallbackCause.soc_integrity = true

abbrev pub later : Instant → Option Instant → Instant
later since none = since
later since (some at) = if ltb since at then at else since

module _ {ℓ} {W : Type ℓ} (around : Surroundings W) where
  -- `observe_outcome`; `counted` is that the outcome is.
  pub observe_outcome : Bool → Instant → NativeFallback W → NativeFallback W
  observe_outcome true now s = record s { liveness_since = some (or_else s.liveness_since now) }
  observe_outcome false now s = record s { liveness_since = none }

  -- `retrying`
  abbrev pub retrying : Instant → NativeFallback W → Bool
  retrying now s = is_before now s.retry_at

  abbrev pub is_verified : ℕ → NativeFallback W → String → Bool
  is_verified epoch s id = elim (s.verified id) [ none ↦ false | some e ↦ e == epoch ]

  -- Whether the cause of the add-on's silence is to hold.
  pub liveness_cause : Instant → List FallbackCause → NativeFallback W → Bool
  liveness_cause now causes s =
      if any is_liveness causes
      then not (around.connected s.world && lasted liveness_recovery s.liveness_since now)
      else not (around.connected s.world)

  pub soc_cause : List FallbackCause → NativeFallback W → Bool
  soc_cause causes s =
      if any is_soc causes
      then not (around.recovery_ready s.world)
      else around.fallback_requested s.world

  abbrev pub with_soc : Bool → List FallbackCause
  with_soc true = FallbackCause.soc_integrity ∷ []
  with_soc false = []

  -- `desired`
  pub desired : Instant → List FallbackCause → NativeFallback W → List FallbackCause
  desired now causes s =
      let rest = with_soc (soc_cause causes s) in
      if liveness_cause now causes s then FallbackCause.addon_liveness ∷ rest else rest

  abbrev pub same_cause : FallbackCause → FallbackCause → Bool
  same_cause FallbackCause.addon_liveness d = is_liveness d
  same_cause FallbackCause.soc_integrity d = is_soc d

  abbrev pub same_causes : List FallbackCause → List FallbackCause → Bool
  same_causes [] [] = true
  same_causes [] (d ∷ ds) = false
  same_causes (c ∷ cs) [] = false
  same_causes (c ∷ cs) (d ∷ ds) = same_cause c d && same_causes cs ds

  abbrev pub clear_verified : NativeFallback W → NativeFallback W
  clear_verified s = record s { verified = λ id. none }

  abbrev pub after_apply :
      String → Instant → W × Outcome × Option ℕ → NativeFallback W → NativeFallback W × Outcome
  after_apply id now (w, outcome, verified) s = (
    record s {
      world = w;
      verified =
          if is_good outcome && is_some verified then put id verified s.verified else s.verified;
      applies = (id, now) ∷ s.applies;
    },
    outcome,
  )

  -- `_apply_one`
  pub apply_one : String → ℕ → Instant → NativeFallback W → NativeFallback W × Outcome
  apply_one id epoch now s = after_apply id now (around.apply id epoch s.world) s

  -- The count of an inverter's failures, and its rest after the third.
  abbrev pub counted : String → Instant → NativeFallback W × Outcome → NativeFallback W
  counted id now (s, outcome) =
      let count = suc (s.attempts id) in
      if is_good outcome
      then record s { attempts = put id 0 s.attempts; backoff = put id none s.backoff }
      else record s {
        attempts = put id count s.attempts;
        backoff = if leb max_attempts count then put id (some now) s.backoff else s.backoff;
      }

  -- `now - backoff < _RETRY`, where there is one.
  abbrev pub is_resting : Instant → Option Instant → Bool
  is_resting now none = false
  is_resting now (some at) = ltb now (at + retry)

  -- The loop over `pending`.
  pub apply_pending : List String → ℕ → Instant → NativeFallback W → NativeFallback W
  apply_pending [] epoch now s = s
  apply_pending (id ∷ rest) epoch now s =
      let skipped = apply_pending rest epoch now s in
      let tried = apply_pending rest epoch now (counted id now (apply_one id epoch now s)) in
      if is_resting now (s.backoff id) then skipped else tried

  -- `_apply_causes`
  pub apply_causes : AuthorityState → Instant → NativeFallback W → NativeFallback W
  apply_causes state now s =
      let pending = keep (λ id. not (is_verified state.epoch s id)) (around.native s.world) in
      let applied = apply_pending pending state.epoch now s in
      if around.has_schedule s.world then applied else s

  pub apply_each : List String → ℕ → Instant → NativeFallback W → NativeFallback W
  apply_each [] epoch now s = s
  apply_each (id ∷ rest) epoch now s = apply_each rest epoch now (apply_one id epoch now s).0

  -- `_apply_all`
  pub apply_all : ℕ → Instant → NativeFallback W → NativeFallback W
  apply_all epoch now s =
      let applied = apply_each (around.native s.world) epoch now s in
      if around.has_schedule s.world then applied else s

  -- `async_fallback_held`, noted.
  pub save : FallbackState → AuthorityState → Instant → NativeFallback W → NativeFallback W × Bool
  save fallback state now s =
      let (w, ok) = around.save fallback now s.world in
      (
        record s {
          world = w;
          saves =
              record {
                fallback = fallback;
                state = state;
                at = now;
                exit_since = s.exit_since;
                retry_at = s.retry_at;
                before = s.world;
              }
              ∷ s.saves;
        },
        ok,
      )

  abbrev pub after_exit : NativeFallback W × Bool → NativeFallback W
  after_exit (s, false) = s
  after_exit (s, true) = record s {
    exit_since = none;
    retry_at = none;
    reapply_at = none;
    verified = λ id. none;
    attempts = λ id. 0;
    backoff = λ id. none;
  }

  -- `_exit_pending`, from its `since` on.
  pub exit_since_then : Instant → AuthorityState → Instant → NativeFallback W → NativeFallback W
  exit_since_then since state now s =
      let last = around.last_apply s.world in
      let again = apply_all state.epoch now s in
      if plan_failed last state.epoch since
      then record (apply_all state.epoch now (clear_verified s)) { retry_at = some (now + retry) }
      else if plan_verified last state.epoch since
      then after_exit (save no_fallback state now s)
      else if all (is_verified state.epoch s) (around.native s.world)
      then s
      else if is_before now s.reapply_at
      then s
      else record again { reapply_at = some (now + retry) }

  -- `_exit_pending`
  pub exit_pending : AuthorityState → Instant → NativeFallback W → NativeFallback W
  exit_pending state now s =
      if retrying now s
      then s
      else exit_since_then (later (or_else s.exit_since now) s.retry_at) state now s

  -- The end of `_evaluate`.
  pub conclude : AuthorityState → Instant → NativeFallback W → NativeFallback W
  conclude state now s =
      if not state.fallback.active
      then s
      else if is_empty state.fallback.causes
      then exit_pending state now (record s { exit_since = some (or_else s.exit_since now) })
      else apply_causes state now
          (record s { exit_since = none; retry_at = none; reapply_at = none })

  -- After a save, on the state that it left.
  abbrev pub entered : Bool → Instant → Option AuthorityState → NativeFallback W → NativeFallback W
  entered was_active now none s = s
  entered was_active now (some state) s =
      let (w, ok) = around.cancel state.epoch s.world in
      if not was_active && state.fallback.active
      then conclude state now (record s { world = w })
      else conclude state now s

  abbrev pub after_save : Bool → Instant → NativeFallback W × Bool → NativeFallback W
  after_save was_active now (s, false) = s
  after_save was_active now (s, true) = entered was_active now (around.authority s.world) s

  abbrev pub new_fallback : FallbackState → List FallbackCause → Instant → FallbackState
  new_fallback old causes now =
      if old.active
      then record old { causes = causes }
      else record { active = true; causes = causes; entered_at = some now }

  -- `_evaluate`, from the causes on.
  pub evaluate_state : AuthorityState → Instant → NativeFallback W → NativeFallback W
  evaluate_state state now s =
      let old = state.fallback in
      let causes = desired now old.causes s in
      let start =
        if old.active && not (is_empty causes) && is_empty old.causes
        then clear_verified s
        else s in
      let saved = after_save old.active now (save (new_fallback old causes now) state now start) in
      let same = conclude state now start in
      if not (same_causes causes old.causes) || not (is_empty causes) && not old.active
      then saved
      else same

  -- The first test of `_evaluate`.
  abbrev pub is_closed : AuthorityState → Instant → W → Bool
  is_closed state now w =
      not (around.owned w)
      || not (around.startup_complete w)
      || not (around.permits_non_protection now w)
      || not (in_mode state OperatingMode.optimise)
      || is_some state.manual_session
      || leaves state.transition

  abbrev pub evaluate_from : Option AuthorityState → Instant → NativeFallback W → NativeFallback W
  evaluate_from none now s = s
  evaluate_from (some state) now s =
      let rest = evaluate_state state now s in if is_closed state now s.world then s else rest

  -- `_evaluate`
  pub evaluate : Instant → NativeFallback W → NativeFallback W
  evaluate now s = evaluate_from (around.authority s.world) now s
