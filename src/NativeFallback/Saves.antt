-- ===== src/NativeFallback/Saves.antt =====
-- When a fallback is entered, kept and left.
use ha_spark.Prelude.{
  ◌≤◌, Bool, true, false, not, ◌&&◌, some, List, [], ◌∷◌, or_else, ◌≡◌, ◌⊎◌, All,
}
use ha_spark.Authority.{Instant, FallbackState, no_fallback, AuthorityState}
use ha_spark.NativeWrite.{is_empty}
use ha_spark.NativeFallback.{
  LastApply, Surroundings, SaveCall, NativeFallback, observe_outcome, is_closed, evaluate, counted,
}

module _ {ℓ} {W : Type ℓ} (around : Surroundings W) where
  -- The fallback is entered or kept: by an owner in committed Optimise after its start, without a
  -- manual session, on no way to another mode; and an entry has a cause.
  pub record IsEntry (c : SaveCall W) : Type ℓ where
    pub known : around.authority c.before ≡ some c.state
    pub permitted : is_closed around c.state c.at c.before ≡ false
    pub active : c.fallback.active ≡ true
    pub caused : (c.state.fallback.active ≡ true) ⊎ (is_empty c.fallback.causes ≡ false)

  -- The fallback is left: every cause of the active one has cleared, and the last plan of this epoch
  -- was verified, not before the exit began and not before the last retry was due.
  pub record IsExit (c : SaveCall W) : Type ℓ where
    pub none_left : c.fallback ≡ no_fallback
    pub was_active : c.state.fallback.active ≡ true
    pub cleared : is_empty c.state.fallback.causes ≡ true
    pub last : LastApply
    pub applied : around.last_apply c.before ≡ some last
    pub same_epoch : last.epoch ≡ c.state.epoch
    pub verified : last.ok ≡ true
    pub since_exit : or_else c.exit_since c.at ≤ last.at
    pub since_retry : or_else c.retry_at 0 ≤ last.at

  abbrev pub SavesOk : NativeFallback W → Type ℓ
  SavesOk s = All (λ c. IsEntry c ⊎ IsExit c) s.saves

  -- An inactive fallback has no causes.
  abbrev pub HasCauses : FallbackState → Type 0
  HasCauses fallback = not fallback.active && not (is_empty fallback.causes) ≡ false

  -- Every state that the world exposes has causes only in an active fallback.
  abbrev pub WellKept : Type ℓ
  WellKept =
      (w : W) (state : AuthorityState) → around.authority w ≡ some state → HasCauses state.fallback

  -- What happens to the object: an evaluation, an outcome of the channel, or another task.
  pub data Tick : Type ℓ where
    tick : Instant → Tick
    outcome : Bool → Instant → Tick
    other : (W → W) → Tick

  pub run : List Tick → NativeFallback W → NativeFallback W
  run [] s = s
  run (tick now ∷ rest) s = run rest (evaluate around now s)
  run (outcome counted now ∷ rest) s = run rest (observe_outcome around counted now s)
  run (other change ∷ rest) s = run rest (record s { world = change s.world })
