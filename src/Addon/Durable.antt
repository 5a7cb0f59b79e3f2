-- ===== src/Addon/Durable.antt =====
-- What survives on disk: a save that succeeds can be read back, and one that raises fences.
use ha_spark.Prelude.{ℕ, suc, ◌≡◌, refl, true, false, none, some, arith}
use ha_spark.Addon.Disk.{Requester, AddonState, valid, plain, Files, same_addon_state_iff, is_valid}
use ha_spark.Addon.{
  known, uninitialised, load, Write, Store, is_known, fresh_observe, save, persist_initial,
  start_process, initialise,
}

load-known :
    (d : Files) (s : AddonState)
    → load d ≡ known s
    → (d.store ≡ valid s) × (d.marker ≡ valid (plain s.store_id))
unfolding load
load-known d s h = ground arith

-- After a `save` that does not raise, the store is known and its state is the new one; the save
-- succeeded only because the disk held a store of the same identity, and the state was valid.
-- After one that raises, the old state is still exposed, the failure is recorded, and the candidate
-- is kept for `retry_pending`.
pub save_verdict :
    (w : Write) (s : Store) (state : AddonState)
    → ((save w s state).1 ≡ false
        → (is_known (save w s state).0 ≡ true)
          × ((save w s state).0.state ≡ some state)
          × (is_valid state ≡ true)
          × ((save w s state).0.save_failed ≡ false))
      × ((save w s state).1 ≡ true
          → ((save w s state).0.state ≡ s.state)
            × ((save w s state).0.save_failed ≡ true)
            × ((save w s state).0.pending ≡ some state)
            × ((save w s state).0.files.marker ≡ s.files.marker))
unfolding save is_known
save_verdict w s state = (
  λ h. (
    ground (arith, (same_addon_state_iff state state).1 refl),
    ground arith,
    ground arith,
    ground arith,
  ),
  λ h. ground arith,
)

persist_initial_verdict :
    (w₁ w₂ : Write) (s : Store) (state : AddonState)
    → (persist_initial w₁ w₂ s state).1 ≡ false
    → (is_known (persist_initial w₁ w₂ s state).0 ≡ true)
      × ((persist_initial w₁ w₂ s state).0.state ≡ some state)
unfolding persist_initial is_known
persist_initial_verdict w₁ w₂ s state h =
    (ground (arith, (same_addon_state_iff state state).1 refl), ground arith)

-- The epochs of one store only grow: starting the process on a known store either raises, or leaves
-- it known one epoch on, so that work of an earlier process is fenced; on an absent one it begins in
-- Observe at epoch 1.
pub start_process_fences :
    (w₁ w₂ : Write) (id now : ℕ) (s : Store)
    → (start_process w₁ w₂ id now s).1 ≡ false
    → ((state : AddonState)
        → s.state ≡ some state
        → is_known s ≡ true
        → (is_known (start_process w₁ w₂ id now s).0 ≡ true)
          × ((start_process w₁ w₂ id now s).0.state
              ≡ some (record state { epoch = suc state.epoch })))
      × (s.state ≡ none
          → load s.files ≡ uninitialised
          → (is_known (start_process w₁ w₂ id now s).0 ≡ true)
            × ((start_process w₁ w₂ id now s).0.state
                ≡ some (fresh_observe id now Requester.system)))
unfolding start_process initialise
start_process_fences w₁ w₂ id now s h = (
  λ state e k.
      let saved = save_verdict w₁ s (record state { epoch = suc state.epoch }) in
      let ok : (save w₁ s (record state { epoch = suc state.epoch })).1 ≡ false =
        ground (arith, e, k, h) in
      let (known', state', _, _) = saved.0 ok in
      (ground (arith, e, k, known'), ground (arith, e, k, state')),
  λ e u.
      ground (arith, e, u, persist_initial_verdict w₁ w₂ s (fresh_observe id now Requester.system)),
)
