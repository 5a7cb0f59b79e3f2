-- ===== src/Control/Handover.antt =====
-- The handover of `_advance`, by the rounds of its loop.
use ha_spark.Prelude.{
  ◌⊎◌, ◌≢◌, ◌≡◌, refl, Bool, true, Option, none, some, List, [], ◌∷◌, All, arith, ◌∙◌, ap, inl, inr,
  Option-cases, Bool-cases, false,
}
use ha_spark.Authority.{OperatingMode, AuthorityState, Transition, Step}
use ha_spark.Authority.Equality.{Transition-discrete}
use mathlib.Core.Bool.{decide, decide_iff}
use native.Mathlib.Decide.{ℕ_discrete}
use ha_spark.Control.{
  same_transition, Store, Round, starts, is_current, after_step, Loop, ended, stopped, waiting,
  advance_steps, finish, advance, needs_permission,
}

abbrev with_steps : Transition → List Step → Transition
with_steps t steps = record t { steps = steps; failing_actions = [] }

decided-eq : {A : Type 0} (d : Discrete A) (a b : A) → decide (d a b) ≡ true → a ≡ b
decided-eq d a b h = (decide_iff (d a b)).0 h

same_transition-eq :
    (o : Option Transition) (t : Transition) → same_transition o t ≡ true → o ≡ some t
same_transition-eq none t h = ground (arith, h)
same_transition-eq (some u) t h = ap some (decided-eq Transition-discrete u t h)

-- A store that is still current has the same identity, epoch and transition.
pub record IsCurrent (state : AuthorityState) (t : Transition) (now : AuthorityState) : Type 0 where
  pub store_id : now.store_id ≡ state.store_id
  pub epoch : now.epoch ≡ state.epoch
  pub transition : now.transition ≡ some t

pub is_current-IsCurrent :
    (state : AuthorityState) (t : Transition) (now : AuthorityState)
    → is_current state t now ≡ true
    → IsCurrent state t now
unfolding is_current
is_current-IsCurrent state t now h = record {
  store_id = decided-eq ℕ_discrete now.store_id state.store_id (ground arith);
  epoch = decided-eq ℕ_discrete now.epoch state.epoch (ground arith);
  transition = same_transition-eq now.transition t (ground arith);
}

-- The installation owned the site before and after the step, the step was permitted where it needs it,
-- and both the step and the save after it were verified.
pub record IsRound (step : Step) (r : Round) : Type 0 where
  pub owned : r.owned ≡ true
  pub permitted : (needs_permission step ≡ false) ⊎ (r.permits ≡ true)
  pub verified : r.verified ≡ true
  pub owned_after : r.owned_after ≡ true
  pub saved : r.saved ≡ true

-- Each step, in order, has a verified round, after which the store still held the transition in its
-- epoch; the state saved then has this step taken off the list.
abbrev pub Carried : List Step → List Round → AuthorityState → Transition → Type 0
Carried [] rounds state t = Unit
Carried (step ∷ rest) [] state t = ⊥
Carried (step ∷ rest) (r ∷ rounds) state t =
    IsRound step r
    × (now : AuthorityState) × (r.store_after ≡ some now)
    × IsCurrent state t now
    × Carried rest rounds (record now { transition = some (with_steps t rest) }) (with_steps t rest)

starts-permitted :
    (r : Round) (step : Step)
    → starts r step ≡ true
    → (needs_permission step ≡ false) ⊎ (r.permits ≡ true)
starts-permitted r step h = elim (Bool-cases (needs_permission step)) [
  | inl e ↦ inr (ground (arith, h, e))
  | inr e ↦ inl e
]

-- One round of the loop, by the way that it goes.
advance_steps_round :
    (step : Step) (rest : List Step) (r : Round) (rounds : List Round) (store : Store)
    (state : AuthorityState) (t : Transition) (final : AuthorityState)
    → (advance_steps (step ∷ rest) (r ∷ rounds) store state t).0 ≡ ended final
    → (now : AuthorityState) × (r.store_after ≡ some now)
      × IsRound step r
      × IsCurrent state t now
      × (let next = after_step now t step rest true in
          let more = advance_steps rest rounds (some next) next (with_steps t rest) in
          (more.0 ≡ ended final)
          × ((advance_steps (step ∷ rest) (r ∷ rounds) store state t).1 ≡ step ∷ more.1))
unfolding advance_steps after_step
advance_steps_round step rest r rounds store state t final h = elim (Option-cases r.store_after) [
  | inl e ↦ absurd (ground (arith, e))
  | inr (now, e) ↦ (
    now,
    e,
    record {
      owned = ground (arith, e);
      permitted = starts-permitted r step (ground (arith, e));
      verified = ground (arith, e);
      owned_after = ground (arith, e);
      saved = ground (arith, e);
    },
    is_current-IsCurrent state t now (ground (arith, e)),
    (ground (arith, e), ground (arith, e)),
  )
]

-- Where the loop reaches its end, every step was carried out, in order.
pub advance_steps-Carried :
    (steps : List Step) (rounds : List Round) (store : Store) (state : AuthorityState)
    (t : Transition) (final : AuthorityState)
    → (advance_steps steps rounds store state t).0 ≡ ended final
    → ((advance_steps steps rounds store state t).1 ≡ steps) × Carried steps rounds state t
unfolding advance_steps after_step
advance_steps-Carried [] rounds store state t final h = (ground arith, tt)
advance_steps-Carried (step ∷ rest) [] store state t final h = absurd (ground (arith, h))
advance_steps-Carried (step ∷ rest) (r ∷ rounds) store state t final h =
    let (now, e, went, same, (go_on, whole)) =
      advance_steps_round step rest r rounds store state t final h in
    let next : AuthorityState = after_step now t step rest true in
    let (done, more) =
      advance_steps-Carried rest rounds (some next) next (with_steps t rest) final go_on in
    (whole ∙ ap (◌∷◌ step) done, (went, now, e, same, more))

pub advance_steps-target :
    (steps : List Step) (rounds : List Round) (store : Store) (state : AuthorityState)
    (t u : Transition) (final : AuthorityState)
    → state.transition ≡ some u
    → u.target ≡ t.target
    → (advance_steps steps rounds store state t).0 ≡ ended final
    → (v : Transition) × (final.transition ≡ some v) × (v.target ≡ t.target)
unfolding advance_steps after_step
advance_steps-target [] rounds store state t u final m g h = (u, ground (arith, m, h), g)
advance_steps-target (step ∷ rest) [] store state t u final m g h = absurd (ground (arith, h))
advance_steps-target (step ∷ rest) (r ∷ rounds) store state t u final m g h =
    let (now, _, _, _, (go_on, _)) = advance_steps_round step rest r rounds store state t final h in
    let next : AuthorityState = after_step now t step rest true in
    advance_steps-target rest rounds (some next) next (with_steps t rest) (with_steps t rest) final
      refl refl go_on

-- Other tasks leave the committed mode alone while a step runs.
abbrev pub HasMode : OperatingMode → Store → Type 0
HasMode m none = Unit
HasMode m (some s) = s.committed_mode ≡ m

abbrev pub Leaves : OperatingMode → List Round → Type 0
Leaves m = All (λ r. HasMode m r.store_after)

abbrev LoopMode : OperatingMode → Loop → Type 0
LoopMode m (stopped store) = HasMode m store
LoopMode m (ended state) = state.committed_mode ≡ m
LoopMode m waiting = Unit

advance_steps-LoopMode :
    (m : OperatingMode) (steps : List Step) (rounds : List Round) (state : AuthorityState)
    (t : Transition)
    → state.committed_mode ≡ m
    → Leaves m rounds
    → LoopMode m (advance_steps steps rounds (some state) state t).0
unfolding advance_steps after_step
advance_steps-LoopMode m [] rounds state t h l = h
advance_steps-LoopMode m (step ∷ rest) [] state t h l = tt
advance_steps-LoopMode m (step ∷ rest) (r ∷ rounds) state t h l =
    elim (Option-cases r.store_after) [
      | inl e ↦ ground (arith, e, h)
      | inr (now, e) ↦
          let now_mode : now.committed_mode ≡ m = rw e at l.0 in
          let next : AuthorityState = after_step now t step rest r.verified in
          ground (
            arith,
            e,
            h,
            now_mode,
            advance_steps-LoopMode m rest rounds next (with_steps t rest) now_mode l.1,
          )
    ]

pub Loop-cases :
    (l : Loop)
    → ((s : Store) × (l ≡ stopped s))
      ⊎ ((state : AuthorityState) × (l ≡ ended state))
      ⊎ (l ≡ waiting)
Loop-cases (stopped s) = inl (s, refl)
Loop-cases (ended state) = inr (inl (state, refl))
Loop-cases waiting = inr (inr refl)

stopped_mode :
    (can_run : Bool) (rounds : List Round) (finished : Bool) (state : AuthorityState)
    (t : Transition) (next : AuthorityState) (s : Store)
    → state.transition ≡ some t
    → (advance_steps t.steps rounds (some state) state t).0 ≡ stopped s
    → HasMode state.committed_mode s
    → (advance can_run rounds finished (some state)).0 ≡ some next
    → next.committed_mode ≢ state.committed_mode
    → ⊥
unfolding advance
stopped_mode can_run rounds finished state t next none moving e m h ne = ground (arith, ne)
stopped_mode can_run rounds finished state t next (some s) moving e m h ne = ground (arith, ne)

-- While other tasks leave the committed mode alone, `_advance` changes it only by a whole handover:
-- if it leaves a state whose mode is not the old one, then the installation was ready and owned the
-- site, the mode is the target of the transition, no transition is left, the last save was verified,
-- and every step of the transition was carried out in order: with ownership before and after it, with
-- the permission that it needs, verified by the writer, with the transition still current in the
-- store, and saved.
pub advance_claims :
    (can_run : Bool) (rounds : List Round) (finished : Bool) (state : AuthorityState)
    (t : Transition) (next : AuthorityState)
    → state.transition ≡ some t
    → Leaves state.committed_mode rounds
    → (advance can_run rounds finished (some state)).0 ≡ some next
    → next.committed_mode ≢ state.committed_mode
    → (can_run ≡ true)
      × (next.committed_mode ≡ t.target)
      × (next.transition ≡ none)
      × (finished ≡ true)
      × ((advance can_run rounds finished (some state)).1 ≡ t.steps)
      × Carried t.steps rounds state t
unfolding advance finish
advance_claims can_run rounds finished state t next moving leaves h ne =
    let run = advance_steps t.steps rounds (some state) state t in
    let kept = advance_steps-LoopMode state.committed_mode t.steps rounds state t refl leaves in
    elim (Loop-cases run.0) [
      | inl (s, e) ↦
          let at_stop : LoopMode state.committed_mode (stopped s) = rw e at kept in
          absurd (stopped_mode can_run rounds finished state t next s moving e at_stop h ne)
      | inr (inl (final, e)) ↦
          let (done, carried) = advance_steps-Carried t.steps rounds (some state) state t final e in
          let (v, still, target) =
            advance_steps-target t.steps rounds (some state) state t t final moving refl e in
          let at_end : final.committed_mode ≡ state.committed_mode = rw e at kept in
          (
            ground (arith, moving, e, h, ne, still, target, at_end),
            ground (arith, moving, e, h, ne, still, target, at_end),
            ground (arith, moving, e, h, ne, still, target, at_end),
            ground (arith, moving, e, h, ne, still, target, at_end),
            ground (arith, moving, e, h, ne, still, target, at_end, done),
            carried,
          )
      | inr (inr e) ↦ absurd (ground (arith, moving, e, h, ne))
    ]

IsCurrent-is_current :
    (state : AuthorityState) (t : Transition) (now : AuthorityState)
    → IsCurrent state t now
    → is_current state t now ≡ true
unfolding is_current
IsCurrent-is_current state t now h = ground (
  arith,
  h.transition,
  (decide_iff (ℕ_discrete now.store_id state.store_id)).1 h.store_id,
  (decide_iff (ℕ_discrete now.epoch state.epoch)).1 h.epoch,
  (decide_iff (Transition-discrete t t)).1 refl,
)

IsRound-starts : (step : Step) (r : Round) → IsRound step r → starts r step ≡ true
IsRound-starts step r h = elim h.permitted [
  | inl e ↦ ground (arith, e, h.owned)
  | inr e ↦ ground (arith, e, h.owned)
]

advance_steps-done :
    (steps : List Step) (rounds : List Round) (state : AuthorityState) (t : Transition)
    → Carried steps rounds state t
    → (final : AuthorityState) × (advance_steps steps rounds (some state) state t
        ≡ (ended final, steps))
unfolding advance_steps after_step
advance_steps-done [] rounds state t h = (state, refl)
advance_steps-done (step ∷ rest) [] state t h = elim h [ ]
advance_steps-done (step ∷ rest) (r ∷ rounds) state t (went, now, e, same, more) =
    let next : AuthorityState = after_step now t step rest true in
    let (final, done) = advance_steps-done rest rounds next (with_steps t rest) more in
    (
      final,
      ground (
        arith,
        e,
        done,
        IsRound-starts step r went,
        IsCurrent-is_current state t now same,
        went.verified,
        went.owned_after,
        went.saved,
      ),
    )

-- When the installation owns the site, has a writer and is ready, the committed mode is not Observe,
-- every step is carried out in the sense above (the permission that it needs and every save included)
-- and the last save is verified, `_advance` executes all the steps, however many they are and whatever
-- else other tasks change meanwhile, and leaves the target committed and no transition.
pub advance_completes :
    (rounds : List Round) (state : AuthorityState) (t : Transition)
    → state.transition ≡ some t
    → state.committed_mode ≢ OperatingMode.observe
    → Carried t.steps rounds state t
    → (next : AuthorityState) × (advance true rounds true (some state) ≡ (some next, t.steps))
      × (next.committed_mode ≡ t.target)
      × (next.transition ≡ none)
unfolding advance finish
advance_completes rounds state t m active carried =
    let (final, e) = advance_steps-done t.steps rounds state t carried in
    let (v, still, target) =
      advance_steps-target t.steps rounds (some state) state t t final m refl
        (ap (λ (p : Loop × List Step). p.0) e) in
    (finish final v, ground (arith, m, active, e, still), target, refl)
