-- ===== src/Transitions/Entry.antt =====
-- What a proposal asks for on the way in, and what it promises on the way out.
use ha_spark.Prelude.{
  ◌≡◌, ◌≢◌, ◌⊎◌, true, false, Option, none, some, List, [], ◌∷◌, arith, ◌∙◌, refl, inl, inr, ℕ,
}
use ha_spark.Authority.{
  Instant, OperatingMode, Step, Transition, AuthorityState, write_fallback, cancel_export,
  release_holds,
}
use ha_spark.Deadline.{Zone}
use ha_spark.Transitions.{
  devices_validated, evidence_configured, limits_confirmed, fallback_valid, live_session,
  soc_trusted, soc_recovered, to_observe, observe_steps, transition_of, target_is_observe,
  Preconditions, Target, TransitionRequest, granted, is_stale, propose_transition,
}

pub record IsProtectable (report : Preconditions) : Type 0 where
  pub devices : report devices_validated ≡ true
  pub evidence : report evidence_configured ≡ true
  pub limits : report limits_confirmed ≡ true

pub record IsReady (report : Preconditions) : Type 0 where
  pub protectable : IsProtectable report
  pub fallback : report fallback_valid ≡ true
  pub session : report live_session ≡ true
  pub trusted : report soc_trusted ≡ true
  pub recovered : report soc_recovered ≡ true

-- Without a manual session, a proposal commits Optimise from another mode only if all seven
-- preconditions hold; and it leaves Observe only if the three for protection hold.
pub propose_preconditions :
    (state : AuthorityState) (request : TransitionRequest) (report : Preconditions) (now : Instant)
    (zone : Zone) (at : ℕ) {next : AuthorityState}
    → state.manual_session ≡ none
    → propose_transition (some state) request report now zone at ≡ granted next
    → (next.committed_mode ≡ OperatingMode.optimise
        → (state.committed_mode ≡ OperatingMode.optimise) ⊎ IsReady report)
      × (state.committed_mode ≡ OperatingMode.observe
          → next.committed_mode ≢ OperatingMode.observe
          → IsProtectable report)
unfolding propose_transition
propose_preconditions state request report now zone at m h =
    (λ o. ground arith, λ o n. ground arith)

-- In Observe with no transition, or on the way to it.
abbrev pub Observes : AuthorityState → Type 0
Observes state =
    ((state.committed_mode ≡ OperatingMode.observe) × (state.transition ≡ none))
    ⊎ ((t : Transition) × (state.transition ≡ some t) × (t.target ≡ OperatingMode.observe))

abbrev pub Hands : AuthorityState → List Step → Type 0
Hands state steps =
    (t : Transition) × (state.transition ≡ some t)
    × (t.target ≡ OperatingMode.observe)
    × (t.steps ≡ steps)

observe_next : AuthorityState → TransitionRequest → Instant → AuthorityState
observe_next state request now = elim (to_observe state request now) [
  | granted next ↦ next
  | _ ↦ state
]

observe_transition : AuthorityState → Instant → Transition
observe_transition state now = record {
  target = OperatingMode.observe;
  started_at = now;
  steps = observe_steps state;
  failing_actions = [];
}

to_observe-granted :
    (state : AuthorityState) (request : TransitionRequest) (now : Instant)
    → to_observe state request now ≡ granted (observe_next state request now)
unfolding to_observe observe_next
to_observe-granted state request now = ground arith

target_observe :
    (o : Option Transition)
    → target_is_observe o ≡ true
    → (t : Transition) × (o ≡ some t) × (t.target ≡ OperatingMode.observe)
target_observe none h = absurd (ground (arith, h))
target_observe (some t) h = (t, refl, ground (arith, h))

transition_of-observe :
    (state : AuthorityState) (now : Instant)
    → transition_of OperatingMode.observe (observe_steps state) now
      ≡ some (observe_transition state now)
unfolding observe_steps observe_transition
transition_of-observe state now = ground arith

-- The three ways that `to_observe` takes.
to_observe_cases :
    (state : AuthorityState) (request : TransitionRequest) (now : Instant)
    → let next = observe_next state request now in
      ((state.committed_mode ≡ OperatingMode.observe) × (state.transition ≡ none) × (next ≡ state))
      ⊎ ((target_is_observe state.transition ≡ true) × (next ≡ state))
      ⊎ ((next.transition ≡ transition_of OperatingMode.observe (observe_steps state) now)
          × (next.committed_mode ≡ state.committed_mode))
unfolding to_observe observe_next observe_steps
to_observe_cases state request now = ground arith

to_observe-Observes :
    (state : AuthorityState) (request : TransitionRequest) (now : Instant)
    → Observes (observe_next state request now)
to_observe-Observes state request now = elim (to_observe_cases state request now) [
  | inl (m, t, e) ↦ rw e (inl (m, t))
  | inr (inl (t, e)) ↦ rw e (inr (target_observe state.transition t))
  | inr (inr (t, m)) ↦ inr (
    observe_transition state now,
    t ∙ transition_of-observe state now,
    unfold observe_transition in refl,
  )
]

to_observe-Hands :
    (state : AuthorityState) (request : TransitionRequest) (now : Instant)
    → state.manual_session ≡ none
    → state.committed_mode ≡ OperatingMode.optimise
    → target_is_observe state.transition ≡ false
    → Hands (observe_next state request now) (cancel_export ∷ write_fallback ∷ release_holds ∷ [])
      × ((observe_next state request now).committed_mode ≡ OperatingMode.optimise)
to_observe-Hands state request now manual mode moving = elim (to_observe_cases state request now) [
  | inl (m, t, e) ↦ ground (arith, m, mode)
  | inr (inl (t, e)) ↦ ground (arith, t, moving)
  | inr (inr (t, m)) ↦ (
    (
      observe_transition state now,
      t ∙ transition_of-observe state now,
      unfold observe_transition in refl,
      unfold observe_transition observe_steps in ground (arith, manual, mode),
    ),
    m ∙ mode,
  )
]

-- A request for Observe whose epoch is not stale is never refused: the state that it grants is in
-- Observe with no transition, or on the way there. From Optimise, with no manual session and not yet
-- on the way, that way cancels the export, writes the fallback and releases the holds, in this
-- order, and Optimise stays committed meanwhile.
pub propose_observe :
    (state : AuthorityState) (request : TransitionRequest) (report : Preconditions) (now : Instant)
    (zone : Zone) (at : ℕ)
    → request.target ≡ Target.observe
    → is_stale request state ≡ false
    → (next : AuthorityState) × (propose_transition (some state) request report now zone at
        ≡ granted next)
      × Observes next
      × (state.manual_session ≡ none
          → state.committed_mode ≡ OperatingMode.optimise
          → target_is_observe state.transition ≡ false
          → Hands next (cancel_export ∷ write_fallback ∷ release_holds ∷ [])
            × (next.committed_mode ≡ OperatingMode.optimise))
unfolding propose_transition
propose_observe state request report now zone at t s = (
  observe_next state request now,
  simp (s, t) (to_observe-granted state request now),
  to_observe-Observes state request now,
  to_observe-Hands state request now,
)
