-- ===== src/Transitions.antt =====
-- custom_components/ha_spark/transitions.py: native authority proposals, each by the part of
-- `propose_transition` that makes it. A `ValueError` of `manual_deadline` is `raised`.
pub mod Fence
pub mod Entry
pub mod Supervision
mod Examples
use ha_spark.Prelude.{
  ℕ, suc, ◌+◌, Bool, true, false, not, ◌&&◌, ◌||◌, Option, none, some, List, [], ◌∷◌, ◌++◌, ◌==◌,
  if◌then◌else◌, is_some, is_none, any, keep,
}
use ha_spark.Authority.{
  Instant, OperatingMode, Step, verify_fresh_plan, write_fallback, evaluate_protection,
  cancel_export, release_holds, Transition, ActiveMode, to_protect, to_optimise, mode_of,
  ManualSession, FallbackCause, RequesterKind, cli, ingress, AuthorityState,
}
use ha_spark.Deadline.{Zone, Duration, Deadline, manual_deadline}

pub data Precondition : Type 0 where
  devices_validated evidence_configured limits_confirmed : Precondition
  fallback_valid live_session soc_trusted soc_recovered : Precondition

-- `Preconditions`, as the function that `getattr` reads.
abbrev pub Preconditions : Type 0
Preconditions = Precondition → Bool

abbrev entry_names : Bool → List Precondition
entry_names false = devices_validated ∷ evidence_configured ∷ limits_confirmed ∷ []
entry_names true =
    devices_validated ∷ evidence_configured ∷ limits_confirmed ∷ fallback_valid ∷ live_session
    ∷ soc_trusted ∷ soc_recovered ∷ []

pub unmet : Preconditions → Bool → List Precondition
unmet report optimise? = keep (λ name. not (report name)) (entry_names optimise?)

pub data Target : Type 0 where
  observe protect optimise manual resume : Target

-- `user_id` is not read here.
pub record TransitionRequest : Type 0 where
  pub target : Target
  pub expected_epoch : Option ℕ
  pub requester_kind : RequesterKind
  pub duration : Duration
  pub keep_protection : Bool

pub data Refusal : Type 0 where
  authority_unknown stale_epoch transition_in_progress not_in_active_mode : Refusal
  no_manual_session preconditions_unmet not_owner : Refusal

pub data Decision : Type 0 where
  granted : AuthorityState → Decision
  refused : Refusal → List Precondition → Decision
  raised : Decision

abbrev needs_epoch : RequesterKind → Bool
needs_epoch cli = true
needs_epoch ingress = true
needs_epoch _ = false

abbrev matches : Option ℕ → ℕ → Bool
matches none epoch = false
matches (some e) epoch = e == epoch

pub is_stale : TransitionRequest → AuthorityState → Bool
is_stale request state =
    (is_some request.expected_epoch || needs_epoch request.requester_kind)
    && not (matches request.expected_epoch state.epoch)

abbrev same_active : ActiveMode → ActiveMode → Bool
same_active to_protect to_protect = true
same_active to_optimise to_optimise = true
same_active _ _ = false

abbrev pub is_mode : OperatingMode → OperatingMode → Bool
is_mode OperatingMode.observe OperatingMode.observe = true
is_mode OperatingMode.protect OperatingMode.protect = true
is_mode OperatingMode.optimise OperatingMode.optimise = true
is_mode _ _ = false

abbrev pub is_cancel : Step → Bool
is_cancel cancel_export = true
is_cancel _ = false

-- What a branch has computed when it reaches the end of the function.
pub record Plan : Type 0 where
  pub mode : OperatingMode
  pub manual : Option ManualSession
  pub steps : List Step
  pub target : OperatingMode

abbrev pub transition_of : OperatingMode → List Step → Instant → Option Transition
transition_of target [] now = none
transition_of target (s ∷ steps) now =
    some (record { target = target; started_at = now; steps = s ∷ steps; failing_actions = [] })

pub leaves_optimise : Plan → Bool
leaves_optimise plan = any is_cancel plan.steps || not (is_mode plan.mode OperatingMode.optimise)

-- The `return` at the end of the function.
pub grant : AuthorityState → TransitionRequest → Plan → Instant → AuthorityState
unfolding leaves_optimise
grant state request plan now = record state {
  committed_mode = plan.mode;
  manual_session = plan.manual;
  transition = transition_of plan.target plan.steps now;
  epoch = suc state.epoch;
  last_changed_at = now;
  requester_kind = request.requester_kind;
  export_supervisions = if leaves_optimise plan then [] else state.export_supervisions;
}

-- A manual session is on, and the target is the mode to return to.
pub retarget : AuthorityState → TransitionRequest → ManualSession → ActiveMode → Instant → Decision
retarget state request session target now =
    if same_active target session.return_to
    then granted state
    else granted (record state {
      manual_session = some (record session { return_to = target });
      epoch = suc state.epoch;
      last_changed_at = now;
      requester_kind = request.requester_kind;
    })

manual_plan : OperatingMode → ActiveMode → Bool → Option Instant → Plan
manual_plan mode return_to keep_protection deadline = record {
  mode = mode;
  manual =
      some
        (record { deadline = deadline; return_to = return_to; keep_protection = keep_protection });
  steps =
      (if is_mode mode OperatingMode.optimise then cancel_export ∷ [] else [])
      ++ (if keep_protection then [] else release_holds ∷ []);
  target = mode;
}

begin_manual : AuthorityState → TransitionRequest → ActiveMode → Deadline → Instant → Decision
unfolding grant manual_plan
begin_manual state request return_to Deadline.invalid now = raised
begin_manual state request return_to Deadline.never now = granted (
    grant state request (manual_plan state.committed_mode return_to request.keep_protection none)
      now)
begin_manual state request return_to (Deadline.until at) now = granted (
    grant state request
      (manual_plan state.committed_mode return_to request.keep_protection (some at)) now)

abbrev active_of : OperatingMode → Option ActiveMode
active_of OperatingMode.observe = none
active_of OperatingMode.protect = some to_protect
active_of OperatingMode.optimise = some to_optimise

pub start_manual : AuthorityState → TransitionRequest → Instant → Zone → ℕ → Decision
unfolding begin_manual
start_manual state request now zone at =
    if is_some state.manual_session
    then refused not_in_active_mode []
    else elim (active_of state.committed_mode) [
      | none ↦ refused not_in_active_mode []
      | some return_to ↦
          begin_manual state request return_to (manual_deadline request.duration now zone at) now
    ]

abbrev resume_steps : ActiveMode → List FallbackCause → List Step
resume_steps to_protect causes = evaluate_protection ∷ []
resume_steps to_optimise [] = verify_fresh_plan ∷ []
resume_steps to_optimise (c ∷ causes) = write_fallback ∷ []

pub end_manual : AuthorityState → TransitionRequest → Option ManualSession → Instant → Decision
unfolding grant
end_manual state request none now = refused no_manual_session []
end_manual state request (some session) now = granted (
    grant state request
      (record {
        mode = mode_of session.return_to;
        manual = none;
        steps = resume_steps session.return_to state.fallback.causes;
        target = mode_of session.return_to;
      })
      now)

abbrev target_is_observe : Option Transition → Bool
target_is_observe none = false
target_is_observe (some t) = is_mode t.target OperatingMode.observe

abbrev cancels : Option Transition → Bool
cancels none = false
cancels (some t) = any is_cancel t.steps

pub observe_steps : AuthorityState → List Step
observe_steps state =
    (if is_none state.manual_session && is_mode state.committed_mode OperatingMode.optimise
      then cancel_export ∷ write_fallback ∷ []
      else if cancels state.transition
      then cancel_export ∷ []
      else [])
    ++ (release_holds ∷ [])

pub to_observe : AuthorityState → TransitionRequest → Instant → Decision
unfolding grant observe_steps
to_observe state request now =
    if (is_mode state.committed_mode OperatingMode.observe && is_none state.transition)
      || target_is_observe state.transition
    then granted state
    else granted (
        grant state request
          (record {
            mode = state.committed_mode;
            manual = none;
            steps = observe_steps state;
            target = OperatingMode.observe;
          })
          now)

abbrev is_empty {ℓ} : {A : Type ℓ} → List A → Bool
is_empty [] = true
is_empty (x ∷ xs) = false

entry_plan : OperatingMode → ActiveMode → Plan
entry_plan mode to_optimise = record {
  mode = OperatingMode.optimise;
  manual = none;
  steps = verify_fresh_plan ∷ [];
  target = OperatingMode.optimise;
}
entry_plan OperatingMode.optimise to_protect = record {
  mode = OperatingMode.optimise;
  manual = none;
  steps = cancel_export ∷ write_fallback ∷ [];
  target = OperatingMode.protect;
}
entry_plan _ to_protect = record {
  mode = OperatingMode.protect;
  manual = none;
  steps = evaluate_protection ∷ [];
  target = OperatingMode.protect;
}

abbrev is_optimise : ActiveMode → Bool
is_optimise to_optimise = true
is_optimise to_protect = false

entry_failures : AuthorityState → Preconditions → ActiveMode → List Precondition
entry_failures state report target =
    if is_optimise target || is_mode state.committed_mode OperatingMode.observe
    then unmet report (is_optimise target)
    else []

-- The last branch: Protect or Optimise, with no manual session.
pub to_active : AuthorityState → TransitionRequest → Preconditions → ActiveMode → Instant → Decision
unfolding grant entry_plan entry_failures unmet
to_active state request report target now =
    let failures = entry_failures state report target in
    if is_mode state.committed_mode (mode_of target) && is_none state.transition
    then granted state
    else if is_empty failures
    then granted (grant state request (entry_plan state.committed_mode target) now)
    else refused preconditions_unmet failures

-- A target that an ongoing transition refuses.
abbrev unless_moving : AuthorityState → Decision → Decision
unless_moving state d = if is_some state.transition then refused transition_in_progress [] else d

pub set_active :
    AuthorityState → TransitionRequest → Preconditions → ActiveMode → Instant → Decision
unfolding retarget to_active
set_active state request report target now = elim state.manual_session [
  | none ↦ unless_moving state (to_active state request report target now)
  | some session ↦ retarget state request session target now
]

pub dispatch :
    Target → AuthorityState → TransitionRequest → Preconditions → Instant → Zone → ℕ → Decision
unfolding set_active start_manual end_manual to_observe
dispatch Target.protect state request report now zone at =
    set_active state request report to_protect now
dispatch Target.optimise state request report now zone at =
    set_active state request report to_optimise now
dispatch Target.manual state request report now zone at = start_manual state request now zone at
dispatch Target.resume state request report now zone at =
    unless_moving state (end_manual state request state.manual_session now)
dispatch Target.observe state request report now zone at = to_observe state request now

unfoldable pub propose_transition :
    Option AuthorityState → TransitionRequest → Preconditions → Instant → Zone → ℕ → Decision
unfolding dispatch is_stale
propose_transition none request report now zone at = refused authority_unknown []
propose_transition (some state) request report now zone at =
    if is_stale request state
    then refused stale_epoch []
    else dispatch request.target state request report now zone at
