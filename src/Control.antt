-- ===== src/Control.antt =====
-- custom_components/ha_spark/authority_control.py: the execution of a transition, step by step.
-- Other tasks run while a call waits, so the answers of a wait are arguments: whether this
-- installation still owns the site, what the store then holds, and whether a save was verified. A
-- store whose save fails exposes no state (`AuthorityStore.state`).
pub mod Handover
pub mod Bound
pub mod Startup
mod Examples
use ha_spark.Prelude.{
  ℕ, suc, ◌+◌, ◌*◌, Bool, true, false, not, ◌&&◌, ◌||◌, Option, none, some, List, [], ◌∷◌, leb,
  if◌then◌else◌, is_some, is_none, String, str_eq,
}
use mathlib.Core.Bool.{decide}
use ha_spark.Authority.{
  Instant, second, OperatingMode, Step, verify_fresh_plan, write_fallback, cancel_export,
  Transition, FallbackState, no_fallback, RequesterKind, system, AuthorityState,
}
use ha_spark.Authority.Equality.{same_state, Transition-discrete}
use ha_spark.Deadline.{Zone, Duration, one_hour}
use ha_spark.Transitions.{
  Preconditions, Target, resume, TransitionRequest, Decision, granted, refused, raised,
  transition_in_progress, authority_unknown, not_owner, is_mode, propose_transition,
}

abbrev pub Store : Type 0
Store = Option AuthorityState

-- `async_save`, with its verdict: a failed save publishes `save_failed` or `unknown`.
abbrev pub save : Bool → AuthorityState → Store
save true candidate = some candidate
save false candidate = none

-- The fields of the controller that the calls below read.
pub record Control : Type 0 where
  pub ready : Bool
  pub startup_complete : Bool
  pub grace_until : Option Instant

abbrev past_grace : Option Instant → Instant → Bool
past_grace none now = false
past_grace (some grace) now = leb grace now

unfoldable pub permits_non_protection : Control → Bool → Store → Instant → Bool
permits_non_protection c owned store now =
    owned && is_some store && c.ready && past_grace c.grace_until now

abbrev pub needs_permission : Step → Bool
needs_permission verify_fresh_plan = true
needs_permission write_fallback = true
needs_permission cancel_export = true
needs_permission _ = false

-- The answers of one round of the loop of `_advance`: ownership and permission before the step, the
-- writer's verdict (an exception is `false`), then ownership, the store, and the save's verdict.
pub record Round : Type 0 where
  pub owned : Bool
  pub permits : Bool
  pub verified : Bool
  pub owned_after : Bool
  pub store_after : Store
  pub saved : Bool

abbrev same_transition : Option Transition → Transition → Bool
same_transition none t = false
same_transition (some u) t = decide (Transition-discrete u t)

-- The store after the step still holds this transition, in this epoch.
pub is_current : AuthorityState → Transition → AuthorityState → Bool
is_current state t current =
    decide (native.Mathlib.Decide.ℕ_discrete current.store_id state.store_id)
    && decide (native.Mathlib.Decide.ℕ_discrete current.epoch state.epoch)
    && same_transition current.transition t

-- The candidate after a step: a verified one leaves the list, another is recorded as failing.
pub after_step : AuthorityState → Transition → Step → List Step → Bool → AuthorityState
after_step current t step rest verified = record current {
  transition = some (record t {
    steps = if verified then rest else t.steps;
    failing_actions = if verified then [] else step ∷ [];
  });
}

-- The checks before the step: ownership, and the permission that a non-protection step needs. Within
-- the loop the store holds `state`.
abbrev pub starts : Round → Step → Bool
starts r step = r.owned && (not (needs_permission step) || r.permits)

-- How the loop ends: by a `return`, with the store as it then is; by its condition, with the state
-- reached; or not yet, where it waits for more answers.
pub data Loop : Type 0 where
  stopped : Store → Loop
  ended : AuthorityState → Loop
  waiting : Loop

-- The loop of `_advance` over the steps of the transition `t` of `state`, with the steps that were
-- executed and verified. Each round uses one set of answers; `t.steps` is the list matched on.
pub advance_steps : List Step → List Round → Store → AuthorityState → Transition → Loop × List Step
advance_steps [] rounds store state t = (ended state, [])
advance_steps (step ∷ rest) [] store state t = (waiting, [])
advance_steps (step ∷ rest) (r ∷ rounds) store state t = elim r.store_after [
  | none ↦ (stopped (if starts r step then none else store), [])
  | some current ↦
      let candidate = after_step current t step rest r.verified in
      let t' = record t { steps = rest; failing_actions = [] } in
      let (outcome, done) = advance_steps rest rounds (some candidate) candidate t' in
      if not (starts r step)
      then (stopped store, [])
      else if not (r.owned_after && is_current state t current)
      then (stopped (some current), [])
      else if r.saved && r.verified
      then (outcome, step ∷ done)
      else (stopped (save r.saved candidate), [])
]

-- The state that claims the verified handover.
pub finish : AuthorityState → Transition → AuthorityState
finish state t =
    let ends_fallback =
      state.fallback.active
      && is_none state.manual_session
      && not (is_mode t.target OperatingMode.optimise) in
    record state {
      committed_mode = t.target;
      transition = none;
      fallback = if ends_fallback then no_fallback else state.fallback;
      epoch = if ends_fallback then suc state.epoch else state.epoch;
    }

abbrev finish_loop : Bool → Transition → Loop × List Step → Store × List Step
finish_loop saved t (stopped store, done) = (store, done)
finish_loop saved t (waiting, done) = (none, done)
finish_loop saved t (ended state, done) =
    (elim state.transition [ none ↦ some state | some u ↦ save saved (finish state u) ], done)

-- `_advance`: the store that it leaves, and the steps executed and verified. `can_run` says that the
-- installation owns the site, has a writer and is ready; `finished` is the verdict of the last save.
pub advance : Bool → List Round → Bool → Store → Store × List Step
advance can_run rounds finished none = (none, [])
advance can_run rounds finished (some state) = elim state.transition [
  | none ↦ (some state, [])
  | some t ↦
      if can_run && not (is_mode state.committed_mode OperatingMode.observe)
      then finish_loop finished t (advance_steps t.steps rounds (some state) state t)
      else (some state, [])
]

-- The answers of one `async_request`: ownership, the barrier (`true` also where there is none), then
-- ownership and the store once more, and the save's verdict.
pub record RequestAnswers : Type 0 where
  pub owned : Bool
  pub barrier : Bool
  pub owned_after : Bool
  pub store_after : Store
  pub saved : Bool

-- `store != before`, of two optional states.
abbrev same_store : Store → Store → Bool
same_store none none = true
same_store (some a) (some b) = same_state a b
same_store _ _ = false

abbrev had_session : Store → Bool
had_session none = false
had_session (some state) = is_some state.manual_session

abbrev sets_mode : Target → Bool
sets_mode Target.protect = true
sets_mode Target.optimise = true
sets_mode _ = false

-- What a request returns: a decision, or whatever state the store holds in the end.
pub data Reply : Type 0 where
  decided : Decision → Reply
  current : Store → Reply

-- From the barrier on: the reply, the store, and the steps carried out.
-- The hooks `manual_started` and `manual_resumed` notify other parts and leave the store alone.
pub commit :
    RequestAnswers
    → Bool
    → List Round
    → Bool
    → Target
    → Store
    → AuthorityState
    → Reply × Store × List Step
commit a can_run rounds finished target before candidate =
    if not a.barrier
    then (decided (refused transition_in_progress []), before, [])
    else if not (a.owned_after && same_store a.store_after before)
    then (decided (refused authority_unknown []), a.store_after, [])
    else if not a.saved
    then (decided (refused authority_unknown []), none, [])
    else if had_session before && sets_mode target
    then (current (some candidate), some candidate, [])
    else (let (store, done) = advance can_run rounds finished (some candidate) in
        (current store, store, done))

pub async_request :
    RequestAnswers
    → Bool
    → List Round
    → Bool
    → Store
    → TransitionRequest
    → Preconditions
    → Instant
    → Zone
    → ℕ
    → Reply × Store × List Step
unfolding commit
async_request a can_run rounds finished store request report now zone at =
    if not a.owned
    then (decided (refused not_owner []), store, [])
    else elim (propose_transition store request report now zone at) [
      | refused why reasons ↦ (decided (refused why reasons), store, [])
      | raised ↦ (decided raised, store, [])
      | granted candidate ↦
          if same_store (some candidate) store
          then (decided (granted candidate), store, [])
          else commit a can_run rounds finished request.target store candidate
    ]

-- The stages of `async_start`.
pub data Stage : Type 0 where
  connect read_device_state read_evidence reconcile_holds reconcile_export : Stage

abbrev pub stages : List Stage
stages = connect ∷ read_device_state ∷ read_evidence ∷ reconcile_holds ∷ reconcile_export ∷ []

abbrev reconciles : Stage → Bool
reconciles reconcile_holds = true
reconciles reconcile_export = true
reconciles _ = false

-- The answers before and in one stage; an exception of the writer is `false`.
pub record StageAnswers : Type 0 where
  pub owned : Bool
  pub store : Store
  pub succeeded : Bool

abbrev stage_passes : Stage → StageAnswers → Bool
stage_passes stage a = elim a.store [
  | none ↦ false
  | some state ↦
      a.owned
      && ((reconciles stage && is_mode state.committed_mode OperatingMode.observe) || a.succeeded)
]

-- The loop over the stages: whether it reaches its end.
pub run_stages : List Stage → (Stage → StageAnswers) → Bool
run_stages [] answers = true
run_stages (stage ∷ rest) answers = stage_passes stage (answers stage) && run_stages rest answers

abbrev pub grace : ℕ
grace = 120 * second

-- `async_start`; `now` is read after the stages, and after the expiry that runs then.
pub async_start : Bool → Bool → Store → (Stage → StageAnswers) → Instant → Control
unfolding run_stages
async_start owned has_writer store answers now =
    if owned && is_some store && has_writer && run_stages stages answers
    then record { ready = true; startup_complete = true; grace_until = some (now + grace) }
    else record { ready = false; startup_complete = false; grace_until = none }

abbrev is_due : Option Instant → Instant → Bool
is_due none now = false
is_due (some deadline) now = leb deadline now

-- Whether `async_expire` requests `resume`.
pub expires : Control → Store → Instant → Bool
expires c none now = false
expires c (some state) now = elim state.manual_session [
  | none ↦ false
  | some session ↦ c.startup_complete && is_due session.deadline now
]

abbrev differ : Bool → Bool → Bool
differ true b = not b
differ false b = b

-- The candidate of `async_fallback_held`.
pub with_fallback : AuthorityState → FallbackState → Instant → AuthorityState
with_fallback state fallback now = record state {
  fallback = fallback;
  epoch = if differ fallback.active state.fallback.active then suc state.epoch else state.epoch;
  last_changed_at = now;
  export_supervisions = if fallback.active then [] else state.export_supervisions;
}

pub async_fallback : Bool → Bool → Store → FallbackState → Instant → Store × Bool
unfolding with_fallback
async_fallback owned saved none fallback now = (none, false)
async_fallback owned saved (some state) fallback now =
    if owned then (save saved (with_fallback state fallback now), saved) else (some state, false)

abbrev is_session : Option String → String → Bool
is_session none id = false
is_session (some s) id = str_eq s id

pub with_session : AuthorityState → String → Instant → AuthorityState
with_session state id now = record state {
  addon_session_id = some id;
  epoch = suc state.epoch;
  last_changed_at = now;
}

pub async_new_session : Bool → Bool → Store → String → Instant → Store × Bool
unfolding with_session
async_new_session owned saved none id now = (none, false)
async_new_session owned saved (some state) id now =
    if not owned
    then (some state, false)
    else if is_session state.addon_session_id id
    then (some state, true)
    else (save saved (with_session state id now), saved)
