-- ===== src/Control/Examples.antt =====
-- A handover from Optimise to Protect on the sample site, and a start-up.
use ha_spark.Prelude.{◌*◌, ◌≡◌, ◌≢◌, refl, inr, ◌∷◌, true, some, none, [], ap, arith, List}
use ha_spark.Authority.{
  second, OperatingMode, Step, cancel_export, write_fallback, AuthorityState, RequesterKind,
  FallbackState,
}
use ha_spark.Authority.Samples.{site, leaving, handover}
use ha_spark.Deadline.{Zone, Duration}
use ha_spark.Transitions.{Preconditions, Target, TransitionRequest}
use ha_spark.Transitions.Supervision.{IsBound}
use ha_spark.Control.{
  RequestAnswers, Round, Stage, StageAnswers, advance, async_request, async_fallback,
  async_new_session, async_start, permits_non_protection,
}
use ha_spark.Control.Handover.{Leaves, IsRound, Carried, advance_claims, advance_completes}
use ha_spark.Control.Bound.{StoreBound, RoundsBound, control_keeps_bound}

abbrev utc : Zone
utc = record { to_wall = λ now. now; from_wall = λ wall. wall }

abbrev all_hold : Preconditions
all_hold p = true

abbrev to_protect_request : TransitionRequest
to_protect_request = record {
  target = Target.protect;
  expected_epoch = some 4;
  requester_kind = RequesterKind.cli;
  duration = Duration.one_hour;
  keep_protection = true;
}

abbrev answers : RequestAnswers
answers = record {
  owned = true;
  barrier = true;
  owned_after = true;
  store_after = some site;
  saved = true;
}

abbrev fallback : FallbackState
fallback = record { active = true; causes = []; entered_at = some (1000 * second) }

-- Two rounds of a step that is carried out.
abbrev round : AuthorityState → Round
round now = record {
  owned = true;
  permits = true;
  verified = true;
  owned_after = true;
  store_after = some now;
  saved = true;
}

-- Another task enters a fallback during the second step.
abbrev in_fallback : AuthorityState
in_fallback = record leaving {
  transition = some (record handover { steps = write_fallback ∷ [] });
  fallback = fallback;
}

abbrev rounds : List Round
rounds = round leaving ∷ round in_fallback ∷ []

carried_out : (now : AuthorityState) (step : Step) → IsRound step (round now)
carried_out now step = record {
  owned = refl;
  permitted = inr refl;
  verified = refl;
  owned_after = refl;
  saved = refl;
}

site-IsBound : IsBound site
site-IsBound h = ground (arith, h)

rounds-RoundsBound : RoundsBound rounds
rounds-RoundsBound = (λ _. refl, (λ _. refl, tt))

control_keeps_bound_example :
    StoreBound
      (async_request answers true rounds true
        (some site)
        to_protect_request
        all_hold
        (900 * second)
        utc
        0).1
    × StoreBound (advance true rounds true (some site)).0
    × StoreBound (async_fallback true true (some site) fallback (900 * second)).0
    × StoreBound (async_new_session true true (some site) "next" (900 * second)).0
control_keeps_bound_example =
    control_keeps_bound (some site) answers true rounds true to_protect_request all_hold
      (900 * second) utc 0 true true fallback "next" site-IsBound site-IsBound rounds-RoundsBound

not_observe : OperatingMode.optimise ≢ OperatingMode.observe
not_observe h = ground (arith, h)

carried : Carried handover.steps rounds leaving handover
carried = (
  carried_out leaving cancel_export,
  leaving,
  refl,
  record { store_id = refl; epoch = refl; transition = refl },
  (
    carried_out in_fallback write_fallback,
    in_fallback,
    refl,
    record { store_id = refl; epoch = refl; transition = refl },
    tt,
  ),
)

advance_completes_example :
    (next : AuthorityState) × (advance true rounds true (some leaving)
      ≡ (some next, handover.steps))
    × (next.committed_mode ≡ OperatingMode.protect)
    × (next.transition ≡ none)
advance_completes_example = advance_completes rounds leaving handover refl not_observe carried

abbrev handed_over : AuthorityState
handed_over = advance_completes_example.0

rounds-Leaves : Leaves OperatingMode.optimise rounds
rounds-Leaves = (refl, (refl, tt))

moves : handed_over.committed_mode ≢ OperatingMode.optimise
moves h = ground (arith, h, advance_completes_example.2)

advance_claims_example :
    (true ≡ true)
    × (handed_over.committed_mode ≡ OperatingMode.protect)
    × (handed_over.transition ≡ none)
    × (true ≡ true)
    × ((advance true rounds true (some leaving)).1 ≡ handover.steps)
    × Carried handover.steps rounds leaving handover
advance_claims_example =
    advance_claims true rounds true leaving handover handed_over refl rounds-Leaves
      (ap (λ r. r.0) advance_completes_example.1) moves

abbrev stage_answers : Stage → StageAnswers
stage_answers stage = record { owned = true; store = some site; succeeded = true }

after_grace :
    permits_non_protection
      (async_start true true (some site) stage_answers (1000 * second))
      true
      (some site)
      (1120 * second)
    ≡ true
unfolding permits_non_protection async_start
after_grace = refl
