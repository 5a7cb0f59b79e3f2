-- ===== src/Transitions/Examples.antt =====
-- Proposals on the sample site.
use ha_spark.Prelude.{[], ◌*◌, ◌≡◌, ◌≢◌, ◌⊎◌, refl, true, false, some, arith}
use ha_spark.Authority.{
  second, OperatingMode, AuthorityState, RequesterKind, cancel_export, write_fallback,
  release_holds,
}
use ha_spark.Authority.Samples.{site}
use ha_spark.Deadline.{Zone, Duration, manual_deadline}
use ha_spark.Transitions.{
  Preconditions, Target, TransitionRequest, granted, propose_transition, is_stale, grant,
  manual_plan, entry_plan,
}
use ha_spark.Transitions.Entry.{IsReady, IsProtectable, propose_preconditions}
use ha_spark.Transitions.Supervision.{IsBound, propose-IsBound}

abbrev utc : Zone
utc = record { to_wall = λ now. now; from_wall = λ wall. wall }

abbrev all_hold : Preconditions
all_hold p = true

abbrev ask : Target → TransitionRequest
ask target = record {
  target = target;
  expected_epoch = some 4;
  requester_kind = RequesterKind.cli;
  duration = Duration.one_hour;
  keep_protection = true;
}

abbrev in_protect : AuthorityState
in_protect = record site { committed_mode = OperatingMode.protect; export_supervisions = [] }

abbrev manual_site : AuthorityState
manual_site =
    grant site (ask Target.manual)
      (manual_plan OperatingMode.optimise ha_spark.Authority.to_optimise true
        (some (4500 * second)))
      (900 * second)

abbrev optimising : AuthorityState
optimising =
    grant in_protect (ask Target.optimise)
      (entry_plan OperatingMode.protect ha_spark.Authority.to_optimise) (900 * second)

site-IsBound : IsBound site
site-IsBound h = ground (arith, h)

grants_manual :
    propose_transition (some site) (ask Target.manual) all_hold (900 * second) utc 0
    ≡ granted manual_site
unfolding propose_transition manual_deadline
grants_manual = refl

grants_optimise :
    propose_transition (some in_protect) (ask Target.optimise) all_hold (900 * second) utc 0
    ≡ granted optimising
unfolding propose_transition
grants_optimise = refl

propose-IsBound_example : IsBound manual_site
propose-IsBound_example =
    propose-IsBound site (ask Target.manual) all_hold (900 * second) utc 0 site-IsBound
      grants_manual

propose_preconditions_example :
    (optimising.committed_mode ≡ OperatingMode.optimise
      → (in_protect.committed_mode ≡ OperatingMode.optimise) ⊎ IsReady all_hold)
    × (in_protect.committed_mode ≡ OperatingMode.observe
        → optimising.committed_mode ≢ OperatingMode.observe
        → IsProtectable all_hold)
propose_preconditions_example =
    propose_preconditions in_protect (ask Target.optimise) all_hold (900 * second) utc 0 refl
      grants_optimise

ask-observe-fresh : is_stale (ask Target.observe) site ≡ false
unfolding is_stale
ask-observe-fresh = refl
