-- ===== src/Transitions/Supervision.antt =====
-- Authority to export ends with the proposal, before any cleanup runs.
use ha_spark.Prelude.{◌≡◌, Bool, false, not, ◌&&◌, Option, none, some, [], arith, is_none, ℕ}
use ha_spark.Authority.{Instant, OperatingMode, Transition, AuthorityState}
use ha_spark.Deadline.{Zone}
use ha_spark.Transitions.{Preconditions, TransitionRequest, granted, is_mode, propose_transition}

abbrev leaving : Option Transition → Bool
leaving none = false
leaving (some t) = not (is_mode t.target OperatingMode.optimise)

-- Optimise is committed, no manual session is on, and no transition leads elsewhere.
abbrev pub may_export : AuthorityState → Bool
may_export state =
    is_none state.manual_session
    && is_mode state.committed_mode OperatingMode.optimise
    && not (leaving state.transition)

-- Only a site that may export keeps an export supervision.
abbrev pub IsBound : AuthorityState → Type 0
IsBound state = may_export state ≡ false → state.export_supervisions ≡ []

-- Every proposal from a site on which only the right to export keeps supervisions leaves it so:
-- a grant that starts a manual session or leads away from Optimise has dropped all of them.
pub propose-IsBound :
    (state : AuthorityState) (request : TransitionRequest) (report : Preconditions) (now : Instant)
    (zone : Zone) (at : ℕ) {next : AuthorityState}
    → IsBound state
    → propose_transition (some state) request report now zone at ≡ granted next
    → IsBound next
unfolding propose_transition
propose-IsBound state request report now zone at b h m = ground (arith, b)
