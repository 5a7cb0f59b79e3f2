-- ===== src/Authority/Equality.antt =====
-- Equality of the authority records: what `==` of two pydantic models computes.
use mathlib.Core.Bool.{decide}
use native.Mathlib.Decide.{ℕ_discrete}
use ha_spark.Prelude.{
  String, Bool, true, false, ◌≡◌, ◌↔◌, inl, inr, ◌&&◌, arith, ◌==◌, str_eq, eq_iff, Bool-cases,
}
use ha_spark.Authority.{Direction, EventIdentity, Transition, ExportRecord, AuthorityState}

pub String-discrete : Discrete String
String-discrete a b = elim (Bool-cases (str_eq a b)) [
  | inl e ↦ yes ((eq_iff a b).0 e)
  | inr e ↦ no (λ p. ground (arith, e, (eq_iff a b).1 p))
]

pub Transition-discrete : Discrete Transition
Transition-discrete = hlevel (ℕ_discrete, String-discrete)

pub AuthorityState-discrete : Discrete AuthorityState
AuthorityState-discrete = hlevel (ℕ_discrete, String-discrete)

-- `a == b` of two states.
pub same_state : AuthorityState → AuthorityState → Bool
same_state a b = decide (AuthorityState-discrete a b)

pub same_state_iff : (a b : AuthorityState) → (same_state a b ≡ true) ↔ (a ≡ b)
unfolding same_state
same_state_iff a b = mathlib.Core.Bool.decide_iff (AuthorityState-discrete a b)

abbrev same_direction : Direction → Direction → Bool
same_direction Direction.import Direction.import = true
same_direction Direction.export Direction.export = true
same_direction _ _ = false

-- `same_event`, and `==` of two events.
unfoldable pub same_event : EventIdentity → EventIdentity → Bool
same_event a b = same_direction a.direction b.direction && a.start == b.start && a.end == b.end

pub same_event_iff : (a b : EventIdentity) → (same_event a b ≡ true) ↔ (a ≡ b)
unfolding same_event
same_event_iff a b = (λ h. ground arith, λ e. ground arith)

pub ExportRecord-discrete : Discrete ExportRecord
ExportRecord-discrete = hlevel (ℕ_discrete, String-discrete)

-- `==` of two export records.
pub same_record : ExportRecord → ExportRecord → Bool
same_record a b = decide (ExportRecord-discrete a b)

pub same_record_iff : (a b : ExportRecord) → (same_record a b ≡ true) ↔ (a ≡ b)
unfolding same_record
same_record_iff a b = mathlib.Core.Bool.decide_iff (ExportRecord-discrete a b)
