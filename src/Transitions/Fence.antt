-- ===== src/Transitions/Fence.antt =====
-- What every proposal keeps and what it fences.
use ha_spark.Prelude.{ℕ, suc, ◌≡◌, ◌⊎◌, some, arith}
use ha_spark.Authority.{Instant, AuthorityState}
use ha_spark.Deadline.{Zone}
use ha_spark.Transitions.{Preconditions, TransitionRequest, granted, propose_transition}

-- A granted state is the old one, or one epoch on with the records of holds, fallback and exports.
pub record IsNext (state next : AuthorityState) (now : Instant) : Type 0 where
  pub epoch : next.epoch ≡ suc state.epoch
  pub store_id : next.store_id ≡ state.store_id
  pub holds : next.holds ≡ state.holds
  pub fallback : next.fallback ≡ state.fallback
  pub export_records : next.export_records ≡ state.export_records
  pub export_transitions : next.export_transitions ≡ state.export_transitions
  pub stop_latches : next.stop_latches ≡ state.stop_latches
  pub last_changed_at : next.last_changed_at ≡ now

-- Every grant, on every branch, returns the state it was given or moves on by exactly one epoch,
-- keeping the store's identity, the holds, the fallback and the durable export records and latches.
pub propose-IsNext :
    (state : AuthorityState) (request : TransitionRequest) (report : Preconditions) (now : Instant)
    (zone : Zone) (at : ℕ) {next : AuthorityState}
    → propose_transition (some state) request report now zone at ≡ granted next
    → (next ≡ state) ⊎ IsNext state next now
unfolding propose_transition
propose-IsNext state request report now zone at h = ground arith
