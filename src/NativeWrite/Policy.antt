-- ===== src/NativeWrite/Policy.antt =====
-- Which writes are permitted, and what stops them.
use mathlib.Core.Path.{subst}
use ha_spark.Prelude.{
  inl, ℕ, ◌<◌, ◌≡◌, ◌≢◌, ◌↔◌, inr, refl, ap, ◌∙◌, String, Bool, true, false, not, ◌&&◌, ◌||◌,
  Option, none, some, List, [], ◌∷◌, All, any, arith, is_none, ◌==◌, if◌then◌else◌, Option-cases,
  Bool-cases, keep, ltb, ◌≤◌,
}
use ha_spark.Authority.{
  Instant, OperatingMode, EventIdentity, ExportRecord, ExportSupervision, StopLatch, AuthorityState,
}
use ha_spark.Authority.Equality.{same_event}
use ha_spark.Export.{supervision_for}
use ha_spark.ExportLog.Append.{IsSound}
use ha_spark.Tripwire.{watching, trip_candidate}
use ha_spark.Tripwire.Expiry.{is_stopped, Keeps, expire, expire-Keeps}
use ha_spark.Tripwire.Windows.{trip-AllStopped}
use ha_spark.NativeWrite.{
  WriteReason, gateway_not_owned, stale_epoch, Flags, plan, Conditions, in_mode, leaves, is_empty,
  state_refusal, refusal, flag_reason, mode_refused, device_reason, or_reason, is_latched,
  event_reason, export_mode_refused, export_policy_reason, export_write_reason,
}

-- The owner of a known state of this epoch, with a device that may be written within current limits.
pub record IsOpen (epoch : ℕ) (c : Conditions) (state : AuthorityState) : Type 0 where
  pub known : c.state ≡ some state
  pub owned : c.owned ≡ true
  pub same_epoch : state.epoch ≡ epoch
  pub running : c.running && c.polling && not c.closed && c.device_valid ≡ true
  pub limited : c.boundary_open && c.limits_current ≡ true

opened :
    (flags : Flags) (epoch : ℕ) (c : Conditions) (o : Option AuthorityState)
    → c.state ≡ o
    → state_refusal flags epoch c o ≡ none
    → (state : AuthorityState) × IsOpen epoch c state × (flag_reason flags c state ≡ none)
unfolding state_refusal
opened flags epoch c none e h = ground (arith, h)
opened flags epoch c (some state) e h = (
  state,
  record {
    known = e;
    owned = ground (arith, h);
    same_epoch = ground (arith, h);
    running = ground (arith, h);
    limited = ground (arith, h);
  },
  ground (arith, h),
)

permitted-IsOpen :
    (flags : Flags) (epoch : ℕ) (c : Conditions)
    → refusal flags epoch c ≡ none
    → (state : AuthorityState) × IsOpen epoch c state × (flag_reason flags c state ≡ none)
unfolding refusal
permitted-IsOpen flags epoch c h = opened flags epoch c c.state refl h

not_observed :
    (flags : Flags) (c : Conditions) (state : AuthorityState)
    → mode_refused flags c state ≡ false
    → in_mode state OperatingMode.observe ≡ false
unfolding mode_refused
not_observed flags c state h = ground (arith, h)

-- Every write that is permitted and is not the owner's own is of the owner of a known state of this
-- epoch, whose committed mode is not Observe, to a device that may be written within current limits.
pub refusal-IsOpen :
    (flags : Flags) (epoch : ℕ) (c : Conditions)
    → flags.entity_control ≡ none
    → refusal flags epoch c ≡ none
    → (state : AuthorityState) × IsOpen epoch c state
      × (in_mode state OperatingMode.observe ≡ false)
unfolding flag_reason
refusal-IsOpen flags epoch c f h =
    let (state, opens, flag) = permitted-IsOpen flags epoch c h in
    (state, opens, not_observed flags c state (ground (arith, f, flag)))

-- The conditions of a plan's write, one by one.
pub record IsPlan (epoch : ℕ) (c : Conditions) (state : AuthorityState) : Type 0 where
  pub opens : IsOpen epoch c state
  pub optimises : in_mode state OperatingMode.optimise ≡ true
  pub no_manual : is_none state.manual_session ≡ true
  pub stays : leaves state.transition ≡ false
  pub recovered :
      not state.fallback.active || is_empty state.fallback.causes && not c.retrying ≡ true
  pub started : c.permits_non_protection ≡ true

planned :
    (c : Conditions) (state : AuthorityState)
    → flag_reason plan c state ≡ none
    → (in_mode state OperatingMode.optimise ≡ true)
      × (is_none state.manual_session ≡ true)
      × (leaves state.transition ≡ false)
      × (not state.fallback.active || is_empty state.fallback.causes && not c.retrying ≡ true)
      × (c.permits_non_protection ≡ true)
unfolding flag_reason mode_refused
planned c state h =
    (ground (arith, h), ground (arith, h), ground (arith, h), ground (arith, h), ground (arith, h))

plan_flag :
    (epoch : ℕ) (c : Conditions) (state : AuthorityState)
    → IsPlan epoch c state
    → flag_reason plan c state ≡ none
unfolding flag_reason mode_refused
plan_flag epoch c state p =
    ground (arith, p.optimises, p.no_manual, p.stays, p.recovered, p.started)

open_device :
    (epoch : ℕ) (c : Conditions) (state : AuthorityState)
    → IsOpen epoch c state
    → device_reason c ≡ none
open_device epoch c state o = ground (arith, o.running, o.limited)

checks_none :
    (owned same : Bool) (r s : Option WriteReason)
    → owned ≡ true
    → same ≡ true
    → r ≡ none
    → s ≡ none
    → (if not owned
        then some gateway_not_owned
        else if not same
        then some stale_epoch
        else or_reason r s)
      ≡ none
checks_none owned same r s o e f d = ground (arith, o, e, f, d)

opens_none :
    (flags : Flags) (epoch : ℕ) (c : Conditions) (state : AuthorityState)
    → IsOpen epoch c state
    → flag_reason flags c state ≡ none
    → state_refusal flags epoch c (some state) ≡ none
unfolding state_refusal
opens_none flags epoch c state o f =
    checks_none c.owned (state.epoch == epoch) (flag_reason flags c state) (device_reason c) o.owned
      (ground (arith, o.same_epoch)) f (open_device epoch c state o)

plan_permits :
    (epoch : ℕ) (c : Conditions) (state : AuthorityState)
    → IsPlan epoch c state
    → refusal plan epoch c ≡ none
unfolding refusal
plan_permits epoch c state p =
    ap (state_refusal plan epoch c) p.opens.known
    ∙ opens_none plan epoch c state p.opens (plan_flag epoch c state p)

-- A plan's write is permitted exactly in committed Optimise, after the startup grace, without a manual
-- session, on no way to another mode, and in a fallback only while every cause has cleared and no
-- retry is waited for; by the owner of a known state of this epoch, to a device that may be written
-- within current limits.
pub plan-refusal_iff :
    (epoch : ℕ) (c : Conditions)
    → (refusal plan epoch c ≡ none) ↔ ((state : AuthorityState) × IsPlan epoch c state)
plan-refusal_iff epoch c = (
  λ h.
      let (state, opens, flag) = permitted-IsOpen plan epoch c h in
      let (optimises, manual, stays, recovered, started) = planned c state flag in
      (
        state,
        record {
          opens = opens;
          optimises = optimises;
          no_manual = manual;
          stays = stays;
          recovered = recovered;
          started = started;
        },
      ),
  λ p. plan_permits epoch c p.0 p.1,
)

-- The conditions of a write that sets a discharge.
pub record IsExport (inverter_id : String) (epoch : ℕ) (event : EventIdentity) (now : Instant)
    (c : Conditions) (state : AuthorityState) : Type 0 where
  pub plans : IsPlan epoch c state
  pub no_fallback : state.fallback.active ≡ false
  pub unlatched : is_latched event state ≡ false
  pub supervision : ExportSupervision
  pub supervised : supervision_for state.export_supervisions inverter_id event ≡ some supervision
  pub ahead : now < supervision.ends_at

or_none : (r s : Option WriteReason) → or_reason r s ≡ none → (r ≡ none) × (s ≡ none)
or_none none s h = (refl, h)
or_none (some r) s h = ground (arith, h)

event_none :
    (inverter_id : String) (event : EventIdentity) (now : Instant) (state : AuthorityState)
    → event_reason inverter_id event now (some state) ≡ none
    → (is_latched event state ≡ false)
      × ((s : ExportSupervision) × (supervision_for state.export_supervisions inverter_id event
            ≡ some s)
          × (now < s.ends_at))
event_none inverter_id event now state h =
    elim (Option-cases (supervision_for state.export_supervisions inverter_id event)) [
      | inl e ↦ ground (arith, h, e)
      | inr (s, e) ↦ (ground (arith, h, e), (s, e, ground (arith, h, e)))
    ]

policy_none :
    (epoch : ℕ) (c : Conditions)
    → export_policy_reason epoch c ≡ none
    → (export_mode_refused c.state ≡ false) × (refusal plan epoch c ≡ none)
unfolding export_policy_reason
policy_none epoch c h = elim (Bool-cases (export_mode_refused c.state)) [
  | inl e ↦ ground (arith, h, e)
  | inr e ↦ (e, ground (arith, h, e))
]

-- A write that sets a discharge is permitted only where a plan's write is, with no fallback, no latch
-- on the event, and a supervision of this inverter and event that has not ended.
pub export_write_reason-IsExport :
    (inverter_id : String) (epoch : ℕ) (event : EventIdentity) (now : Instant) (c : Conditions)
    → export_write_reason inverter_id epoch event now c ≡ none
    → (state : AuthorityState) × IsExport inverter_id epoch event now c state
unfolding export_write_reason
export_write_reason-IsExport inverter_id epoch event now c h =
    let (policy, live) =
      or_none (export_policy_reason epoch c) (event_reason inverter_id event now c.state) h in
    let (no_export, plain) = policy_none epoch c policy in
    let (state, plans) = (plan-refusal_iff epoch c).0 plain in
    let known = plans.opens.known in
    let (unlatched, (s, supervised, ahead)) =
      event_none inverter_id event now state
        (subst (λ o. event_reason inverter_id event now o ≡ none) known live) in
    (
      state,
      record {
        plans = plans;
        no_fallback = ground (arith, subst (λ o. export_mode_refused o ≡ false) known no_export);
        unlatched = unlatched;
        supervision = s;
        supervised = supervised;
        ahead = ahead;
      },
    )

stopped-latched :
    (later : Instant) (event : EventIdentity) (latches : List StopLatch)
    → is_stopped later event latches ≡ true
    → any (λ latch. same_event latch.event event) latches ≡ true
stopped-latched later event [] h = h
stopped-latched later event (l ∷ latches) h = ground (arith, h, stopped-latched later event latches)

stopped_refused :
    (inverter_id : String) (epoch : ℕ) (later : Instant) (c : Conditions) (state : AuthorityState)
    (event : EventIdentity)
    → c.state ≡ some state
    → is_stopped later event state.stop_latches ≡ true
    → export_write_reason inverter_id epoch event later c ≢ none
unfolding export_write_reason
stopped_refused inverter_id epoch later c state event known stopped permitted =
    let (policy, live) =
      or_none (export_policy_reason epoch c) (event_reason inverter_id event later c.state)
        permitted in
    let (unlatched, _) =
      event_none inverter_id event later state
        (subst (λ o. event_reason inverter_id event later o ≡ none) known live) in
    ground (arith, stopped-latched later event state.stop_latches stopped, unlatched)

All-refused :
    (inverter_id : String) (epoch : ℕ) (later : Instant) (c : Conditions) (state : AuthorityState)
    (latches : List StopLatch) (records : List ExportRecord)
    → c.state ≡ some state
    → Keeps later latches state.stop_latches
    → All (λ r. is_stopped later r.event latches ≡ true) records
    → All (λ r. export_write_reason inverter_id epoch r.event later c ≢ none) records
All-refused inverter_id epoch later c state latches [] known kept h = tt
All-refused inverter_id epoch later c state latches (r ∷ records) known kept (stopped, rest) = (
  stopped_refused inverter_id epoch later c state r.event known (kept r.event stopped),
  All-refused inverter_id epoch later c state latches records known kept rest,
)

-- After a trip with a sound log and watched records is saved, and in every later state that keeps the
-- stops of the saved one until the ends of their windows, no write that sets a discharge for the event
-- of a watched record is permitted before the end of the record's window: for any inverter and in any
-- other conditions of the controller.
pub trip_fences :
    (state next current : AuthorityState) (ours : String → Bool) (members : List String)
    (now later : Instant) (ids : String → ℕ) (inverter_id : String) (epoch : ℕ) (c : Conditions)
    → IsSound state.export_transitions
    → watching (some state) ours members now ≢ []
    → trip_candidate (some state) ours members now ids ≡ some next
    → Keeps later next.stop_latches current.stop_latches
    → c.state ≡ some current
    → All
        (λ r. export_write_reason inverter_id epoch r.event later c ≢ none)
        (keep (λ r. ltb later r.window.end) (watching (some state) ours members now))
trip_fences state next current ours members now later ids inverter_id epoch c sound watched saved
      kept known =
    All-refused inverter_id epoch later c current next.stop_latches
      (keep (λ r. ltb later r.window.end) (watching (some state) ours members now)) known kept
      (trip-AllStopped state next ours members now later ids sound watched saved)

-- The same after an expiry between the trip and the write, whichever of its saves is verified.
trip_fences-expire :
    (state next current : AuthorityState) (ours : String → Bool) (members : List String)
    (now at later : Instant) (ids : String → ℕ) (pruned_saved saved : Bool) (inverter_id : String)
    (epoch : ℕ) (c : Conditions)
    → IsSound state.export_transitions
    → watching (some state) ours members now ≢ []
    → trip_candidate (some state) ours members now ids ≡ some next
    → expire pruned_saved saved at next ≡ some current
    → at ≤ later
    → c.state ≡ some current
    → All
        (λ r. export_write_reason inverter_id epoch r.event later c ≢ none)
        (keep (λ r. ltb later r.window.end) (watching (some state) ours members now))
trip_fences-expire state next current ours members now at later ids pruned_saved saved inverter_id
      epoch c sound watched tripped expired before known =
    trip_fences state next current ours members now later ids inverter_id epoch c sound watched
      tripped (expire-Keeps pruned_saved saved at later next current before expired) known
