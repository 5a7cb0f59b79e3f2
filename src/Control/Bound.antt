-- ===== src/Control/Bound.antt =====
-- Export supervisions under every operation of the controller.
use ha_spark.Prelude.{
  ℕ, ◌≡◌, refl, Bool, true, false, not, none, some, List, [], ◌∷◌, All, arith, inl, inr, Bool-cases,
  Option-cases, String, ◌&&◌, if◌then◌else◌, if_both, ◌⊎◌,
}
use ha_spark.Authority.{Instant, OperatingMode, AuthorityState, Transition, Step, FallbackState}
use ha_spark.Deadline.{Zone}
use ha_spark.Transitions.{
  Preconditions, Target, TransitionRequest, Decision, Refusal, Precondition, authority_unknown,
  transition_in_progress, not_owner, granted, refused, raised, propose_transition, is_mode,
}
use ha_spark.Transitions.Supervision.{IsBound, propose-IsBound}
use ha_spark.Control.{
  Store, Reply, decided, current, had_session, sets_mode, save, finish_loop, with_session,
  is_session, Round, starts, is_current, after_step, Loop, ended, stopped, waiting, advance_steps,
  finish, advance, RequestAnswers, commit, async_request, async_fallback, async_new_session,
  same_store,
}
use ha_spark.Control.Handover.{is_current-IsCurrent}

abbrev pub StoreBound : Store → Type 0
StoreBound none = Unit
StoreBound (some s) = IsBound s

-- Other tasks keep the invariant while a call waits.
abbrev pub RoundsBound : List Round → Type 0
RoundsBound = All (λ r. StoreBound r.store_after)

abbrev LoopBound : Transition → Loop → Type 0
LoopBound t (stopped store) = StoreBound store
LoopBound t (ended state) = IsBound state
LoopBound t waiting = Unit

save-StoreBound : (saved : Bool) (s : AuthorityState) → IsBound s → StoreBound (save saved s)
save-StoreBound true s h = h
save-StoreBound false s h = tt

fallback-StoreBound :
    (owned saved : Bool) (store : Store) (fallback : FallbackState) (now : Instant)
    → StoreBound store
    → StoreBound (async_fallback owned saved store fallback now).0
unfolding async_fallback
fallback-StoreBound owned saved none fallback now h = tt
fallback-StoreBound false saved (some s) fallback now h = h
fallback-StoreBound true false (some s) fallback now h = tt
fallback-StoreBound true true (some s) fallback now h = λ m. ground (arith, h, m)

session-StoreBound :
    (owned saved : Bool) (store : Store) (id : String) (now : Instant)
    → StoreBound store
    → StoreBound (async_new_session owned saved store id now).0
unfolding async_new_session
session-StoreBound owned saved none id now h = tt
session-StoreBound false saved (some s) id now h = h
session-StoreBound true saved (some s) id now h =
    elim (Bool-cases (is_session s.addon_session_id id)) [
      | inl e ↦ rw e h
      | inr e ↦ rw e (save-StoreBound saved (with_session s id now) (unfold with_session in h))
    ]

-- The ladder at the end of a round.
LoopBound-pick :
    (t : Transition) (a b c : Bool) (x y z w : Loop × List Step)
    → LoopBound t x.0
    → LoopBound t y.0
    → (b ≡ false → LoopBound t z.0)
    → (b ≡ false → LoopBound t w.0)
    → LoopBound t (if a then x else if b then y else if c then z else w).0
LoopBound-pick t true b c x y z w hx hy hz hw = hx
LoopBound-pick t false true c x y z w hx hy hz hw = hy
LoopBound-pick t false false true x y z w hx hy hz hw = hz refl
LoopBound-pick t false false false x y z w hx hy hz hw = hw refl

after_step-IsBound :
    (now : AuthorityState) (t : Transition) (step : Step) (rest : List Step) (verified : Bool)
    → now.transition ≡ some t
    → IsBound now
    → IsBound (after_step now t step rest verified)
unfolding after_step
after_step-IsBound now t step rest verified m b h = ground (arith, b, m)

finish-IsBound :
    (state : AuthorityState) (t : Transition)
    → state.transition ≡ some t
    → IsBound state
    → IsBound (finish state t)
unfolding finish
finish-IsBound state t m b h = ground (arith, b, m)

advance_steps-LoopBound :
    (steps : List Step) (rounds : List Round) (state : AuthorityState) (t : Transition)
    → IsBound state
    → RoundsBound rounds
    → LoopBound t (advance_steps steps rounds (some state) state t).0
unfolding advance_steps
advance_steps-LoopBound [] rounds state t h l = h
advance_steps-LoopBound (step ∷ rest) [] state t h l = tt
advance_steps-LoopBound (step ∷ rest) (r ∷ rounds) state t h l = elim (Option-cases r.store_after) [
  | inl e ↦ ground (arith, e, h)
  | inr (now, e) ↦
      let before : IsBound now = rw e at l.0 in
      let next : AuthorityState = after_step now t step rest r.verified in
      let t' : Transition = record t { steps = rest; failing_actions = [] } in
      let after : is_current state t now ≡ true → IsBound next = λ still.
        after_step-IsBound now t step rest r.verified
          (is_current-IsCurrent state t now still).transition before in
      let stays : not (r.owned_after && is_current state t now) ≡ false
          → is_current state t now ≡ true =
        λ c. ground (arith, c) in
      let more = advance_steps rest rounds (some next) next t' in
      rw (e, advance_steps)
        (LoopBound-pick t (not (starts r step)) (not (r.owned_after && is_current state t now))
          (r.saved && r.verified) (stopped (some state), []) (stopped (some now), [])
          (more.0, step ∷ more.1) (stopped (save r.saved next), []) h before
          (λ c. advance_steps-LoopBound rest rounds next t' (after (stays c)) l.1)
          (λ c. save-StoreBound r.saved next (after (stays c))))
]

finish_loop-StoreBound :
    (saved : Bool) (t : Transition) (run : Loop × List Step)
    → LoopBound t run.0
    → StoreBound (finish_loop saved t run).0
finish_loop-StoreBound saved t (stopped s, done) h = h
finish_loop-StoreBound saved t (waiting, done) h = tt
finish_loop-StoreBound saved t (ended state, done) h = elim (Option-cases state.transition) [
  | inl e ↦ rw e h
  | inr (u, e) ↦ rw e (save-StoreBound saved (finish state u) (finish-IsBound state u e h))
]

advance-StoreBound :
    (can_run : Bool) (rounds : List Round) (finished : Bool) (store : Store)
    → StoreBound store
    → RoundsBound rounds
    → StoreBound (advance can_run rounds finished store).0
unfolding advance
advance-StoreBound can_run rounds finished none h l = tt
advance-StoreBound can_run rounds finished (some state) h l = elim (Option-cases state.transition) [
  | inl e ↦ rw (e, advance) h
  | inr (t, e) ↦
      let run = advance_steps t.steps rounds (some state) state t in
      let kept : LoopBound t run.0 = advance_steps-LoopBound t.steps rounds state t h l in
      rw (e, advance)
        (if_both (λ (x : Store × List Step). StoreBound x.0)
          (can_run && not (is_mode state.committed_mode OperatingMode.observe))
          (finish_loop finished t run) (some state, []) (finish_loop-StoreBound finished t run kept)
          h)
]

abbrev ReplyBound : Reply × Store × List Step → Type 0
ReplyBound r = StoreBound r.1

Decision-cases :
    (d : Decision)
    → ((s : AuthorityState) × (d ≡ granted s))
      ⊎ ((why : Refusal) × (reasons : List Precondition) × (d ≡ refused why reasons))
      ⊎ (d ≡ raised)
Decision-cases (granted s) = inl (s, refl)
Decision-cases (refused why reasons) = inr (inl (why, reasons, refl))
Decision-cases raised = inr (inr refl)

commit-StoreBound :
    (a : RequestAnswers) (can_run : Bool) (rounds : List Round) (finished : Bool) (target : Target)
    (before : Store) (candidate : AuthorityState)
    → StoreBound before
    → StoreBound a.store_after
    → RoundsBound rounds
    → IsBound candidate
    → StoreBound (commit a can_run rounds finished target before candidate).1
unfolding commit
commit-StoreBound a can_run rounds finished target before candidate hb ha l hc =
    let run = advance can_run rounds finished (some candidate) in
    let carried : Reply × Store × List Step = (current run.0, run.0, run.1) in
    let only_saved : Reply × Store × List Step = (current (some candidate), some candidate, []) in
    let unsaved : Reply × Store × List Step = (decided (refused authority_unknown []), none, []) in
    let lost : Reply × Store × List Step =
      (decided (refused authority_unknown []), a.store_after, []) in
    let barred : Reply × Store × List Step =
      (decided (refused transition_in_progress []), before, []) in
    let skips = had_session before && sets_mode target in
    let kept = a.owned_after && same_store a.store_after before in
    let tail = if skips then only_saved else carried in
    let saved = if not a.saved then unsaved else tail in
    if_both ReplyBound (not a.barrier) barred (if not kept then lost else saved) hb (
      if_both ReplyBound (not kept) lost saved ha (
        if_both ReplyBound (not a.saved) unsaved tail tt (
          if_both ReplyBound skips only_saved carried hc
            (advance-StoreBound can_run rounds finished (some candidate) hc l))))

request-StoreBound :
    (a : RequestAnswers) (can_run : Bool) (rounds : List Round) (finished : Bool) (store : Store)
    (request : TransitionRequest) (report : Preconditions) (now : Instant) (zone : Zone) (at : ℕ)
    → StoreBound store
    → StoreBound a.store_after
    → RoundsBound rounds
    → ReplyBound (async_request a can_run rounds finished store request report now zone at)
unfolding async_request
request-StoreBound a can_run rounds finished none request report now zone at h ha l =
    unfold propose_transition in
    if_both ReplyBound (not a.owned) (decided (refused not_owner []), none, [])
      (decided (refused authority_unknown []), none, []) h h
request-StoreBound a can_run rounds finished (some s) request report now zone at h ha l =
    let foreign : Reply × Store × List Step = (decided (refused not_owner []), some s, []) in
    elim (Decision-cases (propose_transition (some s) request report now zone at)) [
      | inl (candidate, e) ↦
          let bound : IsBound candidate = propose-IsBound s request report now zone at h e in
          let same : Reply × Store × List Step = (decided (granted candidate), some s, []) in
          let done = commit a can_run rounds finished request.target (some s) candidate in
          let unchanged = same_store (some candidate) (some s) in
          rw (e, async_request)
            (if_both ReplyBound (not a.owned) foreign (if unchanged then same else done) h (
              if_both ReplyBound unchanged same done h (
                commit-StoreBound a can_run rounds finished request.target (some s) candidate h ha l
                  bound)))
      | inr (inl (why, reasons, e)) ↦
          rw (e, async_request)
            (if_both ReplyBound (not a.owned) foreign (decided (refused why reasons), some s, []) h
              h)
      | inr (inr e) ↦
          rw (e, async_request)
            (if_both ReplyBound (not a.owned) foreign (decided raised, some s, []) h h)
    ]

-- Every operation of the controller keeps the invariant that only a site which may export has an
-- export supervision, whatever the answers of the device and the disk are, as long as other tasks
-- keep it while the operation waits: requests for any target, with all the steps that follow,
-- changes of the fallback, and new add-on sessions.
pub control_keeps_bound :
    (store : Store) (a : RequestAnswers) (can_run : Bool) (rounds : List Round) (finished : Bool)
    (request : TransitionRequest) (report : Preconditions) (now : Instant) (zone : Zone) (at : ℕ)
    (owned saved : Bool) (fallback : FallbackState) (session : String)
    → StoreBound store
    → StoreBound a.store_after
    → RoundsBound rounds
    → StoreBound (async_request a can_run rounds finished store request report now zone at).1
      × StoreBound (advance can_run rounds finished store).0
      × StoreBound (async_fallback owned saved store fallback now).0
      × StoreBound (async_new_session owned saved store session now).0
control_keeps_bound store a can_run rounds finished request report now zone at owned saved fallback
      session hs ha l =
    (
      request-StoreBound a can_run rounds finished store request report now zone at hs ha l,
      advance-StoreBound can_run rounds finished store hs l,
      fallback-StoreBound owned saved store fallback now hs,
      session-StoreBound owned saved store session now hs,
    )
