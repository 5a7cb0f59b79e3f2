-- ===== src/Solcast/Request.antt =====
-- `async_request` of custom_components/ha_spark/solcast_budget.py: charge and save before the request.
-- The rounds of its loop are given by their answers; a call whose rounds are used up still waits.
pub mod Charged
pub mod Quota
pub mod History
use ha_spark.Prelude.{
  ℕ, suc, ◌+◌, ◌*◌, Bool, true, false, not, ◌&&◌, ◌||◌, Option, none, some, List, [], ◌∷◌, ltb, leb,
  ◌==◌, if◌then◌else◌,
}
use ha_spark.Authority.{Instant}
use ha_spark.Solcast.{
  QuotaState, SolcastBudget, SaveAnswers, LoadAnswers, Verdict, saved, unsaved, interrupted, save,
  load, rolled, day, day_length,
}

-- The time at a round's start, what its save meets, and the time after it.
pub record Round : Type 0 where
  pub now : Instant
  pub save : SaveAnswers
  pub after : Instant

-- What the loop comes to: the refusals, two ends without a verdict, or a charge, with the time that
-- was read last.
pub data Charge : Type 0 where
  stale exhausted cancelled waiting : Charge
  charged : Instant → Charge

pub data RoundEnd : Type 0 where
  stop : Charge → RoundEnd
  again : QuotaState → RoundEnd

abbrev pub is_exhausted : Instant → Option Instant → Bool
is_exhausted now none = false
is_exhausted now (some until) = ltb now until

abbrev pub is_reserved : Instant → Option ℕ → Bool
is_reserved now none = false
is_reserved now (some d) = d == day now

-- The call would use a call that is kept for the sites that are still to be polled today.
abbrev pub is_kept_back : Instant → ℕ → Bool → QuotaState → SolcastBudget → Bool
is_kept_back now limit reserved s b =
    not reserved
    && not (is_reserved now s.reserved_day)
    && ltb limit (s.calls_used + 1 + b.reserved_sites)

-- After the save of a charge.
pub after_save : Round → QuotaState → SolcastBudget × Verdict → SolcastBudget × RoundEnd
after_save r s (b, unsaved) = (b, stop stale)
after_save r s (b, interrupted) = (b, stop cancelled)
after_save r s (b, saved) =
    (b, (if day r.after == s.utc_day then stop (charged r.after) else again s))

pub round : ℕ → Bool → Round → QuotaState → SolcastBudget → SolcastBudget × RoundEnd
unfolding rolled after_save save
round limit reserved r s b =
    let today = rolled r.now s in
    let uncharged = record b { state = some today } in
    let spent = record today { calls_used = suc today.calls_used } in
    let done = after_save r spent (save r.save spent uncharged) in
    if ltb (day r.now) s.utc_day
    then (b, stop stale)
    else if is_exhausted r.now today.exhausted_until || leb limit today.calls_used
    then (uncharged, stop exhausted)
    else if is_kept_back r.now limit reserved today uncharged
    then (uncharged, stop exhausted)
    else done

-- `while True`
pub charge : ℕ → Bool → List Round → QuotaState → SolcastBudget → SolcastBudget × Charge
unfolding round
charge limit reserved [] s b = (b, waiting)
charge limit reserved (r ∷ rest) s b =
    let (b₁, end) = round limit reserved r s b in
    let next : QuotaState → SolcastBudget × Charge = λ t. charge limit reserved rest t b₁ in
    elim end [ stop c ↦ (b₁, c) | again t ↦ next t ]

-- The answer to a request; an exception passes through.
pub data Reply : Type 0 where
  quota_exhausted raised : Reply
  outcome : ℕ → Reply

-- What a call comes to: it is not sent, or it is sent, at the time that was read last, and then gives
-- the reply, a stale result, or a cancellation.
pub data Result : Type 0 where
  unsent : Charge → Result
  sent : Instant → Reply → Result
  sent_stale sent_cancelled : Instant → Result

pub record Answers : Type 0 where
  pub active : Bool
  pub load : LoadAnswers
  pub rounds : List Round
  pub active_after : Bool
  pub reply : Reply
  pub received_at : Instant
  pub save : SaveAnswers

-- The state after an answer that the quota is used up.
pub spent_until : Instant → QuotaState → QuotaState
spent_until received s =
    let until = some (suc (day received) * day_length) in
    if ltb s.utc_day (day received)
    then record s { utc_day = day received; calls_used = 0; exhausted_until = until }
    else record s { exhausted_until = until }

abbrev pub reported : Instant → SolcastBudget × Verdict → SolcastBudget × Result
reported at (b, saved) = (b, sent at quota_exhausted)
reported at (b, unsaved) = (b, sent_stale at)
reported at (b, interrupted) = (b, sent_cancelled at)

-- The end of the method, from the reply on.
pub after_reply : Answers → Instant → Reply → SolcastBudget → SolcastBudget × Result
unfolding spent_until save
after_reply a at raised b = (b, sent at raised)
after_reply a at (outcome o) b = (b, sent at (outcome o))
after_reply a at quota_exhausted b =
    let report : QuotaState → SolcastBudget × Result =
      λ s. reported at (save a.save (spent_until a.received_at s) b) in
    elim b.state [ none ↦ (b, sent at quota_exhausted) | some s ↦ report s ]

-- From the charge on.
pub dispatch : Answers → SolcastBudget × Charge → SolcastBudget × Result
unfolding after_reply
dispatch a (b, charged at) =
    if a.active_after then after_reply a at a.reply b else (b, unsent stale)
dispatch a (b, stale) = (b, unsent stale)
dispatch a (b, exhausted) = (b, unsent exhausted)
dispatch a (b, cancelled) = (b, unsent cancelled)
dispatch a (b, waiting) = (b, unsent waiting)

abbrev pub charge_from :
    ℕ → Bool → Answers → Option QuotaState → SolcastBudget → SolcastBudget × Charge
charge_from limit reserved a none b = (b, stale)
charge_from limit reserved a (some s) b = charge limit reserved a.rounds s b

abbrev pub loaded : ℕ → Bool → Answers → SolcastBudget × Verdict → SolcastBudget × Charge
loaded limit reserved a (b, saved) = charge_from limit reserved a b.state b
loaded limit reserved a (b, unsaved) = (b, stale)
loaded limit reserved a (b, interrupted) = (b, cancelled)

pub async_request : ℕ → Bool → Answers → SolcastBudget → SolcastBudget × Result
unfolding charge dispatch load
async_request limit reserved a b =
    let result = dispatch a (loaded limit reserved a (load a.load b)) in
    if not a.active || not (limit == 10 || limit == 50) then (b, unsent stale) else result
