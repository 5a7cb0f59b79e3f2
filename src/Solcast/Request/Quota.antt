-- ===== src/Solcast/Request/Quota.antt =====
-- The quota over a history of calls.
use ha_spark.Prelude.{
  ℕ, suc, ◌≤◌, ◌≡◌, inl, inr, ap, ltb, ◌==◌, if◌then◌else◌, arith, Bool-cases, if_both,
}
use ha_spark.Authority.{Instant}
use ha_spark.Solcast.{
  QuotaState, SolcastBudget, Verdict, saved, unsaved, interrupted, save, day, Day,
}
use ha_spark.Solcast.Request.{
  Charge, stale, exhausted, cancelled, waiting, charged, Reply, quota_exhausted, Result, unsent,
  sent, sent_stale, sent_cancelled, Answers, spent_until, dispatch, reported, after_reply,
}
use ha_spark.Solcast.Spent.{Tally, Accounts, IsAccounted, save-IsAccounted}
use ha_spark.Solcast.Request.Charged.{HasCharge, IsReady, Charged}

abbrev bump : Day → Tally → Tally
bump d t e = if e == d then suc (t e) else t e

-- The tally after a call, by the day that the clock gave last before a request was sent.
abbrev pub tallied : Result → Tally → Tally
tallied (unsent c) t = t
tallied (sent at reply) t = bump (day at) t
tallied (sent_stale at) t = bump (day at) t
tallied (sent_cancelled at) t = bump (day at) t

abbrev pub AtMost : ℕ → Tally → Type 0
AtMost n t = (d : Day) → t d ≤ n

bump-Accounts :
    (t : Tally) (limit : ℕ) (s : QuotaState) (d : Day)
    → HasCharge t limit s
    → d ≡ s.utc_day
    → Accounts (bump d t) s
bump-Accounts t limit s d h e = record {
  later = λ f k. ground (arith, h.accounts.later f k, e, k);
  today = ground (arith, h.spare, e);
}

bump-AtMost :
    (t : Tally) (limit n : ℕ) (s : QuotaState) (d : Day)
    → HasCharge t limit s
    → d ≡ s.utc_day
    → limit ≤ n
    → AtMost n t
    → AtMost n (bump d t)
bump-AtMost t limit n s d h e l k f = elim (Bool-cases (f == d)) [
  | inl same ↦
      let p : f ≡ s.utc_day = ground (arith, same, e) in
      ground (arith, same, ap t p, h.spare, h.within, l)
  | inr other ↦ ground (arith, other, k f)
]

spent_until-Accounts :
    (t : Tally) (received : Instant) (s : QuotaState)
    → Accounts t s
    → Accounts t (spent_until received s)
unfolding spent_until
spent_until-Accounts t received s a = elim (Bool-cases (ltb s.utc_day (day received))) [
  | inl e ↦ rw (e) (record {
    later = λ d h. a.later d (ground (arith, h, e));
    today = ground (arith, a.later (day received), e);
  })
  | inr e ↦ rw (e) (record { later = a.later; today = a.today })
]

-- What a call leaves: a gate that accounts for all requests sent, this one included.
abbrev pub CallOk : ℕ → Tally → SolcastBudget × Result → Type 0
CallOk n t (b, r) = IsAccounted (tallied r t) b × AtMost n (tallied r t)

reported_ok :
    (n : ℕ) (t : Tally) (at : Instant) (x : SolcastBudget × Verdict)
    → IsAccounted (bump (day at) t) x.0
    → AtMost n (bump (day at) t)
    → CallOk n t (reported at x)
reported_ok n t at (b, saved) i m = (i, m)
reported_ok n t at (b, unsaved) i m = (i, m)
reported_ok n t at (b, interrupted) i m = (i, m)

-- The gate of a request that is sent.
ready-IsAccounted :
    (t : Tally) (limit : ℕ) (at : Instant) (b : SolcastBudget)
    → IsReady t limit at b
    → IsAccounted (bump (day at) t) b
ready-IsAccounted t limit at b r =
    let next = bump-Accounts t limit r.spent (day at) r.has r.today in
    record { disk = rw (r.disk) next; state = rw (r.state) next }

reply_ok :
    (n limit : ℕ) (t : Tally) (a : Answers) (at : Instant) (reply : Reply) (b : SolcastBudget)
    → IsReady t limit at b
    → AtMost n (bump (day at) t)
    → CallOk n t (after_reply a at reply b)
unfolding after_reply
reply_ok n limit t a at Reply.raised b r m = (ready-IsAccounted t limit at b r, m)
reply_ok n limit t a at (Reply.outcome o) b r m = (ready-IsAccounted t limit at b r, m)
reply_ok n limit t a at quota_exhausted b r m =
    let now = ready-IsAccounted t limit at b r in
    let next = bump-Accounts t limit r.spent (day at) r.has r.today in
    let after = spent_until-Accounts (bump (day at) t) a.received_at r.spent next in
    rw (r.state) (
      reported_ok n t at (save a.save (spent_until a.received_at r.spent) b)
        (save-IsAccounted (bump (day at) t) a.save (spent_until a.received_at r.spent) b now.disk
          after)
        m)

pub dispatch_ok :
    (n limit : ℕ) (t : Tally) (a : Answers) (x : SolcastBudget × Charge)
    → limit ≤ n
    → AtMost n t
    → Charged t limit x
    → CallOk n t (dispatch a x)
unfolding dispatch
dispatch_ok n limit t a (b, stale) l m (i, c) = (i, m)
dispatch_ok n limit t a (b, exhausted) l m (i, c) = (i, m)
dispatch_ok n limit t a (b, cancelled) l m (i, c) = (i, m)
dispatch_ok n limit t a (b, waiting) l m (i, c) = (i, m)
dispatch_ok n limit t a (b, charged at) l m (i, c) =
    if_both (CallOk n t) a.active_after (after_reply a at a.reply b) (b, unsent stale)
      (reply_ok n limit t a at a.reply b c
        (bump-AtMost t limit n c.spent (day at) c.has c.today l m))
      (i, m)
