-- ===== src/Solcast/Request/Charged.antt =====
-- The charge of a request, before it is sent.
use ha_spark.Prelude.{
  ℕ, suc, ◌≤◌, ◌<◌, ◌≡◌, inl, inr, refl, Bool, false, ◌||◌, some, List, [], ◌∷◌, ltb, leb, ◌==◌,
  if◌then◌else◌, arith, Bool-cases, if_else, if_both,
}
use ha_spark.Addon.Disk.{valid}
use ha_spark.Authority.{Instant}
use ha_spark.Solcast.{
  QuotaState, SolcastBudget, Verdict, saved, unsaved, interrupted, save, rolled, day,
}
use ha_spark.Solcast.Request.{
  Round, Charge, stale, exhausted, charged, RoundEnd, stop, again, after_save, round, is_exhausted,
  is_kept_back, charge,
}
use ha_spark.Solcast.Spent.{
  Tally, Accounts, IsAccounted, rolled-Accounts, save-IsAccounted, save-saved, OnDisk,
}

-- A state that is charged for one request more than were sent, within the limit.
pub record HasCharge (t : Tally) (limit : ℕ) (s : QuotaState) : Type 0 where
  pub accounts : Accounts t s
  pub spare : t s.utc_day < s.calls_used
  pub within : s.calls_used ≤ limit

-- A gate whose request may be sent: the charge is on disk, for the day of the clock.
pub record IsReady (t : Tally) (limit : ℕ) (at : Instant) (b : SolcastBudget) : Type 0 where
  pub spent : QuotaState
  pub has : HasCharge t limit spent
  pub disk : b.disk ≡ valid spent
  pub state : b.state ≡ some spent
  pub today : day at ≡ spent.utc_day

abbrev pub ChargeOk : Tally → ℕ → SolcastBudget → Charge → Type 0
ChargeOk t limit b (charged at) = IsReady t limit at b
ChargeOk t limit b _ = Unit

abbrev EndOk : Tally → ℕ → SolcastBudget → RoundEnd → Type 0
EndOk t limit b (stop c) = ChargeOk t limit b c
EndOk t limit b (again s) = Accounts t s

abbrev RoundOk : Tally → ℕ → SolcastBudget × RoundEnd → Type 0
RoundOk t limit (b, end) = IsAccounted t b × EndOk t limit b end

after_save_ok :
    (t : Tally) (limit : ℕ) (r : Round) (s : QuotaState) (x : SolcastBudget × Verdict)
    → HasCharge t limit s
    → IsAccounted t x.0
    → OnDisk s x
    → RoundOk t limit (after_save r s x)
unfolding after_save
after_save_ok t limit r s (b, unsaved) h i o = (i, tt)
after_save_ok t limit r s (b, interrupted) h i o = (i, tt)
after_save_ok t limit r s (b, saved) h i o =
    let (d, p) = o refl in
    elim (Bool-cases (day r.after == s.utc_day)) [
      | inl e ↦
          rw (e) (i, record { spent = s; has = h; disk = d; state = p; today = ground (arith, e) })
      | inr e ↦ rw (e) (i, h.accounts)
    ]

-- A charge, and how many requests were sent before it.
charged_has :
    (t : Tally) (limit : ℕ) (s : QuotaState)
    → Accounts t s
    → leb limit s.calls_used ≡ false
    → HasCharge t limit (record s { calls_used = suc s.calls_used })
charged_has t limit s a h = record {
  accounts = record { later = a.later; today = omega (arith, a.today) };
  spare = omega (arith, a.today);
  within = ground (arith, h);
}

round_ok :
    (t : Tally) (limit : ℕ) (reserved : Bool) (r : Round) (s : QuotaState) (b : SolcastBudget)
    → IsAccounted t b
    → Accounts t s
    → RoundOk t limit (round limit reserved r s b)
unfolding round
round_ok t limit reserved r s b i h =
    let today = rolled r.now s in
    let uncharged = record b { state = some today } in
    let spent = record today { calls_used = suc today.calls_used } in
    let done = after_save r spent (save r.save spent uncharged) in
    let now_ok = rolled-Accounts t r.now s h in
    let kept : IsAccounted t uncharged = record { disk = i.disk; state = now_ok } in
    let full = is_exhausted r.now today.exhausted_until || leb limit today.calls_used in
    let back = is_kept_back r.now limit reserved today uncharged in
    let rest = if back then (uncharged, stop exhausted) else done in
    if_both (RoundOk t limit) (ltb (day r.now) s.utc_day) (b, stop stale)
      (if full then (uncharged, stop exhausted) else rest) (i, tt)
      (if_else (RoundOk t limit) full (uncharged, stop exhausted) rest (kept, tt)
        (λ e.
          let has = charged_has t limit today now_ok (ground (arith, e)) in
          if_both (RoundOk t limit) back (uncharged, stop exhausted) done (kept, tt)
            (after_save_ok t limit r spent (save r.save spent uncharged) has
              (save-IsAccounted t r.save spent uncharged i.disk has.accounts)
              (save-saved r.save spent uncharged))))

abbrev pub Charged : Tally → ℕ → SolcastBudget × Charge → Type 0
Charged t limit (b, c) = IsAccounted t b × ChargeOk t limit b c

ended_ok :
    (t : Tally) (limit : ℕ) (reserved : Bool) (rest : List Round) (x : SolcastBudget × RoundEnd)
    → RoundOk t limit x
    → ((s : QuotaState) → Accounts t s → Charged t limit (charge limit reserved rest s x.0))
    → Charged t limit (elim x.1 [ stop c ↦ (x.0, c) | again s ↦ charge limit reserved rest s x.0 ])
ended_ok t limit reserved rest (b, stop c) (i, e) k = (i, e)
ended_ok t limit reserved rest (b, again s) (i, e) k = k s e

pub charge_ok :
    (t : Tally) (limit : ℕ) (reserved : Bool) (rounds : List Round) (s : QuotaState)
    (b : SolcastBudget)
    → IsAccounted t b
    → Accounts t s
    → Charged t limit (charge limit reserved rounds s b)
unfolding charge
charge_ok t limit reserved [] s b i h = (i, tt)
charge_ok t limit reserved (r ∷ rest) s b i h =
    ended_ok t limit reserved rest (round limit reserved r s b)
      (round_ok t limit reserved r s b i h)
      (λ u k.
        charge_ok t limit reserved rest u (round limit reserved r s b).0
          (round_ok t limit reserved r s b i h).0 k)
