-- ===== src/Solcast/Spent.antt =====
-- Every request that is sent has been charged on disk.
use ha_spark.Prelude.{
  ℕ, ◌≤◌, ◌<◌, ◌≡◌, inl, inr, refl, true, not, ◌&&◌, Option, none, some, ltb, arith, Bool-cases,
  if_both,
}
use ha_spark.Addon.Disk.{File, missing, broken, valid}
use ha_spark.Authority.{Instant}
use ha_spark.Solcast.{
  QuotaState, SolcastBudget, SaveAnswers, Verdict, saved, unsaved, save, save_end, WriteEnd,
  same_quota_iff, rolled, day, Day, landed, holds,
}

-- The requests sent on each day.
abbrev pub Tally : Type 0
Tally = Day → ℕ

-- A quota state that accounts for the requests sent: none after its day, and on its day no more than
-- it counts.
pub record Accounts (t : Tally) (s : QuotaState) : Type 0 where
  pub later : (d : Day) → s.utc_day < d → t d ≡ 0
  pub today : t s.utc_day ≤ s.calls_used

abbrev pub FileAccounts : Tally → File QuotaState → Type 0
FileAccounts t missing = (d : Day) → t d ≡ 0
FileAccounts t broken = (d : Day) → t d ≡ 0
FileAccounts t (valid s) = Accounts t s

abbrev pub StateAccounts : Tally → Option QuotaState → Type 0
StateAccounts t none = Unit
StateAccounts t (some s) = Accounts t s

pub record IsAccounted (t : Tally) (b : SolcastBudget) : Type 0 where
  pub disk : FileAccounts t b.disk
  pub state : StateAccounts t b.state

pub rolled-Accounts :
    (t : Tally) (now : Instant) (s : QuotaState) → Accounts t s → Accounts t (rolled now s)
unfolding rolled
rolled-Accounts t now s a =
    let next : QuotaState = record s {
      utc_day = day now;
      calls_used = 0;
      exhausted_until = none;
    } in
    elim (Bool-cases (ltb s.utc_day (day now))) [
      | inl e ↦ rw (e) (record {
        later = λ d h. a.later d (ground (arith, h, e));
        today = ground (arith, a.later (day now), e);
      })
      | inr e ↦ rw (e) a
    ]

file_landed :
    (t : Tally) (a : SaveAnswers) (s : QuotaState) (d : File QuotaState)
    → FileAccounts t d
    → Accounts t s
    → FileAccounts t (landed a s d)
file_landed t a s d h k = if_both (FileAccounts t) (a.active_at_write && a.lands) (valid s) d k h

abbrev pub Kept {ℓ} : {V : Type ℓ} → Tally → SolcastBudget × V → Type 0
Kept t r = IsAccounted t r.0

save_end-IsAccounted :
    (t : Tally) (e : WriteEnd) (s : QuotaState) (b : SolcastBudget)
    → IsAccounted t b
    → Kept t (save_end e s b)
save_end-IsAccounted t WriteEnd.raises s b i = record { disk = i.disk; state = i.state }
save_end-IsAccounted t WriteEnd.cancelled s b i = i
save_end-IsAccounted t WriteEnd.returns s b i =
    if_both (Kept t) (holds s b.disk) (b, saved) (record b { failed = true }, unsaved) i
      (record { disk = i.disk; state = i.state })

pub save-IsAccounted :
    (t : Tally) (a : SaveAnswers) (s : QuotaState) (b : SolcastBudget)
    → FileAccounts t b.disk
    → Accounts t s
    → Kept t (save a s b)
unfolding save
save-IsAccounted t a s b d h =
    let written = record b { disk = landed a s b.disk; state = some s } in
    if_both (Kept t) (not a.active) (record b { state = some s }, unsaved)
      (save_end a.end s written) (record { disk = d; state = h })
      (save_end-IsAccounted t a.end s written
        (record { disk = file_landed t a s b.disk d h; state = h }))

-- What the verdict `saved` means: the state is on disk and in memory.
abbrev pub OnDisk : QuotaState → SolcastBudget × Verdict → Type 0
OnDisk s (b, v) = v ≡ saved → (b.disk ≡ valid s) × (b.state ≡ some s)

holds_lem : (s : QuotaState) (d : File QuotaState) → holds s d ≡ true → d ≡ valid s
holds_lem s missing h = ground (arith, h)
holds_lem s broken h = ground (arith, h)
holds_lem s (valid u) h = ground (arith, (same_quota_iff u s).0 h)

save_end-saved :
    (e : WriteEnd) (s : QuotaState) (b : SolcastBudget)
    → b.state ≡ some s
    → OnDisk s (save_end e s b)
save_end-saved WriteEnd.raises s b p = λ h. ground (arith, h)
save_end-saved WriteEnd.cancelled s b p = λ h. ground (arith, h)
save_end-saved WriteEnd.returns s b p = elim (Bool-cases (holds s b.disk)) [
  | inl e ↦ rw (e) (λ h. (holds_lem s b.disk e, p))
  | inr e ↦ rw (e) (λ h. ground (arith, h))
]

pub save-saved : (a : SaveAnswers) (s : QuotaState) (b : SolcastBudget) → OnDisk s (save a s b)
unfolding save
save-saved a s b =
    let written = record b { disk = landed a s b.disk; state = some s } in
    if_both (OnDisk s) (not a.active) (record b { state = some s }, unsaved)
      (save_end a.end s written) (λ h. ground (arith, h)) (save_end-saved a.end s written refl)
