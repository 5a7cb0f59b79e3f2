-- ===== src/Solcast.antt =====
-- custom_components/ha_spark/solcast_budget.py: the daily quota of Solcast calls, kept on disk. An
-- instant counts microseconds of UTC, a day is its quotient. Other code may change between two waits
-- whether the entry is still active, so each check of `active` has its own answer.
pub mod Request
pub mod Spent
mod Examples
use mathlib.Core.Bool.{decide, decide_iff}
use native.Mathlib.Decide.{ℕ_discrete}
use ha_spark.Prelude.{
  ◌≡◌, ◌↔◌, ℕ, suc, ◌+◌, ◌*◌, ◌/◌, Bool, true, false, not, ◌&&◌, ◌||◌, Option, none, some, List, [],
  ◌∷◌, ltb, leb, ◌==◌, if◌then◌else◌,
}
use ha_spark.Authority.{Instant, second}
use ha_spark.Addon.Disk.{File, missing, broken, valid}

abbrev pub Day : Type 0
Day = ℕ

abbrev pub day_length : ℕ
day_length = 86400 * second

abbrev pub day : Instant → Day
day now = now / day_length

pub record QuotaState : Type 0 where
  pub utc_day : Day
  pub calls_used : ℕ
  pub exhausted_until : Option Instant
  pub window_start : Option ℕ
  pub first_fetch_pending : Bool
  pub reserved_day : Option Day

-- The gate, with the file of its store.
pub record SolcastBudget : Type 0 where
  pub disk : File QuotaState
  pub state : Option QuotaState
  pub failed : Bool
  pub reserved_sites : ℕ

pub QuotaState-discrete : Discrete QuotaState
QuotaState-discrete = hlevel ℕ_discrete

pub same_quota : QuotaState → QuotaState → Bool
same_quota a b = decide (QuotaState-discrete a b)

pub same_quota_iff : (a b : QuotaState) → (same_quota a b ≡ true) ↔ (a ≡ b)
unfolding same_quota
same_quota_iff a b = decide_iff (QuotaState-discrete a b)

-- How a write ends: it raises, it is cancelled, or it returns and the file is read back, which may
-- raise too.
pub data WriteEnd : Type 0 where
  returns raises cancelled : WriteEnd

-- The answers that `_save` gets: of `active`, twice, and of the write.
pub record SaveAnswers : Type 0 where
  pub active : Bool
  pub active_at_write : Bool
  pub lands : Bool
  pub end : WriteEnd

-- A cancelled save raises through the callers.
pub data Verdict : Type 0 where
  saved unsaved interrupted : Verdict

abbrev pub landed : SaveAnswers → QuotaState → File QuotaState → File QuotaState
landed a s d = if a.active_at_write && a.lands then valid s else d

abbrev pub holds : QuotaState → File QuotaState → Bool
holds s (valid t) = same_quota t s
holds s _ = false

abbrev broken_gate : SolcastBudget → SolcastBudget
broken_gate b = record b { failed = true }

abbrev pub save_end : WriteEnd → QuotaState → SolcastBudget → SolcastBudget × Verdict
save_end raises s b = (broken_gate b, unsaved)
save_end cancelled s b = (b, interrupted)
save_end returns s b = if holds s b.disk then (b, saved) else (broken_gate b, unsaved)

-- `_save` of the state `s`.
pub save : SaveAnswers → QuotaState → SolcastBudget → SolcastBudget × Verdict
save a s b =
    if not a.active
    then (record b { state = some s }, unsaved)
    else save_end a.end s (record b { disk = landed a s b.disk; state = some s })

abbrev pub fresh_quota : Instant → ℕ → QuotaState
fresh_quota now calls = record {
  utc_day = day now;
  calls_used = calls;
  exhausted_until = none;
  window_start = none;
  first_fetch_pending = false;
  reserved_day = none;
}

-- The answers that `_load` gets: of `active`, whether the file can be read, the time, and of a save.
pub record LoadAnswers : Type 0 where
  pub active : Bool
  pub reads : Bool
  pub now : Instant
  pub save : SaveAnswers

-- A damaged file counts as a day that is spent.
pub load_file : LoadAnswers → File QuotaState → SolcastBudget → SolcastBudget × Verdict
unfolding save
load_file a (valid s) b = (record b { state = some s }, saved)
load_file a missing b = (record b { state = some (fresh_quota a.now 0) }, saved)
load_file a broken b = save a.save (fresh_quota a.now 1000) b

abbrev pub load_state : LoadAnswers → Option QuotaState → SolcastBudget → SolcastBudget × Verdict
load_state a (some s) b = (b, saved)
load_state a none b =
    let file = load_file a b.disk b in
    if a.reads then file else (record b { failed = true }, unsaved)

-- `_load`
pub load : LoadAnswers → SolcastBudget → SolcastBudget × Verdict
unfolding load_file
load a b = if b.failed || not a.active then (b, unsaved) else load_state a b.state b

-- What follows a load that succeeds.
abbrev pub with_state :
    Option QuotaState
    → (QuotaState → SolcastBudget → SolcastBudget × Verdict)
    → SolcastBudget
    → SolcastBudget × Verdict
with_state none k b = (b, unsaved)
with_state (some s) k b = k s b

abbrev pub and_then :
    SolcastBudget × Verdict
    → (QuotaState → SolcastBudget → SolcastBudget × Verdict)
    → SolcastBudget × Verdict
and_then (b, saved) k = with_state b.state k b
and_then (b, unsaved) k = (b, unsaved)
and_then (b, interrupted) k = (b, interrupted)

abbrev pub same_option : Option ℕ → ℕ → Bool
same_option none v = false
same_option (some w) v = w == v

pub async_set_window_start : LoadAnswers → SaveAnswers → ℕ → SolcastBudget → SolcastBudget × Verdict
unfolding load save
async_set_window_start l a value b = and_then (load l b) (λ s b'.
    let stored = save a (record s { window_start = some value }) b' in
    if same_option s.window_start value then (b', unsaved) else stored)

pub async_finish_reserved :
    LoadAnswers → SaveAnswers → Instant → SolcastBudget → SolcastBudget × Verdict
unfolding load save
async_finish_reserved l a now b =
    and_then (load l b) (λ s b'. save a (record s { reserved_day = some (day now) }) b')

pub async_set_first_fetch_pending :
    LoadAnswers → SaveAnswers → Bool → SolcastBudget → SolcastBudget × Verdict
unfolding load save
async_set_first_fetch_pending l a value b =
    and_then (load l b) (λ s b'. save a (record s { first_fetch_pending = value }) b')

-- A new day has no calls.
pub rolled : Instant → QuotaState → QuotaState
rolled now s =
    if ltb s.utc_day (day now)
    then record s { utc_day = day now; calls_used = 0; exhausted_until = none }
    else s

pub async_load : LoadAnswers → SaveAnswers → Instant → SolcastBudget → SolcastBudget × Verdict
unfolding load save rolled
async_load l a now b = and_then (load l b) (λ s b'.
    let stored = save a (rolled now s) b' in
    if ltb s.utc_day (day now) then stored else (b', saved))

-- The property `calls_used`.
pub calls_used : Instant → SolcastBudget → ℕ
calls_used now b = elim b.state [
  | none ↦ 0
  | some s ↦ if ltb s.utc_day (day now) then 0 else s.calls_used
]
