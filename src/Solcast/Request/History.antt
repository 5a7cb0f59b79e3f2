-- ===== src/Solcast/Request/History.antt =====
-- Histories of one entry's gate: no day gets more requests than the limit.
use ha_spark.Prelude.{
  ℕ, ◌≤◌, ◌≡◌, refl, Bool, true, false, not, ◌||◌, Option, none, some, List, [], ◌∷◌, ltb, ◌==◌,
  if◌then◌else◌, arith, if_both,
}
use ha_spark.Addon.Disk.{File, missing, broken, valid}
use ha_spark.Authority.{Instant}
use ha_spark.Solcast.{
  QuotaState, SolcastBudget, SaveAnswers, LoadAnswers, Verdict, saved, unsaved, interrupted, save,
  load, rolled, day, Day,
}
use ha_spark.Solcast.Request.{stale, unsent, Answers, dispatch, loaded, async_request}
use ha_spark.Solcast.Spent.{
  Tally, Accounts, FileAccounts, StateAccounts, IsAccounted, rolled-Accounts, save-IsAccounted,
  Kept,
}
use ha_spark.Solcast.Request.Charged.{Charged, charge_ok}
use ha_spark.Solcast.{
  async_set_window_start, async_finish_reserved, async_set_first_fetch_pending, async_load,
  and_then,
}
use ha_spark.Prelude.{All}
use ha_spark.Solcast.{fresh_quota, load_file, load_state, with_state, same_option}
use ha_spark.Solcast.Request.{charge_from}
use ha_spark.Solcast.Request.Quota.{tallied, AtMost, CallOk, dispatch_ok}

zero-Accounts : (t : Tally) (s : QuotaState) → ((d : Day) → t d ≡ 0) → Accounts t s
zero-Accounts t s z = record { later = λ d h. z d; today = ground (arith, z s.utc_day) }

file_ok :
    (t : Tally) (a : LoadAnswers) (d : File QuotaState) (b : SolcastBudget)
    → FileAccounts t d
    → b.disk ≡ d
    → Kept t (load_file a d b)
unfolding load_file
file_ok t a (valid s) b h e = record { disk = rw (e) h; state = h }
file_ok t a missing b h e = record {
  disk = rw (e) h;
  state = zero-Accounts t (fresh_quota a.now 0) h;
}
file_ok t a broken b h e =
    save-IsAccounted t a.save (fresh_quota a.now 1000) b (rw (e) h)
      (zero-Accounts t (fresh_quota a.now 1000) h)

state_ok :
    (t : Tally) (a : LoadAnswers) (o : Option QuotaState) (b : SolcastBudget)
    → IsAccounted t b
    → Kept t (load_state a o b)
state_ok t a (some s) b i = i
state_ok t a none b i =
    if_both (Kept t) a.reads (load_file a b.disk b) (record b { failed = true }, unsaved)
      (file_ok t a b.disk b i.disk refl) (record { disk = i.disk; state = i.state })

load-IsAccounted :
    (t : Tally) (a : LoadAnswers) (b : SolcastBudget) → IsAccounted t b → Kept t (load a b)
unfolding load
load-IsAccounted t a b i =
    if_both (Kept t) (b.failed || not a.active) (b, unsaved) (load_state a b.state b) i
      (state_ok t a b.state b i)

abbrev StateKept : Tally → (QuotaState → SolcastBudget → SolcastBudget × Verdict) → Type 0
StateKept t k =
    (s : QuotaState) (b : SolcastBudget) → IsAccounted t b → Accounts t s → Kept t (k s b)

with_state_ok :
    (t : Tally) (o : Option QuotaState) (k : QuotaState → SolcastBudget → SolcastBudget × Verdict)
    (b : SolcastBudget)
    → IsAccounted t b
    → StateAccounts t o
    → StateKept t k
    → Kept t (with_state o k b)
with_state_ok t none k b i h f = i
with_state_ok t (some s) k b i h f = f s b i h

and_then-IsAccounted :
    (t : Tally) (x : SolcastBudget × Verdict)
    (k : QuotaState → SolcastBudget → SolcastBudget × Verdict)
    → Kept t x
    → StateKept t k
    → Kept t (and_then x k)
and_then-IsAccounted t (b, saved) k i f = with_state_ok t b.state k b i i.state f
and_then-IsAccounted t (b, unsaved) k i f = i
and_then-IsAccounted t (b, interrupted) k i f = i

-- The operations that store one field.
stored_ok :
    (t : Tally) (a : SaveAnswers) (l : LoadAnswers) (b : SolcastBudget)
    (f : QuotaState → QuotaState)
    → ((s : QuotaState) → Accounts t s → Accounts t (f s))
    → IsAccounted t b
    → Kept t (and_then (load l b) (λ s b'. save a (f s) b'))
stored_ok t a l b f k i =
    and_then-IsAccounted t (load l b) (λ s b'. save a (f s) b') (load-IsAccounted t l b i)
      (λ s b' i' h. save-IsAccounted t a (f s) b' i'.disk (k s h))

charge_from_ok :
    (t : Tally) (limit : ℕ) (reserved : Bool) (a : Answers) (o : Option QuotaState)
    (b : SolcastBudget)
    → IsAccounted t b
    → StateAccounts t o
    → Charged t limit (charge_from limit reserved a o b)
charge_from_ok t limit reserved a none b i h = (i, tt)
charge_from_ok t limit reserved a (some s) b i h = charge_ok t limit reserved a.rounds s b i h

loaded_ok :
    (t : Tally) (limit : ℕ) (reserved : Bool) (a : Answers) (x : SolcastBudget × Verdict)
    → Kept t x
    → Charged t limit (loaded limit reserved a x)
loaded_ok t limit reserved a (b, saved) i = charge_from_ok t limit reserved a b.state b i i.state
loaded_ok t limit reserved a (b, unsaved) i = (i, tt)
loaded_ok t limit reserved a (b, interrupted) i = (i, tt)

-- The calls on the gate, with what each meets; a restart keeps only the file.
pub data Event : Type 0 where
  request : ℕ → Bool → Answers → Event
  set_window_start : LoadAnswers → SaveAnswers → ℕ → Event
  finish_reserved : LoadAnswers → SaveAnswers → Instant → Event
  set_first_fetch_pending : LoadAnswers → SaveAnswers → Bool → Event
  reload : LoadAnswers → SaveAnswers → Instant → Event
  set_sites : ℕ → Event
  restart : Event

abbrev pub started : File QuotaState → ℕ → SolcastBudget
started d sites = record { disk = d; state = none; failed = false; reserved_sites = sites }

-- One event, with the requests sent so far.
pub event : Event → SolcastBudget × Tally → SolcastBudget × Tally
unfolding async_request async_set_window_start async_finish_reserved async_set_first_fetch_pending
    async_load
event (request limit reserved a) (b, t) =
    let (next, result) = async_request limit reserved a b in (next, tallied result t)
event (set_window_start l a v) (b, t) = ((async_set_window_start l a v b).0, t)
event (finish_reserved l a now) (b, t) = ((async_finish_reserved l a now b).0, t)
event (set_first_fetch_pending l a v) (b, t) = ((async_set_first_fetch_pending l a v b).0, t)
event (reload l a now) (b, t) = ((async_load l a now b).0, t)
event (set_sites n) (b, t) = (record b { reserved_sites = n }, t)
event restart (b, t) = (started b.disk b.reserved_sites, t)

pub history : List Event → SolcastBudget × Tally → SolcastBudget × Tally
unfolding event
history [] x = x
history (e ∷ rest) x = history rest (event e x)

abbrev pub LimitWithin : ℕ → Event → Type 0
LimitWithin n (request limit reserved a) = limit ≤ n
LimitWithin n _ = Unit

abbrev Ok : ℕ → SolcastBudget × Tally → Type 0
Ok n (b, t) = IsAccounted t b × AtMost n t

event-Ok :
    (n : ℕ) (e : Event) (x : SolcastBudget × Tally) → LimitWithin n e → Ok n x → Ok n (event e x)
unfolding event async_request async_set_window_start async_finish_reserved
    async_set_first_fetch_pending async_load
event-Ok n (request limit reserved a) (b, t) l (i, m) =
    let charged_gate = loaded limit reserved a (load a.load b) in
    if_both (CallOk n t) (not a.active || not (limit == 10 || limit == 50)) (b, unsent stale)
      (dispatch a charged_gate) (i, m)
      (dispatch_ok n limit t a charged_gate l m
        (loaded_ok t limit reserved a (load a.load b) (load-IsAccounted t a.load b i)))
event-Ok n (set_window_start l a v) (b, t) l' (i, m) = (
  and_then-IsAccounted t (load l b)
      (λ s b'.
        if same_option s.window_start v
        then (b', unsaved)
        else save a (record s { window_start = some v }) b')
      (load-IsAccounted t l b i)
      (λ s b' i' h.
        if_both (Kept t) (same_option s.window_start v) (b', unsaved)
          (save a (record s { window_start = some v }) b') i'
          (save-IsAccounted t a (record s { window_start = some v }) b' i'.disk
            (record { later = h.later; today = h.today }))),
  m,
)
event-Ok n (finish_reserved l a now) (b, t) l' (i, m) = (
  stored_ok t a l b (λ s. record s { reserved_day = some (day now) })
      (λ s h. record { later = h.later; today = h.today }) i,
  m,
)
event-Ok n (set_first_fetch_pending l a v) (b, t) l' (i, m) = (
  stored_ok t a l b (λ s. record s { first_fetch_pending = v })
      (λ s h. record { later = h.later; today = h.today }) i,
  m,
)
event-Ok n (reload l a now) (b, t) l' (i, m) = (
  and_then-IsAccounted t (load l b)
      (λ s b'. if ltb s.utc_day (day now) then save a (rolled now s) b' else (b', saved))
      (load-IsAccounted t l b i)
      (λ s b' i' h.
        if_both (Kept t) (ltb s.utc_day (day now)) (save a (rolled now s) b') (b', saved)
          (save-IsAccounted t a (rolled now s) b' i'.disk (rolled-Accounts t now s h)) i'),
  m,
)
event-Ok n (set_sites k) (b, t) l (i, m) = (record { disk = i.disk; state = i.state }, m)
event-Ok n restart (b, t) l (i, m) = (record { disk = i.disk; state = tt }, m)

history-Ok :
    (n : ℕ) (events : List Event) (x : SolcastBudget × Tally)
    → All (LimitWithin n) events
    → Ok n x
    → Ok n (history events x)
unfolding history
history-Ok n [] x h i = i
history-Ok n (e ∷ rest) x (h, hs) i = history-Ok n rest (event e x) hs (event-Ok n e x h i)

started-Ok : (n sites : ℕ) (d : File QuotaState) → Ok n (started d sites, (λ f. 0))
started-Ok n sites missing = (record { disk = λ f. refl; state = tt }, (λ f. omega arith))
started-Ok n sites broken = (record { disk = λ f. refl; state = tt }, (λ f. omega arith))
started-Ok n sites (valid s) =
    (record { disk = zero-Accounts (λ f. 0) s (λ f. refl); state = tt }, (λ f. omega arith))

-- From a start on any file, with whatever is called, written, lost, cancelled and restarted in between
-- and whatever the clock shows: no more requests are sent on a day, by the clock that the gate read
-- last before each, than the largest limit that a request asks for.
pub history-AtMost :
    (n sites : ℕ) (events : List Event) (d : File QuotaState)
    → All (LimitWithin n) events
    → AtMost n (history events (started d sites, (λ f. 0))).1
history-AtMost n sites events d h =
    (history-Ok n events (started d sites, (λ f. 0)) h (started-Ok n sites d)).1
