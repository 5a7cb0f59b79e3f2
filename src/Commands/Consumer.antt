-- ===== src/Commands/Consumer.antt =====
-- `CommandConsumer` of custom_components/ha_spark/command_dispatch.py. Other commands may be consumed
-- while a handler runs, so `async_consume` is two steps: up to the call of the handler, and from its
-- answer on.
pub mod Once
use ha_spark.Prelude.{
  ℕ, suc, String, Bool, true, false, not, ◌&&◌, ◌||◌, List, [], ◌∷◌, ◌++◌, Option, none, some, ltb,
  leb, ◌==◌, str_eq, if◌then◌else◌, length, keep,
}
use ha_spark.Commands.{
  Command, CommandResult, Outcome, refused, failed, pending, Reason, stale_session, stale_authority,
  replayed,
}

-- `results`, by sequence, with the oldest entry first.
abbrev pub Results : Type 0
Results = List (ℕ × CommandResult)

pub record CommandConsumer : Type 0 where
  pub session_id : String
  pub last_sequence : ℕ
  pub results : Results

abbrev pub max_results : ℕ
max_results = 64

abbrev pub base : Command → Outcome → Option Reason → CommandResult
base command outcome reason = record {
  session_id = command.session_id;
  sequence = command.sequence;
  outcome = outcome;
  reason = reason;
  intents = [];
  epoch = none;
  reasons = [];
}

pub lookup : ℕ → Results → Option CommandResult
lookup s [] = none
lookup s ((k, r) ∷ rest) = if k == s then some r else lookup s rest

-- `self.results[s] = result`
pub put : ℕ → CommandResult → Results → Results
put s result [] = (s, result) ∷ []
put s result ((k, r) ∷ rest) = if k == s then (s, result) ∷ rest else (k, r) ∷ put s result rest

-- `min(self.results)`, of a dict with at least the key `s`.
pub least : ℕ → Results → ℕ
least s [] = s
least s ((k, r) ∷ rest) = least (if ltb k s then k else s) rest

pub drop_least : Results → Results
unfolding least
drop_least [] = []
drop_least ((k, r) ∷ rest) = keep (λ e. not (e.0 == least k rest)) ((k, r) ∷ rest)

-- `while len(self.results) > 64`, on fuel for one round for each entry.
pub trim : ℕ → Results → Results
unfolding drop_least
trim ℕ.zero results = results
trim (suc fuel) results =
    let rest = trim fuel (drop_least results) in
    if ltb max_results (length results) then rest else results

pub store : ℕ → CommandResult → Results → Results
unfolding put trim
store s result results = trim (suc (length results)) (put s result results)

pub data Verdict : Type 0 where
  reply : CommandResult → Verdict
  run : Verdict

abbrev matches : Option ℕ → ℕ → Bool
matches none e = false
matches (some n) e = n == e

-- Up to the handler: the reply where it is not called.
pub start : Option ℕ → Command → CommandConsumer → CommandConsumer × Verdict
unfolding lookup store
start epoch command c =
    let s = command.sequence in
    let begun = record c {
      last_sequence = s;
      results = store s (base command pending none) c.results;
    } in
    let stale = base command refused (some stale_authority) in
    if not (str_eq command.session_id c.session_id)
    then (c, reply (base command refused (some stale_session)))
    else elim (lookup s c.results) [
      | some result ↦ (c, reply result)
      | none ↦
          if leb s c.last_sequence
          then (c, reply (base command refused (some replayed)))
          else if matches epoch command.epoch
          then (begun, run)
          else (record begun { results = store s stale begun.results }, reply stale)
    ]

-- From the handler's answer on; an exception is `none`.
pub finish : Command → Option CommandResult → CommandConsumer → CommandConsumer × CommandResult
unfolding store
finish command answer c =
    let result : CommandResult = elim answer [ none ↦ base command failed none | some r ↦ r ] in
    (record c { results = store command.sequence result c.results }, result)
