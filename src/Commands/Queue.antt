-- ===== src/Commands/Queue.antt =====
-- `CommandQueue` of ha_spark/api/commands.py. A dict is the list of its values, oldest first.
pub mod Keeps
pub mod Run
pub mod Batch
use ha_spark.Prelude.{
  ℕ, suc, ◌+◌, String, Bool, true, false, not, ◌&&◌, ◌||◌, List, [], ◌∷◌, ◌++◌, Option, none, some,
  ltb, leb, ◌==◌, str_eq, if◌then◌else◌, length, take, any, keep, map,
}
use ha_spark.Commands.{Kind, Command, CommandResult, is_pending, Json, ordered}

pub record CommandQueue : Type 0 where
  pub session_id : String
  pub integration_session_id : Option String
  pub sequence : ℕ
  pub pending : List Command
  pub results : List CommandResult
  pub offered : List ℕ

-- `CommandQueue.__init__`
abbrev pub new_queue : String → CommandQueue
new_queue session_id = record {
  session_id = session_id;
  integration_session_id = none;
  sequence = 0;
  pending = [];
  results = [];
  offered = [];
}

abbrev pub max_pending : ℕ
max_pending = 64

abbrev pub max_results : ℕ
max_results = 64

abbrev pub max_batch : ℕ
max_batch = 16

abbrev pub max_command_size : ℕ
max_command_size = 3800

abbrev pub max_batch_size : ℕ
max_batch_size = 65536

abbrev pub new_command : CommandQueue → ℕ → Kind → String → Command
new_command q epoch kind payload = record {
  session_id = q.session_id;
  epoch = epoch;
  sequence = suc q.sequence;
  kind = kind;
  payload = payload;
}

abbrev pub add : CommandQueue → Command → CommandQueue
add q command = record q { sequence = command.sequence; pending = q.pending ++ command ∷ [] }

-- `none` is the `ValueError`, which leaves the queue alone.
pub enqueue : Json → ℕ → Kind → String → CommandQueue → Option (CommandQueue × Command)
enqueue json epoch kind payload q =
    let command = new_command q epoch kind payload in
    if leb max_pending (length q.pending)
    then none
    else if not (leb 1 epoch && json.admits kind payload)
    then none
    else if ltb max_command_size (json.size command)
    then none
    else some (add q command, command)

abbrev pub is_text : Option String → String → Bool
is_text none s = true
is_text (some t) s = str_eq t s

-- A new session of the integration starts with an empty queue.
pub for_session : String → CommandQueue → CommandQueue
for_session integration q =
    let kept = record q { integration_session_id = some integration } in
    if is_text q.integration_session_id integration
    then kept
    else record kept { pending = []; results = []; offered = [] }

abbrev pub member : ℕ → List ℕ → Bool
member s offered = any (λ o. o == s) offered

-- `offered.update(...)`
pub offer : List Command → List ℕ → List ℕ
offer [] offered = offered
offer (c ∷ rest) offered =
    offer rest (if member c.sequence offered then offered else offered ++ c.sequence ∷ [])

-- The queue and the batch; `none` is the `ValueError`. The queue has changed by the time that a batch
-- is found too large or out of order.
pub fetch : Json → String → String → CommandQueue → CommandQueue × Option (List Command)
unfolding for_session offer
fetch json session integration q =
    let current = for_session integration q in
    let batch = take max_batch current.pending in
    let next = record current { offered = offer batch current.offered } in
    if not (str_eq session q.session_id)
    then (q, none)
    else if ordered 0 batch && leb (json.batch_size q.session_id batch) max_batch_size
    then (next, some batch)
    else (next, none)

-- `while len(self.results) > 64`, which drops the oldest results and withdraws their offers.
pub trim_results : List CommandResult → List ℕ → List CommandResult × List ℕ
trim_results [] offered = ([], offered)
trim_results (r ∷ rest) offered =
    let trimmed = trim_results rest (keep (λ o. not (o == r.sequence)) offered) in
    if ltb max_results (length (r ∷ rest)) then trimmed else (r ∷ rest, offered)

abbrev pub answered : ℕ → List CommandResult → Bool
answered s results = any (λ r. r.sequence == s) results

pub record_result : CommandResult → CommandQueue → CommandQueue
unfolding trim_results
record_result result q =
    let (results, offered) = trim_results (q.results ++ result ∷ []) q.offered in
    record q {
      pending = keep (λ c. not (c.sequence == result.sequence)) q.pending;
      results = results;
      offered = offered;
    }

-- The queue, and whether the result is refused by a `ValueError`.
pub accept : CommandResult → CommandQueue → CommandQueue × Bool
unfolding record_result
accept result q =
    if not (str_eq result.session_id q.session_id && member result.sequence q.offered)
    then (q, true)
    else if answered result.sequence q.results || is_pending result.outcome
    then (q, false)
    else (record_result result q, false)

-- What `wait` returns once it ends: a result, if the queue still has it.
pub result_of : ℕ → List CommandResult → Option CommandResult
result_of s [] = none
result_of s (r ∷ rest) = if r.sequence == s then some r else result_of s rest
