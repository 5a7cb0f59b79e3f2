-- ===== src/Commands/Examples.antt =====
-- A session of the queue, and a replayed command.
use ha_spark.Prelude.{
  List, All, suc, ℕ, ◌*◌, ◌+◌, ◌≤◌, ◌≡◌, ◌≢◌, true, some, none, [], ◌∷◌, arith, length, take,
}
use ha_spark.Commands.{Json, Kind, Command, CommandResult, Outcome}
use ha_spark.Commands.Queue.{CommandQueue, new_queue, fetch, max_batch, for_session}
use ha_spark.Commands.Queue.Keeps.{IsQueue}
use ha_spark.Commands.Queue.Run.{QueueCall, ask, poll, answer, queue_run, queue_run-IsQueue}
use ha_spark.Commands.Queue.Batch.{IsJson, fetch_total}
use ha_spark.Commands.Consumer
use ha_spark.Commands.Consumer.Once.{Event, arrive, runs, increasing, runs-increasing}

-- Envelopes of the same size.
abbrev json : Json
json = record {
  admits = λ kind payload. true;
  size = λ c. 100;
  batch_size = λ session batch. 100 + length batch * 101;
}

abbrev result : CommandResult
result = record {
  session_id = "addon";
  sequence = 1;
  outcome = Outcome.applied;
  reason = none;
  intents = [];
  epoch = some 4;
  reasons = [];
}

abbrev calls : List QueueCall
calls =
    ask 4 Kind.transition "{}" ∷ ask 4 Kind.manual "{}" ∷ poll "addon" "home" ∷ answer result ∷ []

queue_run-IsQueue_example : IsQueue json (queue_run json calls (new_queue "addon"))
queue_run-IsQueue_example = queue_run-IsQueue json calls "addon"

abbrev asked : CommandQueue
asked = queue_run json (ask 4 Kind.transition "{}" ∷ poll "addon" "home" ∷ []) (new_queue "addon")

batch_le :
    (n : ℕ) (batch : List Command)
    → All (λ (c : Command). 100 ≤ n) batch
    → length batch * 101 ≤ length batch * suc n
batch_le n [] h = omega arith
batch_le n (c ∷ rest) h = omega (arith, h.0, batch_le n rest h.1)

json-IsJson : IsJson json
json-IsJson = record { envelope = λ session batch n h. omega (arith, batch_le n batch h) }

fetch_total_example :
    ("addon" ≡ asked.session_id
      → (fetch json "addon" "home" asked).1
        ≡ some (take max_batch (for_session "home" asked).pending))
    × ("addon" ≢ asked.session_id → (fetch json "addon" "home" asked).1 ≡ none)
fetch_total_example =
    fetch_total json "addon" "home" asked json-IsJson
      (queue_run-IsQueue json (ask 4 Kind.transition "{}" ∷ poll "addon" "home" ∷ []) "addon")

abbrev command : Command
command = record {
  session_id = "addon";
  epoch = 4;
  sequence = 1;
  kind = Kind.transition;
  payload = "{}";
}

abbrev events : List Event
events = arrive (some 4) command ∷ arrive (some 4) command ∷ []

abbrev consumer : Consumer.CommandConsumer
consumer = record { session_id = "addon"; last_sequence = 0; results = [] }

runs-increasing_example : increasing 0 (runs events consumer) ≡ true
runs-increasing_example = runs-increasing events consumer
