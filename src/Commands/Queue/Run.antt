-- ===== src/Commands/Queue/Run.antt =====
-- Histories of the command queue.
use ha_spark.Prelude.{ℕ, String, List, [], ◌∷◌, Option, none, some, ◌≡◌, refl}
use ha_spark.Commands.{Kind, Command, CommandResult, Json}
use ha_spark.Commands.Queue.{CommandQueue, new_queue, enqueue, fetch, accept}
use ha_spark.Commands.Queue.Keeps.{
  IsQueue, new-IsQueue, enqueue-IsQueue, fetch-IsQueue, accept-IsQueue,
}

-- What the add-on's programs and the integration ask of the queue.
pub data QueueCall : Type 0 where
  ask : ℕ → Kind → String → QueueCall
  poll : String → String → QueueCall
  answer : CommandResult → QueueCall

abbrev queue_or : CommandQueue → Option (CommandQueue × Command) → CommandQueue
queue_or q none = q
queue_or q (some (next, c)) = next

-- A call that raises leaves what it has done so far.
pub queue_call : Json → QueueCall → CommandQueue → CommandQueue
unfolding enqueue fetch accept
queue_call json (ask epoch kind payload) q = queue_or q (enqueue json epoch kind payload q)
queue_call json (poll session integration) q = (fetch json session integration q).0
queue_call json (answer result) q = (accept result q).0

pub queue_run : Json → List QueueCall → CommandQueue → CommandQueue
unfolding queue_call
queue_run json [] q = q
queue_run json (c ∷ rest) q = queue_run json rest (queue_call json c q)

asked :
    (json : Json) (epoch : ℕ) (kind : Kind) (payload : String) (q : CommandQueue)
    (o : Option (CommandQueue × Command))
    → IsQueue json q
    → enqueue json epoch kind payload q ≡ o
    → IsQueue json (queue_or q o)
asked json epoch kind payload q none i e = i
asked json epoch kind payload q (some (next, c)) i e =
    (enqueue-IsQueue json epoch kind payload q next c i e).0

queue_run-keeps :
    (json : Json) (calls : List QueueCall) (q : CommandQueue)
    → IsQueue json q
    → IsQueue json (queue_run json calls q)
unfolding queue_run queue_call
queue_run-keeps json [] q i = i
queue_run-keeps json (ask epoch kind payload ∷ rest) q i =
    queue_run-keeps json rest (queue_or q (enqueue json epoch kind payload q))
      (asked json epoch kind payload q (enqueue json epoch kind payload q) i refl)
queue_run-keeps json (poll session integration ∷ rest) q i =
    queue_run-keeps json rest (fetch json session integration q).0
      (fetch-IsQueue json session integration q i)
queue_run-keeps json (answer result ∷ rest) q i =
    queue_run-keeps json rest (accept result q).0 (accept-IsQueue json result q i)

-- From a new queue, whatever is asked, polled and answered, in whatever order, the pending commands
-- stay in strictly increasing order of sequence and no newer than the counter, none of them is longer
-- than 3800 bytes, and there are at most 64 of them and of results.
pub queue_run-IsQueue :
    (json : Json) (calls : List QueueCall) (session : String)
    → IsQueue json (queue_run json calls (new_queue session))
queue_run-IsQueue json calls session =
    queue_run-keeps json calls (new_queue session) (new-IsQueue json session)
