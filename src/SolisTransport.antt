-- ===== src/SolisTransport.antt =====
-- custom_components/ha_spark/solis_transport.py: the queue of requests to one gateway. `pymodbus` is not
-- part of the repository: what its client answers is given with the step that uses it. Each step of
-- the tasks between two awaits is a step of the model, so every interleaving is a list of steps.
pub mod Wire
pub mod Answered
pub mod Done
pub mod Next
mod Examples
use ha_spark.Prelude.{
  ℕ, suc, ◌+◌, ◌≡◌, Bool, true, false, not, ◌&&◌, ◌||◌, Option, none, some, List, [], ◌∷◌, ◌++◌,
  leb, ltb, ◌==◌, if◌then◌else◌, length, any, is_none,
}
use ha_spark.Authority.{Instant}
use ha_spark.NativeSlots.{Words, valid_words}

pub data Op : Type 0 where
  input holding write : Op

pub data TransportError : Type 0 where
  disconnected timeout exception bad_response : TransportError

-- `_Request`; its place in the sequence stands for its future.
pub record Request : Type 0 where
  pub sequence : ℕ
  pub op : Op
  pub address : ℕ
  pub size : ℕ
  pub values : Words
  pub device_id : ℕ
  pub connection : ℕ

-- What a caller gets, without the time that it took.
pub record Answer : Type 0 where
  pub registers : Words
  pub error : Option TransportError
  pub code : Option ℕ

-- How a future is done.
pub data Outcome : Type 0 where
  cancelled : Outcome
  result : Answer → Outcome

-- What a call of the client comes to.
pub data Reply : Type 0 where
  connection_error timeout_error other_error : Reply
  error_reply : Option ℕ → Reply
  reply : ℕ → ℕ → ℕ → Words → Reply

-- A request on the wire: when, on which connection, and whether the client was connected.
pub record Sent : Type 0 where
  pub request : Request
  pub at : Instant
  pub connected : Bool
  pub connection : ℕ

-- What happens on the wire: a request, and the end of its exchange.
pub data Event : Type 0 where
  sent : Sent → Event
  ended : Instant → Event

-- `queue` holds the requests in the order of their sequence; `started` is that there is a worker, and
-- `stopped` that `close` has ended it.
pub record Transport : Type 0 where
  pub queue : List Request
  pub next : ℕ
  pub current : Option Request
  pub done : List (ℕ × Outcome)
  pub connected : Bool
  pub connection : ℕ
  pub closed : Bool
  pub started : Bool
  pub stopped : Bool
  pub reconnect_needed : Bool
  pub last_end : Option Instant
  pub wire : List Event

abbrev pub new_transport : Transport
new_transport = record {
  queue = [];
  next = 0;
  current = none;
  done = [];
  connected = false;
  connection = 0;
  closed = false;
  started = false;
  stopped = false;
  reconnect_needed = false;
  last_end = none;
  wire = [];
}

abbrev pub is_write : Op → Bool
is_write input = false
is_write holding = false
is_write write = true

-- `valid_request`
abbrev pub valid_request : ℕ → ℕ → ℕ → ℕ → Bool
valid_request address size maximum device_id =
    leb address 65535
    && leb 1 size
    && leb size maximum
    && leb (address + size) 65536
    && leb 1 device_id
    && leb device_id 247

abbrev pub failed_with : TransportError → Answer
failed_with e = record { registers = []; error = some e; code = none }

-- `_submit`, up to its await.
abbrev pub submit : Op → ℕ → ℕ → Words → ℕ → Transport → Transport
submit op address size values device_id t = record t {
  queue =
      t.queue
      ++ (record {
        sequence = t.next;
        op = op;
        address = address;
        size = size;
        values = values;
        device_id = device_id;
        connection = t.connection;
      }
          ∷ []);
  next = suc t.next;
}

-- The last part of `_read`, after `_start`; `none` for a request that waits.
pub start_read : Op → ℕ → ℕ → ℕ → Transport → Transport × Option Answer
start_read op address size device_id t =
    if not (valid_request address size 125 device_id)
    then (t, some (failed_with bad_response))
    else if t.closed || not t.connected
    then (
      record t { reconnect_needed = t.reconnect_needed || not t.closed },
      some (failed_with disconnected),
    )
    else (submit op address size [] device_id t, none)

-- `write`, up to its await.
pub start_write : ℕ → Words → ℕ → Transport → Transport × Option Answer
start_write address words device_id t =
    if not (valid_request address (length words) 123 device_id) || not (valid_words words)
    then (t, some (failed_with bad_response))
    else if t.closed || not t.connected
    then (
      record t { reconnect_needed = t.reconnect_needed || not t.closed && t.started },
      some (failed_with disconnected),
    )
    else (submit write address (length words) words device_id t, none)

-- `_connect`, with what the client says, and the start of the worker after the first.
pub connect : Bool → Transport → Transport
connect false t = record t { connected = false; reconnect_needed = true }
connect true t = record t {
  connected = true;
  connection = suc t.connection;
  reconnect_needed = false;
}

pub start : Bool → Transport → Transport
start ok t =
    let next = connect ok t in if t.started || t.closed then t else record next { started = true }

abbrev pub is_done : ℕ → Transport → Bool
is_done sequence t = any (λ d. d.0 == sequence) t.done

-- `if not done(): set_result(...)`
abbrev pub resolve : ℕ → Outcome → Transport → Transport
resolve sequence o t = if is_done sequence t then t else record t { done = (sequence, o) ∷ t.done }

abbrev pub put_front : Request → Option (Request × List Request) → Option (Request × List Request)
put_front r none = none
put_front r (some (w, rest)) = some (w, r ∷ rest)

-- The first write, and the rest.
pub first_write : List Request → Option (Request × List Request)
first_write [] = none
first_write (r ∷ rest) =
    let later = put_front r (first_write rest) in if is_write r.op then some (r, rest) else later

-- The first request, where no write is found.
abbrev pub or_head :
    Request → List Request → Option (Request × List Request) → Option (Request × List Request)
or_head r rest none = some (r, rest)
or_head r rest (some found) = some found

-- `queue.get()`: the least by priority, then by sequence.
pub take_next : List Request → Option (Request × List Request)
take_next [] = none
take_next (r ∷ rest) = or_head r rest (first_write (r ∷ rest))

abbrev pub pace : ℕ
pace = 310_000

abbrev pub is_paced : Option Instant → Instant → Bool
is_paced none now = true
is_paced (some end) now = leb (end + pace) now

-- A request off the queue, up to the call of the client.
abbrev pub begin_with : Instant → Option (Request × List Request) → Transport → Transport
begin_with now none t = t
begin_with now (some (r, rest)) t =
    let lost : Transport = record t {
      queue = rest;
      reconnect_needed = t.reconnect_needed || not t.connected;
    } in
    if is_done r.sequence t
    then record t { queue = rest }
    else if not t.connected || not (r.connection == t.connection)
    then resolve r.sequence (result (failed_with disconnected)) lost
    else record t {
      queue = rest;
      current = some r;
      wire =
          sent
            (record { request = r; at = now; connected = t.connected; connection = t.connection })
          ∷ t.wire;
    }

-- One round of `_run`, up to the await of the client; it waits while the last exchange is too near.
pub begin : Instant → Transport → Transport
begin now t =
    if t.started && not t.stopped && is_none t.current && is_paced t.last_end now
    then begin_with now (take_next t.queue) t
    else t

abbrev pub function_code : Op → ℕ
function_code input = 4
function_code holding = 3
function_code write = 16

abbrev pub good : Words → Answer
good registers = record { registers = registers; error = none; code = none }

-- `1 <= exception_code <= 255`
abbrev pub exception_answer : Option ℕ → Answer
exception_answer none = failed_with bad_response
exception_answer (some c) =
    if leb 1 c && leb c 255
    then record { registers = []; error = some exception; code = some c }
    else failed_with bad_response

-- `_exchange`, on what the client's call came to.
pub exchange : Request → Reply → Answer
exchange r connection_error = failed_with disconnected
exchange r timeout_error = failed_with timeout
exchange r other_error = failed_with bad_response
exchange r (error_reply code) = exception_answer code
exchange r (reply function address count registers) =
    if is_write r.op
    then (if not (function == function_code r.op)
          || not (address == r.address)
          || not (count == r.size)
        then failed_with bad_response
        else good [])
    else if not (function == function_code r.op)
        || not (length registers == r.size)
        || not (valid_words registers)
    then failed_with bad_response
    else good registers

-- `error in (DISCONNECTED, TIMEOUT)`
abbrev pub loses : Option TransportError → Bool
loses (some disconnected) = true
loses (some timeout) = true
loses _ = false

-- The rest of the round, after the client's call.
abbrev pub finish_with : Reply → Instant → Option Request → Transport → Transport
finish_with came now none t = t
finish_with came now (some r) t =
    let answer = exchange r came in
    let lost = loses answer.error in
    resolve r.sequence (result answer) (record t {
      current = none;
      last_end = some now;
      wire = ended now ∷ t.wire;
      connected = t.connected && not lost;
      reconnect_needed = t.reconnect_needed || lost;
    })

pub finish : Reply → Instant → Transport → Transport
finish r now t = finish_with r now t.current t

abbrev pub fail_all : List Request → Transport → Transport
fail_all [] t = t
fail_all (r ∷ rest) t = fail_all rest (resolve r.sequence (result (failed_with disconnected)) t)

abbrev pub fail_current : Option Request → Transport → Transport
fail_current none t = t
fail_current (some r) t = resolve r.sequence (result (failed_with disconnected)) t

-- `close`, once no connect is running: the worker's request and the queue are answered.
pub close : Transport → Transport
close t =
    let failed = fail_all t.queue (fail_current t.current t) in
    record failed { queue = []; current = none; connected = false; closed = true; stopped = true }

-- A step of a task, of a caller or of the client.
pub data Step : Type 0 where
  step_input step_holding : ℕ → ℕ → ℕ → Step
  step_write : ℕ → Words → ℕ → Step
  step_start : Bool → Step
  step_connect : Bool → Step
  step_connected step_lose : Step
  step_cancel : ℕ → Step
  step_begin : Instant → Step
  step_finish : Reply → Instant → Step
  step_closing : Step
  step_close : Step

pub step : Step → Transport → Transport
step (step_input address size device_id) t = (start_read input address size device_id t).0
step (step_holding address size device_id) t = (start_read holding address size device_id t).0
step (step_write address words device_id) t = (start_write address words device_id t).0
step (step_start ok) t = start ok t
step (step_connect ok) t = if t.started && not t.stopped then connect ok t else t
step step_connected t = record t { reconnect_needed = t.reconnect_needed && not t.connected }
step step_lose t = record t { connected = false }
step (step_cancel sequence) t = if ltb sequence t.next then resolve sequence cancelled t else t
step (step_begin now) t = begin now t
step (step_finish r now) t = finish r now t
step step_closing t = record t { closed = true }
step step_close t = close t

-- From a new transport, the oldest step first.
pub run : List Step → Transport → Transport
run [] t = t
run (s ∷ rest) t = run rest (step s t)
