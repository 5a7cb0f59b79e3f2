-- ===== src/SolisTransport/Wire.antt =====
-- What goes on the wire: valid requests, on the connection that they were made for, and paced.
use ha_spark.Prelude.{
  ap, true, if_cases, arith, ltb, is_none, ℕ, ◌+◌, ◌≤◌, ◌≡◌, refl, Bool, false, not, ◌&&◌, ◌||◌,
  ◌==◌, ◌⊎◌, inl, inr, Option, none, some, List, [], ◌∷◌, ◌++◌, length, All, if_both, if_else,
  or_else,
}
use ha_spark.Authority.{Instant}
use ha_spark.NativeSlots.{Words, valid_words}
use ha_spark.SolisTransport.{
  Op, input, holding, write, Request, Answer, Outcome, Sent, Event, sent, ended, Transport,
  new_transport, is_write, valid_request, submit, start_read, start_write, connect, start, is_done,
  resolve, put_front, first_write, or_head, take_next, pace, is_paced, begin_with, begin,
  finish_with, finish, fail_all, fail_current, close, Step, step_input, step_holding, step_write,
  step_start, step_connect, step_connected, step_lose, step_cancel, step_begin, step_finish,
  step_closing, step_close, step, run, disconnected, bad_response, result, failed_with, Reply,
  exchange, loses, cancelled,
}

abbrev pub maximum : Op → ℕ
maximum input = 125
maximum holding = 125
maximum write = 123

abbrev pub values_ok : Request → Bool
values_ok r = not (is_write r.op) || length r.values == r.size && valid_words r.values

-- The frame that a request is: its address and its size are in range, and a write has the words.
abbrev pub IsFrame : Request → Type 0
IsFrame r =
    (valid_request r.address r.size (maximum r.op) r.device_id ≡ true) × (values_ok r ≡ true)

-- It was sent by a connected client, on the connection that it was made for.
pub record IsFair (s : Sent) : Type 0 where
  pub frame : IsFrame s.request
  pub connected : s.connected ≡ true
  pub same_connection : s.request.connection ≡ s.connection

abbrev pub AfterGap : Instant → List Event → Type 0
AfterGap at [] = Unit
AfterGap at (sent s ∷ rest) = ⊥
AfterGap at (ended e ∷ rest) = e + pace ≤ at

-- Each request is fair, and goes out only after the end of the one before and the pace.
abbrev pub WireOk : List Event → Type 0
WireOk [] = Unit
WireOk (sent s ∷ rest) = IsFair s × AfterGap s.at rest × WireOk rest
WireOk (ended e ∷ rest) = WireOk rest

abbrev AtRest : Option Instant → List Event → Type 0
AtRest o [] = o ≡ none
AtRest o (sent s ∷ rest) = ⊥
AtRest o (ended e ∷ rest) = o ≡ some e

abbrev Inv : Transport → Type 0
Inv t =
    All IsFrame t.queue
    × WireOk t.wire
    × ((t.stopped ≡ true) ⊎ ((is_none t.current ≡ false) ⊎ AtRest t.last_end t.wire))

All-append {ℓ κ} :
    {A : Type ℓ} (P : A → Type κ) (xs ys : List A) → All P xs → All P ys → All P (xs ++ ys)
All-append P [] ys h k = k
All-append P (x ∷ xs) ys h k = (h.0, All-append P xs ys h.1 k)

resolve-Inv : (n : ℕ) (o : Outcome) (t : Transport) → Inv t → Inv (resolve n o t)
resolve-Inv n o t h = if_both Inv (is_done n t) t (record t { done = (n, o) ∷ t.done }) h h

submit-Inv :
    (op : Op) (address size : ℕ) (values : Words) (device_id : ℕ) (t : Transport)
    → (valid_request address size (maximum op) device_id ≡ true)
    → (not (is_write op) || length values == size && valid_words values ≡ true)
    → Inv t
    → Inv (submit op address size values device_id t)
submit-Inv op address size values device_id t v w (frames, wire, rest) =
    (All-append IsFrame t.queue _ frames ((v, w), tt), wire, rest)

read-Inv :
    (op : Op) (address size device_id : ℕ) (t : Transport)
    → is_write op ≡ false
    → maximum op ≡ 125
    → Inv t
    → Inv (start_read op address size device_id t).0
unfolding start_read
read-Inv op address size device_id t r m h =
    if_else (λ (x : Transport × Option Answer). Inv x.0)
      (not (valid_request address size 125 device_id)) (t, some (failed_with bad_response)) _ h
      (λ v.
        if_both (λ (x : Transport × Option Answer). Inv x.0) (t.closed || not t.connected) _ _ h
          (submit-Inv op address size [] device_id t (ground (arith, v, m)) (ground (arith, r)) h))

write-Inv :
    (address : ℕ) (words : Words) (device_id : ℕ) (t : Transport)
    → Inv t
    → Inv (start_write address words device_id t).0
unfolding start_write
write-Inv address words device_id t h =
    if_else (λ (x : Transport × Option Answer). Inv x.0)
      (not (valid_request address (length words) 123 device_id) || not (valid_words words))
      (t, some (failed_with bad_response)) _ h
      (λ v.
        if_both (λ (x : Transport × Option Answer). Inv x.0) (t.closed || not t.connected) _ _ h
          (submit-Inv write address (length words) words device_id t (ground (arith, v))
            (ground (arith, v)) h))

-- What is taken off a queue, and what is left of it, are its requests.
Taken : Option (Request × List Request) → Type 0
Taken none = Unit
Taken (some (r, rest)) = IsFrame r × All IsFrame rest

put_front-Taken :
    (r : Request) (o : Option (Request × List Request))
    → IsFrame r
    → Taken o
    → Taken (put_front r o)
unfolding Taken
put_front-Taken r none h k = tt
put_front-Taken r (some (w, rest)) h k = (k.0, (h, k.1))

first_write-Taken : (q : List Request) → All IsFrame q → Taken (first_write q)
unfolding Taken first_write
first_write-Taken [] h = tt
first_write-Taken (r ∷ rest) h =
    if_both Taken (is_write r.op) (some (r, rest)) (put_front r (first_write rest)) h
      (put_front-Taken r (first_write rest) h.0 (first_write-Taken rest h.1))

empty-Taken : Taken none
unfolding Taken
empty-Taken = tt

Taken-or :
    (r : Request) (rest : List Request) (o : Option (Request × List Request))
    → All IsFrame (r ∷ rest)
    → Taken o
    → Taken (or_head r rest o)
unfolding Taken
Taken-or r rest none h k = h
Taken-or r rest (some x) h k = k

take-Taken : (q : List Request) → All IsFrame q → Taken (take_next q)
unfolding take_next
take-Taken [] h = empty-Taken
take-Taken (r ∷ rest) h =
    Taken-or r rest (first_write (r ∷ rest)) h (first_write-Taken (r ∷ rest) h)

paced-AfterGap :
    (now : Instant) (o : Option Instant) (wire : List Event)
    → AtRest o wire
    → is_paced o now ≡ true
    → AfterGap now wire
paced-AfterGap now o [] h p = tt
paced-AfterGap now o (sent s ∷ rest) h p = h
paced-AfterGap now none (ended e ∷ rest) h p = ground (arith, h)
paced-AfterGap now (some last) (ended e ∷ rest) h p =
    let same : last ≡ e = ap (λ o. or_else o last) h in ground (arith, same, p)

at_rest :
    (t : Transport)
    → Inv t
    → t.stopped ≡ false
    → is_none t.current ≡ true
    → AtRest t.last_end t.wire
at_rest t (frames, wire, inl s) ns nc = ground (arith, s, ns)
at_rest t (frames, wire, inr (inl c)) ns nc = ground (arith, c, nc)
at_rest t (frames, wire, inr (inr r)) ns nc = r

begin_with-Inv :
    (now : Instant) (o : Option (Request × List Request)) (t : Transport)
    → Taken o
    → AfterGap now t.wire
    → Inv t
    → Inv (begin_with now o t)
unfolding Taken
begin_with-Inv now none t k gap h = h
begin_with-Inv now (some (r, rest)) t k gap (frames, wire, still) =
    if_both Inv (is_done r.sequence t) _ _ (k.1, wire, still)
      (if_cases Inv (not t.connected || not (r.connection == t.connection)) _ _
        (λ e.
          resolve-Inv r.sequence (result (failed_with disconnected))
            (record t { queue = rest; reconnect_needed = t.reconnect_needed || not t.connected })
            (k.1, wire, still))
        (λ e. (
          k.1,
          (
            record {
              frame = k.0;
              connected = ground (arith, e);
              same_connection = ground (arith, e);
            },
            gap,
            wire,
          ),
          inr (inl refl),
        )))

begin-Inv : (now : Instant) (t : Transport) → Inv t → Inv (begin now t)
unfolding begin
begin-Inv now t h =
    if_cases Inv (t.started && not t.stopped && is_none t.current && is_paced t.last_end now)
      (begin_with now (take_next t.queue) t) t
      (λ e.
        begin_with-Inv now (take_next t.queue) t (take-Taken t.queue h.0)
          (paced-AfterGap now t.last_end t.wire
            (at_rest t h (ground (arith, e)) (ground (arith, e))) (ground (arith, e)))
          h)
      (λ e. h)

finish_with-Inv :
    (came : Reply) (now : Instant) (o : Option Request) (t : Transport)
    → Inv t
    → Inv (finish_with came now o t)
finish_with-Inv came now none t h = h
finish_with-Inv came now (some r) t (frames, wire, still) =
    let lost = loses (exchange r came).error in
    resolve-Inv r.sequence (result (exchange r came))
      (record t {
        current = none;
        last_end = some now;
        wire = ended now ∷ t.wire;
        connected = t.connected && not lost;
        reconnect_needed = t.reconnect_needed || lost;
      })
      (frames, wire, inr (inr refl))

finish-Inv : (came : Reply) (now : Instant) (t : Transport) → Inv t → Inv (finish came now t)
unfolding finish
finish-Inv came now t h = finish_with-Inv came now t.current t h

fail_all-Inv : (q : List Request) (t : Transport) → Inv t → Inv (fail_all q t)
fail_all-Inv [] t h = h
fail_all-Inv (r ∷ rest) t h =
    fail_all-Inv rest (resolve r.sequence (result (failed_with disconnected)) t)
      (resolve-Inv r.sequence (result (failed_with disconnected)) t h)

fail_current-Inv : (o : Option Request) (t : Transport) → Inv t → Inv (fail_current o t)
fail_current-Inv none t h = h
fail_current-Inv (some r) t h = resolve-Inv r.sequence (result (failed_with disconnected)) t h

close-Inv : (t : Transport) → Inv t → Inv (close t)
unfolding close
close-Inv t h =
    let (frames, wire, rest) =
      fail_all-Inv t.queue (fail_current t.current t) (fail_current-Inv t.current t h) in
    (tt, wire, inl refl)

connect-Inv : (ok : Bool) (t : Transport) → Inv t → Inv (connect ok t)
unfolding connect
connect-Inv true t h = h
connect-Inv false t h = h

step-Inv : (s : Step) (t : Transport) → Inv t → Inv (step s t)
unfolding step start
step-Inv (step_input address size device_id) t h =
    read-Inv input address size device_id t refl refl h
step-Inv (step_holding address size device_id) t h =
    read-Inv holding address size device_id t refl refl h
step-Inv (step_write address words device_id) t h = write-Inv address words device_id t h
step-Inv (step_start ok) t h = if_both Inv (t.started || t.closed) t _ h (connect-Inv ok t h)
step-Inv (step_connect ok) t h = if_both Inv (t.started && not t.stopped) _ t (connect-Inv ok t h) h
step-Inv step_connected t h = h
step-Inv step_lose t h = h
step-Inv (step_cancel n) t h = if_both Inv (ltb n t.next) _ t (resolve-Inv n cancelled t h) h
step-Inv (step_begin now) t h = begin-Inv now t h
step-Inv (step_finish came now) t h = finish-Inv came now t h
step-Inv step_closing t h = h
step-Inv step_close t h = close-Inv t h

run-Inv : (steps : List Step) (t : Transport) → Inv t → Inv (run steps t)
unfolding run
run-Inv [] t h = h
run-Inv (s ∷ rest) t h = run-Inv rest (step s t) (step-Inv s t h)

-- Whatever is asked, cancelled, lost and answered, in any order: each request on the wire has an
-- address, a size and words in range, was sent by a connected client on the connection that it was
-- made for, and after the end of the exchange before it and 310 ms more.
pub run-WireOk : (steps : List Step) → WireOk (run steps new_transport).wire
run-WireOk steps = (run-Inv steps new_transport (tt, tt, inr (inr refl))).1
