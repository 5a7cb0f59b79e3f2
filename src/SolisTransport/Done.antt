-- ===== src/SolisTransport/Done.antt =====
-- Every request is answered, and once.
use ha_spark.Prelude.{
  ltb, ◌<◌, ℕ, ◌≡◌, refl, sym, ap, ◌∙◌, Bool, true, false, not, ◌&&◌, ◌||◌, ◌==◌, inl, inr, Option,
  none, some, List, [], ◌∷◌, length, count, arith, Bool-cases, if_both,
}
use ha_spark.NativeSlots.{Words, valid_words}
use ha_spark.SolisTransport.{
  write, Op, input, holding, Request, Answer, Outcome, Transport, new_transport, valid_request,
  start_read, start_write, connect, start, is_done, resolve, fail_all, fail_current, close, Step,
  step, run, disconnected, bad_response, result, failed_with, cancelled, step_input, step_holding,
  step_write, step_start, step_connect, step_connected, step_lose, step_cancel, step_begin,
  step_finish, step_closing, step_close,
}
use ha_spark.SolisTransport.Answered.{
  is_current, is_queued, held, Inv, some_done, resolve_answers, resolve_keeps, resolve-Inv,
  submit-Inv, begin-Inv, finish-Inv,
}

fail_all-Inv : (q : List Request) (t : Transport) → Inv t → Inv (fail_all q t)
fail_all-Inv [] t h = h
fail_all-Inv (r ∷ rest) t h =
    fail_all-Inv rest (resolve r.sequence (result (failed_with disconnected)) t)
      (resolve-Inv r.sequence (result (failed_with disconnected)) t h)

fail_current-Inv : (o : Option Request) (t : Transport) → Inv t → Inv (fail_current o t)
fail_current-Inv none t h = h
fail_current-Inv (some r) t h = resolve-Inv r.sequence (result (failed_with disconnected)) t h

resolve_next : (m : ℕ) (o : Outcome) (t : Transport) → (resolve m o t).next ≡ t.next
resolve_next m o t =
    if_both (λ (u : Transport). u.next ≡ t.next) (is_done m t) t
      (record t { done = (m, o) ∷ t.done }) refl refl

fail_all_next : (q : List Request) (t : Transport) → (fail_all q t).next ≡ t.next
fail_all_next [] t = refl
fail_all_next (r ∷ rest) t =
    fail_all_next rest (resolve r.sequence (result (failed_with disconnected)) t)
    ∙ resolve_next r.sequence (result (failed_with disconnected)) t

fail_current_next : (o : Option Request) (t : Transport) → (fail_current o t).next ≡ t.next
fail_current_next none t = refl
fail_current_next (some r) t = resolve_next r.sequence (result (failed_with disconnected)) t

fail_all_keeps :
    (n : ℕ) (q : List Request) (t : Transport)
    → is_done n t ≡ true
    → is_done n (fail_all q t) ≡ true
fail_all_keeps n [] t h = h
fail_all_keeps n (r ∷ rest) t h =
    fail_all_keeps n rest (resolve r.sequence (result (failed_with disconnected)) t)
      (resolve_keeps r.sequence n (result (failed_with disconnected)) t h)

fail_current_keeps :
    (n : ℕ) (o : Option Request) (t : Transport)
    → is_done n t ≡ true
    → is_done n (fail_current o t) ≡ true
fail_current_keeps n none t h = h
fail_current_keeps n (some r) t h =
    resolve_keeps r.sequence n (result (failed_with disconnected)) t h

fail_all_answers :
    (n : ℕ) (q : List Request) (t : Transport)
    → is_queued n q ≡ true
    → is_done n (fail_all q t) ≡ true
fail_all_answers n [] t h = ground (arith, h)
fail_all_answers n (r ∷ rest) t h =
    let next = resolve r.sequence (result (failed_with disconnected)) t in
    elim (Bool-cases (r.sequence == n)) [
      | inl this ↦
          let eq : r.sequence ≡ n = ground (arith, this) in
          fail_all_keeps n rest next (
            ap (λ m. is_done m next) (sym eq)
            ∙ resolve_answers r.sequence (result (failed_with disconnected)) t)
      | inr other ↦ fail_all_answers n rest next (ground (arith, h, other))
    ]

fail_current_answers :
    (n : ℕ) (o : Option Request) (t : Transport)
    → is_current n o ≡ true
    → is_done n (fail_current o t) ≡ true
fail_current_answers n none t h = ground (arith, h)
fail_current_answers n (some r) t h =
    let eq : r.sequence ≡ n = ground (arith, h) in
    let next = resolve r.sequence (result (failed_with disconnected)) t in
    ap (λ m. is_done m next) (sym eq)
    ∙ resolve_answers r.sequence (result (failed_with disconnected)) t

-- Every request is answered when the transport is closed.
close_answers :
    (n : ℕ) (t : Transport)
    → held n t ≡ true
    → is_done n (fail_all t.queue (fail_current t.current t)) ≡ true
close_answers n t h = elim (Bool-cases (is_queued n t.queue)) [
  | inl queued ↦ fail_all_answers n t.queue (fail_current t.current t) queued
  | inr free ↦
      fail_all_keeps n t.queue (fail_current t.current t)
        (elim (Bool-cases (is_current n t.current)) [
          | inl this ↦ fail_current_answers n t.current t this
          | inr other ↦ fail_current_keeps n t.current t (ground (arith, h, free, other))
        ])
]

close-Inv : (t : Transport) → Inv t → Inv (close t)
unfolding close
close-Inv t (all_held, once) =
    let failed = fail_all t.queue (fail_current t.current t) in
    let same : failed.next ≡ t.next =
      fail_all_next t.queue (fail_current t.current t) ∙ fail_current_next t.current t in
    let (_, still) =
      fail_all-Inv t.queue (fail_current t.current t)
        (fail_current-Inv t.current t (all_held, once)) in
    (λ n k. ground (arith, close_answers n t (all_held n (ground (arith, k, same)))), still)

connect-Inv : (ok : Bool) (t : Transport) → Inv t → Inv (connect ok t)
unfolding connect
connect-Inv true t h = h
connect-Inv false t h = h

read-Inv :
    (op : Op) (address size device_id : ℕ) (t : Transport)
    → Inv t
    → Inv (start_read op address size device_id t).0
unfolding start_read
read-Inv op address size device_id t h =
    if_both (λ (x : Transport × Option Answer). Inv x.0)
      (not (valid_request address size 125 device_id)) (t, some (failed_with bad_response)) _ h
      (if_both (λ (x : Transport × Option Answer). Inv x.0) (t.closed || not t.connected) _ _ h
        (submit-Inv op address size [] device_id t h))

write-Inv :
    (address : ℕ) (words : Words) (device_id : ℕ) (t : Transport)
    → Inv t
    → Inv (start_write address words device_id t).0
unfolding start_write
write-Inv address words device_id t h =
    if_both (λ (x : Transport × Option Answer). Inv x.0)
      (not (valid_request address (length words) 123 device_id) || not (valid_words words))
      (t, some (failed_with bad_response)) _ h
      (if_both (λ (x : Transport × Option Answer). Inv x.0) (t.closed || not t.connected) _ _ h
        (submit-Inv write address (length words) words device_id t h))

step-Inv : (s : Step) (t : Transport) → Inv t → Inv (step s t)
unfolding step start
step-Inv (step_input address size device_id) t h = read-Inv input address size device_id t h
step-Inv (step_holding address size device_id) t h = read-Inv holding address size device_id t h
step-Inv (step_write address words device_id) t h = write-Inv address words device_id t h
step-Inv (step_start ok) t h = if_both Inv (t.started || t.closed) t _ h (connect-Inv ok t h)
step-Inv (step_connect ok) t h = if_both Inv (t.started && not t.stopped) _ t (connect-Inv ok t h) h
step-Inv step_connected t h = h
step-Inv step_lose t h = h
step-Inv (step_cancel n) t h = if_both Inv (ltb n t.next) _ t (resolve-Inv n cancelled t h) h
step-Inv (step_begin now) t h = begin-Inv now t h
step-Inv (step_finish came now) t h = finish-Inv came now t h
step-Inv step_closing t h = h
step-Inv step_close t h = close-Inv t h

run-Inv : (steps : List Step) (t : Transport) → Inv t → Inv (run steps t)
unfolding run
run-Inv [] t h = h
run-Inv (s ∷ rest) t h = run-Inv rest (step s t) (step-Inv s t h)

-- Whatever was asked, cancelled, lost and answered before, in any order: once the transport is closed,
-- every request that was queued at any time has exactly one answer.
pub close_answers_once :
    (steps : List Step) (n : ℕ)
    → n < (run steps new_transport).next
    → count (λ (d : ℕ × Outcome). d.0 == n) (close (run steps new_transport)).done ≡ 1
unfolding close
close_answers_once steps n made =
    let t = run steps new_transport in
    let h = run-Inv steps new_transport (λ n k. ground (arith, k), λ n. omega arith) in
    let done = (close t).done in
    omega (arith, some_done n done (close_answers n t (h.0 n made)), (close-Inv t h).1 n)
