-- ===== src/SolisTransport/Answered.antt =====
-- Each step of the transport leaves every request answered, in the queue or on the wire.
use ha_spark.Prelude.{
  ltb, ◌≤◌, ◌<◌, ℕ, ◌≡◌, refl, sym, ap, ◌∙◌, Bool, true, false, not, ◌&&◌, ◌||◌, ◌==◌, inl, inr,
  Option, none, some, List, [], ◌∷◌, ◌++◌, any, count, is_none, arith, Bool-cases, if_both,
  if_cases, ◌⊎◌,
}
use mathlib.Core.Path.{subst}
use ha_spark.Authority.{Instant}
use ha_spark.NativeSlots.{Words}
use ha_spark.SolisTransport.{
  Op, Request, Outcome, ended, Transport, is_write, submit, is_done, resolve, put_front,
  first_write, or_head, take_next, is_paced, begin_with, begin, finish_with, finish, disconnected,
  result, failed_with, Reply, exchange, loses,
}

abbrev pub is_current : ℕ → Option Request → Bool
is_current n none = false
is_current n (some r) = r.sequence == n

abbrev pub is_queued : ℕ → List Request → Bool
is_queued n q = any (λ r. r.sequence == n) q

abbrev pub held : ℕ → Transport → Bool
held n t = is_done n t || is_queued n t.queue || is_current n t.current

-- Every request that was made is answered, in the queue or on the wire; none is answered twice.
abbrev pub Inv : Transport → Type 0
Inv t =
    ((n : ℕ) → n < t.next → held n t ≡ true)
    × ((n : ℕ) → count (λ (d : ℕ × Outcome). d.0 == n) t.done ≤ 1)

none_done :
    (n : ℕ) (done : List (ℕ × Outcome))
    → any (λ d. d.0 == n) done ≡ false
    → count (λ (d : ℕ × Outcome). d.0 == n) done ≡ 0
none_done n [] h = refl
none_done n (d ∷ done) h = ground (arith, h, none_done n done)

pub some_done :
    (n : ℕ) (done : List (ℕ × Outcome))
    → any (λ d. d.0 == n) done ≡ true
    → 1 ≤ count (λ (d : ℕ × Outcome). d.0 == n) done
some_done n [] h = ground (arith, h)
some_done n (d ∷ done) h = ground (arith, h, some_done n done)

once_more :
    (m n : ℕ) (o : Outcome) (done : List (ℕ × Outcome))
    → any (λ d. d.0 == m) done ≡ false
    → count (λ (d : ℕ × Outcome). d.0 == n) done ≤ 1
    → count (λ (d : ℕ × Outcome). d.0 == n) ((m, o) ∷ done) ≤ 1
once_more m n o done e h = elim (Bool-cases (m == n)) [
  | inl same ↦
      let eq : m ≡ n = ground (arith, same) in
      ground
        (arith, none_done n done (sym (ap (λ k. any (λ (d : ℕ × Outcome). d.0 == k) done) eq) ∙ e))
  | inr other ↦ ground (arith, other, h)
]

pub resolve_answers : (m : ℕ) (o : Outcome) (t : Transport) → is_done m (resolve m o t) ≡ true
resolve_answers m o t =
    if_cases (λ u. is_done m u ≡ true) (is_done m t) t (record t { done = (m, o) ∷ t.done })
      (λ e. e) (λ e. ground arith)

pub resolve_keeps :
    (m n : ℕ) (o : Outcome) (t : Transport) → is_done n t ≡ true → is_done n (resolve m o t) ≡ true
resolve_keeps m n o t h =
    if_both (λ u. is_done n u ≡ true) (is_done m t) t (record t { done = (m, o) ∷ t.done }) h
      (ground (arith, h))

pub resolve-Inv : (m : ℕ) (o : Outcome) (t : Transport) → Inv t → Inv (resolve m o t)
resolve-Inv m o t (all_held, once) =
    if_cases Inv (is_done m t) t (record t { done = (m, o) ∷ t.done }) (λ e. (all_held, once))
      (λ e. (λ n k. ground (arith, all_held n k), λ n. once_more m n o t.done e (once n)))

-- A state in which a request has moved out of the queue and off the wire, once it is answered.
answered-Inv :
    (r : Request) (o : Outcome) (t u : Transport)
    → u.next ≡ t.next
    → u.done ≡ t.done
    → ((n : ℕ) → held n t ≡ true → (r.sequence == n ≡ true) ⊎ (held n u ≡ true))
    → Inv t
    → Inv (resolve r.sequence o u)
answered-Inv r o t u same_next same_done moved (all_held, once) =
    let once_u : (n : ℕ) → count (λ (d : ℕ × Outcome). d.0 == n) u.done ≤ 1 = λ n.
      subst (λ done. count (λ (d : ℕ × Outcome). d.0 == n) done ≤ 1) (sym same_done) (once n) in
    if_cases Inv (is_done r.sequence u) u (record u { done = (r.sequence, o) ∷ u.done })
      (λ e. (
        λ n k. elim (moved n (all_held n (ground (arith, k, same_next)))) [
          | inl this ↦
              let eq : r.sequence ≡ n = ground (arith, this) in
              ground (arith, ap (λ m. is_done m u) eq, e)
          | inr h ↦ h
        ],
        once_u,
      ))
      (λ e. (
        λ n k. elim (moved n (all_held n (ground (arith, k, same_next)))) [
          | inl this ↦ ground (arith, this)
          | inr h ↦ ground (arith, h)
        ],
        λ n. once_more r.sequence n o u.done e (once_u n),
      ))

queued-append :
    (n : ℕ) (q : List Request) (r : Request)
    → is_queued n (q ++ (r ∷ [])) ≡ (is_queued n q || r.sequence == n)
queued-append n [] r = ground arith
queued-append n (x ∷ q) r = ground (arith, queued-append n q r)

pub submit-Inv :
    (op : Op) (address size : ℕ) (values : Words) (device_id : ℕ) (t : Transport)
    → Inv t
    → Inv (submit op address size values device_id t)
submit-Inv op address size values device_id t (all_held, once) = (
  λ n k. elim (Bool-cases (ltb n t.next)) [
    | inl old ↦ ground (
      arith,
      all_held n (ground (arith, old)),
      queued-append n t.queue (record {
        sequence = t.next;
        op = op;
        address = address;
        size = size;
        values = values;
        device_id = device_id;
        connection = t.connection;
      }),
    )
    | inr this ↦ ground (
      arith,
      k,
      this,
      queued-append n t.queue (record {
        sequence = t.next;
        op = op;
        address = address;
        size = size;
        values = values;
        device_id = device_id;
        connection = t.connection;
      }),
    )
  ],
  once,
)

-- What is taken off a queue and what is left are its requests.
Split : List Request → Option (Request × List Request) → Type 0
Split q none = Unit
Split q (some (r, rest)) = (n : ℕ) → is_queued n q ≡ (r.sequence == n || is_queued n rest)

put_front-Split :
    (r : Request) (q : List Request) (o : Option (Request × List Request))
    → Split q o
    → Split (r ∷ q) (put_front r o)
unfolding Split
put_front-Split r q none h = tt
put_front-Split r q (some (w, rest)) h = λ n. ground (arith, h n)

first_write-Split : (q : List Request) → Split q (first_write q)
unfolding Split first_write
first_write-Split [] = tt
first_write-Split (r ∷ rest) =
    if_both (Split (r ∷ rest)) (is_write r.op) (some (r, rest)) (put_front r (first_write rest))
      (λ n. refl) (put_front-Split r rest (first_write rest) (first_write-Split rest))

Split-or :
    (r : Request) (rest : List Request) (o : Option (Request × List Request))
    → Split (r ∷ rest) o
    → Split (r ∷ rest) (or_head r rest o)
unfolding Split
Split-or r rest none h = λ n. refl
Split-or r rest (some x) h = h

take-Split : (q : List Request) → Split q (take_next q)
unfolding Split take_next
take-Split [] = tt
take-Split (r ∷ rest) = Split-or r rest (first_write (r ∷ rest)) (first_write-Split (r ∷ rest))

no_current : (n : ℕ) (o : Option Request) → is_none o ≡ true → is_current n o ≡ false
no_current n none h = refl
no_current n (some r) h = ground (arith, h)

begin_with-Inv :
    (now : Instant) (o : Option (Request × List Request)) (t : Transport)
    → Split t.queue o
    → is_none t.current ≡ true
    → Inv t
    → Inv (begin_with now o t)
unfolding Split
begin_with-Inv now none t k free h = h
begin_with-Inv now (some (r, rest)) t k free (all_held, once) =
    if_cases Inv (is_done r.sequence t) _ _
      (λ e. (
        λ n m. elim (Bool-cases (r.sequence == n)) [
          | inl this ↦
              let eq : r.sequence ≡ n = ground (arith, this) in
              ground (arith, ap (λ j. is_done j t) eq, e)
          | inr other ↦ ground (arith, all_held n m, k n, other)
        ],
        once,
      ))
      (λ e.
        if_both Inv (not t.connected || not (r.connection == t.connection)) _ _
          (answered-Inv r (result (failed_with disconnected)) t
            (record t { queue = rest; reconnect_needed = t.reconnect_needed || not t.connected })
            refl refl
            (λ n h. elim (Bool-cases (r.sequence == n)) [
              | inl this ↦ inl this
              | inr other ↦ inr (ground (arith, h, k n, other))
            ])
            (all_held, once))
          (λ n m. ground (arith, all_held n m, k n, no_current n t.current free), once))

pub begin-Inv : (now : Instant) (t : Transport) → Inv t → Inv (begin now t)
unfolding begin
begin-Inv now t h =
    if_cases Inv (t.started && not t.stopped && is_none t.current && is_paced t.last_end now)
      (begin_with now (take_next t.queue) t) t
      (λ e. begin_with-Inv now (take_next t.queue) t (take-Split t.queue) (ground (arith, e)) h)
      (λ e. h)

finish_with-Inv :
    (came : Reply) (now : Instant) (o : Option Request) (t : Transport)
    → t.current ≡ o
    → Inv t
    → Inv (finish_with came now o t)
finish_with-Inv came now none t e h = h
finish_with-Inv came now (some r) t e h =
    let lost = loses (exchange r came).error in
    answered-Inv r (result (exchange r came)) t
      (record t {
        current = none;
        last_end = some now;
        wire = ended now ∷ t.wire;
        connected = t.connected && not lost;
        reconnect_needed = t.reconnect_needed || lost;
      })
      refl refl
      (λ n k. elim (Bool-cases (r.sequence == n)) [
        | inl this ↦ inl this
        | inr other ↦ inr (ground (arith, k, ap (is_current n) e, other))
      ])
      h

pub finish-Inv : (came : Reply) (now : Instant) (t : Transport) → Inv t → Inv (finish came now t)
unfolding finish
finish-Inv came now t h = finish_with-Inv came now t.current t refl h
