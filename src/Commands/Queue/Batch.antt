-- ===== src/Commands/Queue/Batch.antt =====
-- What a fetch offers and what an accepted result takes away.
use ha_spark.Prelude.{
  ℕ, zero, suc, ◌+◌, ◌*◌, ◌≤◌, ◌≡◌, ◌≢◌, String, true, not, ◌&&◌, List, [], ◌∷◌, none, some, arith,
  length, take, keep, All, any, count, leb, ◌==◌, str_eq, eq_iff, if◌then◌else◌,
}
use ha_spark.Commands.{Command, CommandResult, Json, ordered, is_pending}
use ha_spark.Commands.Queue.{
  CommandQueue, for_session, fetch, accept, record_result, max_batch, max_batch_size,
  max_command_size, member,
}
use ha_spark.Commands.Queue.Keeps.{IsQueue, ordered-take, for_session-IsQueue}

-- `json.dumps` of a batch: the commands, with a separator each, within an envelope whose only text is
-- the session id.
pub record IsJson (json : Json) : Type 0 where
  pub envelope :
      (session : String) (batch : List Command) (n : ℕ)
      → All (λ c. json.size c ≤ n) batch
      → json.batch_size session batch ≤ 2048 + length batch * suc n

All-take {ℓ} : {A : Type ℓ} (P : A → Type 0) (n : ℕ) (xs : List A) → All P xs → All P (take n xs)
All-take P zero xs a = tt
All-take P (suc n) [] a = tt
All-take P (suc n) (x ∷ xs) a = (a.0, All-take P n xs a.1)

length-take-le {ℓ} : {A : Type ℓ} (n : ℕ) (xs : List A) → length (take n xs) ≤ n
length-take-le zero xs = omega arith
length-take-le (suc n) [] = omega arith
length-take-le (suc n) (x ∷ xs) = omega (arith, length-take-le n xs)

-- On a queue that keeps its invariant, a fetch for the session never raises: it returns the oldest
-- sixteen pending commands, or all of them, and never finds them out of order or too large. A fetch
-- for another session always raises.
pub fetch_total :
    (json : Json) (session integration : String) (q : CommandQueue)
    → IsJson json
    → IsQueue json q
    → (session ≡ q.session_id
        → (fetch json session integration q).1
          ≡ some (take max_batch (for_session integration q).pending))
      × (session ≢ q.session_id → (fetch json session integration q).1 ≡ none)
unfolding fetch
fetch_total json session integration q laws i =
    let current : CommandQueue = for_session integration q in
    let good : IsQueue json current = for_session-IsQueue json integration q i in
    let batch = take max_batch current.pending in
    let sorted : ordered 0 batch ≡ true = ordered-take max_batch 0 current.pending good.sorted in
    let bound =
      laws.envelope q.session_id batch max_command_size
        (All-take (λ c. json.size c ≤ max_command_size) max_batch current.pending good.short) in
    let fits : leb (json.batch_size q.session_id batch) max_batch_size ≡ true =
      ground (arith, bound, length-take-le max_batch current.pending) in
    (
      λ e. ground (arith, (eq_iff session q.session_id).1 e, sorted, fits),
      λ n. ground (arith, n, eq_iff session q.session_id),
    )

-- The number of pending commands with a sequence.
abbrev pub waiting : ℕ → CommandQueue → ℕ
waiting s q = count (λ c. c.sequence == s) q.pending

count-keep :
    (s t : ℕ) (xs : List Command)
    → count (λ (c : Command). c.sequence == s) (keep (λ c. not (c.sequence == t)) xs)
      ≡ (if s == t then 0 else count (λ (c : Command). c.sequence == s) xs)
count-keep s t [] = ground arith
count-keep s t (c ∷ rest) = ground (arith, count-keep s t rest)

-- A posted result takes a command off the queue exactly when it is for this session and this
-- command, the command was offered, no result for it is kept, and it is not "pending"; all other
-- commands stay.
pub accept-waiting :
    (result : CommandResult) (q : CommandQueue) (s : ℕ)
    → waiting s (accept result q).0 ≡ (
        if (s == result.sequence)
          && str_eq result.session_id q.session_id
          && member result.sequence q.offered
          && not (any (λ r. r.sequence == result.sequence) q.results)
          && not (is_pending result.outcome)
        then 0
        else waiting s q)
unfolding accept record_result
accept-waiting result q s = ground (arith, count-keep s result.sequence q.pending)
