-- ===== src/Commands/Queue/Keeps.antt =====
-- The invariant of the queue, which every operation keeps.
use ha_spark.Prelude.{
  ℕ, zero, suc, ◌≤◌, ◌<◌, ◌≡◌, String, Bool, true, false, not, ◌&&◌, List, [], ◌∷◌, ◌++◌, Option,
  none, some, arith, length, take, keep, All, length-append, length-keep-le, leb, ◌==◌, refl, inl,
  inr, Bool-cases, if_both, if◌then◌else◌, str_eq, ◌||◌,
}
use ha_spark.Commands.{Kind, Command, CommandResult, Json, ordered, is_pending}
use ha_spark.Commands.Queue.{
  CommandQueue, new_queue, max_pending, max_results, max_command_size, enqueue, add, new_command,
  for_session, fetch, record_result, trim_results, accept, is_text, offer, max_batch,
  max_batch_size, member, answered,
}

-- Pending commands are ordered and no newer than the counter, short, and few; so are the results.
pub record IsQueue (json : Json) (q : CommandQueue) : Type 0 where
  pub sorted : ordered 0 q.pending ≡ true
  pub issued : All (λ c. c.sequence ≤ q.sequence) q.pending
  pub short : All (λ c. json.size c ≤ max_command_size) q.pending
  pub few : length q.pending ≤ max_pending
  pub kept : length q.results ≤ max_results

pub ordered_weaken :
    (l m : ℕ) (xs : List Command) → l ≤ m → ordered m xs ≡ true → ordered l xs ≡ true
unfolding ordered
ordered_weaken l m [] h o = refl
ordered_weaken l m (c ∷ rest) h o = ground (arith, h, o)

ordered-keep :
    (p : Command → Bool) (l : ℕ) (xs : List Command)
    → ordered l xs ≡ true
    → ordered l (keep p xs) ≡ true
unfolding ordered
ordered-keep p l [] o = refl
ordered-keep p l (c ∷ rest) o =
    let tail = ordered-keep p c.sequence rest (ground (arith, o)) in
    ground (arith, o, tail, ordered_weaken l c.sequence (keep p rest))

pub ordered-take :
    (n l : ℕ) (xs : List Command) → ordered l xs ≡ true → ordered l (take n xs) ≡ true
unfolding ordered
ordered-take zero l xs o = refl
ordered-take (suc n) l [] o = refl
ordered-take (suc n) l (c ∷ rest) o = ground (arith, o, ordered-take n c.sequence rest)

ordered-append :
    (l n : ℕ) (xs : List Command) (c : Command)
    → ordered l xs ≡ true
    → All (λ x. x.sequence ≤ n) xs
    → n < c.sequence
    → l < c.sequence
    → ordered l (xs ++ c ∷ []) ≡ true
unfolding ordered
ordered-append l n [] c o a h k = ground (arith, k)
ordered-append l n (x ∷ rest) c o a h k = ground (
  arith,
  o,
  a.0,
  ordered-append x.sequence n rest c (ground (arith, o)) a.1 h (omega (arith, a.0)),
)

module _ (P : Command → Type 0) where
  All-keep : (p : Command → Bool) (xs : List Command) → All P xs → All P (keep p xs)
  All-keep p [] a = tt
  All-keep p (x ∷ rest) a = elim (Bool-cases (p x)) [
    | inl e ↦ rw e (a.0, All-keep p rest a.1)
    | inr e ↦ rw e (All-keep p rest a.1)
  ]

  All-append : (xs : List Command) (c : Command) → All P xs → P c → All P (xs ++ c ∷ [])
  All-append [] c a p = (p, tt)
  All-append (x ∷ rest) c a p = (a.0, All-append rest c a.1 p)

issued_later :
    (n m : ℕ) (xs : List Command)
    → n ≤ m
    → All (λ c. c.sequence ≤ n) xs
    → All (λ c. c.sequence ≤ m) xs
issued_later n m [] h a = tt
issued_later n m (x ∷ rest) h a = (omega (arith, a.0), issued_later n m rest h a.1)

add-IsQueue :
    (json : Json) (q : CommandQueue) (epoch : ℕ) (kind : Kind) (payload : String)
    → IsQueue json q
    → length q.pending < max_pending
    → json.size (new_command q epoch kind payload) ≤ max_command_size
    → IsQueue json (add q (new_command q epoch kind payload))
add-IsQueue json q epoch kind payload i room small =
    let c = new_command q epoch kind payload in
    record {
      sorted =
          ordered-append 0 q.sequence q.pending c i.sorted i.issued (omega arith) (omega arith);
      issued =
          All-append (λ x. x.sequence ≤ suc q.sequence) q.pending c
            (issued_later q.sequence (suc q.sequence) q.pending (omega arith) i.issued)
            (omega arith);
      short = All-append (λ x. json.size x ≤ max_command_size) q.pending c i.short small;
      few = omega (arith, length-append q.pending (c ∷ []), room);
      kept = i.kept;
    }

pub enqueue-IsQueue :
    (json : Json) (epoch : ℕ) (kind : Kind) (payload : String) (q next : CommandQueue) (c : Command)
    → IsQueue json q
    → enqueue json epoch kind payload q ≡ some (next, c)
    → IsQueue json next × (c.sequence ≡ suc q.sequence) × (next.sequence ≡ c.sequence)
unfolding enqueue
enqueue-IsQueue json epoch kind payload q next c i h =
    let same : next ≡ add q (new_command q epoch kind payload) = ground (arith, h) in
    (
      rw same (add-IsQueue json q epoch kind payload i (ground (arith, h)) (ground (arith, h))),
      ground (arith, h),
      ground (arith, h),
    )

empty-IsQueue : (json : Json) (q : CommandQueue) → q.pending ≡ [] → q.results ≡ [] → IsQueue json q
unfolding ordered
empty-IsQueue json q p r = record {
  sorted = rw p;
  issued = rw p tt;
  short = rw p tt;
  few = rw p (omega arith);
  kept = rw r (omega arith);
}

pub new-IsQueue : (json : Json) (session : String) → IsQueue json (new_queue session)
new-IsQueue json session = empty-IsQueue json (new_queue session) refl refl

-- A queue that differs in other fields alone.
same-IsQueue :
    (json : Json) (q r : CommandQueue)
    → r.pending ≡ q.pending
    → r.sequence ≡ q.sequence
    → r.results ≡ q.results
    → IsQueue json q
    → IsQueue json r
same-IsQueue json q r p s e i = record {
  sorted = rw p i.sorted;
  issued = rw (p, s) i.issued;
  short = rw p i.short;
  few = rw p i.few;
  kept = rw e i.kept;
}

pub for_session-IsQueue :
    (json : Json) (integration : String) (q : CommandQueue)
    → IsQueue json q
    → IsQueue json (for_session integration q)
unfolding for_session
for_session-IsQueue json integration q i =
    let kept : CommandQueue = record q { integration_session_id = some integration } in
    let cleared : CommandQueue = record kept { pending = []; results = []; offered = [] } in
    if_both (IsQueue json) (is_text q.integration_session_id integration) kept cleared
      (same-IsQueue json q kept refl refl refl i) (empty-IsQueue json cleared refl refl)

pub fetch-IsQueue :
    (json : Json) (session integration : String) (q : CommandQueue)
    → IsQueue json q
    → IsQueue json (fetch json session integration q).0
unfolding fetch
fetch-IsQueue json session integration q i =
    let current : CommandQueue = for_session integration q in
    let batch = take max_batch current.pending in
    let next : CommandQueue = record current { offered = offer batch current.offered } in
    let good : IsQueue json next =
      same-IsQueue json current next refl refl refl (for_session-IsQueue json integration q i) in
    if_both (λ (x : CommandQueue × Option (List Command)). IsQueue json x.0)
      (not (str_eq session q.session_id)) (q, none)
      (if ordered 0 batch && leb (json.batch_size q.session_id batch) max_batch_size
        then (next, some batch)
        else (next, none))
      i
      (if_both (λ (x : CommandQueue × Option (List Command)). IsQueue json x.0)
        (ordered 0 batch && leb (json.batch_size q.session_id batch) max_batch_size)
        (next, some batch) (next, none) good good)

trim_results-le :
    (results : List CommandResult) (offered : List ℕ)
    → length (trim_results results offered).0 ≤ max_results
unfolding trim_results
trim_results-le [] offered = omega arith
trim_results-le (r ∷ rest) offered =
    ground (arith, trim_results-le rest (keep (λ o. not (o == r.sequence)) offered))

pub accept-IsQueue :
    (json : Json) (result : CommandResult) (q : CommandQueue)
    → IsQueue json q
    → IsQueue json (accept result q).0
unfolding accept record_result
accept-IsQueue json result q i =
    let p : Command → Bool = λ c. not (c.sequence == result.sequence) in
    let good : IsQueue json (record_result result q) = record {
      sorted = ordered-keep p 0 q.pending i.sorted;
      issued = All-keep (λ c. c.sequence ≤ q.sequence) p q.pending i.issued;
      short = All-keep (λ c. json.size c ≤ max_command_size) p q.pending i.short;
      few = omega (arith, length-keep-le p q.pending, i.few);
      kept = trim_results-le (q.results ++ result ∷ []) q.offered;
    } in
    let refused = not (str_eq result.session_id q.session_id && member result.sequence q.offered) in
    let known = answered result.sequence q.results || is_pending result.outcome in
    if_both (λ (x : CommandQueue × Bool). IsQueue json x.0) refused (q, true)
      (if known then (q, false) else (record_result result q, false)) i
      (if_both (λ (x : CommandQueue × Bool). IsQueue json x.0) known (q, false)
        (record_result result q, false) i good)
