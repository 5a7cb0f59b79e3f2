-- ===== src/SolisTransport/Next.antt =====
-- Which request is next, and which answers are taken for good.
use ha_spark.Prelude.{
  if◌then◌else◌, inr, ap, if_cases, true, ℕ, ◌≡◌, refl, Bool, false, not, ◌||◌, ◌==◌, inl, ◌⊎◌,
  Option, none, some, List, [], ◌∷◌, ◌++◌, any, length, arith, or_else, is_none,
}
use mathlib.Core.Path.{subst}
use ha_spark.NativeSlots.{Words, valid_words}
use ha_spark.SolisTransport.{
  Request, Reply, reply, connection_error, timeout_error, other_error, error_reply, is_write,
  put_front, first_write, or_head, take_next, exchange, exception_answer, function_code, Answer,
  failed_with, bad_response, good,
}

abbrev pub has_write : List Request → Bool
has_write q = any (λ r. is_write r.op) q

-- A request out of a queue: no write stands before it, and no request at all if it is a read.
pub record IsNext (q : List Request) (r : Request) (rest : List Request) : Type 0 where
  pub before : List Request
  pub after : List Request
  pub queue_of : q ≡ before ++ (r ∷ after)
  pub rest_of : rest ≡ before ++ after
  pub no_write : has_write before ≡ false
  pub reads_last : (is_write r.op ≡ true) ⊎ ((before ≡ []) × (has_write q ≡ false))

-- What `first_write` finds.
FirstOk : List Request → Option (Request × List Request) → Type 0
FirstOk q none = has_write q ≡ false
FirstOk q (some (r, rest)) = IsNext q r rest × (is_write r.op ≡ true)

put_front_ok :
    (r : Request) (q : List Request) (o : Option (Request × List Request))
    → is_write r.op ≡ false
    → FirstOk q o
    → FirstOk (r ∷ q) (put_front r o)
unfolding FirstOk
put_front_ok r q none h k = ground (arith, h, k)
put_front_ok r q (some (w, rest)) h (k, written) = (
  record {
    before = r ∷ k.before;
    after = k.after;
    queue_of = ap (λ l. r ∷ l) k.queue_of;
    rest_of = ap (λ l. r ∷ l) k.rest_of;
    no_write = ground (arith, h, k.no_write);
    reads_last = inl written;
  },
  written,
)

first_write_ok : (q : List Request) → FirstOk q (first_write q)
unfolding FirstOk first_write
first_write_ok [] = refl
first_write_ok (r ∷ rest) =
    if_cases (FirstOk (r ∷ rest)) (is_write r.op) (some (r, rest)) (put_front r (first_write rest))
      (λ e. (
        record {
          before = [];
          after = rest;
          queue_of = refl;
          rest_of = refl;
          no_write = refl;
          reads_last = inl e;
        },
        e,
      ))
      (λ e. put_front_ok r rest (first_write rest) e (first_write_ok rest))

no_next : true ≡ false → ⊥
no_next e = ground (arith, e)

IsNext-or :
    (r : Request) (rest : List Request) (o : Option (Request × List Request)) (x : Request)
    (left : List Request)
    → FirstOk (r ∷ rest) o
    → or_head r rest o ≡ some (x, left)
    → IsNext (r ∷ rest) x left
unfolding FirstOk
IsNext-or r rest none x left h e =
    let mine : Request × List Request = (r, rest) in
    let found : Request × List Request = (x, left) in
    let same : mine ≡ found = ap (λ o. or_else o mine) e in
    subst (λ (y : Request × List Request). IsNext (r ∷ rest) y.0 y.1) same
      (record {
        before = [];
        after = rest;
        queue_of = refl;
        rest_of = refl;
        no_write = refl;
        reads_last = inr (refl, h);
      })
IsNext-or r rest (some y) x left h e =
    let found : Request × List Request = (x, left) in
    let same : y ≡ found = ap (λ o. or_else o y) e in
    subst (λ (y : Request × List Request). IsNext (r ∷ rest) y.0 y.1) same h.0

-- What comes off the queue is its first write, or its first request where it has no write; the others
-- keep their order.
pub take_next-IsNext :
    (q : List Request) (r : Request) (rest : List Request)
    → take_next q ≡ some (r, rest)
    → IsNext q r rest
unfolding take_next
take_next-IsNext [] r rest e = absurd (no_next (ap is_none e))
take_next-IsNext (x ∷ q) r rest e =
    IsNext-or x q (first_write (x ∷ q)) r rest (first_write_ok (x ∷ q)) e

-- A reply that answers this request: its function code, and for a write the echo of its address and
-- size, for a read as many valid registers as were asked for, which are the answer.
pub record IsReply (r : Request) (came : Reply) (registers : Words) : Type 0 where
  pub function : ℕ
  pub address : ℕ
  pub count : ℕ
  pub words : Words
  pub came_of : came ≡ reply function address count words
  pub function_of : function ≡ function_code r.op
  pub answers :
      ((is_write r.op ≡ true) × (address ≡ r.address) × (count ≡ r.size) × (registers ≡ []))
      ⊎ ((is_write r.op ≡ false)
          × (registers ≡ words)
          × (length words ≡ r.size)
          × (valid_words words ≡ true))

exception_fails : (code : Option ℕ) → (exception_answer code).error ≡ none → ⊥
exception_fails none e = ground (arith, e)
exception_fails (some c) e = ground (arith, e)

-- An exchange is without an error only where the client's reply answers the request.
pub exchange-IsReply :
    (r : Request) (came : Reply)
    → (exchange r came).error ≡ none
    → IsReply r came (exchange r came).registers
unfolding exchange
exchange-IsReply r connection_error e = ground (arith, e)
exchange-IsReply r timeout_error e = ground (arith, e)
exchange-IsReply r other_error e = ground (arith, e)
exchange-IsReply r (error_reply code) e = absurd (exception_fails code e)
exchange-IsReply r (reply function address count words) e =
    let came = reply function address count words in
    let Ok : Answer → Type 0 = λ a. a.error ≡ none → IsReply r came a.registers in
    let bad_write =
      not (function == function_code r.op) || not (address == r.address) || not (count == r.size) in
    let bad_read =
      not (function == function_code r.op)
      || not (length words == r.size)
      || not (valid_words words) in
    if_cases Ok (is_write r.op) (if bad_write then failed_with bad_response else good [])
      (if bad_read then failed_with bad_response else good words)
      (λ w.
        if_cases Ok bad_write (failed_with bad_response) (good []) (λ b k. ground (arith, k))
          (λ b k. record {
            function = function;
            address = address;
            count = count;
            words = words;
            came_of = refl;
            function_of = ground (arith, b);
            answers = inl (w, ground (arith, b), ground (arith, b), refl);
          }))
      (λ w.
        if_cases Ok bad_read (failed_with bad_response) (good words) (λ b k. ground (arith, k))
          (λ b k. record {
            function = function;
            address = address;
            count = count;
            words = words;
            came_of = refl;
            function_of = ground (arith, b);
            answers = inr (w, refl, ground (arith, b), ground (arith, b));
          }))
      e
