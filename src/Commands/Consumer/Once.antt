-- ===== src/Commands/Consumer/Once.antt =====
-- A command runs at most once in a session.
use ha_spark.Prelude.{ℕ, ◌≤◌, ◌<◌, ◌≡◌, Bool, true, ◌&&◌, List, [], ◌∷◌, Option, arith, ltb, refl}
use ha_spark.Commands.{Command, CommandResult}
use ha_spark.Commands.Consumer.{CommandConsumer, Verdict, reply, run, start, finish}

-- A command arrives, while the authority has an epoch; or a handler answers.
pub data Event : Type 0 where
  arrive : Option ℕ → Command → Event
  answer : Command → Option CommandResult → Event

abbrev pub note : ℕ → Verdict → List ℕ → List ℕ
note s (reply result) later = later
note s run later = s ∷ later

-- The sequences whose handler is called, in order.
pub runs : List Event → CommandConsumer → List ℕ
runs [] c = []
runs (arrive epoch command ∷ events) c =
    let (next, verdict) = start epoch command c in
    let later = runs events next in note command.sequence verdict later
runs (answer command result ∷ events) c = runs events (finish command result c).0

abbrev pub increasing : ℕ → List ℕ → Bool
increasing last [] = true
increasing last (s ∷ rest) = ltb last s && increasing s rest

increasing_weaken :
    (l m : ℕ) (xs : List ℕ) → l ≤ m → increasing m xs ≡ true → increasing l xs ≡ true
increasing_weaken l m [] h o = refl
increasing_weaken l m (s ∷ rest) h o = ground (arith, h, o)

start-forward :
    (epoch : Option ℕ) (command : Command) (c : CommandConsumer)
    → (c.last_sequence ≤ (start epoch command c).0.last_sequence)
      × ((start epoch command c).1 ≡ run
          → (c.last_sequence < command.sequence)
            × ((start epoch command c).0.last_sequence ≡ command.sequence))
unfolding start
start-forward epoch command c = ground arith

note-increasing :
    (v : Verdict) (l s m : ℕ) (later : List ℕ)
    → l ≤ m
    → (v ≡ run → (l < s) × (m ≡ s))
    → increasing m later ≡ true
    → increasing l (note s v later) ≡ true
note-increasing (reply result) l s m later h k o = increasing_weaken l m later h o
note-increasing run l s m later h k o = ground (arith, k refl, o)

-- Whatever arrives, in whatever order and however often, and whatever handlers answer meanwhile: the
-- sequences whose handler is called increase strictly, from above the last one consumed. So no
-- handler is called twice for a sequence.
pub runs-increasing :
    (events : List Event) (c : CommandConsumer) → increasing c.last_sequence (runs events c) ≡ true
unfolding runs finish
runs-increasing [] c = refl
runs-increasing (answer command result ∷ events) c =
    runs-increasing events (finish command result c).0
runs-increasing (arrive epoch command ∷ events) c =
    let (forward, ran) = start-forward epoch command c in
    let (next, verdict) = start epoch command c in
    note-increasing verdict c.last_sequence command.sequence next.last_sequence (runs events next)
      forward ran (runs-increasing events next)
