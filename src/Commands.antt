-- ===== src/Commands.antt =====
-- The envelopes of a command, shared by both programs (ha_spark/api/commands.py,
-- custom_components/ha_spark/commands.py). A payload is its JSON text; which payloads a kind admits,
-- and how long the text of an envelope is, belong to pydantic and json, and are parameters.
pub mod Queue
pub mod Consumer
mod Examples
use ha_spark.Prelude.{ℕ, suc, String, Bool, true, false, ◌&&◌, List, [], ◌∷◌, Option, ltb, leb}

pub data Kind : Type 0 where
  transition manual sync_clock reprobe apply supervise_export end_supervision : Kind

pub record Command : Type 0 where
  pub session_id : String
  pub epoch : ℕ
  pub sequence : ℕ
  pub kind : Kind
  pub payload : String

-- `"pending"` is an outcome of a command alone.
pub data Outcome : Type 0 where
  applied unchanged deferred refused unverified failed pending : Outcome

-- The reasons that the queue and the consumer give; a handler gives others.
pub data Reason : Type 0 where
  stale_session stale_authority replayed : Reason
  other_reason : String → Reason

-- `written_a` is the bit pattern of the double.
pub record IntentResult : Type 0 where
  pub outcome : Outcome
  pub reason : Option String
  pub written_a : Option ℕ

pub record CommandResult : Type 0 where
  pub session_id : String
  pub sequence : ℕ
  pub outcome : Outcome
  pub reason : Option Reason
  pub intents : List IntentResult
  pub epoch : Option ℕ
  pub reasons : List String

abbrev pub is_pending : Outcome → Bool
is_pending pending = true
is_pending _ = false

-- The library calls that an envelope meets.
pub record Json : Type 0 where
  pub admits : Kind → String → Bool
  pub size : Command → ℕ
  pub batch_size : String → List Command → ℕ

-- `FetchReply.ordered`: each sequence is above the last.
unfoldable pub ordered : ℕ → List Command → Bool
ordered last [] = true
ordered last (c ∷ rest) = ltb last c.sequence && ordered c.sequence rest
