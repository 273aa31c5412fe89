-- ===== src/Bus/Redis.antt =====
-- What the bus sees of Redis, of the subscriber's handler and of `JSON.parse`: their outcomes, which
-- may depend on all that happened before. What the bus did is a history, newest first.
use ai_devsecops_command_cen.Common.{ℕ, String, Bool, Option, List}

-- A stream entry: its id, and the flat list of field names and values.
abbrev pub Entry : Type 0
Entry = String × List String

pub data Event : Type 0 where
  -- the handler returned, or threw, on the entry
  handled : (id raw : String) → Event
  handler_threw : (id : String) → Event
  -- the entry was written to a dead-letter stream, with its envelope, or the write failed
  dead_lettered : (dlq id raw : String) (count : ℕ) → Event
  dead_letter_failed : (id : String) → Event
  -- XACK of the entry, which went through or threw
  acked : (id : String) → Event
  ack_threw : (id : String) → Event
  -- the entries of an XAUTOCLAIM or an XREADGROUP, or its failure
  claimed : List Entry → Event
  claim_failed : Event
  read : List Entry → Event
  read_failed : Event

abbrev pub History : Type 0
History = List Event

pub record Server : Type 0 where
  pub parses : String → Bool
  pub handles : History → String → Bool
  pub adds : History → Bool
  pub acks : History → String → Bool
  -- the next cursor and the entries, which may be missing; `none` is a throw
  pub autoclaim : History → String → Option (String × List Entry)
  -- the rows of XPENDING for one id: the id and the number of deliveries; `none` is a throw
  pub pending : History → String → Option (List (String × ℕ))

-- `RedisStreamsEventBusOptions` as far as delivery depends on it.
pub record Options : Type 0 where
  pub max_deliveries : ℕ
  pub reclaim_interval_ms : ℕ

abbrev pub default_options : Options
default_options = record { max_deliveries = 5; reclaim_interval_ms = 30000 }

-- An action of the bus: it may throw, and has a history.
pub data Outcome (A : Type 0) : Type 0 where
  returns : A → Outcome A
  throws : Outcome A
