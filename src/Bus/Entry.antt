-- ===== src/Bus/Entry.antt =====
-- `processEntry` and `deadLetter`.
use ai_devsecops_command_cen.Common.{
  ℕ, String, Option, none, some, List, [], ◌∷◌, ◌==◌, if◌then◌else◌, ltb, ◌&◌,
}
use text.Mathlib.Text.{starts_with}
use Prim.Native.String.{len, slice}
use ai_devsecops_command_cen.Bus.Redis.{
  handled, handler_threw, dead_lettered, dead_letter_failed, acked, ack_threw, History, Server,
  Options, Outcome, returns, throws,
}

-- `fields[fields.indexOf('envelope') + 1]`: what follows the first 'envelope' of the flat list.
unfoldable pub envelope_of : List String → Option String
envelope_of [] = none
envelope_of (name ∷ []) = none
envelope_of (name ∷ value ∷ rest) =
    if name == "envelope" then some value else envelope_of (value ∷ rest)

-- `dlqKeyFor`.
unfoldable pub dlq_key_for : String → String
dlq_key_for key =
    if starts_with key "aicc:events:"
    then "aicc:events:dlq:" & slice key (len "aicc:events:") (len key)
    else key

module _ (server : Server) (options : Options) (key : String) where
  -- `conn.xack`, which may throw.
  unfoldable pub ack : String → History → Outcome (Unit {0}) × History
  ack id h = if server.acks h id then (returns tt, acked id ∷ h) else (throws, ack_threw id ∷ h)

  -- A failed write leaves the entry pending; a failed XACK after the write throws on.
  unfoldable pub dead_letter : String → String → ℕ → History → Outcome (Unit {0}) × History
  dead_letter id raw count h =
      if server.adds h
      then ack id (dead_lettered (dlq_key_for key) id raw count ∷ h)
      else (returns tt, dead_letter_failed id ∷ h)

  -- The XACK inside the `try` of `processEntry`: what it throws is caught.
  unfoldable pub caught : Outcome (Unit {0}) × History → Outcome (Unit {0}) × History
  caught (_, h) = (returns tt, h)

  unfoldable pub deliver : String → String → History → Outcome (Unit {0}) × History
  deliver id raw h =
      if server.parses raw
      then (if server.handles h raw
          then caught (ack id (handled id raw ∷ h))
          else (returns tt, handler_threw id ∷ h))
      else (returns tt, handler_threw id ∷ h)

  -- An entry with no envelope, or an empty one, is left as it is.
  unfoldable pub process_raw : String → Option String → ℕ → History → Outcome (Unit {0}) × History
  process_raw id none count h = (returns tt, h)
  process_raw id (some raw) count h =
      if raw == ""
      then (returns tt, h)
      else if ltb options.max_deliveries count
      then dead_letter id raw count h
      else deliver id raw h

  unfoldable pub process_entry : String → List String → ℕ → History → Outcome (Unit {0}) × History
  process_entry id fields count h = process_raw id (envelope_of fields) count h
