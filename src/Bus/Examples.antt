-- ===== src/Bus/Examples.antt =====
-- Concrete runs of the bus.
use ai_devsecops_command_cen.Common.{◌-◌, sym, map}
use ai_devsecops_command_cen.Bus.Settling.{was_acked, deliveries}
use ai_devsecops_command_cen.Common.{◌-◌}
use ai_devsecops_command_cen.Common.{
  ℕ, ◌≡◌, ◌≢◌, refl, arith, String, true, false, some, List, [], ◌∷◌, inl, inr, if◌then◌else◌, ◌==◌,
  Bool-cases,
}
use ai_devsecops_command_cen.Bus.Redis.{
  Entry, Server, default_options, returns, acked, handled, read,
}
use ai_devsecops_command_cen.Bus.Entry.{
  process_entry, process_raw, deliver, ack, caught, envelope_of,
}
use ai_devsecops_command_cen.Bus.Loop.{Turn, reclaim_stale, read_loop, read_turn, process_all}
use ai_devsecops_command_cen.Bus.Delivery.{IsJustified, read_loop-IsJustified}
use ai_devsecops_command_cen.Bus.Termination.{Advances, reclaim_stale_ends}

abbrev key : String
key = "aicc:events:vuln.found"

abbrev fields : List String
fields = "type" ∷ "vuln.found" ∷ "envelope" ∷ "{}" ∷ []

abbrev batch : List String → List Entry
batch ids = map (λ id. (id, fields)) ids

abbrev ten : List Entry
ten = batch ("1-0" ∷ "2-0" ∷ "3-0" ∷ "4-0" ∷ "5-0" ∷ "6-0" ∷ "7-0" ∷ "8-0" ∷ "9-0" ∷ "10-0" ∷ [])

abbrev next_ten : List Entry
next_ten =
    batch
      ("11-0" ∷ "12-0" ∷ "13-0" ∷ "14-0" ∷ "15-0" ∷ "16-0" ∷ "17-0" ∷ "18-0" ∷ "19-0" ∷ "20-0" ∷ [])

-- Everything works; two full batches are pending, and the second ends with the cursor "0-0".
abbrev server : Server
server = record {
  parses = λ raw. true;
  handles = λ h raw. true;
  adds = λ h. true;
  acks = λ h id. true;
  autoclaim = λ h cursor. if cursor == "0-0" then some ("11-0", ten) else some ("0-0", next_ten);
  pending = λ h id. some ((id, 2) ∷ []);
}

abbrev turn : Turn
turn = record {
  closing = false;
  now = 30000;
  reclaim_now = 30001;
  closing_after_reclaim = false;
  reply = some (("21-0", fields) ∷ []);
}

abbrev rank : String → ℕ
rank cursor = if cursor == "0-0" then 1 else 0

server-Advances : Advances server rank
server-Advances h cursor next found got full more = elim (Bool-cases (cursor == "0-0")) [
  | inl start ↦
      let e : some ("11-0", ten) ≡ some (next, found) = rw start at got in
      let is_next : "11-0" ≡ next = cc in rw (start, ← is_next) (omega arith)
  | inr later ↦
      let e : some ("0-0", next_ten) ≡ some (next, found) = rw later at got in
      let is_next : "0-0" ≡ next = cc in absurd (more (sym is_next))
]

one_turn :
    (read_turn server default_options key turn []).1
    ≡ acked "21-0" ∷ handled "21-0" "{}" ∷ read (("21-0", fields) ∷ []) ∷ []
unfolding read_turn process_all process_entry process_raw deliver caught ack envelope_of
one_turn = refl

read_loop-IsJustified_example :
    IsJustified (read_loop server default_options key 2 (turn ∷ turn ∷ []) 0 []).1
read_loop-IsJustified_example =
    read_loop-IsJustified server default_options key 2 (turn ∷ turn ∷ []) 0 [] tt

reclaim_stale_ends_example : (reclaim_stale server default_options key 2 "0-0" []).0 ≢ returns false
reclaim_stale_ends_example =
    reclaim_stale_ends server default_options key rank server-Advances 2 "0-0" [] (omega arith)

-- The handler throws on every entry; one entry is pending until it is acknowledged.
abbrev failing : Server
failing = record server {
  handles = λ h raw. false;
  autoclaim = λ h cursor.
      if was_acked "1-0" h then some ("0-0", []) else some ("0-0", ("1-0", fields) ∷ []);
  pending = λ h id. some ((id, deliveries id h) ∷ []);
}
