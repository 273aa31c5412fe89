-- ===== src/Bus/Loop.antt =====
-- `deliveryCounts`, `reclaimStale` and `readLoop`.
use ai_devsecops_command_cen.Common.{
  ℕ, zero, suc, ◌-◌, String, Bool, true, false, ◌||◌, ◌&&◌, Option, none, some, List, [], ◌∷◌, ◌==◌,
  if◌then◌else◌, ltb, leb, length, or_else,
}
use ai_devsecops_command_cen.Common.Dict
use ai_devsecops_command_cen.Common.Dict.{Dict}
use ai_devsecops_command_cen.Bus.Redis.{
  Entry, claimed, claim_failed, read, read_failed, History, Server, Options, Outcome, returns,
  throws,
}
use ai_devsecops_command_cen.Bus.Entry.{process_entry}

-- What one turn of the read loop meets: the closing flag and the clock where the loop reads them,
-- and the answer of XREADGROUP. `reply` is `none` where the call throws.
pub record Turn : Type 0 where
  pub closing : Bool
  pub now : ℕ
  pub reclaim_now : ℕ
  pub closing_after_reclaim : Bool
  pub reply : Option (List Entry)

module _ (server : Server) (options : Options) (key : String) where
  -- The first row counts only where it is about the id.
  unfoldable pub count_row : Dict ℕ → String → Option (List (String × ℕ)) → Dict ℕ
  count_row counts id none = counts
  count_row counts id (some []) = counts
  count_row counts id (some ((row, n) ∷ _)) = if row == id then Dict.set counts id n else counts

  unfoldable pub delivery_counts : History → List String → Dict ℕ → Dict ℕ
  delivery_counts h [] counts = counts
  delivery_counts h (id ∷ ids) counts =
      delivery_counts h ids (count_row counts id (server.pending h id))

  abbrev pub ids_of : List Entry → List String
  ids_of [] = []
  ids_of ((id, _) ∷ entries) = id ∷ ids_of entries

  -- The loop over the entries; an XACK that throws ends it.
  unfoldable pub process_all : (String → ℕ) → List Entry → History → Outcome (Unit {0}) × History
  process_all count [] h = (returns tt, h)
  process_all count ((id, fields) ∷ rest) h =
      let (r, h') = process_entry server options key id fields (count id) h in
      elim r [ returns _ ↦ process_all count rest h' | throws ↦ (throws, h') ]

  -- `for (;;)` with fuel; the second part is false where the fuel ran out.
  unfoldable pub reclaim_stale : ℕ → String → History → Outcome Bool × History
  reclaim_stale zero cursor h = (returns false, h)
  reclaim_stale (suc fuel) cursor h = elim (server.autoclaim h cursor) [
    | none ↦ (returns true, claim_failed ∷ h)
    | some (next, []) ↦ (returns true, claimed [] ∷ h)
    | some (next, entry ∷ entries) ↦
        let found = entry ∷ entries in
        let counts = delivery_counts (claimed found ∷ h) (ids_of found) [] in
        let (r, h') =
          process_all (λ id. or_else (Dict.get counts id) 1) found (claimed found ∷ h) in
        let more = reclaim_stale fuel next h' in
        elim r [
          | throws ↦ (throws, h')
          | returns _ ↦ if next == "0-0" || ltb (length found) 10 then (returns true, h') else more
        ]
  ]

  -- XREADGROUP and its messages, each a first delivery.
  unfoldable pub read_turn : Turn → History → Outcome (Unit {0}) × History
  read_turn turn h = elim turn.reply [
    | none ↦ (returns tt, read_failed ∷ h)
    | some entries ↦ process_all (λ _. 1) entries (read entries ∷ h)
  ]

  -- The reclaim of a turn, where it is due.
  unfoldable pub reclaim_turn : ℕ → Bool → History → Outcome Bool × History
  reclaim_turn fuel due h = if due then reclaim_stale fuel "0-0" h else (returns true, h)

  -- `readLoop`, over the turns that it makes; the fuel bounds each reclaim.
  unfoldable pub read_loop : ℕ → List Turn → ℕ → History → Outcome (Unit {0}) × History
  read_loop fuel [] last_reclaim h = (returns tt, h)
  read_loop fuel (turn ∷ turns) last_reclaim h =
      let due = leb options.reclaim_interval_ms (turn.now - last_reclaim) in
      let (r, h') = reclaim_turn fuel due h in
      let (q, h'') = read_turn turn h' in
      let rest = read_loop fuel turns (if due then turn.reclaim_now else last_reclaim) h'' in
      if turn.closing then (returns tt, h) else elim r [
        | throws ↦ (throws, h')
        | returns _ ↦
            if due && turn.closing_after_reclaim
            then (returns tt, h')
            else elim q [ throws ↦ (throws, h'') | returns _ ↦ rest ]
      ]
