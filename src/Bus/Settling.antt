-- ===== src/Bus/Settling.antt =====
-- An entry that is reclaimed again and again, against the counts that Redis keeps.
use ai_devsecops_command_cen.Common.Dict.{Dict}
use ai_devsecops_command_cen.Common.{
  ℕ, zero, suc, ◌+◌, String, ◌≡◌, ◌≢◌, Bool, true, false, ◌||◌, some, List, [], ◌∷◌, ◌==◌, or_else,
  if◌then◌else◌,
}
use ai_devsecops_command_cen.Common.Dict
use ai_devsecops_command_cen.Bus.Redis.{Entry, acked, claimed, read, History, Server, Options}
use ai_devsecops_command_cen.Bus.Entry.{envelope_of}
use ai_devsecops_command_cen.Bus.Loop.{reclaim_stale, delivery_counts}

-- The entry's XACK went through.
abbrev pub was_acked : String → History → Bool
was_acked id [] = false
was_acked id (acked j ∷ h) = j == id || was_acked id h
was_acked id (_ ∷ h) = was_acked id h

abbrev occurrences : String → List Entry → ℕ
occurrences id [] = 0
occurrences id ((j, _) ∷ entries) =
    let rest = occurrences id entries in if j == id then suc rest else rest

-- How often Redis delivered the entry: each XREADGROUP and each XAUTOCLAIM that has it counts.
abbrev pub deliveries : String → History → ℕ
deliveries id [] = 0
deliveries id (claimed entries ∷ h) = occurrences id entries + deliveries id h
deliveries id (read entries ∷ h) = occurrences id entries + deliveries id h
deliveries id (_ ∷ h) = deliveries id h

module _ (server : Server) (options : Options) (key : String) where
  -- The history after a number of passes of the reclaim, each of at most one batch.
  abbrev pub reclaims : ℕ → History → History
  reclaims zero h = h
  reclaims (suc n) h = reclaims n (reclaim_stale server options key 1 "0-0" h).1

  module _ (id raw : String) (fields : List String) (adds : (g : History) → server.adds g ≡ true)
      (acks : (g : History) → server.acks g id ≡ true)
      (counts : (g : History) → server.pending g id ≡ some ((id, deliveries id g) ∷ []))
      (waiting : (g : History)
        → was_acked id g ≡ false
        → server.autoclaim g "0-0" ≡ some ("0-0", (id, fields) ∷ []))
      (gone : (g : History) → was_acked id g ≡ true → server.autoclaim g "0-0" ≡ some ("0-0", []))
      (enveloped : envelope_of fields ≡ some raw) (given : raw ≢ "") where
    abbrev claim : History → History
    claim h = claimed ((id, fields) ∷ []) ∷ h

    abbrev counted : History → ℕ
    counted h = or_else (Dict.get (delivery_counts server options key (claim h) (id ∷ []) []) id) 1
