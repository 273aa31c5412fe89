-- ===== src/Bus/Delivery.antt =====
-- Which entries are taken off the pending list, and how often the handler is tried.
use ai_devsecops_command_cen.Common.Dict.{Dict}
use ai_devsecops_command_cen.Common.{
  ℕ, zero, suc, ◌≤◌, ◌<◌, ◌-◌, ◌≡◌, ◌⊎◌, inl, inr, refl, arith, String, Bool, true, false, Option,
  none, some, List, [], ◌∷◌, ◌==◌, if◌then◌else◌, ltb, leb, Option-cases, length, or_else, ◌||◌,
  ◌&&◌,
}
use ai_devsecops_command_cen.Common.Dict
use ai_devsecops_command_cen.Bus.Redis.{
  Entry, handled, handler_threw, dead_lettered, dead_letter_failed, acked, ack_threw, claimed,
  claim_failed, read, read_failed, History, Server, Options, Outcome, returns, throws,
}
use ai_devsecops_command_cen.Bus.Entry.{
  envelope_of, ack, dead_letter, caught, deliver, process_raw, process_entry,
}
use ai_devsecops_command_cen.Bus.Loop.{
  Turn, delivery_counts, ids_of, process_all, reclaim_stale, reclaim_turn, read_turn, read_loop,
}

-- The entry was handled, or written to a dead-letter stream.
abbrev pub IsSettled : String → History → Type 0
IsSettled id [] = ⊥
IsSettled id (handled i _ ∷ h) = (i ≡ id) ⊎ IsSettled id h
IsSettled id (dead_lettered _ i _ _ ∷ h) = (i ≡ id) ⊎ IsSettled id h
IsSettled id (handler_threw _ ∷ h) = IsSettled id h
IsSettled id (dead_letter_failed _ ∷ h) = IsSettled id h
IsSettled id (acked _ ∷ h) = IsSettled id h
IsSettled id (ack_threw _ ∷ h) = IsSettled id h
IsSettled id (claimed _ ∷ h) = IsSettled id h
IsSettled id (claim_failed ∷ h) = IsSettled id h
IsSettled id (read _ ∷ h) = IsSettled id h
IsSettled id (read_failed ∷ h) = IsSettled id h

-- Before each XACK that went through, its entry was settled.
abbrev pub IsJustified : History → Type 0
IsJustified [] = Unit
IsJustified (acked id ∷ h) = IsSettled id h × IsJustified h
IsJustified (handled _ _ ∷ h) = IsJustified h
IsJustified (dead_lettered _ _ _ _ ∷ h) = IsJustified h
IsJustified (handler_threw _ ∷ h) = IsJustified h
IsJustified (dead_letter_failed _ ∷ h) = IsJustified h
IsJustified (ack_threw _ ∷ h) = IsJustified h
IsJustified (claimed _ ∷ h) = IsJustified h
IsJustified (claim_failed ∷ h) = IsJustified h
IsJustified (read _ ∷ h) = IsJustified h
IsJustified (read_failed ∷ h) = IsJustified h

-- How often the handler was started, or the envelope failed to parse.
abbrev pub tries : History → ℕ
tries [] = 0
tries (handled _ _ ∷ h) = suc (tries h)
tries (handler_threw _ ∷ h) = suc (tries h)
tries (dead_lettered _ _ _ _ ∷ h) = tries h
tries (dead_letter_failed _ ∷ h) = tries h
tries (acked _ ∷ h) = tries h
tries (ack_threw _ ∷ h) = tries h
tries (claimed _ ∷ h) = tries h
tries (claim_failed ∷ h) = tries h
tries (read _ ∷ h) = tries h
tries (read_failed ∷ h) = tries h

module _ (server : Server) (options : Options) (key : String) where
  process_raw-IsJustified :
      (id : String) (raw : Option String) (count : ℕ) (h : History)
      → IsJustified h
      → IsJustified (process_raw server options key id raw count h).1
  unfolding process_raw deliver caught ack dead_letter
  process_raw-IsJustified id none count h j = j
  process_raw-IsJustified id (some raw) count h j = ground arith

  -- An entry that was delivered more than `maxDeliveries` times is not given to the handler again;
  -- otherwise the handler is tried at most once.
  pub process_raw-tries :
      (id : String) (raw : Option String) (count : ℕ) (h : History)
      → (tries (process_raw server options key id raw count h).1 ≤ suc (tries h))
        × (options.max_deliveries < count
            → tries (process_raw server options key id raw count h).1 ≡ tries h)
  unfolding process_raw deliver caught ack dead_letter
  process_raw-tries id none count h = (omega arith, λ over. refl)
  process_raw-tries id (some raw) count h = (ground arith, λ over. ground arith)

  process_entry-IsJustified :
      (id : String) (fields : List String) (count : ℕ) (h : History)
      → IsJustified h
      → IsJustified (process_entry server options key id fields count h).1
  unfolding process_entry
  process_entry-IsJustified id fields count h j =
      process_raw-IsJustified id (envelope_of fields) count h j

  process_all-IsJustified :
      (count : String → ℕ) (entries : List Entry) (h : History)
      → IsJustified h
      → IsJustified (process_all server options key count entries h).1
  unfolding process_all
  process_all-IsJustified count [] h j = j
  process_all-IsJustified count ((id, fields) ∷ rest) h j = ground (
    arith,
    process_entry-IsJustified id fields (count id) h j,
    process_all-IsJustified count rest (process_entry server options key id fields (count id) h).1,
  )

  -- The end of a batch: a throw, the last batch, or the next one.
  after_batch :
      (r : Outcome (Unit {0})) (h : History) (more : Outcome Bool × History) (last : Bool)
      → IsJustified h
      → IsJustified more.1
      → IsJustified (
          let answer : Outcome Bool × History = elim r [
            | throws ↦ (throws, h)
            | returns _ ↦ if last then (returns true, h) else more
          ] in
          answer.1)
  after_batch throws h more last j k = j
  after_batch (returns _) h more true j k = j
  after_batch (returns _) h more false j k = k

  pub reclaim_stale-IsJustified :
      (fuel : ℕ) (cursor : String) (h : History)
      → IsJustified h
      → IsJustified (reclaim_stale server options key fuel cursor h).1
  unfolding reclaim_stale
  reclaim_stale-IsJustified zero cursor h j = j
  reclaim_stale-IsJustified (suc fuel) cursor h j =
      elim (Option-cases (server.autoclaim h cursor)) [
        | inl failed ↦ rw (failed, reclaim_stale) j
        | inr ((next, []), got) ↦ rw (got, reclaim_stale) j
        | inr ((next, entry ∷ entries), got) ↦
            let found = entry ∷ entries in
            let counts =
              delivery_counts server options key (claimed found ∷ h)
                (ids_of server options key found) [] in
            let r =
              process_all server options key (λ id. or_else (Dict.get counts id) 1) found
                (claimed found ∷ h) in
            let kept =
              process_all-IsJustified (λ id. or_else (Dict.get counts id) 1) found
                (claimed found ∷ h) j in
            rw (got, reclaim_stale)
              (after_batch r.0 r.1 _ (next == "0-0" || ltb (length found) 10) kept
                (reclaim_stale-IsJustified fuel next r.1 kept))
      ]

  read_turn-IsJustified :
      (turn : Turn) (h : History)
      → IsJustified h
      → IsJustified (read_turn server options key turn h).1
  unfolding read_turn
  read_turn-IsJustified turn h j = elim (Option-cases turn.reply) [
    | inl failed ↦ rw failed j
    | inr (entries, got) ↦ rw got (process_all-IsJustified (λ _. 1) entries (read entries ∷ h) j)
  ]

  reclaim_turn-IsJustified :
      (fuel : ℕ) (due : Bool) (h : History)
      → IsJustified h
      → IsJustified (reclaim_turn server options key fuel due h).1
  unfolding reclaim_turn
  reclaim_turn-IsJustified fuel true h j = reclaim_stale-IsJustified fuel "0-0" h j
  reclaim_turn-IsJustified fuel false h j = j

  -- The ends of a turn.
  after_turn :
      (closing stop : Bool) (r : Outcome Bool) (q : Outcome (Unit {0})) (h h' h'' : History)
      (rest : Outcome (Unit {0}) × History)
      → IsJustified h
      → IsJustified h'
      → IsJustified h''
      → IsJustified rest.1
      → IsJustified (
          let answer : Outcome (Unit {0}) × History = if closing then (returns tt, h) else elim r [
            | throws ↦ (throws, h')
            | returns _ ↦
                if stop
                then (returns tt, h')
                else elim q [ throws ↦ (throws, h'') | returns _ ↦ rest ]
          ] in
          answer.1)
  after_turn true stop r q h h' h'' rest a b c d = a
  after_turn false stop throws q h h' h'' rest a b c d = b
  after_turn false true (returns _) q h h' h'' rest a b c d = b
  after_turn false false (returns _) throws h h' h'' rest a b c d = c
  after_turn false false (returns _) (returns _) h h' h'' rest a b c d = d

  -- Whatever Redis, the clock and the handler answer, and however often entries are reclaimed: if
  -- every XACK of the history was justified before, it is after the read loop. An XACK goes through
  -- only for an entry whose handler returned, or whose envelope was written to the dead-letter
  -- stream.
  pub read_loop-IsJustified :
      (fuel : ℕ) (turns : List Turn) (last_reclaim : ℕ) (h : History)
      → IsJustified h
      → IsJustified (read_loop server options key fuel turns last_reclaim h).1
  unfolding read_loop
  read_loop-IsJustified fuel [] last_reclaim h j = j
  read_loop-IsJustified fuel (turn ∷ turns) last_reclaim h j =
      let due = leb options.reclaim_interval_ms (turn.now - last_reclaim) in
      let r = reclaim_turn server options key fuel due h in
      let reclaimed = reclaim_turn-IsJustified fuel due h j in
      let q = read_turn server options key turn r.1 in
      let done = read_turn-IsJustified turn r.1 reclaimed in
      let last = if due then turn.reclaim_now else last_reclaim in
      after_turn turn.closing (due && turn.closing_after_reclaim) r.0 q.0 h r.1 q.1
        (read_loop server options key fuel turns last q.1) j reclaimed done
        (read_loop-IsJustified fuel turns last q.1 done)
