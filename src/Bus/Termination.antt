-- ===== src/Bus/Termination.antt =====
-- The end of `reclaimStale`, by the cursors of XAUTOCLAIM.
use ai_devsecops_command_cen.Common.Dict.{Dict}
use ai_devsecops_command_cen.Common.{
  ℕ, zero, suc, ◌≤◌, ◌<◌, ◌≡◌, ◌≢◌, inl, inr, refl, arith, String, Bool, true, false, ◌||◌, some,
  List, [], ◌∷◌, ◌==◌, if◌then◌else◌, ltb, Option-cases, eq_iff, length, or_else,
}
use ai_devsecops_command_cen.Common.Dict
use ai_devsecops_command_cen.Bus.Redis.{
  Entry, claimed, History, Server, Options, Outcome, returns, throws,
}
use ai_devsecops_command_cen.Bus.Loop.{delivery_counts, ids_of, process_all, reclaim_stale}

-- A full batch that is not the last comes with a cursor of lower rank: XAUTOCLAIM walks the pending
-- list towards its end, and answers with the cursor "0-0" where it has reached it.
abbrev pub Advances : Server → (String → ℕ) → Type 0
Advances server rank =
    (h : History) (cursor next : String) (found : List Entry)
    → server.autoclaim h cursor ≡ some (next, found)
    → 10 ≤ length found
    → next ≢ "0-0"
    → rank next < rank cursor

module _ (server : Server) (options : Options) (key : String) where
  last_or_more :
      (r : Outcome (Unit {0})) (h : History) (more : Outcome Bool × History) (last : Bool)
      → (last ≡ false → more.0 ≢ returns false)
      → (let answer : Outcome Bool × History = elim r [
        | throws ↦ (throws, h)
        | returns _ ↦ if last then (returns true, h) else more
      ] in
          answer.0)
        ≢ returns false
  last_or_more throws h more last k = λ e. cc
  last_or_more (returns _) h more true k = λ e. ground arith
  last_or_more (returns _) h more false k = k refl

  -- Where each full batch whose next cursor is not "0-0" moves the cursor forward by some rank, the
  -- reclaim ends within one batch more than the rank of the first cursor: it returns or throws before
  -- this much fuel is spent.
  pub reclaim_stale_ends :
      (rank : String → ℕ)
      → Advances server rank
      → (fuel : ℕ) (cursor : String) (h : History) → rank cursor < fuel
      → (reclaim_stale server options key fuel cursor h).0 ≢ returns false
  unfolding reclaim_stale
  reclaim_stale_ends rank adv zero cursor h lt = absurd (omega arith)
  reclaim_stale_ends rank adv (suc fuel) cursor h lt =
      elim (Option-cases (server.autoclaim h cursor)) [
        | inl failed ↦ rw (failed, reclaim_stale) (λ e. ground arith)
        | inr ((next, []), got) ↦ rw (got, reclaim_stale) (λ e. ground arith)
        | inr ((next, entry ∷ entries), got) ↦
            let found = entry ∷ entries in
            let counts =
              delivery_counts server options key (claimed found ∷ h)
                (ids_of server options key found) [] in
            let r =
              process_all server options key (λ id. or_else (Dict.get counts id) 1) found
                (claimed found ∷ h) in
            rw (got, reclaim_stale)
              (last_or_more r.0 r.1 _ (next == "0-0" || ltb (length found) 10) λ full.
                reclaim_stale_ends rank adv fuel next r.1 (
                  omega (
                    arith,
                    adv h cursor next found got (full_batch (next == "0-0") (length found) full)
                        (λ at_end.
                          full_more (next == "0-0") (length found) full
                            ((eq_iff next "0-0").1 at_end)),
                  )))
      ]
    where
      full_batch : (b : Bool) (n : ℕ) → (b || ltb n 10) ≡ false → 10 ≤ n
      full_batch b n e = ground arith

      full_more : (b : Bool) (n : ℕ) → (b || ltb n 10) ≡ false → b ≡ true → ⊥
      full_more b n e t = ground arith
