-- ===== src/Mapper/Tuples.antt =====
-- The tuples that `evaluateBatch` hands to the POA&M service.
use ai_devsecops_command_cen.Common.{any-append, All-map, Any-map, All_own}
use ai_devsecops_command_cen.Mapper.Predicates.{Platform}
use ai_devsecops_command_cen.Common.{ap, map, Any}
use mathlib.Core.Path.{subst}
use ai_devsecops_command_cen.Mapper.Engine.{
  Gathered, tuple_key, gather_match, gather_tuple, tuple_of, gather, gather_matches, evaluate_batch,
  MappingEngine, evaluate, nothing_gathered,
}
use ai_devsecops_command_cen.Common.{
  ℕ, String, ◌≡◌, refl, sym, ◌∙◌, inl, inr, Bool, true, false, List, [], ◌∷◌, ◌++◌, arith, ◌==◌,
  eq_iff, Bool-cases, any, All, All-append,
}
use ai_devsecops_command_cen.Poam.Types.{ControlVulnTuple}
use ai_devsecops_command_cen.Mapper.Types.{MappingInput, ControlMapping, MappingEvaluation}

abbrev pub key_of : ControlVulnTuple → String
key_of t = tuple_key t.control_id t.vuln_id

abbrev pub has_key : List ControlVulnTuple → String → Bool
has_key ts k = any (λ t. key_of t == k) ts

-- No two tuples have one key.
abbrev pub DistinctKeys : List ControlVulnTuple → Type 0
DistinctKeys [] = Unit
DistinctKeys (t ∷ ts) = (has_key ts (key_of t) ≡ false) × DistinctKeys ts

-- What is seen is what the tuples have, and no tuple comes twice.
record InOrder (g : Gathered) : Type 0 where
  seen_keys : (k : String) → any (λ s. s == k) g.seen ≡ has_key g.tuples k
  distinct : DistinctKeys g.tuples

append-DistinctKeys :
    (ts : List ControlVulnTuple) (t : ControlVulnTuple)
    → DistinctKeys ts
    → has_key ts (key_of t) ≡ false
    → DistinctKeys (ts ++ t ∷ [])
append-DistinctKeys [] t d free = (refl, tt)
append-DistinctKeys (u ∷ ts) t (fresh, d) free = (
  any-append (λ v. key_of v == key_of u) ts (t ∷ [])
      ∙ ground (arith, eq_iff (key_of t) (key_of u), eq_iff (key_of u) (key_of t)),
  append-DistinctKeys ts t d (ground arith),
)

module _ (now : ℕ) (input : MappingInput) (m : ControlMapping) (g : Gathered) where
  abbrev key : String
  key = tuple_key m.control_id input.vuln_id

  gather_match-InOrder : InOrder g → InOrder (gather_match now input m g)
  unfolding gather_match gather_tuple
  gather_match-InOrder h = elim (Bool-cases (any (λ s. s == key) g.seen)) [
    | inl old ↦ rw old (record { seen_keys = h.seen_keys; distinct = h.distinct })
    | inr new ↦ rw new (record {
      seen_keys = λ k.
          rw (any-append (λ t. key_of t == k) g.tuples (tuple_of now input m ∷ []))
            (ground (arith, h.seen_keys k));
      distinct = append-DistinctKeys g.tuples _ h.distinct (sym (h.seen_keys key) ∙ new);
    })
  ]

  -- A key that is there stays, and the match has its tuple.
  gather_match-kept :
      (k : String)
      → has_key g.tuples k ≡ true
      → has_key (gather_match now input m g).tuples k ≡ true
  unfolding gather_match gather_tuple
  gather_match-kept k h = elim (Bool-cases (any (λ s. s == key) g.seen)) [
    | inl old ↦ rw old h
    | inr new ↦ rw new (any-append (λ t. key_of t == k) g.tuples _ ∙ ground arith)
  ]

  gather_match-covers : InOrder g → has_key (gather_match now input m g).tuples key ≡ true
  unfolding gather_match gather_tuple
  gather_match-covers h = elim (Bool-cases (any (λ s. s == key) g.seen)) [
    | inl old ↦ rw old (sym (h.seen_keys key) ∙ old)
    | inr new ↦
        rw new (any-append (λ t. key_of t == key) g.tuples _ ∙ ground (arith, eq_iff key key))
  ]

  gather_match-All :
      (P : ControlVulnTuple → Type 0)
      → All P g.tuples
      → P (tuple_of now input m)
      → All P (gather_match now input m g).tuples
  unfolding gather_match gather_tuple
  gather_match-All P h p = elim (Bool-cases (any (λ s. s == key) g.seen)) [
    | inl old ↦ rw old h
    | inr new ↦ rw new (All-append P g.tuples _ h (p, tt))
  ]

module _ (now : ℕ) (input : MappingInput) where
  -- What one evaluation adds: order and keys are kept, each of its matches has its tuple.
  abbrev CoversMatches : List ControlVulnTuple → List ControlMapping → Type 0
  CoversMatches ts ms = All (λ m. has_key ts (tuple_key m.control_id input.vuln_id) ≡ true) ms

  gather_matches-InOrder :
      (ms : List ControlMapping) (g : Gathered)
      → InOrder g
      → InOrder (gather_matches now input ms g)
  unfolding gather_matches
  gather_matches-InOrder [] g h = h
  gather_matches-InOrder (m ∷ ms) g h =
      gather_matches-InOrder ms _ (gather_match-InOrder now input m g h)

  gather_matches-kept :
      (ms : List ControlMapping) (g : Gathered) (k : String)
      → has_key g.tuples k ≡ true
      → has_key (gather_matches now input ms g).tuples k ≡ true
  unfolding gather_matches
  gather_matches-kept [] g k h = h
  gather_matches-kept (m ∷ ms) g k h =
      gather_matches-kept ms _ k (gather_match-kept now input m g k h)

  gather_matches-covers :
      (ms : List ControlMapping) (g : Gathered)
      → InOrder g
      → CoversMatches (gather_matches now input ms g).tuples ms
  unfolding gather_matches
  gather_matches-covers [] g h = tt
  gather_matches-covers (m ∷ ms) g h =
      let after = gather_match now input m g in
      (
        gather_matches-kept ms after _ (gather_match-covers now input m g h),
        gather_matches-covers ms after (gather_match-InOrder now input m g h),
      )

  gather_matches-All :
      (P : ControlVulnTuple → Type 0) (ms : List ControlMapping) (g : Gathered)
      → All P g.tuples
      → All (λ m. P (tuple_of now input m)) ms
      → All P (gather_matches now input ms g).tuples
  unfolding gather_matches
  gather_matches-All P [] g h p = h
  gather_matches-All P (m ∷ ms) g h (p, ps) =
      gather_matches-All P ms _ (gather_match-All now input m g P h p) ps

module _ (now : ℕ) where
  abbrev pub Covers : List ControlVulnTuple → List MappingEvaluation → Type 0
  Covers ts evs =
      All (λ ev. All (λ m. has_key ts (tuple_key m.control_id ev.input.vuln_id) ≡ true) ev.matches)
        evs

  gather-InOrder :
      (evs : List MappingEvaluation) (g : Gathered) → InOrder g → InOrder (gather now evs g)
  unfolding gather
  gather-InOrder [] g h = h
  gather-InOrder (ev ∷ evs) g h =
      gather-InOrder evs _ (gather_matches-InOrder now ev.input ev.matches g h)

  gather-kept :
      (evs : List MappingEvaluation) (g : Gathered) (k : String)
      → has_key g.tuples k ≡ true
      → has_key (gather now evs g).tuples k ≡ true
  unfolding gather
  gather-kept [] g k h = h
  gather-kept (ev ∷ evs) g k h =
      gather-kept evs _ k (gather_matches-kept now ev.input ev.matches g k h)

  covers_more :
      (input : MappingInput) (ms : List ControlMapping) (evs : List MappingEvaluation)
      (g : Gathered)
      → CoversMatches now input g.tuples ms
      → CoversMatches now input (gather now evs g).tuples ms
  covers_more input [] evs g h = tt
  covers_more input (m ∷ ms) evs g (h, hs) = (gather-kept evs g _ h, covers_more input ms evs g hs)

  gather-Covers :
      (evs : List MappingEvaluation) (g : Gathered)
      → InOrder g
      → Covers (gather now evs g).tuples evs
  unfolding gather
  gather-Covers [] g h = tt
  gather-Covers (ev ∷ evs) g h =
      let after = gather_matches now ev.input ev.matches g in
      (
        covers_more ev.input ev.matches evs after
            (gather_matches-covers now ev.input ev.matches g h),
        gather-Covers evs after (gather_matches-InOrder now ev.input ev.matches g h),
      )

  pub gather-All :
      (P : ControlVulnTuple → Type 0) (evs : List MappingEvaluation) (g : Gathered)
      → All P g.tuples
      → All (λ ev. All (λ m. P (tuple_of now ev.input m)) ev.matches) evs
      → All P (gather now evs g).tuples
  unfolding gather
  gather-All P [] g h p = h
  gather-All P (ev ∷ evs) g h (p, ps) =
      gather-All P evs _ (gather_matches-All now ev.input P ev.matches g h p) ps

-- A tuple is that of some match of some evaluation.
abbrev pub ComesFrom : ℕ → List MappingEvaluation → ControlVulnTuple → Type 0
ComesFrom now evs t = Any (λ ev. Any (λ m. t ≡ tuple_of now ev.input m) ev.matches) evs

matches-ComesFrom :
    (now : ℕ) (evs : List MappingEvaluation)
    → All (λ ev. All (λ m. ComesFrom now evs (tuple_of now ev.input m)) ev.matches) evs
matches-ComesFrom now evs =
    All-map
      (λ ev h.
        All-map
          (λ m k.
            Any-map
              (λ other e.
                subst (λ o. Any (λ n. tuple_of now ev.input m ≡ tuple_of now o.input n) o.matches) e
                  (Any-map (λ n q. ap (tuple_of now ev.input) q) ev.matches k))
              evs h)
          ev.matches (All_own ev.matches))
      evs (All_own evs)

-- In the result of a batch, no two tuples have one key of control and vulnerability; each match of
-- each evaluation has a tuple with its key; and each tuple is made from some match of some evaluation.
pub evaluate_batch-tuples :
    (js : Platform) (engine : MappingEngine) (inputs : List MappingInput)
    → let result = evaluate_batch js engine inputs in
      DistinctKeys result.tuples
      × Covers engine.now result.tuples result.evaluations
      × All (ComesFrom engine.now result.evaluations) result.tuples
unfolding evaluate_batch
evaluate_batch-tuples js engine inputs =
    let evs = map (evaluate js engine) inputs in
    let start : InOrder nothing_gathered = record { seen_keys = λ k. refl; distinct = tt } in
    (
      (gather-InOrder engine.now evs nothing_gathered start).distinct,
      gather-Covers engine.now evs nothing_gathered start,
      gather-All engine.now (ComesFrom engine.now evs) evs nothing_gathered tt
          (matches-ComesFrom engine.now evs),
    )
