-- ===== src/Mapper/Filed.antt =====
-- A batch of the mapper, and `createFromTuples` of the POA&M service on its tuples.
use ai_devsecops_command_cen.Poam.Service.Safe.{Good}
use ai_devsecops_command_cen.Common.{ℕ}
use ai_devsecops_command_cen.Common.Sort.{sort, All-of_sort}
use ai_devsecops_command_cen.Mapper.Rules.{applies, evaluate-found, evaluate-vuln_id}
use ai_devsecops_command_cen.Mapper.Tuples.{
  has_key, key_of, Covers, gather-All, evaluate_batch-tuples,
}
use ai_devsecops_command_cen.Poam.Service.Complete.{HasOpen, create_from_tuples-HasOpen}
use ai_devsecops_command_cen.Mapper.Engine.{
  EngineOptions, evaluate, mapping_engine, tuple_key, more_urgent, mapping_of, evaluate_batch,
  gather, nothing_gathered,
}
use ai_devsecops_command_cen.Mapper.Keys.{no_colon, tuple_key-injective}
use ai_devsecops_command_cen.Mapper.Predicates.{Platform}
use ai_devsecops_command_cen.Common.Sort.{sort-All}
use ai_devsecops_command_cen.Common.{
  String, ◌≡◌, inl, inr, Bool, true, List, [], ◌∷◌, map, arith, ◌==◌, eq_iff, Bool-cases, select,
  All,
}
use ai_devsecops_command_cen.Poam.Types.{ControlVulnTuple}
use mathlib.Core.Path.{subst}
use ai_devsecops_command_cen.Mapper.Types.{MappingInput, ControlMapping, MappingRule}
use ai_devsecops_command_cen.Poam.Service
use ai_devsecops_command_cen.Poam.Repository.{Store}
use ai_devsecops_command_cen.Poam.World.{Env, World, ok}
use ai_devsecops_command_cen.Poam.Types.{PoamItem}

select-All {ℓ κ} :
    {A : Type ℓ} (P : A → Type κ) (f : A → Bool) (xs : List A) → All P xs → All P (select f xs)
select-All P f [] h = tt
select-All P f (x ∷ xs) (p, h) = elim (Bool-cases (f x)) [
  | inl t ↦ rw t (p, select-All P f xs h)
  | inr t ↦ rw t (select-All P f xs h)
]

module _ {A B : Type 0} (P : B → Type 0) (f : A → B) where
  map-All : (xs : List A) → All (λ x. P (f x)) xs → All P (map f xs)
  map-All [] h = tt
  map-All (x ∷ xs) (p, h) = (p, map-All xs h)

  All-of_map : (xs : List A) → All P (map f xs) → All (λ x. P (f x)) xs
  All-of_map [] h = tt
  All-of_map (x ∷ xs) (p, h) = (p, All-of_map xs h)

module _ (items : Store) (tenant control vuln : String) (plain : no_colon control ≡ true) where
  -- A tuple with the key of a control and a vulnerability is about them.
  filed_of_key :
      (ts : List ControlVulnTuple)
      → All (λ t. no_colon t.control_id ≡ true) ts
      → All (λ t. HasOpen items tenant t.control_id t.vuln_id) ts
      → has_key ts (tuple_key control vuln) ≡ true
      → HasOpen items tenant control vuln
  filed_of_key [] c h k = ground arith
  filed_of_key (t ∷ ts) (c, cs) (h, hs) k = elim (Bool-cases (key_of t == tuple_key control vuln)) [
    | inl same ↦
        let (a, b) =
          tuple_key-injective t.control_id control t.vuln_id vuln c plain
            ((eq_iff (key_of t) (tuple_key control vuln)).0 same) in
        subst (λ x. HasOpen items tenant x vuln) a
          (subst (λ y. HasOpen items tenant t.control_id y) b h)
    | inr other ↦ filed_of_key ts cs hs (ground arith)
  ]

module _ (js : Platform) (options : EngineOptions)
    (plain : All (λ r. no_colon r.control_id ≡ true) options.rules) where
  matches_plain :
      (inputs : List MappingInput)
      → All
          (λ ev. All (λ m. no_colon m.control_id ≡ true) ev.matches)
          (map (evaluate js (mapping_engine options)) inputs)
  matches_plain [] = tt
  matches_plain (i ∷ inputs) =
      let found = select (applies js options i) options.rules in
      (
        rw (evaluate-found js options i) (
            sort-All more_urgent (λ m. no_colon m.control_id ≡ true) (map mapping_of found)
              (map-All (λ m. no_colon m.control_id ≡ true) mapping_of found
                (select-All (λ r. no_colon r.control_id ≡ true) (applies js options i) options.rules
                  plain))),
        matches_plain inputs,
      )

  module _ (items : Store) (tenant : String) (ts : List ControlVulnTuple)
      (about : All (λ t. no_colon t.control_id ≡ true) ts)
      (filed : All (λ t. HasOpen items tenant t.control_id t.vuln_id) ts) where
    rules_filed :
        (i : MappingInput) (rules : List MappingRule)
        → All (λ r. no_colon r.control_id ≡ true) rules
        → All (λ r. has_key ts (tuple_key r.control_id i.vuln_id) ≡ true) rules
        → All (λ r. HasOpen items tenant r.control_id i.vuln_id) rules
    rules_filed i [] p h = tt
    rules_filed i (r ∷ rules) (p, ps) (h, hs) = (
      filed_of_key items tenant r.control_id i.vuln_id p ts about filed h,
      rules_filed i rules ps hs,
    )

    inputs_filed :
        (inputs : List MappingInput)
        → Covers options.now ts (map (evaluate js (mapping_engine options)) inputs)
        → All
            (λ i.
              All
                (λ r. HasOpen items tenant r.control_id i.vuln_id)
                (select (applies js options i) options.rules))
            inputs
    inputs_filed [] c = tt
    inputs_filed (i ∷ inputs) (c, cs) =
        let found = select (applies js options i) options.rules in
        let has : MappingInput → ControlMapping → Type 0 =
          λ x m. has_key ts (tuple_key m.control_id x.vuln_id) ≡ true in
        let sorted : All (has i) (sort more_urgent (map mapping_of found)) =
          subst (All (has i)) (evaluate-found js options i) (
            subst
              (λ v.
                All (λ m. has_key ts (tuple_key m.control_id v) ≡ true)
                  (evaluate js (mapping_engine options) i).matches)
              (evaluate-vuln_id js (mapping_engine options) i) c) in
        (
          rules_filed i found
              (select-All (λ r. no_colon r.control_id ≡ true) (applies js options i) options.rules
                plain)
              (All-of_map (has i) mapping_of found
                (All-of_sort more_urgent (has i) (map mapping_of found) sorted)),
          inputs_filed inputs cs,
        )

-- Where no control id has a colon, the world is good and `createFromTuples` returns on the tuples of
-- a batch: for each input and each rule that applies to it, the tenant has an open POA&M item of the
-- rule's control and the input's vulnerability. The ids of `randomUUID` are assumed distinct.
pub evaluate_batch-filed :
    (js : Platform) (options : EngineOptions) (inputs : List MappingInput) (env : Env)
    (distinct : (i j : ℕ) → env.uuid i ≡ env.uuid j → i ≡ j) (w : World) (out : List PoamItem)
    (tenant : String)
    → All (λ r. no_colon r.control_id ≡ true) options.rules
    → Good env w
    → let ts = (evaluate_batch js (mapping_engine options) inputs).tuples in
      (Service.create_from_tuples env tenant ts w).0 ≡ ok out
      → All
          (λ i.
            All
              (λ r.
                HasOpen
                  (Service.create_from_tuples env tenant ts w).1.items
                  tenant
                  r.control_id
                  i.vuln_id)
              (select (applies js options i) options.rules))
          inputs
unfolding evaluate_batch mapping_engine
evaluate_batch-filed js options inputs env distinct w out tenant plain g returned =
    let engine = mapping_engine options in
    let evs = map (evaluate js engine) inputs in
    let ts = (gather options.now evs nothing_gathered).tuples in
    inputs_filed js options plain (Service.create_from_tuples env tenant ts w).1.items tenant ts
      (gather-All options.now (λ t. no_colon t.control_id ≡ true) evs nothing_gathered tt
        (matches_plain js options plain inputs))
      (create_from_tuples-HasOpen env distinct tenant ts w out g returned) inputs
      (evaluate_batch-tuples js engine inputs).1
