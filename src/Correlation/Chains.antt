-- ===== src/Correlation/Chains.antt =====
-- The chains that `correlate` builds.
use ai_devsecops_command_cen.Common.{if◌then◌else◌}
use ai_devsecops_command_cen.Poam.Types.{Severity}
use ai_devsecops_command_cen.Common.{
  ◌+◌, ◌<◌, inl, inr, false, arith, ◌==◌, eq_iff, ltb, Bool-cases, All, Any,
}
use ai_devsecops_command_cen.Common.Dict.{Dict}
use mathlib.Core.Path.{subst}
use ai_devsecops_command_cen.Correlation.Buckets.{group_of, bucket-groups, get-bucket-some}
use ai_devsecops_command_cen.Correlation.Events.{CorrelationEvent, severity_rank}
use ai_devsecops_command_cen.Common.{
  ℕ, suc, ◌≤◌, String, ◌≡◌, refl, ap, Option, none, some, List, [], ◌∷◌, map, length,
}
use ai_devsecops_command_cen.Common.Sort.{sort, sort-perm, sort-length}
use ai_devsecops_command_cen.Correlation.Causal.{
  IsCausal, IsReached, sort-IsCausal, highest_severity-IsReached,
}
use mathlib.Core.List.{Perm}
use mathlib.Core.Option
use ai_devsecops_command_cen.Common.Dict
use ai_devsecops_command_cen.Correlation.Engine.{
  Platform, chain_from, CorrelationEdge, edges_from, IncidentChain, causes_first, chain_summary,
  highest_severity, chain_of, chains_from, consed, correlate, bucket, severity_from,
}

-- The neighbours in a list.
abbrev pub neighbours : List String → List (String × String)
neighbours [] = []
neighbours (a ∷ []) = []
neighbours (a ∷ b ∷ rest) = (a, b) ∷ neighbours (b ∷ rest)

abbrev pub ends : CorrelationEdge → String × String
ends e = (e.source, e.target)

abbrev pub id_of : CorrelationEvent → String
id_of e = e.id

module _ (js : Platform) (events : List CorrelationEvent) where
  -- The events with a key, causes first.
  abbrev pub ordered : String → List CorrelationEvent
  ordered k = sort (causes_first js) (group_of events k)

  -- The chain of a key: its events, all of them, by the causal order of their types, linked one to the
  -- next, with a severity that one of them has and none of them exceeds.
  pub record IsChainOf (k : String) (c : IncidentChain) : Type 0 where
    pub several : 2 ≤ length (group_of events k)
    pub whole : Perm (ordered k) (group_of events k)
    pub causal : IsCausal (ordered k)
    pub ids : c.event_ids ≡ map id_of (ordered k)
    pub links : map ends c.edges ≡ neighbours (map id_of (ordered k))
    pub worst : c.severity ≡ highest_severity (ordered k)
    pub upper : All (λ e. severity_rank e.severity ≤ severity_rank c.severity) (ordered k)
    pub reached : IsReached c.severity (ordered k)

raised :
    (a b : Severity)
    → let next = if ltb (severity_rank a) (severity_rank b) then b else a in
      (severity_rank a ≤ severity_rank next) × (severity_rank b ≤ severity_rank next)
raised a b = elim (Bool-cases (ltb (severity_rank a) (severity_rank b))) [
  | inl t ↦ rw t (ground arith, omega arith)
  | inr t ↦ rw t (omega arith, ground arith)
]

severity_from-upper :
    (best : Severity) (es : List CorrelationEvent)
    → (severity_rank best ≤ severity_rank (severity_from best es))
      × All (λ e. severity_rank e.severity ≤ severity_rank (severity_from best es)) es
severity_from-upper best [] = (omega arith, tt)
severity_from-upper best (e ∷ es) =
    let next = if ltb (severity_rank best) (severity_rank e.severity) then e.severity else best in
    let (low, high) = raised best e.severity in
    let (a, b) = severity_from-upper next es in (omega arith, (omega arith, b))

map-some :
    {A B : Type 0} (f : A → B) (o : Option A) (b : B)
    → Option.map f o ≡ some b
    → (a : A) × (o ≡ some a) × (f a ≡ b)
map-some f none b e = cc
map-some f (some a) b e = (a, refl, cc)

module _ (js : Platform) where
  edges_from-links :
      (n : ℕ) (es : List CorrelationEvent)
      → map ends (edges_from js n es) ≡ neighbours (map id_of es)
  unfolding edges_from
  edges_from-links n [] = refl
  edges_from-links n (e ∷ []) = refl
  edges_from-links n (e ∷ f ∷ es) = ap (λ ps. (e.id, f.id) ∷ ps) (edges_from-links (suc n) (f ∷ es))

  -- What a chain says of its sorted group.
  record Tells (es : List CorrelationEvent) (c : IncidentChain) : Type 0 where
    t_ids : c.event_ids ≡ map id_of es
    t_links : map ends c.edges ≡ neighbours (map id_of es)
    t_worst : c.severity ≡ highest_severity es

  chain_from-Tells :
      (n : ℕ) (root : CorrelationEvent) (rest : List CorrelationEvent)
      (edges : List CorrelationEdge) (c : IncidentChain)
      → map ends edges ≡ neighbours (map id_of (root ∷ rest))
      → chain_from js n root rest edges ≡ some c
      → Tells (root ∷ rest) c
  unfolding chain_from
  chain_from-Tells n root rest edges c l e =
      let (t, _, same) = map-some _ (chain_summary js (root ∷ rest) edges) c e in
      subst (Tells (root ∷ rest)) same (record { t_ids = refl; t_links = l; t_worst = refl })

  chain_of-Tells :
      (n : ℕ) (es : List CorrelationEvent) (c : IncidentChain)
      → chain_of js n es ≡ some c
      → Tells es c
  unfolding chain_of
  chain_of-Tells n [] c e = cc
  chain_of-Tells n (root ∷ rest) c e =
      chain_from-Tells _ root rest (edges_from js n (root ∷ rest)) c
        (edges_from-links n (root ∷ rest)) e

  -- A list that was put together from a chain and a list.
  consed-some :
      (o : Option IncidentChain) (os : Option (List IncidentChain)) (cs : List IncidentChain)
      → consed js o os ≡ some cs
      → (c : IncidentChain) × (rest : List IncidentChain) × (o ≡ some c)
        × (os ≡ some rest)
        × (cs ≡ c ∷ rest)
  consed-some none os cs e = cc
  consed-some (some c) none cs e = cc
  consed-some (some c) (some rest) cs e = (c, rest, refl, refl, cc)

module _ (js : Platform) (events : List CorrelationEvent) where
  -- The chain of a bucket with enough events.
  chain-IsChainOf :
      (n : ℕ) (k : String) (g : List CorrelationEvent) (c : IncidentChain)
      → g ≡ group_of events k
      → ltb (length g) 2 ≡ false
      → chain_of js n (sort (causes_first js) g) ≡ some c
      → IsChainOf js events k c
  chain-IsChainOf n k g c same enough e =
      let t = chain_of-Tells js n (sort (causes_first js) g) c e in
      let many : 2 ≤ length g = ground arith in
      record {
        several = rw (← same) many;
        whole = rw (← same) (sort-perm (causes_first js) g);
        causal = sort-IsCausal js (group_of events k);
        reached = rw (← same) (
            rw t.t_worst (
              highest_severity-IsReached (sort (causes_first js) g)
                (omega (arith, many, sort-length (causes_first js) g))));
        ids = rw (← same) t.t_ids;
        links = rw (← same) t.t_links;
        worst = rw (← same) t.t_worst;
        upper =
            rw (← same)
              (rw t.t_worst (severity_from-upper Severity.unknown (sort (causes_first js) g)).1);
      }

  chains_from_sound :
      (n : ℕ) (buckets : Dict (List CorrelationEvent)) (cs : List IncidentChain)
      → Dict.AllEntries (λ k g. g ≡ group_of events k) buckets
      → chains_from js n buckets ≡ some cs
      → All (λ c. (k : String) × IsChainOf js events k c) cs
  unfolding chains_from
  chains_from_sound n [] cs h e =
      let none_made : [] ≡ cs = cc in
      subst (All (λ c. (k : String) × IsChainOf js events k c)) none_made tt
  chains_from_sound n ((k, g) ∷ buckets) cs (same, h) e = elim (Bool-cases (ltb (length g) 2)) [
    | inl t ↦ chains_from_sound n buckets cs h (rw t at e)
    | inr t ↦
        let (c, rest, made, others, all_of) =
          consed-some js (chain_of js n (sort (causes_first js) g))
            (chains_from js (n + length g) buckets) cs (rw t at e) in
        rw all_of (
          (k, chain-IsChainOf n k g c same t made),
          chains_from_sound (n + length g) buckets rest h others,
        )
  ]

  chains_from_complete :
      (n : ℕ) (buckets : Dict (List CorrelationEvent)) (cs : List IncidentChain) (key : String)
      → Dict.AllEntries (λ k g. g ≡ group_of events k) buckets
      → Dict.get buckets key ≡ some (group_of events key)
      → 2 ≤ length (group_of events key)
      → chains_from js n buckets ≡ some cs
      → Any (IsChainOf js events key) cs
  unfolding chains_from Dict.get
  chains_from_complete n [] cs key h there many e = cc
  chains_from_complete n ((k, g) ∷ buckets) cs key (same, h) there many e =
      elim (Bool-cases (ltb (length g) 2)) [
        | inl t ↦ elim (Bool-cases (k == key)) [
          | inl here ↦
              let is_key = (eq_iff k key).0 here in
              let short : length (group_of events key) < 2 =
                subst (λ x. length (group_of events x) < 2) is_key
                  (subst (λ x. length x < 2) same (ground arith)) in
              absurd (omega arith)
          | inr other ↦ chains_from_complete n buckets cs key h (ground arith) many (rw t at e)
        ]
        | inr t ↦
            let (c, rest, made, others, all_of) =
              consed-some js (chain_of js n (sort (causes_first js) g))
                (chains_from js (n + length g) buckets) cs (rw t at e) in
            let mine = chain-IsChainOf n k g c same t made in
            elim (Bool-cases (k == key)) [
              | inl here ↦
                  rw all_of
                    (inl (subst (λ x. IsChainOf js events x c) ((eq_iff k key).0 here) mine))
              | inr other ↦ rw all_of (
                  inr (
                    chains_from_complete (n + length g) buckets rest key h (ground arith) many
                      others))
            ]
      ]

  -- Where `correlate` returns, each of its chains is the chain of a key: at least two events of the
  -- batch, all with this key and none of them left out, in an order in which no event is of a type
  -- that comes earlier in the causal order than that of the event before it, linked one to the next,
  -- with a severity that one of them has and none of them exceeds.
  pub correlate-IsChainOf :
      (chains : List IncidentChain) (edges : List CorrelationEdge)
      → correlate js events ≡ some (chains, edges)
      → All (λ c. (k : String) × IsChainOf js events k c) chains
  unfolding correlate
  correlate-IsChainOf chains edges e =
      let (cs, made, same) = map-some _ (chains_from js 0 (bucket [] events)) (chains, edges) e in
      subst (All (λ c. (k : String) × IsChainOf js events k c)) (ap (λ p. p.0) same)
        (chains_from_sound 0 (bucket [] events) cs (bucket-groups events) made)

  -- Where `correlate` returns, every key that at least two events of the batch have, whatever their
  -- tenants, has one chain with all of them.
  pub correlate_complete :
      (k : String) (chains : List IncidentChain) (edges : List CorrelationEdge)
      → 2 ≤ length (group_of events k)
      → correlate js events ≡ some (chains, edges)
      → Any (IsChainOf js events k) chains
  unfolding correlate
  correlate_complete k chains edges many e =
      let (cs, made, same) = map-some _ (chains_from js 0 (bucket [] events)) (chains, edges) e in
      subst (Any (IsChainOf js events k)) (ap (λ p. p.0) same) (
        chains_from_complete 0 (bucket [] events) cs k (bucket-groups events)
          (get-bucket-some events k many) many made)
