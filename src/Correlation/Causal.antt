-- ===== src/Correlation/Causal.antt =====
-- The order of a sorted group, and the highest severity of a list of events.
use ai_devsecops_command_cen.Common.{
  ◌≤◌, ◌<◌, ◌≡◌, sym, ◌∙◌, ◌⊎◌, inl, inr, refl, arith, false, List, [], ◌∷◌, ltb, length,
  Bool-cases, Any, if◌then◌else◌,
}
use ai_devsecops_command_cen.Common.Sort.{sort, insert_sorted}
use ai_devsecops_command_cen.Poam.Types.{Severity, unknown}
use ai_devsecops_command_cen.Correlation.Events.{CorrelationEvent, severity_rank, causal_order}
use ai_devsecops_command_cen.Correlation.Engine.{
  Platform, causes_first, highest_severity, severity_from,
}

-- No event is of a type that comes earlier in the causal order than that of the event before it.
abbrev pub IsCausal : List CorrelationEvent → Type 0
IsCausal [] = Unit
IsCausal (a ∷ []) = Unit
IsCausal (a ∷ b ∷ rest) = (causal_order a.type ≤ causal_order b.type) × IsCausal (b ∷ rest)

module _ (js : Platform) where
  insert_sorted-IsCausal :
      (x : CorrelationEvent) (ys : List CorrelationEvent)
      → IsCausal ys
      → IsCausal (insert_sorted (causes_first js) x ys)
  unfolding insert_sorted
  insert_sorted-IsCausal x [] h = tt
  insert_sorted-IsCausal x (y ∷ []) h = elim (Bool-cases (causes_first js y x)) [
    | inl e ↦ rw e (ground arith, tt)
    | inr e ↦ rw e (ground arith, tt)
  ]
  insert_sorted-IsCausal x (y ∷ z ∷ zs) (p, h) = elim (Bool-cases (causes_first js y x)) [
    | inr e ↦ rw e (ground arith, (p, h))
    | inl e ↦
        let low : causal_order y.type ≤ causal_order x.type = ground arith in
        let s = insert_sorted-IsCausal x (z ∷ zs) h in
        rw e (elim (Bool-cases (causes_first js z x)) [
          | inl f ↦ rw f (p, rw f at s)
          | inr f ↦ rw f (low, rw f at s)
        ])
  ]

  pub sort-IsCausal : (xs : List CorrelationEvent) → IsCausal (sort (causes_first js) xs)
  unfolding sort
  sort-IsCausal [] = tt
  sort-IsCausal (x ∷ xs) = insert_sorted-IsCausal x (sort (causes_first js) xs) (sort-IsCausal xs)

-- The severity is that of some event.
abbrev pub IsReached : Severity → List CorrelationEvent → Type 0
IsReached s es = Any (λ e. e.severity ≡ s) es

-- The severity after one more event.
abbrev worse : Severity → CorrelationEvent → Severity
worse best e = if ltb (severity_rank best) (severity_rank e.severity) then e.severity else best

severity_from-IsReached :
    (best : Severity) (es : List CorrelationEvent)
    → (best ≡ severity_from best es) ⊎ IsReached (severity_from best es) es
severity_from-IsReached best [] = inl refl
severity_from-IsReached best (e ∷ es) = elim (severity_from-IsReached (worse best e) es) [
  | inr a ↦ inr (inr a)
  | inl q ↦ elim (Bool-cases (ltb (severity_rank best) (severity_rank e.severity))) [
    | inl t ↦ let is_new : worse best e ≡ e.severity = rw t refl in inr (inl (sym is_new ∙ q))
    | inr t ↦ let is_old : worse best e ≡ best = rw t refl in inl (sym is_old ∙ q)
  ]
]

lowest : (s : Severity) → ltb (severity_rank unknown) (severity_rank s) ≡ false → s ≡ unknown
lowest s h = ground arith

pub highest_severity-IsReached :
    (es : List CorrelationEvent) → 0 < length es → IsReached (highest_severity es) es
highest_severity-IsReached [] h = absurd (omega arith)
highest_severity-IsReached (e ∷ es) h = elim (severity_from-IsReached (worse unknown e) es) [
  | inr a ↦ inr a
  | inl q ↦ elim (Bool-cases (ltb (severity_rank unknown) (severity_rank e.severity))) [
    | inl t ↦ let is_new : worse unknown e ≡ e.severity = rw t refl in inl (sym is_new ∙ q)
    | inr t ↦
        let is_old : worse unknown e ≡ unknown = rw t refl in
        inl (lowest e.severity t ∙ (sym is_old ∙ q))
  ]
]
