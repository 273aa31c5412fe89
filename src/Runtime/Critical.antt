-- ===== src/Runtime/Critical.antt =====
-- When a report is critical.
use ai_devsecops_command_cen.Common.{
  ◌≡◌, ◌∙◌, refl, sym, arith, String, Bool, true, false, ◌||◌, List, [], ◌∷◌, ◌++◌, any, ◌==◌,
  Bool-cases, inl, inr, eqb, or_else, eq_iff,
}
use mathlib.Core.Path.{subst}
use ai_devsecops_command_cen.Common.{eq_iff}
use ai_devsecops_command_cen.Runtime.Types.{RiskLevel, RuntimeRisk, RuleContext, Pod, Container}
use ai_devsecops_command_cen.Runtime.Rules.{
  each, has, sensitive_host_paths, dangerous_capabilities, make_risk, when, each_container,
  privileged_risks, host_path_risks, root_user_risks, host_path_risk,
}
use ai_devsecops_command_cen.Runtime.MoreRules.{
  dangerous_cap_risks, security_context_risks, service_account_risks, resource_limit_risks,
  image_digest_risks, cap_risk, security_context_of, system_namespaces, any_explicit,
  is_default_account,
}
use ai_devsecops_command_cen.Runtime.Engine.{is_level, at_level, rollup_level, report, evaluate}

abbrev grave : RuntimeRisk → Bool
grave = at_level RiskLevel.critical

module _ {ℓ} {A : Type ℓ} where
  any_congr : (p q : A → Bool) (xs : List A) → ((x : A) → p x ≡ q x) → any p xs ≡ any q xs
  any_congr p q [] h = refl
  any_congr p q (x ∷ xs) h = ground (arith, h x, any_congr p q xs h)

  any_none : (p : A → Bool) (xs : List A) → ((x : A) → p x ≡ false) → any p xs ≡ false
  any_none p [] h = refl
  any_none p (x ∷ xs) h = ground (arith, h x, any_none p xs h)

  any-append : (p : A → Bool) (xs ys : List A) → any p (xs ++ ys) ≡ (any p xs || any p ys)
  any-append p [] ys = refl
  any-append p (x ∷ xs) ys = ground (arith, any-append p xs ys)

-- A test of what the elements give, as a test of the elements.
any-each {ℓ} :
    {A : Type ℓ}
    → (f : A → List RuntimeRisk) (q : A → Bool) (xs : List A) → ((x : A) → any grave (f x) ≡ q x)
    → any grave (each f xs) ≡ any q xs
unfolding each
any-each f q [] h = refl
any-each f q (x ∷ xs) h = ground (arith, any-append grave (f x) (each f xs), h x, any-each f q xs h)

never_each {ℓ} :
    {A : Type ℓ}
    → (f : A → List RuntimeRisk) (xs : List A) → ((x : A) → any grave (f x) ≡ false)
    → any grave (each f xs) ≡ false
never_each f xs h = any-each f (λ _. false) xs h ∙ any_none (λ _. false) xs (λ _. refl)

abbrev pub any_container : (Container → Bool) → List Pod → Bool
any_container q pods = any (λ (pod : Pod). any q pod.containers) pods

any-each_container :
    (f : Pod → Container → List RuntimeRisk) (q : Container → Bool) (pods : List Pod)
    → ((pod : Pod) (c : Container) → any grave (f pod c) ≡ q c)
    → any grave (each_container f pods) ≡ any_container q pods
any-each_container f q pods h =
    any-each (λ pod. each (f pod) pod.containers) (λ pod. any q pod.containers) pods
      (λ pod. any-each (f pod) q pod.containers (h pod))

never_each_container :
    (f : Pod → Container → List RuntimeRisk) (pods : List Pod)
    → ((pod : Pod) (c : Container) → any grave (f pod c) ≡ false)
    → any grave (each_container f pods) ≡ false
never_each_container f pods h =
    never_each (λ pod. each (f pod) pod.containers) pods
      (λ pod. never_each (f pod) pod.containers (h pod))

when_ungrave : (b : Bool) (r : RuntimeRisk) → grave r ≡ false → any grave (when b r) ≡ false
when_ungrave b r h = ground (arith, h)

abbrev pub is_privileged : Container → Bool
is_privileged c = c.privileged

abbrev pub mounts_sensitive : Container → Bool
mounts_sensitive c = any (has sensitive_host_paths) c.host_paths

abbrev takes_over : String → Bool
takes_over cap = (cap == "SYS_ADMIN") || (cap == "ALL")

abbrev pub adds_take_over : Container → Bool
adds_take_over c = any takes_over c.added_capabilities

privileged-grave :
    (ctx : RuleContext) (pods : List Pod)
    → any grave (privileged_risks ctx pods) ≡ any_container is_privileged pods
unfolding privileged_risks make_risk
privileged-grave ctx pods = any-each_container _ is_privileged pods (λ pod c. ground arith)

host_path_risk-grave :
    (ctx : RuleContext) (pod : Pod) (c : Container) (hp : String)
    → any grave (host_path_risk ctx pod c hp ∷ []) ≡ has sensitive_host_paths hp
unfolding make_risk
host_path_risk-grave ctx pod c hp = elim (Bool-cases (has sensitive_host_paths hp)) [
  | inl e ↦ rw (e, host_path_risk) refl
  | inr e ↦ rw (e, host_path_risk) refl
]

host_path-grave :
    (ctx : RuleContext) (pods : List Pod)
    → any grave (host_path_risks ctx pods) ≡ any_container mounts_sensitive pods
unfolding host_path_risks
host_path-grave ctx pods =
    any-each_container _ mounts_sensitive pods
      (λ pod c. any-each _ (has sensitive_host_paths) c.host_paths (host_path_risk-grave ctx pod c))

take_over-dangerous : (cap : String) → takes_over cap ≡ true → has dangerous_capabilities cap ≡ true
take_over-dangerous cap h = elim (Bool-cases (cap == "SYS_ADMIN")) [
  | inl e ↦ known ((eq_iff cap "SYS_ADMIN").0 e) refl
  | inr e ↦ known ((eq_iff cap "ALL").0 (rw e at h)) refl
]
  where
    known :
        {name : String}
        → cap ≡ name
        → has dangerous_capabilities name ≡ true
        → has dangerous_capabilities cap ≡ true
    known e d = subst (λ c. has dangerous_capabilities c ≡ true) (sym e) d

cap_risk-grave :
    (ctx : RuleContext) (pod : Pod) (c : Container) (cap : String)
    → any grave (when (has dangerous_capabilities cap) (cap_risk ctx pod c cap)) ≡ takes_over cap
unfolding make_risk
cap_risk-grave ctx pod c cap = elim (Bool-cases (takes_over cap)) [
  | inl e ↦ rw (take_over-dangerous cap e, e) refl
  | inr e ↦ elim (Bool-cases (has dangerous_capabilities cap)) [
    | inl d ↦ rw (d, e) refl
    | inr d ↦ rw (d, e) refl
  ]
]

cap-grave :
    (ctx : RuleContext) (pods : List Pod)
    → any grave (dangerous_cap_risks ctx pods) ≡ any_container adds_take_over pods
unfolding dangerous_cap_risks
cap-grave ctx pods =
    any-each_container _ adds_take_over pods
      (λ pod c. any-each _ takes_over c.added_capabilities (cap_risk-grave ctx pod c))

root-grave : (ctx : RuleContext) (pods : List Pod) → any grave (root_user_risks ctx pods) ≡ false
unfolding root_user_risks make_risk
root-grave ctx pods = never_each_container _ pods (λ pod c. when_ungrave c.run_as_root _ refl)

limit-grave :
    (ctx : RuleContext) (pods : List Pod) → any grave (resource_limit_risks ctx pods) ≡ false
unfolding resource_limit_risks make_risk
limit-grave ctx pods =
    never_each_container _ pods
      (λ pod c. when_ungrave (eqb c.cpu_limits_millicores 0 || eqb c.memory_limits_bytes 0) _ refl)

digest-grave :
    (ctx : RuleContext) (pods : List Pod) → any grave (image_digest_risks ctx pods) ≡ false
unfolding image_digest_risks make_risk
digest-grave ctx pods =
    never_each_container _ pods (λ pod c. when_ungrave (or_else c.image_digest "" == "") _ refl)

account-grave :
    (ctx : RuleContext) (pods : List Pod) → any grave (service_account_risks ctx pods) ≡ false
unfolding service_account_risks make_risk
account-grave ctx pods = never_each _ pods (λ pod. when_ungrave (is_default_account pod) _ refl)

context-grave :
    (ctx : RuleContext) (pods : List Pod) → any grave (security_context_risks ctx pods) ≡ false
unfolding security_context_risks make_risk
context-grave ctx pods = never_each _ pods ungrave
  where
    ungrave : (pod : Pod) → any grave (security_context_of ctx pod) ≡ false
    ungrave pod = elim (Bool-cases (has system_namespaces pod.namespace)) [
      | inl e ↦ rw e refl
      | inr e ↦ elim (Bool-cases (any_explicit pod)) [
        | inl d ↦ rw (e, d) refl
        | inr d ↦ rw (e, d) refl
      ]
    ]

abbrev pub is_critical : RiskLevel → Bool
is_critical l = is_level l RiskLevel.critical

rollup-grave : (fs : List RuntimeRisk) → is_critical (rollup_level fs) ≡ any grave fs
unfolding rollup_level
rollup-grave fs = ground arith

module _ (xs ys : List RuntimeRisk) (b : Bool) (xs_b : any grave xs ≡ b) where
  append-grave : (c : Bool) → any grave ys ≡ c → any grave (xs ++ ys) ≡ (b || c)
  append-grave c h = ground (arith, any-append grave xs ys, xs_b, h)

  append-ungrave : any grave ys ≡ false → any grave (xs ++ ys) ≡ b
  append-ungrave h = ground (arith, any-append grave xs ys, xs_b, h)

evaluate-grave :
    (ctx : RuleContext) (pods : List Pod)
    → any grave (evaluate ctx pods) ≡ (
        any_container is_privileged pods
        || (any_container mounts_sensitive pods || any_container adds_take_over pods))
unfolding evaluate each
evaluate-grave ctx pods =
    append-grave (privileged_risks ctx pods) _ _ (privileged-grave ctx pods) _ (
      append-grave (host_path_risks ctx pods) _ _ (host_path-grave ctx pods) _ (
        append-grave (root_user_risks ctx pods) _ _ (root-grave ctx pods) _ (
          append-ungrave (dangerous_cap_risks ctx pods) _ _ (cap-grave ctx pods) (
            append-ungrave (security_context_risks ctx pods) _ _ (context-grave ctx pods) (
              append-ungrave (service_account_risks ctx pods) _ _ (account-grave ctx pods) (
                append-ungrave (resource_limit_risks ctx pods) _ _ (limit-grave ctx pods) (
                  append-ungrave (image_digest_risks ctx pods) _ _ (digest-grave ctx pods)
                    refl)))))))

-- The report is critical exactly where some container of some pod is privileged, mounts a sensitive
-- host path, or adds the capability SYS_ADMIN or ALL.
pub report-critical :
    (ctx : RuleContext) (pods : List Pod)
    → is_critical (report ctx pods).risk_level ≡ (
        any_container is_privileged pods
        || (any_container mounts_sensitive pods || any_container adds_take_over pods))
unfolding report
report-critical ctx pods = rollup-grave (evaluate ctx pods) ∙ evaluate-grave ctx pods
