-- ===== src/Poam/Service/Safe.antt =====
-- Actions that move the store only along the lifecycle, and how they compose.
use ai_devsecops_command_cen.Common.{
  ℕ, ◌≤◌, ◌≡◌, refl, ◌∙◌, Bool, true, false, none, arith, if◌then◌else◌,
}
use ai_devsecops_command_cen.Common.Dict
use ai_devsecops_command_cen.Poam.World.{
  Envelope, Env, World, Result, ok, err, M, ◌>>=◌, pure, throw, gets, read_clock, publish,
  record_audit, AuditRecord, Error, continue,
}
use ai_devsecops_command_cen.Poam.Audit.{with_audit, Pending, with_audit_items}
use ai_devsecops_command_cen.Poam.Lifecycle.{Inv, Steps, here, Steps-trans}

-- A store in order, in which no id that is still to be drawn is in use.
pub record Good (env : Env) (w : World) : Type 0 where
  pub inv : Inv w.items
  pub fresh : (k : ℕ) → w.uuids ≤ k → Dict.get w.items (env.uuid k) ≡ none

-- From `w` to `v` the store made steps of the lifecycle, and `v` is good.
abbrev pub Lands : Env → World → World → Type 0
Lands env w v = Steps w.items v.items × Good env v

pub record Safe (env : Env) {A : Type 0} (m : M A) : Type 0 where
  pub at : (w : World) → Good env w → Lands env w (m w).1

-- An action that leaves the store and the supply of ids alone.
pub record Quiet {A : Type 0} (m : M A) : Type 0 where
  pub items_kept : (w : World) → (m w).1.items ≡ w.items
  pub uuids_kept : (w : World) → (m w).1.uuids ≡ w.uuids

Lands_of_same :
    (env : Env) (w v : World) → v.items ≡ w.items → v.uuids ≡ w.uuids → Good env w → Lands env w v
Lands_of_same env w v e f g =
    (rw e here, record { inv = rw e g.inv; fresh = λ k le. rw e (g.fresh k (rw f at le)) })

pub Lands-trans : (env : Env) (w v u : World) → Lands env w v → Lands env v u → Lands env w u
Lands-trans env w v u (a, _) (b, g) = (Steps-trans a b, g)

module _ (env : Env) {A : Type 0} where
  pub Quiet-Safe : (m : M A) → Quiet m → Safe env m
  Quiet-Safe m q = record {
    at = λ w g. Lands_of_same env w (m w).1 (q.items_kept w) (q.uuids_kept w) g;
  }

  pub pure-Safe : (a : A) → Safe env (pure a)
  unfolding pure
  pure-Safe a = record { at = λ w g. (here, g) }

  pub throw-Safe : (e : Error) → Safe env (throw {A = A} e)
  unfolding throw
  throw-Safe e = record { at = λ w g. (here, g) }

  pub gets-Safe : (f : World → A) → Safe env (gets f)
  unfolding gets
  gets-Safe f = record { at = λ w g. (here, g) }

  pub if-Safe :
      (b : Bool) (m n : M A)
      → (b ≡ true → Safe env m)
      → (b ≡ false → Safe env n)
      → Safe env (if b then m else n)
  if-Safe true m n km kn = km refl
  if-Safe false m n km kn = kn refl

module _ (env : Env) {A B : Type 0} (m : M A) (f : A → M B) where
  continue-Lands :
      (r : Result A) (v : World)
      → ((a : A) → Safe env (f a))
      → Good env v
      → Lands env v (continue r f v).1
  continue-Lands (ok a) v k g = (k a).at v g
  continue-Lands (err e) v k g = (here, g)

  -- An action followed by another.
  pub bind-Lands :
      (w : World) → Lands env w (m w).1 → ((a : A) → Safe env (f a)) → Lands env w ((m >>= f) w).1
  unfolding ◌>>=◌
  bind-Lands w l k = Lands-trans env w (m w).1 _ l (continue-Lands (m w).0 (m w).1 k l.1)

  pub bind-Safe : Safe env m → ((a : A) → Safe env (f a)) → Safe env (m >>= f)
  bind-Safe h k = record { at = λ w g. bind-Lands w (h.at w g) k }

pub ruleset safe_rules = (pure-Safe, throw-Safe, gets-Safe, if-Safe, bind-Safe)

module _ (env : Env) where
  pub read_clock-Quiet : Quiet (read_clock env)
  unfolding read_clock
  read_clock-Quiet = record { items_kept = λ w. refl; uuids_kept = λ w. refl }

  pub publish-Quiet : (e : Envelope) → Quiet (publish env e)
  unfolding publish
  publish-Quiet e = record { items_kept = λ w. ground arith; uuids_kept = λ w. ground arith }

pub record_audit-Quiet : (a : AuditRecord) → Quiet (record_audit a)
unfolding record_audit
record_audit-Quiet a = record { items_kept = λ w. refl; uuids_kept = λ w. refl }

pub with_audit-Quiet : {A : Type 0} (p : Pending) (m : M A) → Quiet m → Quiet (with_audit p m)
with_audit-Quiet p m q = record {
  items_kept = λ w. (with_audit_items p m w).0 ∙ q.items_kept w;
  uuids_kept = λ w. (with_audit_items p m w).1 ∙ q.uuids_kept w;
}

pub pure-Quiet : {A : Type 0} (a : A) → Quiet (pure a)
unfolding pure
pure-Quiet a = record { items_kept = λ w. refl; uuids_kept = λ w. refl }

module _ {A B : Type 0} (m : M A) (f : A → M B) where
  continue_items :
      (r : Result A) (v : World) → ((a : A) → Quiet (f a)) → (continue r f v).1.items ≡ v.items
  continue_items (ok a) v k = (k a).items_kept v
  continue_items (err e) v k = refl

  continue_uuids :
      (r : Result A) (v : World) → ((a : A) → Quiet (f a)) → (continue r f v).1.uuids ≡ v.uuids
  continue_uuids (ok a) v k = (k a).uuids_kept v
  continue_uuids (err e) v k = refl

  pub bind-Quiet : Quiet m → ((a : A) → Quiet (f a)) → Quiet (m >>= f)
  unfolding ◌>>=◌
  bind-Quiet q k = record {
    items_kept = λ w. continue_items (m w).0 (m w).1 k ∙ q.items_kept w;
    uuids_kept = λ w. continue_uuids (m w).0 (m w).1 k ∙ q.uuids_kept w;
  }

pub ruleset quiet_rules =
    (read_clock-Quiet, publish-Quiet, record_audit-Quiet, with_audit-Quiet, pure-Quiet, bind-Quiet)
