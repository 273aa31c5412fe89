-- ===== src/Poam/World.antt =====
-- What the service acts on: the repository, the bus, the clock and the audit trail, with the monad
-- of actions that may throw. A thrown error keeps every effect made before it.
use ai_devsecops_command_cen.Common.{ℕ, ◌+◌, String, Option, none, some, List, [], ◌∷◌, ◌++◌}
use ai_devsecops_command_cen.Common.Dict.{Dict}
use ai_devsecops_command_cen.Common.Json.{Json}
use ai_devsecops_command_cen.Poam.Types.{PoamStatus, Severity}
use ai_devsecops_command_cen.Poam.Repository.{Store}

-- The parts that are not the repository's own code: `randomUUID`, the injected clock and the
-- injected bus, by the number of the call. `bus_error n` is what the n-th `publish` throws, if so.
pub record Env : Type 0 where
  pub uuid : ℕ → String
  pub now : ℕ → ℕ
  pub bus_error : ℕ → Option String

-- `Omit<EventEnvelope, 'eventId' | 'occurredAt'>`.
pub record Envelope : Type 0 where
  pub type : String
  pub version : ℕ
  pub source : String
  pub tenant_id : String
  pub payload : Dict Json
  pub severity : Severity

pub data AuditResult : Type 0 where
  success error : AuditResult

pub data AuditKind : Type 0 where
  poam_created poam_in_progress poam_pending_verification poam_closed poam_overdue
        poam_risk_accepted :
      AuditKind
  evidence_attached control_updated control_violated : AuditKind

pub record AuditRecord : Type 0 where
  pub tenant_id : String
  pub result : AuditResult
  pub audit_kind : AuditKind
  pub subject_id : String
  pub detail : Dict Json

pub record World : Type 0 where
  pub items : Store
  pub uuids : ℕ  -- how many ids were drawn
  pub readings : ℕ  -- how often the clock was read
  pub attempts : ℕ  -- how often `publish` was called
  pub published : List Envelope  -- what was published, in order
  pub audit : List AuditRecord  -- what `recordAudit` was given, in order

abbrev pub init : World
init = record { items = []; uuids = 0; readings = 0; attempts = 0; published = []; audit = [] }

pub data Error : Type 0 where
  not_found : String → Error
  invalid_transition : PoamStatus → PoamStatus → Error
  no_evidence : Error
  bus : String → Error

pub data Result {ℓ} (A : Type ℓ) : Type ℓ where
  ok : A → Result A
  err : Error → Result A

abbrev pub M : Type 0 → Type 0
M A = World → Result A × World

unfoldable pub pure : {A : Type 0} → A → M A
pure a w = (ok a, w)

unfoldable pub throw : {A : Type 0} → Error → M A
throw e w = (err e, w)

unfoldable pub gets : {A : Type 0} → (World → A) → M A
gets f w = (ok (f w), w)

unfoldable pub put_items : Store → M (Unit {0})
put_items items w = (ok tt, record w { items = items })

abbrev pub continue : {A B : Type 0} → Result A → (A → M B) → M B
continue (ok a) f w = f a w
continue (err e) f w = (err e, w)

-- To open this is to open the plain actions too.
infixl 5 ◌>>=◌ ◌>>◌
unfoldable pub ◌>>=◌ : {A B : Type 0} → M A → (A → M B) → M B
unfolding pure throw gets put_items
◌>>=◌ m f w = let (r, v) = m w in continue r f v

abbrev pub ◌>>◌ : {A B : Type 0} → M A → M B → M B
m >> k = m >>= λ _. k

-- recordAudit: the counter and the log line are one record here.
unfoldable pub record_audit : AuditRecord → M (Unit {0})
record_audit entry w = (ok tt, record w { audit = w.audit ++ entry ∷ [] })

module _ (env : Env) where
  -- `this.now()`.
  unfoldable pub read_clock : M ℕ
  read_clock w = (ok (env.now w.readings), record w { readings = w.readings + 1 })

  unfoldable pub random_uuid : M String
  random_uuid w = (ok (env.uuid w.uuids), record w { uuids = w.uuids + 1 })

  unfoldable pub publish : Envelope → M (Unit {0})
  publish e w =
      let v = record w { attempts = w.attempts + 1 } in
      elim (env.bus_error w.attempts) [
        | none ↦ (ok tt, record v { published = v.published ++ e ∷ [] })
        | some message ↦ (err (bus message), v)
      ]
