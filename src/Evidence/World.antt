-- ===== src/Evidence/World.antt =====
-- What the evidence attacher acts on: the world of the POA&M service, the records of
-- buildEvidenceRepository, the blobs of InMemoryBlobStore; and actions on it that may throw.
use ai_devsecops_command_cen.Common.Json.{Json}
use ai_devsecops_command_cen.Common.{
  ℕ, ◌+◌, String, Bool, true, ◌&&◌, ◌||◌, Option, none, some, List, ◌==◌, if◌then◌else◌, ◌&◌, find,
  select,
}
use ai_devsecops_command_cen.Common.Dict.{Dict}
use ai_devsecops_command_cen.Common.Dict
use ai_devsecops_command_cen.Poam.World.{World, Env, Result, ok, err, M}

-- `config` and `log` are what the attacher writes; the others come from elsewhere.
pub data EvidenceKind : Type 0 where
  screenshot log config attestation other : EvidenceKind

pub record EvidenceRecord : Type 0 where
  pub id : String
  pub tenant_id : String
  pub control_id : String
  pub kind : EvidenceKind
  pub description : String
  pub ref : String
  pub collected_by : String
  pub collected_at : ℕ

pub record Blob : Type 0 where
  pub body : String
  pub content_type : String
  pub hash : String

pub record AttacherWorld : Type 0 where
  pub poam : World
  pub records : Dict EvidenceRecord
  pub ids : ℕ  -- how often `newId` was called
  pub dates : ℕ  -- how often the system's clock was read
  pub blobs : Dict Blob

-- What is not the repository's own code: `newId` and the system's clock by the number of the call,
-- SHA-256 in hexadecimal, JSON.stringify, and the decimal form of a number.
pub record Outside : Type 0 where
  pub env : Env
  pub new_id : ℕ → String
  pub date : ℕ → ℕ
  pub sha256 : String → String
  pub stringify : Json → String
  pub show : ℕ → String

abbrev pub Act : Type 0 → Type 0
Act A = AttacherWorld → Result A × AttacherWorld

unfoldable pub return : {A : Type 0} → A → Act A
return a s = (ok a, s)

abbrev pub proceed : {A B : Type 0} → Result A → (A → Act B) → Act B
proceed (ok a) f s = f a s
proceed (err e) f s = (err e, s)

infixl 5 ◌>>=◌ ◌>>◌
unfoldable pub ◌>>=◌ : {A B : Type 0} → Act A → (A → Act B) → Act B
unfolding return
◌>>=◌ m f s = let (r, t) = m s in proceed r f t

abbrev pub ◌>>◌ : {A B : Type 0} → Act A → Act B → Act B
m >> k = m >>= λ _. k

-- An action of the POA&M service.
unfoldable pub lift : {A : Type 0} → M A → Act A
lift m s = let (r, w) = m s.poam in (r, record s { poam = w })

abbrev pub kind_name : EvidenceKind → String
kind_name screenshot = "screenshot"
kind_name log = "log"
kind_name config = "config"
kind_name attestation = "attestation"
kind_name other = "other"

abbrev pub has_ref : String → String → String → EvidenceRecord → Bool
has_ref tenant control ref e = e.tenant_id == tenant && (e.control_id == control && e.ref == ref)

unfoldable pub find_by_ref : Dict EvidenceRecord → String → String → String → Option EvidenceRecord
unfolding Dict.values
find_by_ref records tenant control ref = find (has_ref tenant control ref) (Dict.values records)

-- `findById`, with the check of the tenant.
abbrev pub of_tenant : String → Option EvidenceRecord → Option EvidenceRecord
of_tenant tenant none = none
of_tenant tenant (some e) = if e.tenant_id == tenant then some e else none

unfoldable pub find_by_id : Dict EvidenceRecord → String → String → Option EvidenceRecord
unfolding Dict.get
find_by_id records id tenant = of_tenant tenant (Dict.get records id)

-- An empty control id filters nothing.
abbrev pub is_for : Option String → EvidenceRecord → Bool
is_for none e = true
is_for (some control) e = control == "" || e.control_id == control

unfoldable pub list_evidence : Dict EvidenceRecord → String → Option String → List EvidenceRecord
unfolding Dict.values
list_evidence records tenant control =
    select (λ e. e.tenant_id == tenant && is_for control e) (Dict.values records)

module _ (o : Outside) where
  unfoldable pub read_date : Act ℕ
  read_date s = (ok (o.date s.dates), record s { dates = s.dates + 1 })

  -- The repository's `create`.
  unfoldable pub create_evidence :
      String → String → EvidenceKind → String → String → String → Act EvidenceRecord
  unfolding Dict.set
  create_evidence tenant control kind description ref collected_by s =
      let e : EvidenceRecord = record {
        id = o.new_id s.ids;
        tenant_id = tenant;
        control_id = control;
        kind = kind;
        description = description;
        ref = ref;
        collected_by = collected_by;
        collected_at = o.date s.dates;
      } in
      (ok e, record s { records = Dict.set s.records e.id e; ids = s.ids + 1; dates = s.dates + 1 })

  abbrev pub blob_hash : String → String
  blob_hash body = "sha256:" & o.sha256 body

  -- The store's `put`: what it answers is the key and the hash.
  unfoldable pub put_blob : String → String → Act (String × String)
  unfolding Dict.set
  put_blob key body s =
      let blob : Blob = record {
        body = body;
        content_type = "application/json";
        hash = blob_hash body;
      } in
      (ok (key, blob.hash), record s { blobs = Dict.set s.blobs key blob })
