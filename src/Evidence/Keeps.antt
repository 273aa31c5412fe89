-- ===== src/Evidence/Keeps.antt =====
-- Actions of the attacher that leave the evidence records alone.
use ai_devsecops_command_cen.Common.{sym, ap}
use ai_devsecops_command_cen.Mapper.Types.{ControlSummary, MappingBatchResult}
use ai_devsecops_command_cen.Evidence.Attach.{prepare_finding, finding_path}
use ai_devsecops_command_cen.Evidence.Attacher.{
  emit_evidence_attached, emit_violations, file_tuples, InfrastructureFinding,
  emit_control_violated, ScanRef,
}
use ai_devsecops_command_cen.Common.{ℕ, String, ◌≡◌, refl, ◌∙◌, List, [], ◌∷◌}
use ai_devsecops_command_cen.Poam.Types.{ControlVulnTuple}
use ai_devsecops_command_cen.Common.Dict.{Dict}
use ai_devsecops_command_cen.Evidence.World.{
  ◌>>=◌, Act, Outside, lift, return, AttacherWorld, proceed, put_blob, read_date, EvidenceRecord,
}
use ai_devsecops_command_cen.Poam.World.{M, Result, ok, err}

-- Whatever the outcome, the records and the number of their ids are as before.
pub record KeepsRecords {A : Type 0} (m : Act A) : Type 0 where
  pub records_kept : (s : AttacherWorld) → (m s).1.records ≡ s.records
  pub ids_kept : (s : AttacherWorld) → (m s).1.ids ≡ s.ids

pub lift-KeepsRecords : {A : Type 0} (m : M A) → KeepsRecords (lift m)
unfolding lift
lift-KeepsRecords m = record { records_kept = λ s. refl; ids_kept = λ s. refl }

pub return-KeepsRecords : {A : Type 0} (a : A) → KeepsRecords (return a)
unfolding return
return-KeepsRecords a = record { records_kept = λ s. refl; ids_kept = λ s. refl }

proceed-KeepsRecords :
    {A B : Type 0} (r : Result A) (f : A → Act B)
    → ((a : A) → KeepsRecords (f a))
    → KeepsRecords (proceed r f)
proceed-KeepsRecords (ok a) f k = k a
proceed-KeepsRecords (err e) f k = record { records_kept = λ s. refl; ids_kept = λ s. refl }

pub bind-KeepsRecords :
    {A B : Type 0} (m : Act A) (f : A → Act B)
    → KeepsRecords m
    → ((a : A) → KeepsRecords (f a))
    → KeepsRecords (m >>= f)
unfolding ◌>>=◌
bind-KeepsRecords m f h k = record {
  records_kept = λ s. (proceed-KeepsRecords (m s).0 f k).records_kept (m s).1 ∙ h.records_kept s;
  ids_kept = λ s. (proceed-KeepsRecords (m s).0 f k).ids_kept (m s).1 ∙ h.ids_kept s;
}

-- An action that returns has had its first part return.
proceed_ok :
    {A B : Type 0} (r : Result A) (f : A → Act B) (s : AttacherWorld) (b : B)
    → (proceed r f s).0 ≡ ok b
    → (a : A) × (r ≡ ok a) × ((f a s).0 ≡ ok b) × (proceed r f s ≡ f a s)
proceed_ok (ok a) f s b h = (a, refl, h, refl)
proceed_ok (err e) f s b h = cc

pub bind_ok :
    {A B : Type 0} (m : Act A) (f : A → Act B) (s : AttacherWorld) (b : B)
    → ((m >>= f) s).0 ≡ ok b
    → (a : A) × ((m s).0 ≡ ok a) × ((f a (m s).1).0 ≡ ok b) × ((m >>= f) s ≡ f a (m s).1)
unfolding ◌>>=◌
bind_ok m f s b h = proceed_ok (m s).0 f (m s).1 b h

or_given : {A : Type 0} → A → Result A → A
or_given a (ok b) = b
or_given a (err e) = a

pub ok_injective : {A : Type 0} {a b : A} → ok a ≡ ok b → a ≡ b
unfolding or_given
ok_injective {a = a} h = ap (or_given a) h

module _ (o : Outside) where
  read_date-KeepsRecords : KeepsRecords (read_date o)
  unfolding read_date
  read_date-KeepsRecords = record { records_kept = λ s. refl; ids_kept = λ s. refl }

  put_blob-KeepsRecords : (key body : String) → KeepsRecords (put_blob o key body)
  unfolding put_blob
  put_blob-KeepsRecords key body = record { records_kept = λ s. refl; ids_kept = λ s. refl }

  pub emit_evidence_attached-KeepsRecords :
      (e : EvidenceRecord) (scan : ScanRef) → KeepsRecords (emit_evidence_attached o e scan)
  unfolding emit_evidence_attached
  emit_evidence_attached-KeepsRecords e scan = lift-KeepsRecords _

  file_tuples-KeepsRecords :
      (tenant : String) (ts : List ControlVulnTuple) → KeepsRecords (file_tuples o tenant ts)
  unfolding file_tuples
  file_tuples-KeepsRecords tenant [] = return-KeepsRecords _
  file_tuples-KeepsRecords tenant (t ∷ ts) = bind-KeepsRecords _ _ (lift-KeepsRecords _) (λ r.
      bind-KeepsRecords _ _ (file_tuples-KeepsRecords tenant ts) (λ counts. return-KeepsRecords _))

  emit_violations-KeepsRecords :
      (tenant : String) (now : ℕ) (ts : List ControlVulnTuple) (entries : Dict ControlSummary)
      → KeepsRecords (emit_violations o tenant now ts entries)
  unfolding emit_violations emit_control_violated
  emit_violations-KeepsRecords tenant now ts [] = return-KeepsRecords _
  emit_violations-KeepsRecords tenant now ts ((c, summary) ∷ entries) =
      bind-KeepsRecords _ _ (lift-KeepsRecords _)
        (λ _. emit_violations-KeepsRecords tenant now ts entries)

  module _ (collected_by : String) where
    pub prepare_finding-KeepsRecords :
        (f : InfrastructureFinding) (batch : MappingBatchResult)
        → KeepsRecords (prepare_finding o collected_by f batch)
    unfolding prepare_finding
    prepare_finding-KeepsRecords f batch = bind-KeepsRecords _ _ read_date-KeepsRecords (λ now.
        bind-KeepsRecords _ _ (file_tuples-KeepsRecords f.tenant_id batch.tuples) (λ counts.
          bind-KeepsRecords _ _
            (emit_violations-KeepsRecords f.tenant_id now batch.tuples batch.control_summary)
            (λ _.
              bind-KeepsRecords _ _ (put_blob-KeepsRecords _ _) (λ stored. return-KeepsRecords _))))

    -- Where it returns, the blob's key is the path of the finding.
    pub prepare_finding-ref :
        (f : InfrastructureFinding) (batch : MappingBatchResult) (s : AttacherWorld)
        (counts : ℕ × ℕ) (ref hash : String)
        → (prepare_finding o collected_by f batch s).0 ≡ ok (counts, (ref, hash))
        → ref ≡ finding_path f
    unfolding prepare_finding put_blob return
    prepare_finding-ref f batch s counts ref hash h =
        let (now, _, h1, _) = bind_ok (read_date o) _ s _ h in
        let (n, _, h2, _) = bind_ok (file_tuples o f.tenant_id batch.tuples) _ _ _ h1 in
        let (_, _, h3, _) =
          bind_ok (emit_violations o f.tenant_id now batch.tuples batch.control_summary) _ _ _ h2 in
        let (stored, e, h4, _) =
          bind_ok (put_blob o (finding_path f) (o.stringify f.finding)) _ _ _ h3 in
        sym (ap (λ x. x.1.0) (ok_injective h4)) ∙ sym (ap (λ x. x.0) (ok_injective e))
