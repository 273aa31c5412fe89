-- ===== src/Evidence/Twice.antt =====
-- attachInfrastructureFinding, called again with the same finding.
use ai_devsecops_command_cen.Evidence.Attach.{prepare_finding, collect_evidence}
use ai_devsecops_command_cen.Mapper.Types.{MappingBatchResult}
use ai_devsecops_command_cen.Evidence.Attacher.{InfrastructureFinding, AttachScanResult}
use ai_devsecops_command_cen.Common.{ℕ, String, List}
use ai_devsecops_command_cen.Common.Dict.{Dict}
use ai_devsecops_command_cen.Common.Dict
use ai_devsecops_command_cen.Evidence.World.{Outside, Act}

module _ (o : Outside) (collected_by : String) (f : InfrastructureFinding)
    (batch : MappingBatchResult) (controls : List String) where
  abbrev prepare : Act ((ℕ × ℕ) × (String × String))
  prepare = prepare_finding o collected_by f batch

  abbrev collected : (ℕ × ℕ) × (String × String) → Act AttachScanResult
  collected = collect_evidence o collected_by f controls
