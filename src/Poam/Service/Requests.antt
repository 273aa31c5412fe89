-- ===== src/Poam/Service/Requests.antt =====
-- Sequences of calls on the service. A call that throws has the effects it made before.
use ai_devsecops_command_cen.Common.{String, Option, List, [], ◌∷◌, ℕ, ◌≡◌, refl}
use ai_devsecops_command_cen.Common.Dict
use ai_devsecops_command_cen.Poam.Types.{ControlVulnTuple, CreatePoamInput}
use ai_devsecops_command_cen.Poam.World.{Env, World, init}
use ai_devsecops_command_cen.Poam.Lifecycle.{here}
use ai_devsecops_command_cen.Poam.Service
use ai_devsecops_command_cen.Poam.Service.Safe.{Good, Lands, Lands-trans}
use ai_devsecops_command_cen.Poam.Service.Refines.{
  create_from_tuple-Safe, create_from_tuples-Safe, create_manual-Safe,
}
use ai_devsecops_command_cen.Poam.Service.Moves.{
  start_progress-Safe, mark_awaiting_evidence-Safe, close-Safe, accept_risk-Safe,
}
use ai_devsecops_command_cen.Poam.Service.Scan.{scan_for_overdue-Lands}

pub data Request : Type 0 where
  from_tuple : String → ControlVulnTuple → Request
  from_tuples : String → List ControlVulnTuple → Request
  manually : String → CreatePoamInput → String → Request
  start : (tenant id user : String) → Request
  await : (tenant id user : String) → Request
  close : (tenant id user notes : String) → List String → Request
  accept : (tenant id user justification expires : String) → Option String → Request
  scan : Request

module _ (env : Env) where
  unfoldable pub serve : Request → World → World
  serve (from_tuple tenant t) w = (Service.create_from_tuple env tenant t w).1
  serve (from_tuples tenant ts) w = (Service.create_from_tuples env tenant ts w).1
  serve (manually tenant input user) w = (Service.create_manual env tenant input user w).1
  serve (start tenant id user) w = (Service.start_progress env tenant id user w).1
  serve (await tenant id user) w = (Service.mark_awaiting_evidence env tenant id user w).1
  serve (close tenant id user notes refs) w = (Service.close env tenant id user notes refs w).1
  serve (accept tenant id user why expires control) w =
      (Service.accept_risk env tenant id user why expires control w).1
  serve scan w = (Service.scan_for_overdue env w).1

  unfoldable pub run : List Request → World → World
  run [] w = w
  run (r ∷ rs) w = run rs (serve r w)

  module _ (distinct : (i j : ℕ) → env.uuid i ≡ env.uuid j → i ≡ j) where
    serve-Lands : (r : Request) (w : World) → Good env w → Lands env w (serve r w)
    unfolding serve
    serve-Lands (from_tuple tenant t) w g = (create_from_tuple-Safe env distinct tenant t).at w g
    serve-Lands (from_tuples tenant ts) w g =
        (create_from_tuples-Safe env distinct tenant ts).at w g
    serve-Lands (manually tenant input user) w g =
        (create_manual-Safe env distinct tenant input user).at w g
    serve-Lands (start tenant id user) w g = (start_progress-Safe env tenant id user).at w g
    serve-Lands (await tenant id user) w g = (mark_awaiting_evidence-Safe env tenant id user).at w g
    serve-Lands (close tenant id user notes refs) w g =
        (close-Safe env tenant id user notes refs).at w g
    serve-Lands (accept tenant id user why expires control) w g =
        (accept_risk-Safe env tenant id user why expires control).at w g
    serve-Lands scan w g = scan_for_overdue-Lands env w g

    pub run-Lands : (rs : List Request) (w : World) → Good env w → Lands env w (run rs w)
    unfolding run
    run-Lands [] w g = (here, g)
    run-Lands (r ∷ rs) w g =
        let l = serve-Lands r w g in
        Lands-trans env w (serve r w) (run rs (serve r w)) l (run-Lands rs (serve r w) l.1)

-- The empty service is good.
pub init-Good : (env : Env) → Good env init
unfolding Dict.get
init-Good env = record {
  inv = record {
    is_map = tt;
    keyed = λ id p e. cc;
    documented = λ id p e. cc;
    unrivalled = λ i j p q e f r. cc;
  };
  fresh = λ k le. refl;
}
