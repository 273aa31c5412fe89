-- ===== src/Queue/Examples.antt =====
-- Concrete runs of the task queue.
use ai_devsecops_command_cen.Common.{arith, eq_iff}
use ai_devsecops_command_cen.Queue.Order.{Operation, enqueues, run, fails, dequeues, completes}
use ai_devsecops_command_cen.Queue.Arrival.{IsThere, IsNext, run_fifo}
use ai_devsecops_command_cen.Common.{All, String, ◌≡◌, refl, some, List, [], ◌∷◌}
use ai_devsecops_command_cen.Common.Json.{null}
use ai_devsecops_command_cen.Queue.{
  AgentTask, enqueue, new_task, dequeue_from, build_task_queue, complete, fail, dequeue, started,
}

abbrev triage_task : String → AgentTask
triage_task id = new_task id 5 "triage" "acme" []

-- A task that was failed before it was taken is passed over.
abbrev operations : List Operation
operations =
    enqueues "a" 5 "triage" "acme" []
    ∷ enqueues "b" 5 "triage" "acme" []
    ∷ enqueues "c" 5 "triage" "acme" []
    ∷ fails 6 "a" "cancelled by hand"
    ∷ dequeues 7
    ∷ completes 8 "b" null
    ∷ []

second_taken : (dequeue 9 (run operations build_task_queue)).0 ≡ some (started 9 (triage_task "c"))
unfolding enqueue dequeue_from complete fail
second_taken = refl

run_fifo_example :
    All (IsThere (run operations build_task_queue).tasks) ("a" ∷ "b" ∷ "c" ∷ [])
    × IsNext 9
        ("a" ∷ "b" ∷ "c" ∷ [])
        (run operations build_task_queue).tasks
        (dequeue 9 (run operations build_task_queue)).0
run_fifo_example = run_fifo operations 9 (
  (λ e. ground (arith, eq_iff "a" "b"), (λ e. ground (arith, eq_iff "a" "c"), tt)),
  ((λ e. ground (arith, eq_iff "b" "c"), tt), (tt, tt)),
)
