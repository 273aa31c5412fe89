-- ===== src/Queue.antt =====
-- The task queue of the agent service: services/agent/src/services/task-queue.ts. Of the returned
-- tasks, which the source shares with its callers, the state at the time of the call is modelled.
pub mod Order
pub mod Arrival
pub mod Examples
use ai_devsecops_command_cen.Common.{
  ℕ, ◌+◌, String, Bool, true, false, Option, none, some, List, [], ◌∷◌, ◌++◌, ◌==◌, if◌then◌else◌,
  length, select,
}
use ai_devsecops_command_cen.Common.Dict.{Dict}
use ai_devsecops_command_cen.Common.Dict
use ai_devsecops_command_cen.Common.Json.{Json}

pub data TaskStatus : Type 0 where
  pending running completed failed cancelled : TaskStatus

pub record AgentTask : Type 0 where
  pub id : String
  pub kind : String
  pub tenant_id : String
  pub status : TaskStatus
  pub input : Dict Json
  pub result : Option Json
  pub error : Option String
  pub created_at : ℕ
  pub started_at : Option ℕ
  pub finished_at : Option ℕ

pub record TaskQueue : Type 0 where
  pub tasks : Dict AgentTask
  pub order : List String

abbrev pub build_task_queue : TaskQueue
build_task_queue = record { tasks = []; order = [] }

-- The id and the time are those that `newId` and the clock give.
abbrev pub new_task : String → ℕ → String → String → Dict Json → AgentTask
new_task id now kind tenant payload = record {
  id = id;
  kind = kind;
  tenant_id = tenant;
  status = pending;
  input = payload;
  result = none;
  error = none;
  created_at = now;
  started_at = none;
  finished_at = none;
}

abbrev pub is_pending : AgentTask → Bool
is_pending t = elim t.status [ pending ↦ true | _ ↦ false ]

unfoldable pub enqueue :
    TaskQueue → String → ℕ → String → String → Dict Json → AgentTask × TaskQueue
unfolding Dict.set
enqueue q id now kind tenant payload =
    let t = new_task id now kind tenant payload in
    (t, record { tasks = Dict.set q.tasks id t; order = q.order ++ id ∷ [] })

abbrev pub started : ℕ → AgentTask → AgentTask
started now t = record t { status = running; started_at = some now }

-- What the loop does with the task of an id: `rest` goes on with the next.
abbrev pub take_task :
    ℕ
    → Dict AgentTask
    → List String
    → String
    → Option AgentTask
    → Option AgentTask × TaskQueue
    → Option AgentTask × TaskQueue
take_task now tasks order id none rest = rest
take_task now tasks order id (some t) rest =
    if is_pending t
    then (some (started now t), record { tasks = Dict.set tasks id (started now t); order = order })
    else rest

unfoldable pub dequeue_from : ℕ → Dict AgentTask → List String → Option AgentTask × TaskQueue
unfolding Dict.get Dict.set
dequeue_from now tasks [] = (none, record { tasks = tasks; order = [] })
dequeue_from now tasks (id ∷ order) =
    take_task now tasks order id (Dict.get tasks id) (dequeue_from now tasks order)

abbrev pub dequeue : ℕ → TaskQueue → Option AgentTask × TaskQueue
dequeue now q = dequeue_from now q.tasks q.order

abbrev pub with_task :
    TaskQueue → String → (AgentTask → AgentTask) → Option AgentTask → Option AgentTask × TaskQueue
with_task q id f none = (none, q)
with_task q id f (some t) = (some (f t), record q { tasks = Dict.set q.tasks id (f t) })

unfoldable pub complete : ℕ → TaskQueue → String → Json → Option AgentTask × TaskQueue
unfolding Dict.get Dict.set
complete now q id result =
    with_task q id
      (λ t. record t { status = completed; result = some result; finished_at = some now })
      (Dict.get q.tasks id)

unfoldable pub fail : ℕ → TaskQueue → String → String → Option AgentTask × TaskQueue
unfolding Dict.get Dict.set
fail now q id error =
    with_task q id (λ t. record t { status = failed; error = some error; finished_at = some now })
      (Dict.get q.tasks id)

-- An empty tenant filters nothing.
abbrev pub is_of : Option String → AgentTask → Bool
is_of none t = true
is_of (some tenant) t = if tenant == "" then true else t.tenant_id == tenant

unfoldable pub list_tasks : TaskQueue → Option String → List AgentTask
unfolding Dict.values
list_tasks q tenant = select (is_of tenant) (Dict.values q.tasks)

unfoldable pub find_task : TaskQueue → String → Option AgentTask
unfolding Dict.get
find_task q id = Dict.get q.tasks id

abbrev pub size : TaskQueue → ℕ
size q = length q.order
