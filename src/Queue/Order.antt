-- ===== src/Queue/Order.antt =====
-- The order in which the queue hands out its tasks, and its operations in sequence.
use ai_devsecops_command_cen.Common.Json.{Json}
use ai_devsecops_command_cen.Common.{arith, ◌==◌, eq_iff, Any, Any-right, Any-left}
use ai_devsecops_command_cen.Common.{
  ℕ, String, ◌≡◌, refl, sym, ap, ◌∙◌, inl, inr, true, false, Option, none, some, List, [], ◌∷◌,
  ◌++◌, Bool-cases, All,
}
use ai_devsecops_command_cen.Common.Dict
use ai_devsecops_command_cen.Common.Dict.{Dict}
use ai_devsecops_command_cen.Queue.{
  TaskQueue, AgentTask, dequeue, is_pending, started, take_task, dequeue_from, enqueue, with_task,
  complete, fail,
}
use mathlib.Core.Path.{subst}

-- No pending task has the id.
abbrev pub IsIdle : Dict AgentTask → String → Type 0
IsIdle tasks id = (t : AgentTask) → Dict.get tasks id ≡ some t → is_pending t ≡ false

-- The first id of the order with a pending task: what stands before it is idle.
abbrev pub IsFirst : Dict AgentTask → List String → String → AgentTask → List String → Type 0
IsFirst tasks order id t rest =
    (skipped : List String) × (order ≡ skipped ++ id ∷ rest)
    × All (IsIdle tasks) skipped
    × (Dict.get tasks id ≡ some t)
    × (is_pending t ≡ true)

-- What `dequeue` answers: the first pending task, started; or nothing, and no id is left.
abbrev pub IsDequeued : ℕ → TaskQueue → Option AgentTask × TaskQueue → Type 0
IsDequeued now q (none, after) =
    All (IsIdle q.tasks) q.order × (after ≡ record { tasks = q.tasks; order = [] })
IsDequeued now q (some s, after) =
    (id : String) × (t : AgentTask) × (rest : List String) × IsFirst q.tasks q.order id t rest
    × (s ≡ started now t)
    × (after ≡ record { tasks = Dict.set q.tasks id s; order = rest })

module _ (now : ℕ) (tasks : Dict AgentTask) where
  IsIdle-take :
      (id : String) (order : List String) (r : Option AgentTask × TaskQueue)
      → IsIdle tasks id
      → IsDequeued now (record { tasks = tasks; order = order }) r
      → IsDequeued now (record { tasks = tasks; order = id ∷ order }) r
  IsIdle-take id order (none, after) idle (h, e) = ((idle, h), e)
  IsIdle-take id order (some s, after) idle (i, t, rest, (skipped, e, h, found, fits), same, a) =
      (i, t, rest, (id ∷ skipped, ap (λ ids. id ∷ ids) e, (idle, h), found, fits), same, a)

  take-IsDequeued :
      (id : String) (order : List String) (o : Option AgentTask) (r : Option AgentTask × TaskQueue)
      → Dict.get tasks id ≡ o
      → IsDequeued now (record { tasks = tasks; order = order }) r
      → IsDequeued now
          (record { tasks = tasks; order = id ∷ order })
          (take_task now tasks order id o r)
  take-IsDequeued id order none r e h = IsIdle-take id order r (λ t k. cc) h
  take-IsDequeued id order (some t) r e h = elim (Bool-cases (is_pending t)) [
    | inl p ↦ rw (p, IsDequeued) (id, t, order, ([], refl, tt, e, p), refl, refl)
    | inr p ↦ rw p (
        IsIdle-take id order r
          (λ u k. let same : t ≡ u = cc in subst (λ x. is_pending x ≡ false) same p) h)
  ]

  dequeue_from-IsDequeued :
      (order : List String)
      → IsDequeued now (record { tasks = tasks; order = order }) (dequeue_from now tasks order)
  unfolding dequeue_from
  dequeue_from-IsDequeued [] = (tt, refl)
  dequeue_from-IsDequeued (id ∷ order) =
      take-IsDequeued id order (Dict.get tasks id) (dequeue_from now tasks order) refl
        (dequeue_from-IsDequeued order)

pub dequeue_first : (now : ℕ) (q : TaskQueue) → IsDequeued now q (dequeue now q)
dequeue_first now q = dequeue_from-IsDequeued now q.tasks q.order

-- The operations that change the queue. A call of `enqueue` comes with the id and the time it draws.
pub data Operation : Type 0 where
  enqueues : (id : String) (now : ℕ) (kind tenant : String) (payload : Dict Json) → Operation
  dequeues : ℕ → Operation
  completes : ℕ → String → Json → Operation
  fails : ℕ → String → String → Operation

abbrev pub step : Operation → TaskQueue → TaskQueue
step (enqueues id now kind tenant payload) q = (enqueue q id now kind tenant payload).1
step (dequeues now) q = (dequeue now q).1
step (completes now id result) q = (complete now q id result).1
step (fails now id error) q = (fail now q id error).1

abbrev pub run : List Operation → TaskQueue → TaskQueue
run [] q = q
run (op ∷ ops) q = run ops (step op q)

-- The ids of the tasks in the order in which they arrive.
abbrev pub arrivals : List Operation → List String
arrivals [] = []
arrivals (enqueues id _ _ _ _ ∷ ops) = id ∷ arrivals ops
arrivals (dequeues _ ∷ ops) = arrivals ops
arrivals (completes _ _ _ ∷ ops) = arrivals ops
arrivals (fails _ _ _ ∷ ops) = arrivals ops

-- Every pending task waits in the order.
abbrev pub IsKept : TaskQueue → Type 0
IsKept q =
    (id : String) (t : AgentTask)
    → Dict.get q.tasks id ≡ some t
    → is_pending t ≡ true
    → Any (λ j. id ≡ j) q.order

-- Writing a task that is not pending makes none pending.
settled_write :
    (q : TaskQueue) (id : String) (s : AgentTask)
    → is_pending s ≡ false
    → IsKept q
    → IsKept (record q { tasks = Dict.set q.tasks id s })
settled_write q id s settled h j t found fits = elim (Bool-cases (id == j)) [
  | inl e ↦
      let is_s : some s ≡ some t = sym (Dict.get-set q.tasks id j s ∙ rw e refl) ∙ found in
      let same : s ≡ t = cc in
      let impossible : false ≡ true = sym settled ∙ (ap is_pending same ∙ fits) in
      absurd (ground arith)
  | inr e ↦ h j t (sym (Dict.get-set q.tasks id j s ∙ rw e refl) ∙ found) fits
]

with_task-IsKept :
    (q : TaskQueue) (id : String) (f : AgentTask → AgentTask) (o : Option AgentTask)
    → ((t : AgentTask) → is_pending (f t) ≡ false)
    → IsKept q
    → IsKept (with_task q id f o).1
with_task-IsKept q id f none settles h = h
with_task-IsKept q id f (some t) settles h = settled_write q id (f t) (settles t) h

enqueue-IsKept :
    (q : TaskQueue) (id : String) (now : ℕ) (kind tenant : String) (payload : Dict Json)
    → IsKept q
    → IsKept (enqueue q id now kind tenant payload).1
unfolding enqueue
enqueue-IsKept q id now kind tenant payload h j u found fits = elim (Bool-cases (id == j)) [
  | inl e ↦ Any-right (λ k. j ≡ k) q.order (id ∷ []) (inl (sym ((eq_iff id j).0 e)))
  | inr e ↦
      Any-left (λ k. j ≡ k) q.order (id ∷ [])
        (h j u (sym (Dict.get-set q.tasks id j _ ∙ rw e refl) ∙ found) fits)
]

drop_idle :
    (tasks : Dict AgentTask) (id : String) (order : List String)
    → IsIdle tasks id
    → IsKept (record { tasks = tasks; order = id ∷ order })
    → IsKept (record { tasks = tasks; order = order })
drop_idle tasks id order idle h j t found fits = elim (h j t found fits) [
  | inl e ↦
      let settled = idle t (subst (λ k. Dict.get tasks k ≡ some t) e found) in
      let impossible : false ≡ true = sym settled ∙ fits in absurd (ground arith)
  | inr a ↦ a
]

started-IsIdle :
    (now : ℕ) (tasks : Dict AgentTask) (id : String) (t : AgentTask)
    → IsIdle (Dict.set tasks id (started now t)) id
started-IsIdle now tasks id t u k =
    let is_u : some (started now t) ≡ some u =
      sym (Dict.get-set_self tasks id (started now t)) ∙ k in
    let same : started now t ≡ u = cc in subst (λ x. is_pending x ≡ false) same refl

take_task-IsKept :
    (now : ℕ) (tasks : Dict AgentTask) (id : String) (order : List String) (o : Option AgentTask)
    (rest : Option AgentTask × TaskQueue)
    → Dict.get tasks id ≡ o
    → (IsKept (record { tasks = tasks; order = order }) → IsKept rest.1)
    → IsKept (record { tasks = tasks; order = id ∷ order })
    → IsKept (take_task now tasks order id o rest).1
take_task-IsKept now tasks id order none rest e next h =
    next (drop_idle tasks id order (λ t k. cc) h)
take_task-IsKept now tasks id order (some t) rest e next h = elim (Bool-cases (is_pending t)) [
  | inl p ↦ rw p (
      drop_idle (Dict.set tasks id (started now t)) id order (started-IsIdle now tasks id t)
        (settled_write (record { tasks = tasks; order = id ∷ order }) id (started now t) refl h))
  | inr p ↦ rw p (
      next (
        drop_idle tasks id order
          (λ u k. let same : t ≡ u = cc in subst (λ x. is_pending x ≡ false) same p) h))
]

dequeue-IsKept :
    (now : ℕ) (tasks : Dict AgentTask) (order : List String)
    → IsKept (record { tasks = tasks; order = order })
    → IsKept (dequeue_from now tasks order).1
unfolding dequeue_from
dequeue-IsKept now tasks [] h = h
dequeue-IsKept now tasks (id ∷ order) h =
    take_task-IsKept now tasks id order (Dict.get tasks id) (dequeue_from now tasks order) refl
      (dequeue-IsKept now tasks order) h

pub step-IsKept : (op : Operation) (q : TaskQueue) → IsKept q → IsKept (step op q)
unfolding complete fail
step-IsKept (enqueues id now kind tenant payload) q h =
    enqueue-IsKept q id now kind tenant payload h
step-IsKept (dequeues now) q h = dequeue-IsKept now q.tasks q.order h
step-IsKept (completes now id result) q h =
    with_task-IsKept q id _ (Dict.get q.tasks id) (λ t. refl) h
step-IsKept (fails now id error) q h = with_task-IsKept q id _ (Dict.get q.tasks id) (λ t. refl) h
