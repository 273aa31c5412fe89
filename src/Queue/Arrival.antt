-- ===== src/Queue/Arrival.antt =====
-- The queue against the order of arrival.
use ai_devsecops_command_cen.Common.{◌≢◌, Any}
use ai_devsecops_command_cen.Queue.Order.{
  IsDequeued, IsKept, Operation, arrivals, run, step, enqueues, dequeues, completes, fails, IsIdle,
  step-IsKept, IsFirst, dequeue_first,
}
use ai_devsecops_command_cen.Common.{
  ℕ, String, ◌≡◌, refl, sym, ap, ◌∙◌, inl, inr, true, Option, none, some, List, [], ◌∷◌, ◌++◌, ◌==◌,
  Bool-cases, is_some, All-map, All, All-append,
}
use ai_devsecops_command_cen.Common.Dict
use ai_devsecops_command_cen.Common.Dict.{Dict}
use ai_devsecops_command_cen.Queue.{
  TaskQueue, AgentTask, enqueue, with_task, complete, fail, new_task, build_task_queue, dequeue,
  is_pending, started,
}
use mathlib.Core.Path.{subst}
use mathlib.Core.List.{append_assoc, append-nil}

-- A task stands under the id.
abbrev pub IsThere : Dict AgentTask → String → Type 0
IsThere tasks id = is_some (Dict.get tasks id) ≡ true

-- The ids that arrived are those that have left the order, and then the order; each has a task, and
-- every pending task is in the order.
record IsInOrder (came : List String) (q : TaskQueue) : Type 0 where
  gone : List String
  split : came ≡ gone ++ q.order
  there : All (IsThere q.tasks) came
  kept : IsKept q

set-IsThere :
    (tasks : Dict AgentTask) (id : String) (t : AgentTask) (j : String)
    → IsThere tasks j
    → IsThere (Dict.set tasks id t) j
set-IsThere tasks id t j h = elim (Bool-cases (id == j)) [
  | inl e ↦
      let now_there : Dict.get (Dict.set tasks id t) j ≡ some t =
        Dict.get-set tasks id j t ∙ rw e refl in
      ap is_some now_there
  | inr e ↦
      let as_before : Dict.get (Dict.set tasks id t) j ≡ Dict.get tasks j =
        Dict.get-set tasks id j t ∙ rw e refl in
      ap is_some as_before ∙ h
]

-- What `dequeue` leaves of the order is its end, and its tasks are still there.
abbrev Leaves : TaskQueue → TaskQueue → Type 0
Leaves q after =
    (skipped : List String) × (q.order ≡ skipped ++ after.order)
    × ((j : String) → IsThere q.tasks j → IsThere after.tasks j)

dequeued-Leaves :
    (now : ℕ) (q : TaskQueue) (r : Option AgentTask × TaskQueue) → IsDequeued now q r → Leaves q r.1
dequeued-Leaves now q (none, after) (_, e) = rw e (q.order, sym (append-nil q.order), λ j h. h)
dequeued-Leaves now q (some s, after) (id, t, rest, (skipped, e, _, _, _), _, a) = rw a (
  skipped ++ id ∷ [],
  e ∙ sym (append_assoc skipped (id ∷ []) rest),
  λ j h. set-IsThere q.tasks id s j h,
)

with_task-IsThere :
    (q : TaskQueue) (id : String) (f : AgentTask → AgentTask) (o : Option AgentTask)
    → ((with_task q id f o).1.order ≡ q.order)
      × ((j : String) → IsThere q.tasks j → IsThere (with_task q id f o).1.tasks j)
with_task-IsThere q id f none = (refl, λ j h. h)
with_task-IsThere q id f (some t) = (refl, λ j h. set-IsThere q.tasks id (f t) j h)

-- One operation, with what it adds to the arrivals.
abbrev added : Operation → List String
added op = arrivals (op ∷ [])

step-IsInOrder :
    (op : Operation) (came : List String) (q : TaskQueue)
    → IsInOrder came q
    → IsInOrder (came ++ added op) (step op q)
unfolding enqueue complete fail
step-IsInOrder (enqueues id now kind tenant payload) came q h = record {
  gone = h.gone;
  split = ap (λ ids. ids ++ id ∷ []) h.split ∙ append_assoc h.gone q.order (id ∷ []);
  there =
      All-append _ came (id ∷ [])
        (All-map (λ j t. set-IsThere q.tasks id (new_task id now kind tenant payload) j t) came
          h.there)
        (ap is_some (Dict.get-set_self q.tasks id (new_task id now kind tenant payload)), tt);
  kept = step-IsKept (enqueues id now kind tenant payload) q h.kept;
}
step-IsInOrder (dequeues now) came q h =
    let (skipped, e, keeps) = dequeued-Leaves now q (dequeue now q) (dequeue_first now q) in
    rw (append-nil came) (record {
      gone = h.gone ++ skipped;
      split =
          h.split
          ∙ (ap (λ ids. h.gone ++ ids) e
              ∙ sym (append_assoc h.gone skipped (dequeue now q).1.order));
      there = All-map keeps came h.there;
      kept = step-IsKept (dequeues now) q h.kept;
    })
step-IsInOrder (completes now id result) came q h =
    let (e, keeps) = with_task-IsThere q id _ (Dict.get q.tasks id) in
    rw (append-nil came) (record {
      gone = h.gone;
      split = h.split ∙ ap (λ ids. h.gone ++ ids) (sym e);
      there = All-map keeps came h.there;
      kept = step-IsKept (completes now id result) q h.kept;
    })
step-IsInOrder (fails now id error) came q h =
    let (e, keeps) = with_task-IsThere q id _ (Dict.get q.tasks id) in
    rw (append-nil came) (record {
      gone = h.gone;
      split = h.split ∙ ap (λ ids. h.gone ++ ids) (sym e);
      there = All-map keeps came h.there;
      kept = step-IsKept (fails now id error) q h.kept;
    })

arrivals-cons :
    (op : Operation) (ops : List Operation) → arrivals (op ∷ ops) ≡ added op ++ arrivals ops
arrivals-cons (enqueues id now kind tenant payload) ops = refl
arrivals-cons (dequeues now) ops = refl
arrivals-cons (completes now id result) ops = refl
arrivals-cons (fails now id error) ops = refl

run-IsInOrder :
    (ops : List Operation) (came : List String) (q : TaskQueue)
    → IsInOrder came q
    → IsInOrder (came ++ arrivals ops) (run ops q)
run-IsInOrder [] came q h = rw (append-nil came) h
run-IsInOrder (op ∷ ops) came q h =
    subst (λ ids. IsInOrder ids (run ops (step op q)))
      (append_assoc came (added op) (arrivals ops)
        ∙ ap (λ ids. came ++ ids) (sym (arrivals-cons op ops)))
      (run-IsInOrder ops (came ++ added op) (step op q) (step-IsInOrder op came q h))

-- No id stands twice.
abbrev pub Distinct : List String → Type 0
Distinct [] = Unit {0}
Distinct (x ∷ xs) = All (λ y. x ≢ y) xs × Distinct xs

Distinct-apart : (xs ys : List String) → Distinct (xs ++ ys) → All (λ x. All (λ y. x ≢ y) ys) xs
Distinct-apart [] ys h = tt
Distinct-apart (x ∷ xs) ys (h, hs) = (All-end _ xs ys h, Distinct-apart xs ys hs)
  where
    All-end : (P : String → Type 0) (xs ys : List String) → All P (xs ++ ys) → All P ys
    All-end P [] ys h = h
    All-end P (x ∷ xs) ys (_, h) = All-end P xs ys h

none_of :
    {A : Type 0} (x : String) (ys : List String) → All (λ y. x ≢ y) ys → Any (λ y. x ≡ y) ys → A
none_of x [] h a = absurd a
none_of x (y ∷ ys) (n, h) (inl e) = absurd (n e)
none_of x (y ∷ ys) (n, h) (inr a) = none_of x ys h a

-- What has left the order is not pending.
gone-IsIdle :
    (came : List String) (q : TaskQueue) (h : IsInOrder came q)
    → Distinct came
    → All (IsIdle q.tasks) h.gone
gone-IsIdle came q h d =
    All-map idle h.gone (Distinct-apart h.gone q.order (subst Distinct h.split d))
  where
    idle : (id : String) → All (λ y. id ≢ y) q.order → IsIdle q.tasks id
    idle id apart t found = elim (Bool-cases (is_pending t)) [
      | inl p ↦ none_of id q.order apart (h.kept id t found p)
      | inr p ↦ p
    ]

-- The next task by arrival: the first of the ids that came with a pending task, started; or none,
-- and no id has a pending task.
abbrev pub IsNext : ℕ → List String → Dict AgentTask → Option AgentTask → Type 0
IsNext now came tasks none = All (IsIdle tasks) came
IsNext now came tasks (some s) =
    (id : String) × (t : AgentTask) × (rest : List String) × IsFirst tasks came id t rest
    × (s ≡ started now t)

dequeued-IsNext :
    (now : ℕ) (came : List String) (q : TaskQueue) (h : IsInOrder came q)
    (r : Option AgentTask × TaskQueue)
    → All (IsIdle q.tasks) h.gone
    → IsDequeued now q r
    → IsNext now came q.tasks r.0
dequeued-IsNext now came q h (none, after) idle (left, _) =
    subst (All (IsIdle q.tasks)) (sym h.split) (All-append _ h.gone q.order idle left)
dequeued-IsNext now came q h (some s, after) idle
      (id, t, rest, (skipped, e, i, found, fits), same, _) =
    (
      id,
      t,
      rest,
      (
        h.gone ++ skipped,
        h.split ∙ (ap (λ ids. h.gone ++ ids) e ∙ sym (append_assoc h.gone skipped (id ∷ rest))),
        All-append _ h.gone skipped idle i,
        found,
        fits,
      ),
      same,
    )

-- Whatever calls of `enqueue`, `dequeue`, `complete` and `fail` came before, where no two calls of
-- `enqueue` drew the same id: each task that arrived is still held, and `dequeue` starts the pending
-- task that arrived first, every earlier arrival being no longer pending; it answers with none
-- where no task that arrived is pending.
pub run_fifo :
    (ops : List Operation) (now : ℕ)
    → Distinct (arrivals ops)
    → All (IsThere (run ops build_task_queue).tasks) (arrivals ops)
      × IsNext now
          (arrivals ops)
          (run ops build_task_queue).tasks
          (dequeue now (run ops build_task_queue)).0
unfolding Dict.get
run_fifo ops now d =
    let q = run ops build_task_queue in
    let h : IsInOrder (arrivals ops) q = run-IsInOrder ops [] build_task_queue at_start in
    (
      h.there,
      dequeued-IsNext now (arrivals ops) q h (dequeue now q) (gone-IsIdle (arrivals ops) q h d)
          (dequeue_first now q),
    )
  where
    at_start : IsInOrder [] build_task_queue
    at_start = record { gone = []; split = refl; there = tt; kept = λ id t found fits. cc }
