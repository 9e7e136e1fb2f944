-- ===== src/Distributed/Queue.antt =====
-- distributed/queue.py. `heapq` hands entries out by their first two components, the counter makes
-- these distinct, and no operation here sees the heap otherwise: it is a list in that order.
use recoverx_cli.Prelude.{
  ℕ, zero, suc, ◌+◌, ◌-◌, ◌*◌, ◌/◌, ◌%◌, ◌^◌, ◌≤◌, ◌<◌, min, max, ◌≡◌, refl, sym, ap, ◌∙◌, subst,
  fun_ext, ◌≢◌, ◌↔◌, ◌⊎◌, inl, inr, Bool, true, false, not, ◌&&◌, ◌||◌, Option, none, some, List,
  [], ◌∷◌, ◌++◌, map, append-nil, append_assoc, arith, ltb, leb, ◌==◌, if◌then◌else◌, ltb→lt,
  lt→ltb, leb→le, ==_iff, Bool-cases, Option-cases, length, get_elem?, get_or, take, drop,
  replicate, concat, length-append, length-take, length-drop, length-replicate, length-map,
  take-zero, take-nil, drop-nil, take_of_length-le, take-append, take-take, take-replicate,
  replicate-add, drop-drop, take-add, get_elem?-append,
}
use recoverx_cli.Prelude.Int.{
  ℤ, pos, negsuc, pos_part, neg_part, sub_ℕ, ◌+ℤ◌, ◌-ℤ◌, ◌*ℤ◌, ◌≤ℤ◌, ◌<ℤ◌, leb_ℤ, ltb_ℤ, +ℤ_parts,
  -ℤ_parts, eq_of_parts, int_laws, pos-*, pos-+,
}
pub mod Order
pub mod Invariant
pub mod Steps
use Prim.Native.String.{String}
use text.Mathlib.Text.{◌==◌ as str_eq}
use recoverx_cli.Utils.Dict.{lookup, put}
use recoverx_cli.Distributed.Models.{
  TaskState, pending, assigned, running, completed, failed, cancelled, priority_value, Params, Task,
  Store, write, set_state, is_pending, is_assigned, is_failed,
}

-- A triple of the heap: the value of the priority (its negation is what the code compares), the
-- counter, and the task.
pub record Entry : Type 0 where
  pub priority : ℕ
  pub order : ℕ
  pub task : ℕ

-- The tasks and the fields of the queue.
pub record TaskQueue : Type 0 where
  pub tasks : Store
  pub queue : List Entry
  pub counter : ℕ
  pub all_tasks : List (String × ℕ)
  pub completed_tasks : List (String × ℕ)

-- the order of the pairs (-priority, counter)
unfoldable pub before : Entry → Entry → Bool
before a b = ltb b.priority a.priority || (a.priority == b.priority && ltb a.order b.order)

-- `heapq.heappush`
unfoldable pub heappush : Entry → List Entry → List Entry
heappush entry [] = entry ∷ []
heappush entry (e ∷ es) = if before entry e then entry ∷ e ∷ es else e ∷ heappush entry es

-- the push of a task with the next number of the counter
unfoldable pub enqueue : ℕ → TaskQueue → TaskQueue
enqueue ref q = record q {
  counter = q.counter + 1;
  queue =
      heappush
        (record {
          priority = priority_value (q.tasks ref).priority;
          order = q.counter + 1;
          task = ref;
        })
        q.queue;
}

unfoldable pub push : ℕ → TaskQueue → TaskQueue
push ref q =
    let after = enqueue ref q in
    record after { all_tasks = put (q.tasks ref).task_id ref q.all_tasks }

-- The loop of `pop`: the entry of the first pending task, and what is left.
unfoldable pub pop_from : Store → List Entry → Option Entry × List Entry
pop_from tasks [] = (none, [])
pop_from tasks (e ∷ es) =
    let rest = pop_from tasks es in if is_pending (tasks e.task).state then (some e, es) else rest

abbrev pub take_entry : Option Entry → TaskQueue → Option ℕ × TaskQueue
take_entry none q = (none, q)
take_entry (some e) q = (some e.task, record q { tasks = set_state q.tasks e.task assigned })

unfoldable pub pop : TaskQueue → Option ℕ × TaskQueue
pop q = let (entry, rest) = pop_from q.tasks q.queue in take_entry entry (record q { queue = rest })

-- `if result: task.result = result`
abbrev pub with_result : Params → Task → Task
with_result [] task = task
with_result (item ∷ items) task = record task { result = item ∷ items }

abbrev pub complete_task : Option ℕ → String → Params → TaskQueue → TaskQueue
complete_task none task_id result q = q
complete_task (some ref) task_id result q = record q {
  tasks = write q.tasks ref (with_result result (record (q.tasks ref) { state = completed }));
  completed_tasks = put task_id ref q.completed_tasks;
}

unfoldable pub complete : String → Params → TaskQueue → TaskQueue
complete task_id result q = complete_task (lookup task_id q.all_tasks) task_id result q

abbrev pub retry_task : ℕ → TaskQueue → TaskQueue
retry_task ref q =
    let task = q.tasks ref in
    enqueue ref (record q {
      tasks =
          write q.tasks ref (record task { state = pending; retry_count = task.retry_count + 1 });
    })

abbrev pub fail_task : Option ℕ → String → TaskQueue → TaskQueue
fail_task none error q = q
fail_task (some ref) error q =
    let task = q.tasks ref in
    if ltb task.retry_count task.max_retries
    then retry_task ref q
    else (record q { tasks = write q.tasks ref (record task { state = failed; error = error }) })

unfoldable pub fail : String → String → TaskQueue → TaskQueue
fail task_id error q = fail_task (lookup task_id q.all_tasks) error q

abbrev pub cancel_task : Option ℕ → TaskQueue → Bool × TaskQueue
cancel_task none q = (false, q)
cancel_task (some ref) q =
    let state = (q.tasks ref).state in
    if is_pending state || is_assigned state
    then (true, record q { tasks = set_state q.tasks ref cancelled })
    else (false, q)

unfoldable pub cancel : String → TaskQueue → Bool × TaskQueue
cancel task_id q = cancel_task (lookup task_id q.all_tasks) q

unfoldable pub get : String → TaskQueue → Option ℕ
get task_id q = lookup task_id q.all_tasks

-- `sum(1 for t in self._all_tasks.values() if …)`
unfoldable pub count_tasks : (TaskState → Bool) → Store → List (String × ℕ) → ℕ
count_tasks test tasks [] = 0
count_tasks test tasks ((task_id, ref) ∷ entries) =
    (if test (tasks ref).state then 1 else 0) + count_tasks test tasks entries

unfoldable pub pending_count : TaskQueue → ℕ
pending_count q = count_tasks is_pending q.tasks q.all_tasks

unfoldable pub failed_count : TaskQueue → ℕ
failed_count q = count_tasks is_failed q.tasks q.all_tasks

unfoldable pub completed_count : TaskQueue → ℕ
completed_count q = length q.completed_tasks

unfoldable pub clear_completed : TaskQueue → TaskQueue
clear_completed q = record q { completed_tasks = [] }
