-- ===== src/Distributed/Scheduler.antt =====
-- distributed/scheduler.py: the scheduler over the queue. A thread is the task that it executes.
use recoverx_cli.Prelude.{
  ℕ, zero, suc, ◌+◌, ◌-◌, ◌*◌, ◌/◌, ◌%◌, ◌^◌, ◌≤◌, ◌<◌, min, max, ◌≡◌, refl, sym, ap, ◌∙◌, subst,
  fun_ext, ◌≢◌, ◌↔◌, ◌⊎◌, inl, inr, Bool, true, false, not, ◌&&◌, ◌||◌, Option, none, some, List,
  [], ◌∷◌, ◌++◌, map, append-nil, append_assoc, arith, ltb, leb, ◌==◌, if◌then◌else◌, ltb→lt,
  lt→ltb, leb→le, ==_iff, Bool-cases, Option-cases, length, get_elem?, get_or, take, drop,
  replicate, concat, length-append, length-take, length-drop, length-replicate, length-map,
  take-zero, take-nil, drop-nil, take_of_length-le, take-append, take-take, take-replicate,
  replicate-add, drop-drop, take-add, get_elem?-append,
}
use recoverx_cli.Prelude.Int.{
  ℤ, pos, negsuc, pos_part, neg_part, sub_ℕ, ◌+ℤ◌, ◌-ℤ◌, ◌*ℤ◌, ◌≤ℤ◌, ◌<ℤ◌, leb_ℤ, ltb_ℤ, +ℤ_parts,
  -ℤ_parts, eq_of_parts, int_laws, pos-*, pos-+,
}
pub mod Steps
pub mod Cancellation
use Prim.Native.String.{String, ◌++◌ as str_append}
use text.Mathlib.Text.{◌==◌ as str_eq}
use recoverx_cli.Utils.Dict.{put, remove}
use recoverx_cli.Distributed.Models.{
  Value, string, number, empty_list, Params, Task, Store, write, set_state, running,
}
use recoverx_cli.Distributed.Queue.{TaskQueue, push, pop, complete, cancel, pending_count}

-- The queue and the dict `_running`, whose threads are known by their tasks. `max_concurrent` and
-- `_stop_event` are read by no method.
pub record Scheduler : Type 0 where
  pub queue : TaskQueue
  pub running_tasks : List (String × ℕ)

-- `submit`; `new_id` is the number that `uuid4` draws.
unfoldable pub submit : String → ℕ → Scheduler → String × Scheduler
submit new_id ref s =
    let q = s.queue in
    let task = q.tasks ref in
    if str_eq task.task_id ""
    then (
      new_id,
      record s {
        queue =
            push ref (record q { tasks = write q.tasks ref (record task { task_id = new_id }) });
      },
    )
    else (task.task_id, record s { queue = push ref q })

unfoldable pub submit_batch : List (String × ℕ) → Scheduler → List String × Scheduler
submit_batch [] s = ([], s)
submit_batch ((new_id, ref) ∷ tasks) s =
    let (task_id, after) = submit new_id ref s in
    let (ids, last) = submit_batch tasks after in (task_id ∷ ids, last)

-- The steps of `schedule`: the queue's `pop`, under the queue's lock, ...
unfoldable pub take_task : Scheduler → Option ℕ × Scheduler
take_task s = let (found, q) = pop s.queue in (found, record s { queue = q })

-- ... and what follows it, under no lock of the queue.
unfoldable pub start_task : ℕ → Scheduler → Scheduler
start_task ref s =
    let tasks = set_state s.queue.tasks ref running in
    record {
      queue = record (s.queue) { tasks = tasks };
      running_tasks = put (tasks ref).task_id ref s.running_tasks;
    }

abbrev pub start_found : Option ℕ × Scheduler → Option String × Scheduler
start_found (none, s) = (none, s)
start_found (some ref, s) = (some (s.queue.tasks ref).task_id, start_task ref s)

-- `schedule`, when no other thread comes between its steps
unfoldable pub schedule : Scheduler → Option String × Scheduler
schedule s = start_found (take_task s)

-- `params.get(key, default)`
unfoldable pub param_or : String → Value → Params → Value
param_or key default [] = default
param_or key default ((j, v) ∷ params) = if str_eq j key then v else param_or key default params

unfoldable pub do_index : Task → Params
do_index task = ("indexed", param_or "count" (number 0) task.params) ∷ ("status", string "ok") ∷ []

unfoldable pub do_analyze : Task → Params
do_analyze task = ("findings", empty_list) ∷ ("status", string "ok") ∷ []

unfoldable pub do_correlate : Task → Params
do_correlate task = ("correlations", number 0) ∷ ("status", string "ok") ∷ []

unfoldable pub do_export : Task → Params
do_export task =
    ("exported", param_or "format" (string "json") task.params) ∷ ("status", string "ok") ∷ []

-- the result that `_run_task` stores; none of its branches raises
unfoldable pub run_result : Task → Params
run_result task =
    if str_eq task.task_type "index"
    then do_index task
    else if str_eq task.task_type "analyze"
    then do_analyze task
    else if str_eq task.task_type "correlate"
    then do_correlate task
    else if str_eq task.task_type "export"
    then do_export task
    else ("message", string (str_append "Unknown task type: " task.task_type)) ∷ []

unfoldable pub run_task : ℕ → Scheduler → Scheduler
run_task ref s =
    let q = s.queue in
    let task = q.tasks ref in
    record s {
      queue = record q { tasks = write q.tasks ref (record task { result = run_result task }) };
    }

-- the end of `_execute`: `complete`, and the `finally`
unfoldable pub finish_task : ℕ → Scheduler → Scheduler
finish_task ref s =
    let task_id = (s.queue.tasks ref).task_id in
    record { queue = complete task_id [] s.queue; running_tasks = remove task_id s.running_tasks }

-- `_execute`. Its `except`, which calls `fail`, is left out, as it is never entered: the params of a
-- task are a dict, and with a dict nothing in the `try` raises.
unfoldable pub execute_task : ℕ → Scheduler → Scheduler
execute_task ref s = finish_task ref (run_task ref s)

unfoldable pub cancel_task : String → Scheduler → Bool × Scheduler
cancel_task task_id s = let (done, q) = cancel task_id s.queue in (done, record s { queue = q })

unfoldable pub running_count : Scheduler → ℕ
running_count s = length s.running_tasks

unfoldable pub is_idle : Scheduler → Bool
is_idle s = running_count s == 0 && pending_count s.queue == 0
