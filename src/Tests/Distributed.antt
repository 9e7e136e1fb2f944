-- ===== src/Tests/Distributed.antt =====
-- A scheduler with two tasks of different priorities.
use recoverx_cli.Prelude.{ℕ, zero, suc, ◌≡◌, refl, ◌⊎◌, true, false, none, some, [], ◌∷◌}
use Prim.Native.String.{String}
use recoverx_cli.Utils.Dict.{lookup, put, remove}
use recoverx_cli.Distributed.Models.{
  Task, Store, TaskPriority, priority_value, normal, high, pending, cancelled, running, completed,
  write, set_state,
}
use recoverx_cli.Distributed.Queue.{
  TaskQueue, push, enqueue, heappush, before, pop, pop_from, complete, cancel,
}
use recoverx_cli.Distributed.Queue.Order.{NonePending}
use recoverx_cli.Distributed.Queue.Invariant.{IsValid}
use recoverx_cli.Distributed.Queue.Steps.{
  push_call, pop_call, cancel_call, fail_call, after_calls, after_call, after_calls-IsValid,
  NothingPending, TakesFirst, pop-TakesFirst,
}
use recoverx_cli.Distributed.Scheduler.{
  Scheduler, submit, take_task, start_task, execute_task, schedule, cancel_task, run_task,
  run_result, do_index, param_or, finish_task,
}
use recoverx_cli.Distributed.Scheduler.Steps.{submits, takes, here, step, mem, take_task-fresh}
use recoverx_cli.Distributed.Scheduler.Cancellation.{cancel_task-lost}

abbrev task_of : String → TaskPriority → Task
task_of task_id priority = record {
  task_id = task_id;
  task_type = "index";
  params = [];
  state = pending;
  priority = priority;
  assigned_to = "";
  result = [];
  error = "";
  retry_count = 0;
  max_retries = 3;
}

-- The task 0 has a normal priority, the others have a high one.
abbrev tasks : Store
tasks zero = task_of "a" normal
tasks (suc ref) = task_of "b" high

abbrev empty_queue : TaskQueue
empty_queue = record {
  tasks = tasks;
  queue = [];
  counter = 0;
  all_tasks = [];
  completed_tasks = [];
}

empty_queue-IsValid : IsValid empty_queue
unfolding lookup
empty_queue-IsValid = record {
  sorted = tt;
  numbered = tt;
  tracked = λ task_id ref found p. absurd (cc);
}

program : Unit {0}
unfolding push enqueue heappush before pop pop_from complete cancel write set_state lookup put
    remove priority_value submit take_task start_task execute_task schedule cancel_task after_calls
    after_call mem run_task run_result do_index param_or finish_task
program = tt

abbrev two_tasks : TaskQueue
two_tasks = push 1 (push 0 empty_queue)

pops_high : (pop two_tasks).0 ≡ some 1
unfolding program
pops_high = refl

-- Two tasks of one id: `cancel` reaches the one that was pushed last, and `pop` returns the other.
abbrev same_id : TaskQueue
same_id = push 1 (push 0 (record empty_queue { tasks = λ ref. task_of "a" normal }))

pops_after_cancel : (pop (cancel "a" same_id).1).0 ≡ some 0
unfolding program
pops_after_cancel = refl

after_calls-IsValid_example : IsValid (
    after_calls
      (push_call 0 ∷ push_call 1 ∷ pop_call ∷ cancel_call "a" ∷ fail_call "b" "x" ∷ [])
      empty_queue)
after_calls-IsValid_example =
    after_calls-IsValid
      (push_call 0 ∷ push_call 1 ∷ pop_call ∷ cancel_call "a" ∷ fail_call "b" "x" ∷ []) empty_queue
      empty_queue-IsValid

pop-TakesFirst_example :
    (((pop two_tasks).0 ≡ none)
      × NonePending two_tasks.tasks two_tasks.queue
      × NothingPending two_tasks)
    ⊎ TakesFirst two_tasks (pop two_tasks)
unfolding after_calls after_call
pop-TakesFirst_example =
    pop-TakesFirst two_tasks
      (after_calls-IsValid (push_call 0 ∷ push_call 1 ∷ []) empty_queue empty_queue-IsValid)

abbrev idle : Scheduler
idle = record { queue = empty_queue; running_tasks = [] }

-- a scheduler with two tasks, of which one is taken
abbrev taken : Scheduler
taken = (take_task (submit "c" 0 (submit "d" 1 idle).1).1).1

schedules_high : (schedule (submit "c" 0 (submit "d" 1 idle).1).1).0 ≡ some "b"
unfolding program
schedules_high = refl

take_task-fresh_example :
    (((take_task taken).0 ≡ none) × NothingPending taken.queue)
    ⊎ ((ref : ℕ) × ((take_task taken).0 ≡ some ref) × (mem ref (1 ∷ []) ≡ false))
unfolding program
take_task-fresh_example =
    take_task-fresh tasks (record { scheduler = taken; handed_out = 1 ∷ [] })
      (step (step (step here (submits "d" 1)) (submits "c" 0)) takes)

cancel_task-lost_example :
    let answer = cancel_task "b" taken in
    let started = start_task 1 answer.1 in
    (answer.0 ≡ true)
    × ((answer.1.queue.tasks 1).state ≡ cancelled)
    × ((started.queue.tasks 1).state ≡ running)
    × (((execute_task 1 started).queue.tasks 1).state ≡ completed)
unfolding program
cancel_task-lost_example = cancel_task-lost taken 1 refl refl
