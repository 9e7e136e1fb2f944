-- ===== src/Distributed/Scheduler/Cancellation.antt =====
-- What becomes of a task that is cancelled while it is scheduled.
use recoverx_cli.Prelude.{ℕ, ◌≡◌, refl, ap, ◌∙◌, true, some, [], arith}
use Prim.Native.String.{String}
use recoverx_cli.Utils.Dict.{lookup}
use recoverx_cli.Distributed.Models.{
  Store, Task, is_assigned, cancelled, running, completed, TaskState, write, set_state,
}
use recoverx_cli.Distributed.Queue.{TaskQueue, complete, cancel}
use recoverx_cli.Distributed.Scheduler.{
  Scheduler, start_task, run_task, run_result, finish_task, cancel_task, execute_task,
}

write-same : (tasks : Store) (ref : ℕ) (task : Task) → write tasks ref task ref ≡ task
unfolding write
write-same tasks ref task = ground arith

cancel-assigned :
    (q : TaskQueue) (ref : ℕ) (task_id : String)
    → is_assigned (q.tasks ref).state ≡ true
    → lookup task_id q.all_tasks ≡ some ref
    → cancel task_id q ≡ (true, record q { tasks = set_state q.tasks ref cancelled })
unfolding cancel
cancel-assigned q ref task_id a found = rw found (ground (arith, a))

complete-state :
    (q : TaskQueue) (ref : ℕ) (task_id : String)
    → lookup task_id q.all_tasks ≡ some ref
    → ((complete task_id [] q).tasks ref).state ≡ completed
unfolding complete
complete-state q ref task_id found =
    rw found (ap (λ (task : Task). task.state) (write-same q.tasks ref _))

execute_task-state :
    (s : Scheduler) (ref : ℕ)
    → lookup (s.queue.tasks ref).task_id s.queue.all_tasks ≡ some ref
    → ((execute_task ref s).queue.tasks ref).state ≡ completed
unfolding execute_task finish_task run_task
execute_task-state s ref found =
    let q = s.queue in
    let result = run_result (q.tasks ref) in
    let same = write-same q.tasks ref (record (q.tasks ref) { result = result }) in
    complete-state _ ref _ (ap (λ (task : Task). lookup task.task_id q.all_tasks) same ∙ found)

state_written :
    (tasks : Store) (ref : ℕ) (state : TaskState) → (set_state tasks ref state ref).state ≡ state
unfolding set_state
state_written tasks ref state = ap (λ (task : Task). task.state) (write-same tasks ref _)

id_written :
    (tasks : Store) (ref : ℕ) (state : TaskState)
    → (set_state tasks ref state ref).task_id ≡ (tasks ref).task_id
unfolding set_state
id_written tasks ref state = ap (λ (task : Task). task.task_id) (write-same tasks ref _)

-- A task that `schedule` has taken and not yet started: `cancel` says that it is cancelled, and the
-- scheduler starts it all the same, runs it and completes it.
pub cancel_task-lost :
    (s : Scheduler) (ref : ℕ)
    → is_assigned (s.queue.tasks ref).state ≡ true
    → lookup (s.queue.tasks ref).task_id s.queue.all_tasks ≡ some ref
    → let answer = cancel_task (s.queue.tasks ref).task_id s in
      let started = start_task ref answer.1 in
      (answer.0 ≡ true)
      × ((answer.1.queue.tasks ref).state ≡ cancelled)
      × ((started.queue.tasks ref).state ≡ running)
      × (((execute_task ref started).queue.tasks ref).state ≡ completed)
unfolding cancel_task start_task
cancel_task-lost s ref a found =
    let tasks = s.queue.tasks in
    let same_id =
      id_written (set_state tasks ref cancelled) ref running ∙ id_written tasks ref cancelled in
    rw (cancel-assigned s.queue ref (s.queue.tasks ref).task_id a found) (
      refl,
      state_written tasks ref cancelled,
      state_written (set_state tasks ref cancelled) ref running,
      execute_task-state _ ref (ap (λ task_id. lookup task_id s.queue.all_tasks) same_id ∙ found),
    )
