-- ===== src/Distributed/Scheduler/Steps.antt =====
-- The threads of the scheduler: their steps in any order, and what stays true.
use recoverx_cli.Prelude.{
  ℕ, ◌≡◌, sym, ◌∙◌, ◌⊎◌, inl, inr, Bool, true, false, ◌||◌, Option, none, some, List, [], ◌∷◌,
  arith, ◌==◌, Bool-cases,
}
use mathlib.Core.Bool.{false≢true}
use Prim.Native.String.{String}
use text.Mathlib.Text.{◌==◌ as str_eq}
use recoverx_cli.Utils.Dict.{lookup}
use recoverx_cli.Distributed.Models.{Store, is_pending, write, set_state}
use recoverx_cli.Distributed.Queue.{
  TaskQueue, Entry, push, enqueue, pop, pop_from, take_entry, complete,
  complete_task as queue_complete, cancel, cancel_task as queue_cancel,
}
use recoverx_cli.Distributed.Queue.Invariant.{IsValid, push-IsValid, pop-IsValid}
use recoverx_cli.Distributed.Queue.Steps.{
  write-IsValid, complete_task-IsValid, cancel_task-IsValid, NothingPending, pop-TakesFirst,
}
use recoverx_cli.Distributed.Scheduler.{
  Scheduler, submit, take_task, start_task, run_task, finish_task, cancel_task,
}

unfoldable pub mem : ℕ → List ℕ → Bool
mem ref [] = false
mem ref (r ∷ refs) = r == ref || mem ref refs

-- The scheduler, and the tasks that `take_task` has handed out so far.
pub record Machine : Type 0 where
  pub scheduler : Scheduler
  pub handed_out : List ℕ

abbrev pub hand_out : Option ℕ × Scheduler → Machine → Machine
hand_out (none, s) m = record m { scheduler = s }
hand_out (some ref, s) m = record { scheduler = s; handed_out = ref ∷ m.handed_out }

-- One step of some thread. A task that was handed out is started, run and finished at any time.
pub data Step (m : Machine) : Machine → Type 0 where
  submits :
      (new_id : String) (ref : ℕ)
      → Step m (record m { scheduler = (submit new_id ref m.scheduler).1 })
  takes : Step m (hand_out (take_task m.scheduler) m)
  starts :
      (ref : ℕ)
      → mem ref m.handed_out ≡ true
      → Step m (record m { scheduler = start_task ref m.scheduler })
  runs :
      (ref : ℕ)
      → mem ref m.handed_out ≡ true
      → Step m (record m { scheduler = run_task ref m.scheduler })
  finishes :
      (ref : ℕ)
      → mem ref m.handed_out ≡ true
      → Step m (record m { scheduler = finish_task ref m.scheduler })
  cancels :
      (task_id : String) → Step m (record m { scheduler = (cancel_task task_id m.scheduler).1 })

pub data Reaches (start : Machine) : Machine → Type 0 where
  here : Reaches start start
  step : {m n : Machine} → Reaches start m → Step m n → Reaches start n

-- The queue's invariant holds, and no task that was handed out is pending.
pub record IsSafe (m : Machine) : Type 0 where
  pub queue_valid : IsValid m.scheduler.queue
  pub not_pending :
      (ref : ℕ)
      → mem ref m.handed_out ≡ true
      → is_pending (m.scheduler.queue.tasks ref).state ≡ false

-- No task becomes pending.
abbrev NoneRevived : Scheduler → Scheduler → Type 0
NoneRevived s after =
    (ref : ℕ)
    → is_pending (after.queue.tasks ref).state ≡ true
    → is_pending (s.queue.tasks ref).state ≡ true

not_true : (b c : Bool) → (b ≡ true → c ≡ true) → c ≡ false → b ≡ false
not_true b c h k = ground arith

IsSafe-after :
    (m : Machine) (after : Scheduler)
    → IsValid after.queue
    → NoneRevived m.scheduler after
    → IsSafe m
    → IsSafe (record m { scheduler = after })
IsSafe-after m after v keeps safe = record {
  queue_valid = v;
  not_pending = λ ref given. not_true _ _ (keeps ref) (safe.not_pending ref given);
}

submit-lem :
    (new_id : String) (ref : ℕ) (s : Scheduler)
    → IsValid s.queue
    → IsValid (submit new_id ref s).1.queue × NoneRevived s (submit new_id ref s).1
unfolding submit
submit-lem new_id ref s v = elim (Bool-cases (str_eq (s.queue.tasks ref).task_id "")) [
  | inl e ↦ rw e (
    push-IsValid _ ref (write-IsValid s.queue ref _ (λ p. p) v),
    λ other p. unfold push enqueue write in ground arith,
  )
  | inr e ↦ rw e (push-IsValid s.queue ref v, λ other p. unfold push enqueue in p)
]

start_task-lem :
    (ref : ℕ) (s : Scheduler)
    → IsValid s.queue
    → IsValid (start_task ref s).queue × NoneRevived s (start_task ref s)
unfolding start_task set_state
start_task-lem ref s v = (
  write-IsValid s.queue ref _ (λ p. absurd (false≢true p)) v,
  λ other p. unfold write in ground arith,
)

run_task-lem :
    (ref : ℕ) (s : Scheduler)
    → IsValid s.queue
    → IsValid (run_task ref s).queue × NoneRevived s (run_task ref s)
unfolding run_task
run_task-lem ref s v =
    (write-IsValid s.queue ref _ (λ p. p) v, λ other p. unfold write in ground arith)

complete_revives_none :
    (found : Option ℕ) (task_id : String) (q : TaskQueue) (other : ℕ)
    → is_pending ((queue_complete found task_id [] q).tasks other).state ≡ true
    → is_pending (q.tasks other).state ≡ true
unfolding write
complete_revives_none none task_id q other p = p
complete_revives_none (some ref) task_id q other p = ground arith

cancel_revives_none :
    (found : Option ℕ) (q : TaskQueue) (other : ℕ)
    → is_pending ((queue_cancel found q).1.tasks other).state ≡ true
    → is_pending (q.tasks other).state ≡ true
unfolding set_state write
cancel_revives_none none q other p = p
cancel_revives_none (some ref) q other p = ground arith

finish_task-lem :
    (ref : ℕ) (s : Scheduler)
    → IsValid s.queue
    → IsValid (finish_task ref s).queue × NoneRevived s (finish_task ref s)
unfolding finish_task complete
finish_task-lem ref s v =
    let task_id = (s.queue.tasks ref).task_id in
    (
      complete_task-IsValid (lookup task_id s.queue.all_tasks) task_id [] s.queue v,
      λ other p. complete_revives_none (lookup task_id s.queue.all_tasks) task_id s.queue other p,
    )

cancel_task-lem :
    (task_id : String) (s : Scheduler)
    → IsValid s.queue
    → IsValid (cancel_task task_id s).1.queue × NoneRevived s (cancel_task task_id s).1
unfolding cancel_task cancel
cancel_task-lem task_id s v = (
  cancel_task-IsValid (lookup task_id s.queue.all_tasks) s.queue v,
  λ other p. cancel_revives_none (lookup task_id s.queue.all_tasks) s.queue other p,
)

hand_out-IsSafe :
    (m : Machine) (r : Option Entry × List Entry)
    → IsValid (take_entry r.0 (record (m.scheduler.queue) { queue = r.1 })).1
    → IsSafe m
    → IsSafe (
        hand_out
          (
            (take_entry r.0 (record (m.scheduler.queue) { queue = r.1 })).0,
            record (m.scheduler) {
              queue = (take_entry r.0 (record (m.scheduler.queue) { queue = r.1 })).1;
            },
          )
          m)
hand_out-IsSafe m (none, rest) v safe = record { queue_valid = v; not_pending = safe.not_pending }
hand_out-IsSafe m (some e, rest) v safe = record {
  queue_valid = v;
  not_pending = λ ref given. unfold mem set_state write in ground (arith, safe.not_pending ref);
}

take_task-IsSafe : (m : Machine) → IsSafe m → IsSafe (hand_out (take_task m.scheduler) m)
unfolding take_task
take_task-IsSafe m safe =
    let q = m.scheduler.queue in
    let v = pop-IsValid q safe.queue_valid in
    unfold pop in hand_out-IsSafe m (pop_from q.tasks q.queue) v safe

Step-IsSafe : {m n : Machine} → Step m n → IsSafe m → IsSafe n
Step-IsSafe {m} (submits new_id ref) safe =
    let (v, keeps) = submit-lem new_id ref m.scheduler safe.queue_valid in
    IsSafe-after m _ v keeps safe
Step-IsSafe {m} takes safe = take_task-IsSafe m safe
Step-IsSafe {m} (starts ref given) safe =
    let (v, keeps) = start_task-lem ref m.scheduler safe.queue_valid in
    IsSafe-after m _ v keeps safe
Step-IsSafe {m} (runs ref given) safe =
    let (v, keeps) = run_task-lem ref m.scheduler safe.queue_valid in IsSafe-after m _ v keeps safe
Step-IsSafe {m} (finishes ref given) safe =
    let (v, keeps) = finish_task-lem ref m.scheduler safe.queue_valid in
    IsSafe-after m _ v keeps safe
Step-IsSafe {m} (cancels task_id) safe =
    let (v, keeps) = cancel_task-lem task_id m.scheduler safe.queue_valid in
    IsSafe-after m _ v keeps safe

Reaches-IsSafe : {start m : Machine} → Reaches start m → IsSafe start → IsSafe m
Reaches-IsSafe here safe = safe
Reaches-IsSafe (step before s) safe = Step-IsSafe s (Reaches-IsSafe before safe)

-- The scheduler with an empty queue, whatever the objects of the tasks hold.
abbrev pub new_machine : Store → Machine
new_machine tasks = record {
  scheduler = record {
    queue = record { tasks = tasks; queue = []; counter = 0; all_tasks = []; completed_tasks = [] };
    running_tasks = [];
  };
  handed_out = [];
}

not_known : {A : Type 0} (task_id : String) (ref : ℕ) → lookup task_id [] ≡ some ref → A
unfolding lookup
not_known task_id ref found = absurd (cc)

new_machine-IsSafe : (tasks : Store) → IsSafe (new_machine tasks)
unfolding mem
new_machine-IsSafe tasks = record {
  queue_valid = record {
    sorted = tt;
    numbered = tt;
    tracked = λ task_id ref found p. not_known task_id ref found;
  };
  not_pending = λ ref given. absurd (false≢true given);
}

fresh :
    (m : Machine)
    → IsSafe m
    → (ref : ℕ) → is_pending (m.scheduler.queue.tasks ref).state ≡ true
    → mem ref m.handed_out ≡ false
fresh m safe ref p = elim (Bool-cases (mem ref m.handed_out)) [
  | inl given ↦ absurd (false≢true (sym (safe.not_pending ref given) ∙ p))
  | inr not_given ↦ not_given
]

-- Whatever threads submit, take, start, run, finish and cancel tasks of a new scheduler, in any
-- order of these steps: a task that the scheduler takes next has not been handed out before, and it
-- takes none only when no known task is pending.
pub take_task-fresh :
    (tasks : Store) (m : Machine)
    → Reaches (new_machine tasks) m
    → (((take_task m.scheduler).0 ≡ none) × NothingPending m.scheduler.queue)
      ⊎ ((ref : ℕ) × ((take_task m.scheduler).0 ≡ some ref) × (mem ref m.handed_out ≡ false))
unfolding take_task
take_task-fresh tasks m reached =
    let safe = Reaches-IsSafe reached (new_machine-IsSafe tasks) in
    elim (pop-TakesFirst m.scheduler.queue safe.queue_valid) [
      | inl (none_taken, none_queued, known) ↦ inl (none_taken, known)
      | inr (e, found, p, stands, others, assigned_now) ↦ inr (e.task, found, fresh m safe e.task p)
    ]
