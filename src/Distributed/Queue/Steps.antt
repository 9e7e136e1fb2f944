-- ===== src/Distributed/Queue/Steps.antt =====
-- The operations of the queue: the invariant behind them, and the task that `pop` takes.
use recoverx_cli.Prelude.{
  ℕ, ◌+◌, ◌≡◌, refl, sym, ap, ◌∙◌, ◌⊎◌, inl, inr, true, false, ◌||◌, Option, none, some, List, [],
  ◌∷◌, arith, ltb, ◌==◌, ==_iff, Bool-cases,
}
use mathlib.Core.Bool.{false≢true}
use Prim.Native.String.{String}
use recoverx_cli.Utils.Dict.{lookup}
use recoverx_cli.Distributed.Models.{
  Store, Task, Params, is_pending, is_assigned, assigned, completed, set_state, write,
  priority_value,
}
use recoverx_cli.Distributed.Queue.{
  Entry, TaskQueue, enqueue, push, pop_from, take_entry, pop, with_result, complete_task, complete,
  fail_task, fail, cancel_task, cancel, clear_completed,
}
use recoverx_cli.Distributed.Queue.Order.{
  heappush-IsSorted, heappush-AllNumbered, AllNumbered-mono, IsFirst, pop_from-IsFirst,
  PendingAfter, NonePending, Stands,
}
use recoverx_cli.Distributed.Queue.Invariant.{
  queued, IsValid, queued-heappush, push-IsValid, pop-IsValid,
}

-- An object is written that is not pending, unless it was before.
pub write-IsValid :
    (q : TaskQueue) (ref : ℕ) (task : Task)
    → (is_pending task.state ≡ true → is_pending (q.tasks ref).state ≡ true)
    → IsValid q
    → IsValid (record q { tasks = write q.tasks ref task })
unfolding write
write-IsValid q ref task s v = record {
  sorted = v.sorted;
  numbered = v.numbered;
  tracked = λ task_id other found p. ground (arith, s, v.tracked task_id other found);
}

-- An object is written and its task put into the heap.
enqueue_written-IsValid :
    (q : TaskQueue) (ref : ℕ) (task : Task)
    → IsValid q
    → IsValid (enqueue ref (record q { tasks = write q.tasks ref task }))
unfolding enqueue write
enqueue_written-IsValid q ref task v =
    let entry : Entry = record {
      priority = priority_value task.priority;
      order = q.counter + 1;
      task = ref;
    } in
    let same : (ref == ref) ≡ true = ground arith in
    rw same (record {
      sorted = heappush-IsSorted q.counter entry q.queue (omega arith) v.numbered v.sorted;
      numbered =
          heappush-AllNumbered (q.counter + 1) entry q.queue (omega arith)
            (AllNumbered-mono q.counter (q.counter + 1) q.queue (omega arith) v.numbered);
      tracked = λ task_id other found p.
          ground (arith, v.tracked task_id other found, queued-heappush other entry q.queue);
    })

pub state-with_result :
    (result : Params) (task : Task) → (with_result result task).state ≡ task.state
state-with_result [] task = refl
state-with_result (item ∷ items) task = refl

pub complete_task-IsValid :
    (found : Option ℕ) (task_id : String) (result : Params) (q : TaskQueue)
    → IsValid q
    → IsValid (complete_task found task_id result q)
complete_task-IsValid none task_id result q v = v
complete_task-IsValid (some ref) task_id result q v =
    let done = with_result result (record (q.tasks ref) { state = completed }) in
    let w =
      write-IsValid q ref done
        (λ p. absurd (
          false≢true (
            sym (
              ap is_pending (state-with_result result (record (q.tasks ref) { state = completed })))
            ∙ p)))
        v in
    record { sorted = w.sorted; numbered = w.numbered; tracked = w.tracked }

fail_task-IsValid :
    (found : Option ℕ) (error : String) (q : TaskQueue)
    → IsValid q
    → IsValid (fail_task found error q)
fail_task-IsValid none error q v = v
fail_task-IsValid (some ref) error q v =
    elim (Bool-cases (ltb (q.tasks ref).retry_count (q.tasks ref).max_retries)) [
      | inl e ↦ rw e (enqueue_written-IsValid q ref _ v)
      | inr e ↦ rw e (write-IsValid q ref _ (λ p. absurd (false≢true p)) v)
    ]

pub cancel_task-IsValid :
    (found : Option ℕ) (q : TaskQueue) → IsValid q → IsValid (cancel_task found q).1
unfolding set_state
cancel_task-IsValid none q v = v
cancel_task-IsValid (some ref) q v =
    elim (Bool-cases (is_pending (q.tasks ref).state || is_assigned (q.tasks ref).state)) [
      | inl e ↦ rw e (write-IsValid q ref _ (λ p. absurd (false≢true p)) v)
      | inr e ↦ rw e v
    ]

-- A call of the queue, in any order; the arguments are the caller's.
pub data Call : Type 0 where
  push_call : ℕ → Call
  pop_call : Call
  complete_call : String → Params → Call
  fail_call : String → String → Call
  cancel_call : String → Call
  clear_call : Call

unfoldable pub after_call : Call → TaskQueue → TaskQueue
after_call (push_call ref) q = push ref q
after_call pop_call q = (pop q).1
after_call (complete_call task_id result) q = complete task_id result q
after_call (fail_call task_id error) q = fail task_id error q
after_call (cancel_call task_id) q = (cancel task_id q).1
after_call clear_call q = clear_completed q

unfoldable pub after_calls : List Call → TaskQueue → TaskQueue
after_calls [] q = q
after_calls (c ∷ cs) q = after_calls cs (after_call c q)

after_call-IsValid : (c : Call) (q : TaskQueue) → IsValid q → IsValid (after_call c q)
unfolding after_call complete fail cancel clear_completed
after_call-IsValid (push_call ref) q v = push-IsValid q ref v
after_call-IsValid pop_call q v = pop-IsValid q v
after_call-IsValid (complete_call task_id result) q v =
    complete_task-IsValid (lookup task_id q.all_tasks) task_id result q v
after_call-IsValid (fail_call task_id error) q v =
    fail_task-IsValid (lookup task_id q.all_tasks) error q v
after_call-IsValid (cancel_call task_id) q v = cancel_task-IsValid (lookup task_id q.all_tasks) q v
after_call-IsValid clear_call q v = record {
  sorted = v.sorted;
  numbered = v.numbered;
  tracked = v.tracked;
}

-- Whatever calls are made of a valid queue, in any order, it stays valid: the heap stays in order
-- and no pending task that the queue knows is missing from the heap.
pub after_calls-IsValid : (cs : List Call) (q : TaskQueue) → IsValid q → IsValid (after_calls cs q)
unfolding after_calls
after_calls-IsValid [] q v = v
after_calls-IsValid (c ∷ cs) q v =
    after_calls-IsValid cs (after_call c q) (after_call-IsValid c q v)

none_queued :
    (tasks : Store) (es : List Entry) (ref : ℕ)
    → NonePending tasks es
    → queued ref es ≡ true
    → is_pending (tasks ref).state ≡ false
unfolding queued
none_queued tasks [] ref h k = absurd (false≢true k)
none_queued tasks (e ∷ es) ref h k = elim (Bool-cases (e.task == ref)) [
  | inl here ↦ let same : e.task ≡ ref = (==_iff _ _).0 here in rw same at (h.0)
  | inr there ↦ none_queued tasks es ref h.1 (ground arith)
]

-- No known task is pending.
abbrev pub NothingPending : TaskQueue → Type 0
NothingPending q =
    (task_id : String) (ref : ℕ)
    → lookup task_id q.all_tasks ≡ some ref
    → is_pending (q.tasks ref).state ≡ false

-- A pending task was taken: its entry is the first of the pending ones, and it is assigned now.
abbrev pub TakesFirst : TaskQueue → Option ℕ × TaskQueue → Type 0
TakesFirst q result =
    (e : Entry) × (result.0 ≡ some e.task)
    × (is_pending (q.tasks e.task).state ≡ true)
    × Stands e q.queue
    × PendingAfter q.tasks e q.queue
    × ((result.1.tasks e.task).state ≡ assigned)

take_entry_lem :
    (q : TaskQueue) (es : List Entry) (r : Option Entry × List Entry)
    → es ≡ q.queue
    → IsValid q
    → IsFirst q.tasks es r
    → (((take_entry r.0 (record q { queue = r.1 })).0 ≡ none)
        × NonePending q.tasks q.queue
        × NothingPending q)
      ⊎ TakesFirst q (take_entry r.0 (record q { queue = r.1 }))
unfolding set_state write
take_entry_lem q es (none, rest) same v h = inl (
  refl,
  rw same at (h.0),
  λ task_id ref found. elim (Bool-cases (is_pending (q.tasks ref).state)) [
    | inl p ↦ none_queued q.tasks es ref h.0 (rw same (v.tracked task_id ref found p))
    | inr p ↦ p
  ],
)
take_entry_lem q es (some e, rest) same v h =
    inr (e, refl, h.0, (rw same at (h.1)), (rw same at (h.2)), ground arith)

-- `pop` on a valid queue returns None, and then no entry of the heap is of a pending task, nor is any
-- known task pending; or a pending entry stands in the heap, and `pop` returns its task, which it
-- marks as assigned: of the pending entries it is one of the highest priority, and of these the one
-- that was pushed first.
pub pop-TakesFirst :
    (q : TaskQueue)
    → IsValid q
    → (((pop q).0 ≡ none) × NonePending q.tasks q.queue × NothingPending q) ⊎ TakesFirst q (pop q)
unfolding pop
pop-TakesFirst q v =
    take_entry_lem q q.queue (pop_from q.tasks q.queue) refl v
      (pop_from-IsFirst q.tasks q.queue v.sorted)
