-- ===== src/Distributed/Queue/Invariant.antt =====
-- The invariant of the queue: entries in order, and an entry for each pending task.
use recoverx_cli.Prelude.{
  ℕ, ◌+◌, ◌≡◌, refl, inl, inr, Bool, true, false, ◌||◌, Option, none, some, List, [], ◌∷◌, arith,
  ◌==◌, ==_iff, Bool-cases, Option-cases,
}
use mathlib.Core.Bool.{false≢true}
use Prim.Native.String.{String}
use recoverx_cli.Utils.Dict.{lookup, lookup-put}
use recoverx_cli.Distributed.Models.{Store, is_pending, set_state, write, priority_value}
use recoverx_cli.Distributed.Queue.{Entry, TaskQueue, heappush, enqueue, push, pop_from, pop}
use recoverx_cli.Distributed.Queue.Order.{
  IsSorted, AllNumbered, heappush-IsSorted, heappush-AllNumbered, AllNumbered-mono, IsFirst,
  pop_from-IsFirst,
}

-- An entry of the task stands in the heap.
unfoldable pub queued : ℕ → List Entry → Bool
queued ref [] = false
queued ref (e ∷ es) = e.task == ref || queued ref es

pub record IsValid (q : TaskQueue) : Type 0 where
  pub sorted : IsSorted q.queue
  pub numbered : AllNumbered q.counter q.queue
  pub tracked :
      (task_id : String) (ref : ℕ)
      → lookup task_id q.all_tasks ≡ some ref
      → is_pending (q.tasks ref).state ≡ true
      → queued ref q.queue ≡ true

pub queued-heappush :
    (ref : ℕ) (e : Entry) (es : List Entry)
    → queued ref (heappush e es) ≡ e.task == ref || queued ref es
unfolding queued heappush
queued-heappush ref e [] = refl
queued-heappush ref e (f ∷ fs) = ground (arith, queued-heappush ref e fs)

-- The entry that `pop_from` returns, if any, is of the task.
abbrev pub is_entry_of : ℕ → Option Entry → Bool
is_entry_of ref none = false
is_entry_of ref (some e) = e.task == ref

-- A pending task's entry is returned or left.
pop_from-queued :
    (tasks : Store) (ref : ℕ) (es : List Entry)
    → is_pending (tasks ref).state ≡ true
    → queued ref es ≡ true
    → is_entry_of ref (pop_from tasks es).0 || queued ref (pop_from tasks es).1 ≡ true
unfolding queued pop_from
pop_from-queued tasks ref [] p h = absurd (false≢true h)
pop_from-queued tasks ref (e ∷ es) p h = elim (Bool-cases (e.task == ref)) [
  | inl here ↦
      let same : e.task ≡ ref = (==_iff _ _).0 here in
      let q : is_pending (tasks e.task).state ≡ true = rw same p in ground (arith, q)
  | inr there ↦ elim (Bool-cases (is_pending (tasks e.task).state)) [
    | inl q ↦ rw q (ground arith)
    | inr q ↦ rw q (pop_from-queued tasks ref es p (ground arith))
  ]
]

pop_from-AllNumbered :
    (tasks : Store) (n : ℕ) (es : List Entry)
    → AllNumbered n es
    → AllNumbered n (pop_from tasks es).1
unfolding pop_from
pop_from-AllNumbered tasks n [] h = tt
pop_from-AllNumbered tasks n (e ∷ es) h = elim (Bool-cases (is_pending (tasks e.task).state)) [
  | inl p ↦ rw p h.1
  | inr p ↦ rw p (pop_from-AllNumbered tasks n es h.1)
]

IsFirst-IsSorted :
    (tasks : Store) (es : List Entry) (r : Option Entry × List Entry)
    → IsFirst tasks es r
    → IsSorted r.1
IsFirst-IsSorted tasks es (none, rest) h = rw (h.1) tt
IsFirst-IsSorted tasks es (some e, rest) h = h.3

-- A task that is put into the heap, with whatever is written to its object.
pub enqueue-IsValid : (q : TaskQueue) (ref : ℕ) → IsValid q → IsValid (enqueue ref q)
unfolding enqueue
enqueue-IsValid q ref v = record {
  sorted = heappush-IsSorted q.counter _ q.queue (omega arith) v.numbered v.sorted;
  numbered =
      heappush-AllNumbered (q.counter + 1) _ q.queue (omega arith)
        (AllNumbered-mono q.counter (q.counter + 1) q.queue (omega arith) v.numbered);
  tracked = λ task_id other found p. ground (
    arith,
    v.tracked task_id other found p,
    queued-heappush other
        (record {
          priority = priority_value (q.tasks ref).priority;
          order = q.counter + 1;
          task = ref;
        })
        q.queue,
  );
}

-- `push` keeps the invariant.
pub push-IsValid : (q : TaskQueue) (ref : ℕ) → IsValid q → IsValid (push ref q)
unfolding push enqueue
push-IsValid q ref v = record {
  sorted = (enqueue-IsValid q ref v).sorted;
  numbered = (enqueue-IsValid q ref v).numbered;
  tracked = λ task_id other found p. ground (
    arith,
    v.tracked task_id other,
    lookup-put (q.tasks ref).task_id task_id ref q.all_tasks,
    queued-heappush other
        (record {
          priority = priority_value (q.tasks ref).priority;
          order = q.counter + 1;
          task = ref;
        })
        q.queue,
  );
}

-- `pop` keeps the invariant.
pub pop-IsValid : (q : TaskQueue) → IsValid q → IsValid (pop q).1
unfolding pop set_state write
pop-IsValid q v =
    let first = pop_from-IsFirst q.tasks q.queue v.sorted in
    let sorted = IsFirst-IsSorted q.tasks q.queue (pop_from q.tasks q.queue) first in
    let numbered = pop_from-AllNumbered q.tasks q.counter q.queue v.numbered in
    elim (Option-cases (pop_from q.tasks q.queue).0) [
      | inl e ↦ rw e (record {
        sorted = sorted;
        numbered = numbered;
        tracked = λ task_id ref found p.
            ground
              (arith, e, pop_from-queued q.tasks ref q.queue p (v.tracked task_id ref found p));
      })
      | inr (entry, e) ↦ rw e (record {
        sorted = sorted;
        numbered = numbered;
        tracked = λ task_id ref found p.
            ground (arith, e, v.tracked task_id ref found, pop_from-queued q.tasks ref q.queue);
      })
    ]
