-- ===== src/Co/Task.antt =====
-- include/uvpp/co/task.hpp up to `stop_requested`: the promise of a task, its frame and the await of
-- a task by another one. What a coroutine's body does is its outcome; the compiler calls
-- `return_value` or `unhandled_exception` with it and then suspends the frame finally.
use uvpp.Base.{ℕ, ◌≡◌, refl, Bool, true, false, Option, none, some, arith}
use uvpp.Core.Error.{Exn, Outcome, logic_error, returned, thrown}

-- task_promise_base; `completion` is the context of the completion callback, if there is one.
pub record Promise : Type 0 where
  pub execution_loop : Option ℕ
  pub cancellation : Option ℕ
  pub continuation : Option ℕ
  pub completion : Option ℕ

unfoldable pub new_promise : Promise
new_promise = record {
  execution_loop = none;
  cancellation = none;
  continuation = none;
  completion = none;
}

-- task_promise_base::bind
unfoldable pub bind : Promise → ℕ → Option ℕ → Outcome Promise
bind p loop cancellation = elim p.execution_loop [
  | some l ↦ thrown logic_error
  | none ↦ returned (record p { execution_loop = some loop; cancellation = cancellation })
]

-- task_promise_base::execution_loop
unfoldable pub execution_loop_of : Promise → Outcome ℕ
execution_loop_of p = elim p.execution_loop [ some l ↦ returned l | none ↦ thrown logic_error ]

unfoldable pub set_continuation : Promise → ℕ → Promise
set_continuation p h = record p { continuation = some h }

unfoldable pub set_completion : Promise → ℕ → Promise
set_completion p context = record p { completion = some context }

-- Where a finished coroutine goes: to a continuation, into its completion callback, or nowhere.
pub data Transfer : Type 0 where
  resumes completes : ℕ → Transfer
  stays : Transfer

-- task_final_awaiter::await_suspend with task_promise_base::complete
unfoldable pub final_suspend : Promise → Transfer
final_suspend p = elim p.continuation [
  | some h ↦ resumes h
  | none ↦ elim p.completion [ some context ↦ completes context | none ↦ stays ]
]

-- A frame with its promise_type; `done` says that it is suspended finally.
pub record Frame (A : Type 0) : Type 0 where
  pub promise : Promise
  pub value : Option A
  pub failure : Option Exn
  pub done : Bool

module _ {A : Type 0} where
  -- The frame of a task that has not been started.
  unfoldable pub cold : Frame A
  unfolding new_promise
  cold = record { promise = new_promise; value = none; failure = none; done = false }

  unfoldable pub return_value : Frame A → A → Frame A
  return_value f a = record f { value = some a }

  unfoldable pub unhandled_exception : Frame A → Exn → Frame A
  unhandled_exception f x = record f { failure = some x }

  -- The end of a body.
  unfoldable pub finish : Frame A → Outcome A → Frame A
  unfolding return_value unhandled_exception
  finish f (returned a) = record (return_value f a) { done = true }
  finish f (thrown x) = record (unhandled_exception f x) { done = true }

  unfoldable pub rethrow_if_failed : Frame A → Outcome (Unit {0})
  rethrow_if_failed f = elim f.failure [ some x ↦ thrown x | none ↦ returned tt ]

  unfoldable pub take_result : Frame A → Frame A × Outcome A
  unfolding rethrow_if_failed
  take_result f = elim (rethrow_if_failed f) [
    | thrown x ↦ (f, thrown x)
    | returned u ↦ elim f.value [
      | none ↦ (f, thrown logic_error)
      | some a ↦ (record f { value = none }, returned a)
    ]
  ]

  -- task::awaiter::await_suspend: the child's frame, which runs next, for the parent's promise and
  -- its handle.
  unfoldable pub await_task : Frame A → Promise → ℕ → Outcome (Frame A)
  unfolding execution_loop_of bind set_continuation
  await_task child parent h = elim (execution_loop_of parent) [
    | thrown x ↦ thrown x
    | returned l ↦ elim (bind child.promise l parent.cancellation) [
      | thrown x ↦ thrown x
      | returned p ↦ returned (record child { promise = set_continuation p h })
    ]
  ]

  -- task::awaiter::await_resume; the child's frame is destroyed in every case.
  unfoldable pub resume_task : Frame A → Outcome A
  unfolding take_result
  resume_task child = (take_result child).1

  -- A task that runs for a parent with the given cancellation state and handle.
  abbrev pub running : Option ℕ → ℕ → ℕ → Frame A
  unfolding cold new_promise
  running cancellation loop h = record cold {
    promise = record {
      execution_loop = some loop;
      cancellation = cancellation;
      continuation = some h;
      completion = none;
    };
  }

  -- Awaiting a task that was not started, from a task that runs on a loop: the child runs on that
  -- loop with the parent's cancellation state; whatever its body returns or throws, the parent is
  -- what runs when the body has ended, and its await returns or throws exactly that; and a second
  -- start of the child, running or ended, by a task that runs on a loop throws a logic error.
  pub resume_task-await_task :
      (parent q : Promise) (loop other h g : ℕ) (out : Outcome A)
      → parent.execution_loop ≡ some loop
      → q.execution_loop ≡ some other
      → let f = running parent.cancellation loop h in
        (await_task cold parent h ≡ returned f)
        × (final_suspend (finish f out).promise ≡ resumes h)
        × (resume_task (finish f out) ≡ out)
        × (await_task f q g ≡ thrown logic_error)
        × (await_task (finish f out) q g ≡ thrown logic_error)
  unfolding cold await_task final_suspend finish resume_task
  resume_task-await_task parent q loop other h g (returned a) i j =
      (ground arith, refl, refl, ground arith, ground arith)
  resume_task-await_task parent q loop other h g (thrown x) i j =
      (ground arith, refl, refl, ground arith, ground arith)
