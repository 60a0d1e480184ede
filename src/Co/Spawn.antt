-- ===== src/Co/Spawn.antt =====
-- include/uvpp/co/task.hpp, `spawn_handle` and `spawn`: the state that a root task shares with its
-- public handle, its completion baton and the awaiters of its join. The shared pointers are the
-- reference flags `held` and `running` and the count `awaiters`; the root's frame is destroyed with
-- the last of them. What becomes of the root's result is in its frame.
pub mod Destiny
use uvpp.Base.{
  ℕ, ◌+◌, ◌-◌, Bool, true, false, ◌||◌, not, Option, none, some, List, [], ◌∷◌, ◌++◌, ◌==◌,
  if◌then◌else◌, is_some,
}
use uvpp.Core.Error.{Exn, Outcome, logic_error, returned, thrown}
use uvpp.Co.Task.{Frame, bind, set_completion, finish, take_result, rethrow_if_failed}

-- spawn_handle::state. `baton` is the suspended baton; `reports` lists what the loop's handler of
-- unobserved failures was given, and `destroyed` counts the destructions of the frame.
pub record Root (A : Type 0) : Type 0 where
  pub frame : Frame A
  pub loop : ℕ
  pub stopped : Bool
  pub joiners : List ℕ
  pub baton : Bool
  pub completed : Bool
  pub abandoned : Bool  -- public_handle_abandoned
  pub failure_observed : Bool
  pub failure_reported : Bool
  pub held : Bool
  pub running : Bool
  pub awaiters : ℕ
  pub reports : List Exn
  pub destroyed : ℕ

module _ {A : Type 0} where
  abbrev pub is_shared : Root A → Bool
  is_shared s = s.held || (s.running || not (s.awaiters == 0))

  -- The end of a reference: the last one destroys the state, and `~state` the frame. `none` stands
  -- for `std::terminate`.
  unfoldable pub drop : Root A → Option (Root A)
  drop s =
      if is_shared s
      then some s
      else if not s.frame.done
      then none
      else some (record s { destroyed = s.destroyed + 1 })

  -- `spawn` up to the root's first resumption. The frame of an invalid task is `none`; `at` is the
  -- address of the new cancellation state and of the new state.
  unfoldable pub spawn : ℕ → Option (Frame A) → ℕ → Outcome (Root A)
  unfolding bind set_completion
  spawn loop task at = elim task [
    | none ↦ thrown logic_error
    | some f ↦ elim (bind f.promise loop (some at)) [
      | thrown x ↦ thrown x
      | returned p ↦ returned (record {
        frame = record f { promise = set_completion p at };
        loop = loop;
        stopped = false;
        joiners = [];
        baton = true;
        completed = false;
        abandoned = false;
        failure_observed = false;
        failure_reported = false;
        held = true;
        running = true;
        awaiters = 0;
        reports = [];
        destroyed = 0;
      })
    ]
  ]

  -- require_state of a handle whose state is null or not.
  unfoldable pub require_state : Option (Root A) → Outcome (Root A)
  require_state state = elim state [ none ↦ thrown logic_error | some s ↦ returned s ]

  -- completed_state
  unfoldable pub completed_state : Option (Root A) → Outcome (Root A)
  unfolding require_state
  completed_state state = elim (require_state state) [
    | thrown x ↦ thrown x
    | returned s ↦ if not s.completed then thrown logic_error else returned s
  ]

  -- state::observe_failure_if_present
  unfoldable pub observe_failure : Root A → Root A
  observe_failure s = if is_some s.frame.failure then record s { failure_observed = true } else s

  -- spawn_handle::rethrow_if_failed
  unfoldable pub rethrow : Root A → Root A × Outcome (Unit {0})
  unfolding completed_state observe_failure rethrow_if_failed
  rethrow s = elim (completed_state (some s)) [
    | thrown x ↦ (s, thrown x)
    | returned t ↦ (observe_failure t, rethrow_if_failed t.frame)
  ]

  -- spawn_handle::take_result
  unfoldable pub take : Root A → Root A × Outcome A
  unfolding completed_state observe_failure take_result
  take s = elim (completed_state (some s)) [
    | thrown x ↦ (s, thrown x)
    | returned t ↦
        (let (f, out) = take_result t.frame in (record (observe_failure t) { frame = f }, out))
  ]

  -- The construction of a join awaiter, and its destruction.
  unfoldable pub join : Root A → Root A
  join s = record s { awaiters = s.awaiters + 1 }

  unfoldable pub drop_join : Root A → Option (Root A)
  unfolding drop
  drop_join s = drop (record s { awaiters = s.awaiters - 1 })

  -- join_awaiter::await_suspend
  unfoldable pub await_join : Root A → ℕ → ℕ → Outcome (Root A × Bool)
  await_join s loop h =
      if not (loop == s.loop)
      then thrown logic_error
      else if s.completed
      then returned (s, false)
      else returned (record s { joiners = s.joiners ++ h ∷ [] }, true)

  -- spawn_handle::request_stop, without what the stop callbacks do.
  unfoldable pub request_stop : Root A → Root A
  request_stop s = record s { stopped = true }

  -- state::report_unobserved_failure_if_needed
  unfoldable pub report_if_needed : Root A → Root A
  report_if_needed s = elim s.frame.failure [
    | none ↦ s
    | some x ↦
        if s.failure_observed || s.failure_reported
        then s
        else record s { failure_reported = true; reports = s.reports ++ x ∷ [] }
  ]

  -- The end of the root's body, up to its transfer to the baton, which `on_completed` gives up.
  unfoldable pub end_root : Root A → Outcome A → Root A
  unfolding finish
  end_root s out = record s { frame = finish s.frame out; baton = false }

  -- state::deliver_completion up to its first resumption: the joiners that it then resumes.
  unfoldable pub deliver_begin : Root A → Root A × List ℕ
  deliver_begin s = (record s { completed = true; joiners = [] }, s.joiners)

  -- The rest of `deliver_completion`, and the end of the baton's reference.
  unfoldable pub deliver_end : Root A → Option (Root A)
  unfolding report_if_needed drop
  deliver_end s = drop (record (if s.abandoned then report_if_needed s else s) { running = false })

  -- spawn_handle::release of a handle with a state, up to the stop callbacks; the local reference
  -- that it keeps ends after them, with `release_end`.
  unfoldable pub release_begin : Root A → Root A
  unfolding request_stop report_if_needed
  release_begin s =
      if not s.completed then request_stop (record s { abandoned = true }) else report_if_needed s

  unfoldable pub release_end : Root A → Option (Root A)
  unfolding drop
  release_end s = drop (record s { held = false })
