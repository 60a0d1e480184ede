-- ===== src/Co/TaskScope.antt =====
-- include/uvpp/co/task_scope.hpp: the children that a scope owns, their completion and the join. A
-- child is named by its position in `children_`, which never loses one before the join finishes.
pub mod Join
use uvpp.Base.{
  ℕ, zero, suc, ◌+◌, ◌-◌, Bool, true, false, ◌&&◌, not, Option, none, some, List, [], ◌∷◌, ◌++◌,
  ◌==◌, if◌then◌else◌, is_some,
}
use uvpp.Core.Error.{Exn, Outcome, logic_error, returned, thrown}

-- child_record
pub record Child : Type 0 where
  pub handle : ℕ
  pub completed : Bool

-- `halted` is the state of `cancellation_`, which Co.Cancellation models.
pub record TaskScope : Type 0 where
  pub loop : ℕ
  pub halted : Bool
  pub children : List Child
  pub join_continuation : Option ℕ
  pub first_failure : Option Exn
  pub active_children : ℕ
  pub completion_depth : ℕ
  pub join_started : Bool

unfoldable pub construct : ℕ → TaskScope
construct loop = record {
  loop = loop;
  halted = false;
  children = [];
  join_continuation = none;
  first_failure = none;
  active_children = 0;
  completion_depth = 0;
  join_started = false;
}

-- ~task_scope: whether it terminates.
unfoldable pub destroy_terminates : TaskScope → Bool
destroy_terminates s = elim s.children [ [] ↦ false | c ∷ cs ↦ true ]

-- `spawn` up to the child's first resumption. A task that was started before is refused by its
-- promise's `bind`; the handle of an invalid task is null.
unfoldable pub spawn : TaskScope → Option ℕ → Bool → Outcome TaskScope
spawn s task started = if s.join_started then thrown logic_error else elim task [
  | none ↦ thrown logic_error
  | some h ↦
      if started
      then thrown logic_error
      else returned (record s {
        children = s.children ++ record { handle = h; completed = false } ∷ [];
        active_children = s.active_children + 1;
      })
]

-- join_awaiter::await_suspend
unfoldable pub await_join : TaskScope → ℕ → ℕ → Outcome (TaskScope × Bool)
await_join s loop continuation =
    if not (loop == s.loop)
    then thrown logic_error
    else if s.join_started
    then thrown logic_error
    else (let t = record s { join_started = true } in
        if t.active_children == 0
        then returned (t, false)
        else returned (record t { join_continuation = some continuation }, true))

-- child.completed = true
unfoldable pub mark : ℕ → List Child → List Child
mark i [] = []
mark zero (c ∷ cs) = record c { completed = true } ∷ cs
mark (suc i) (c ∷ cs) = c ∷ mark i cs

-- request_stop
unfoldable pub request_stop : TaskScope → TaskScope
request_stop s = record s { halted = true }

-- `child_completed` up to the end of the handler of the child's exception, where there is one: the
-- stop callbacks run after it, before `complete_end`.
unfoldable pub complete_begin : TaskScope → ℕ → Option Exn → TaskScope
unfolding mark request_stop
complete_begin s i failure =
    let t = record s {
      completion_depth = s.completion_depth + 1;
      children = mark i s.children;
      active_children = s.active_children - 1;
    } in
    elim failure [
      | none ↦ t
      | some x ↦
          if is_some s.first_failure then t else request_stop (record t { first_failure = some x })
    ]

-- The rest of `child_completed`: the coroutine that it returns.
unfoldable pub complete_end : TaskScope → TaskScope × Option ℕ
complete_end s =
    let t = record s { completion_depth = s.completion_depth - 1 } in
    if t.active_children == 0 && (is_some t.join_continuation && t.completion_depth == 0)
    then (record t { join_continuation = none }, t.join_continuation)
    else (t, none)

abbrev pub all_completed : List Child → Bool
all_completed [] = true
all_completed (c ∷ cs) = c.completed && all_completed cs

abbrev pub handles : List Child → List ℕ
handles [] = []
handles (c ∷ cs) = c.handle ∷ handles cs

-- What `finish_join` leaves: the scope, the frames it destroyed in order and what it rethrows.
pub record Joined : Type 0 where
  pub scope : TaskScope
  pub destroyed : List ℕ
  pub rethrown : Option Exn

-- `finish_join`; `none` stands for an assertion that fails.
unfoldable pub finish_join : TaskScope → Option Joined
finish_join s =
    if s.active_children == 0 && (s.completion_depth == 0 && all_completed s.children)
    then some (record {
      scope = record s { children = []; first_failure = none };
      destroyed = handles s.children;
      rethrown = s.first_failure;
    })
    else none
