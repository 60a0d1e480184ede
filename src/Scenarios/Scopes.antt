-- ===== src/Scenarios/Scopes.antt =====
-- Runs of task scopes and of resource scopes.
use uvpp.Base.{
  ◌+◌, ◌≡◌, refl, ◌≢◌, Bool, true, false, Option, none, some, List, [], ◌∷◌, ◌++◌, if◌then◌else◌,
  pos, negsuc, eqb,
}
use uvpp.Co.ResourceScope.{
  finish, Environment, Resource, Scope, finish_all, finish_phase, finish_kind, phase_of, opened,
  tcp_connection, tcp_listener, file,
}
use uvpp.Co.ResourceScope.Once.{attempts, attempts-released, count, is_finished}
use uvpp.Co.TaskScope.Join.{Run, Reach, spawns, completes, unwinds, start, next, born}
use uvpp.Core.Error.{returned, user}
use uvpp.Co.TaskScope.{TaskScope, spawn, await_join, mark, complete_begin, complete_end}
use uvpp.Co.ResourceScope.Ordered.{listeners, other_owners, owners, finish_all-returned}

-- Two children, of which the second fails and so stops the first inside its own completion.
abbrev nested : Run
nested = record {
  scope = record {
    loop = 1;
    halted = true;
    children =
        record { handle = 10; completed = true } ∷ record { handle = 20; completed = true } ∷ [];
    join_continuation = none;
    first_failure = some (user 7);
    active_children = 0;
    completion_depth = 0;
    join_started = true;
  };
  spawned = 10 ∷ 20 ∷ [];
  failures = user 7 ∷ user 8 ∷ [];
  resumed = 99 ∷ [];
}

nested-resumed : nested.resumed ≢ []
nested-resumed = cc

-- A child that completed before the join.
abbrev lone : TaskScope → Run
lone s = record { scope = s; spawned = 10 ∷ []; failures = []; resumed = [] }

abbrev done_scope : Bool → TaskScope
done_scope joined = record {
  loop = 1;
  halted = false;
  children = record { handle = 10; completed = true } ∷ [];
  join_continuation = none;
  first_failure = none;
  active_children = 0;
  completion_depth = 0;
  join_started = joined;
}

lone-Reach : Reach (born 1) (lone (done_scope false))
unfolding born spawn complete_begin complete_end mark
lone-Reach = next (next (next start (spawns 10 _ refl)) (completes 0 none refl)) (unwinds cc)

lone-await_join : await_join (done_scope false) 1 99 ≡ returned (done_scope true, false)
unfolding await_join
lone-await_join = refl

-- A scope with a connection, a listener and a file, adopted in this order.
abbrev three : List (Option Resource)
three =
    some
      (record { kind = tcp_connection; id = 1; owned = true; accessible = true; released = false })
    ∷ some
        (record { kind = tcp_listener; id = 2; owned = true; accessible = true; released = false })
    ∷ some (record { kind = file; id = 3; owned = true; accessible = true; released = false })
    ∷ []

abbrev calm : Environment
calm = record { busy = λ i. false; closing = λ i. pos 0 }

-- The file's close reports an error.
abbrev failing : Environment
failing = record {
  busy = λ i. false;
  closing = λ i. (if eqb (pos i) (pos 3) then negsuc 4 else pos 0);
}

three-ended : (finish_all calm three).ended ≡ returned tt
unfolding finish_all finish_phase finish_kind phase_of
three-ended = refl

finish_all-returned_example :
    ((finish_all calm three).log ≡ listeners three ++ other_owners three)
    × (owners (finish_all calm three).left ≡ [])
finish_all-returned_example = finish_all-returned calm three (refl, (refl, (refl, tt))) three-ended

abbrev three_scope : Scope
three_scope = record { loop = 1; resources = three; state = opened }

attempts-released_example :
    count 3 (attempts three_scope 1 (failing ∷ calm ∷ [])).1
      + count 3 (owners (attempts three_scope 1 (failing ∷ calm ∷ [])).0.resources)
    ≡ count 3 (owners three)
attempts-released_example =
    attempts-released (failing ∷ calm ∷ []) three_scope 1 3 (refl, (refl, (refl, tt)))

three-attempts : is_finished (attempts three_scope 1 (failing ∷ calm ∷ [])).0.state ≡ true
unfolding attempts finish finish_all finish_phase finish_kind phase_of
three-attempts = refl
