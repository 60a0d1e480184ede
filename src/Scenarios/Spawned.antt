-- ===== src/Scenarios/Spawned.antt =====
-- A child task, and a root whose handle is released while it runs and whose body then throws.
use uvpp.Base.{
  ℕ, ◌≡◌, refl, true, false, ◌&&◌, ◌||◌, none, some, [], ◌∷◌, ◌++◌, arith, if◌then◌else◌, is_some,
}
use uvpp.Core.Error.{returned, thrown, logic_error, user}
use uvpp.Co.Task.{
  Frame, Promise, await_task, bind, cold, final_suspend, finish, resume_task,
  resume_task-await_task, resumes, running, set_completion,
}
use uvpp.Co.Spawn.{
  Root, await_join, deliver_begin, deliver_end, drop, drop_join, end_root, is_shared, join,
  release_begin, release_end, report_if_needed, request_stop, spawn,
}
use uvpp.Co.Spawn.Destiny.{
  Reach, Run, awaits, delivers, drops_join, ends, exceptions, frame_destroyed_once, gone, is_body,
  joined_once, joins, lets_go, next, over, releases, spawned, start, to_wake, wakes,
}

abbrev parent : Promise
parent = record {
  execution_loop = some 1;
  cancellation = some 30;
  continuation = none;
  completion = none;
}

abbrev child : Frame ℕ
child = running parent.cancellation 1 70

resume_task-await_task_example :
    (await_task cold parent 70 ≡ returned child)
    × (final_suspend (finish child (thrown (user 7))).promise ≡ resumes 70)
    × (resume_task (finish child (thrown (user 7))) ≡ thrown (user 7))
    × (await_task child parent 71 ≡ thrown logic_error)
    × (await_task (finish child (thrown (user 7))) parent 71 ≡ thrown logic_error)
resume_task-await_task_example =
    resume_task-await_task parent parent 1 1 70 71 (thrown (user 7)) refl refl

abbrev root_frame : Frame ℕ
root_frame = record {
  promise = record {
    execution_loop = none;
    cancellation = none;
    continuation = none;
    completion = none;
  };
  value = none;
  failure = none;
  done = false;
}

abbrev root : Root ℕ
root = record {
  frame = record root_frame {
    promise = record {
      execution_loop = some 1;
      cancellation = some 40;
      continuation = none;
      completion = some 40;
    };
  };
  loop = 1;
  stopped = false;
  joiners = [];
  baton = true;
  completed = false;
  abandoned = false;
  failure_observed = false;
  failure_reported = false;
  held = true;
  running = true;
  awaiters = 0;
  reports = [];
  destroyed = 0;
}

spawn-root : spawn 1 (some root_frame) 40 ≡ returned root
unfolding spawn bind set_completion
spawn-root = refl

abbrev abandoned : Run ℕ
abandoned = record {
  root = record root {
    frame = record (root.frame) { failure = some (user 7); done = true };
    stopped = true;
    baton = false;
    completed = true;
    abandoned = true;
    failure_reported = true;
    held = false;
    running = false;
    reports = user 7 ∷ [];
    destroyed = 1;
  };
  pc = over;
  handle = gone;
  joined = 90 ∷ [];
  woken = 90 ∷ [];
}

abandoned-Reach : Reach (spawned root) abandoned
unfolding join await_join release_begin request_stop end_root finish deliver_begin drop_join drop
    deliver_end report_if_needed release_end
abandoned-Reach =
    next
      (next
        (next
          (next
            (next
              (next (next (next start (joins refl)) (awaits 90 _ true (λ p. omega arith) refl))
                (releases refl))
              (ends (thrown (user 7)) refl))
            (wakes 90 [] refl))
          (drops_join _ (λ p. omega arith) refl))
        (delivers _ refl refl))
      (lets_go _ refl refl)

joined_once_example :
    (abandoned.joined ≡ abandoned.woken ++ (to_wake abandoned.pc ++ abandoned.root.joiners))
    × (abandoned.root.reports
        ≡ (if abandoned.root.failure_reported then exceptions abandoned.root.frame.failure else []))
    × ((abandoned.root.failure_observed && abandoned.root.failure_reported) ≡ false)
joined_once_example =
    joined_once 1 40 root_frame root abandoned refl refl spawn-root abandoned-Reach

frame_destroyed_once_example :
    (abandoned.root.destroyed ≡ (if is_shared abandoned.root then 0 else 1))
    × ((is_shared abandoned.root || abandoned.root.frame.done) ≡ true)
    × ((is_body abandoned.pc || is_some (deliver_end abandoned.root)) ≡ true)
    × (is_some (release_end abandoned.root) ≡ true)
    × (is_some (drop_join abandoned.root) ≡ true)
frame_destroyed_once_example =
    frame_destroyed_once 1 40 root_frame root abandoned refl refl spawn-root abandoned-Reach
