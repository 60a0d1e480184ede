-- ===== src/Scenarios/Processes.antt =====
-- A process that exits, is closed and destroyed; a wait for its exit; options, and a failed spawn.
use uvpp.Base.{
  ℕ, ◌+◌, ◌≡◌, refl, ◌⊎◌, ◌&&◌, ◌||◌, not, true, false, none, some, [], ◌∷◌, pos, negsuc, length,
  if◌then◌else◌, Option,
}
use uvpp.Co.Await.{link, unlink}
use uvpp.Co.Cancellation.Spec.{enrol, withdraw}
use uvpp.Co.Sleep.Awakening.{registered}
use uvpp.Core.Callback.OneShot
use uvpp.Core.Error.{
  operational, returned, thrown, has_error, from_native, status_from_native, status_ok,
}
use uvpp.Detail.AsyncClose.{
  add_waiter, begin, closed, complete_begin, complete_end, fresh, owner_released,
}
use uvpp.Detail.AsyncClose.Life.{is_quiet, quiet, resuming}
use uvpp.Process.{
  Exit, Waiting, await_wait, exits, new_process, no_exit, on_delivery, on_exit, release_owner,
  request_close, wait_exit,
}
use uvpp.Process.Life
use uvpp.Process.Wait
use uvpp.Process.Options.{Options, c_str, is_empty, passed}
use uvpp.Process.Options.Passed.{
  c_strs, child-passed, child_directory, child_environment, child_stdio, until_null,
}
use uvpp.Process.Raw.{
  Storage, close_abandoned, exit_abandoned, new_raw_process, submit_spawn, throw_on_spawn_failure,
}
use uvpp.Process.Raw.Abandoned
use uvpp.Scenarios.Basics.{linux, calm_registry, new_awaiter, one_registered, task}

abbrev done : Exit
done = record { status = pos 7; signal = pos 0 }

-- The process after its exit, a wait for its close and the close callback, with the waiter to resume.
abbrev closing_life : Life.Life
closing_life = record {
  process = record {
    loop = 1;
    close = record {
      phase = closed;
      waiters = [];
      callback_waiter = none;
      released = false;
      completion_active = true;
    };
    waiter = record { context = none; callback = none };
    exit = done;
    exited = true;
    released = false;
  };
  running = false;
  native = false;
  pc = resuming (70 ∷ []);
  deleted = 0;
}

closing_life-Reach : Life.Reach (Life.born 1) closing_life
unfolding on_exit request_close begin add_waiter complete_begin fresh OneShot.deliver OneShot.empty
closing_life-Reach =
    Life.next
      (Life.next
        (Life.next (Life.next Life.start (Life.exits done refl)) (Life.waits (some 70) refl refl))
        (Life.requests refl))
      (Life.completes refl refl)

end_close-release_example :
    ((Life.release closing_life).deleted ≡ 1)
    × ((Life.end_close (record (Life.release closing_life) { pc = resuming [] })).deleted ≡ 2)
end_close-release_example =
    Life.end_close-release 1 closing_life (70 ∷ []) closing_life-Reach refl refl

-- The same process whose owner is released after the completion.
abbrev gone_life : Life.Life
gone_life = record {
  process = record (closing_life.process) {
    close = record {
      phase = closed;
      waiters = [];
      callback_waiter = none;
      released = true;
      completion_active = false;
    };
    released = true;
  };
  running = false;
  native = false;
  pc = quiet;
  deleted = 1;
}

gone_life-Reach : Life.Reach (Life.born 1) gone_life
unfolding Life.release release_owner owner_released Life.end_close complete_end
gone_life-Reach =
    Life.next (Life.next (Life.next closing_life-Reach (Life.resumes 70 [] refl)) (Life.ends refl))
      (Life.releases refl refl)

process_deleted_once_example :
    (gone_life.deleted ≡ (if Life.is_gone gone_life then 1 else 0))
    × (((gone_life.running || gone_life.native) && Life.is_gone gone_life) ≡ false)
    × ((not (gone_life.process.released && gone_life.process.exited)
          || (Life.is_gone gone_life || (gone_life.native || not (is_quiet gone_life.pc))))
        ≡ true)
process_deleted_once_example = Life.process_deleted_once 1 gone_life gone_life-Reach

abbrev cold_wait : Waiting
cold_wait = record {
  source = new_process 1;
  awaiter = new_awaiter no_exit;
  cancel = some calm_registry;
}

abbrev waiting : Waiting
waiting = record {
  source = record (new_process 1) { waiter = record { context = some 50; callback = some tt } };
  awaiter = record { resume_to = some 70; linked = true; event = no_exit; status = pos 0 };
  cancel = some one_registered;
}

await_wait-cold_wait : await_wait linux false cold_wait task ≡ returned (waiting, true)
unfolding await_wait link enrol OneShot.claim OneShot.empty fresh
await_wait-cold_wait = refl

abbrev waited : Wait.Run
waited = record {
  world = record {
    source = record (new_process 1) {
      waiter = record { context = none; callback = none };
      exit = done;
      exited = true;
    };
    awaiter = record { resume_to = none; linked = false; event = done; status = pos 0 };
    cancel = some calm_registry;
  };
  resumed = 70 ∷ [];
}

waited-Reach : Wait.Reach linux task (Wait.asleep waiting) waited
unfolding exits on_exit on_delivery OneShot.deliver OneShot.empty unlink withdraw
waited-Reach = Wait.next Wait.start (Wait.finishes done refl)

wait_resumed_once_example :
    ((Wait.claims waited.world.source task ≡ true)
      × (waited.resumed ≡ [])
      × (waited.world.source.exited ≡ false))
    ⊎ ((Wait.claims waited.world.source task ≡ false)
        × (waited.resumed ≡ task.continuation ∷ [])
        × (registered waited.world.cancel task.registration ≡ false)
        × (((waited.world.source.exited ≡ true)
              × (wait_exit waited.world.awaiter ≡ returned waited.world.source.exit))
            ⊎ (wait_exit waited.world.awaiter ≡ thrown (operational (negsuc linux.ecanceled)))))
wait_resumed_once_example =
    Wait.wait_resumed_once linux task cold_wait waiting waited tt refl await_wait-cold_wait
      waited-Reach

-- sh -c ls, with one variable.
abbrev shell : Options
shell = record {
  file = 115 ∷ 104 ∷ [];
  arguments = (45 ∷ 99 ∷ []) ∷ (108 ∷ 115 ∷ []) ∷ [];
  inherit_parent_environment = false;
  environment = (88 ∷ 61 ∷ 49 ∷ []) ∷ [];
  working_directory = [];
  flags = 0;
  uid = 0;
  gid = 0;
  stdio_entries = [];
}

child-passed_example :
    let n = passed shell in
    (until_null n.args ≡ c_str shell.file ∷ c_strs shell.arguments)
    × (child_environment [] n.env
        ≡ (if shell.inherit_parent_environment then [] else c_strs shell.environment))
    × (child_directory (47 ∷ []) n.cwd
        ≡ (if is_empty shell.working_directory then 47 ∷ [] else c_str shell.working_directory))
    × (child_stdio n.stdio ≡ shell.stdio_entries)
    × (n.stdio_count ≡ length shell.stdio_entries)
    × (n.file ≡ c_str shell.file)
    × (n.flags ≡ shell.flags)
    × (n.uid ≡ shell.uid)
    × (n.gid ≡ shell.gid)
child-passed_example = child-passed shell [] (47 ∷ [])

-- A spawn that fails after it has started a child, which then exits.
abbrev running_storage : Storage
running_storage = record { active = true; close_owed = false; deleted = 0 }

abbrev deleted_storage : Storage
deleted_storage = record { active = false; close_owed = false; deleted = 1 }

no_callback : Option ℕ
no_callback = none

left_behind-shell :
    Abandoned.left_behind linux shell no_callback (negsuc 1) true ≡ some running_storage
unfolding submit_spawn throw_on_spawn_failure status_ok status_from_native from_native has_error
left_behind-shell = refl

deleted_storage-Reach : Abandoned.Reach running_storage deleted_storage
unfolding exit_abandoned close_abandoned
deleted_storage-Reach =
    Abandoned.next (Abandoned.next Abandoned.start (Abandoned.exits refl)) (Abandoned.closes refl)

abandoned_deleted_once_example :
    ((throw_on_spawn_failure
        (submit_spawn linux new_raw_process shell no_callback none (negsuc 1) true).0
        (submit_spawn linux new_raw_process shell no_callback none (negsuc 1) true).1).0
      ≡ thrown (operational (negsuc 1)))
    × (running_storage.active ≡ true)
    × ((if deleted_storage.active then 1 else 0)
          + (if deleted_storage.close_owed then 1 else 0)
          + deleted_storage.deleted
        ≡ 1)
abandoned_deleted_once_example =
    Abandoned.abandoned_deleted_once linux shell no_callback (negsuc 1) true running_storage
      deleted_storage left_behind-shell deleted_storage-Reach
