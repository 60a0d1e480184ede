-- ===== src/Scenarios/Slept.antt =====
-- A run of a sleep that its timer ends.
use uvpp.Base.{◌≡◌, refl, ◌⊎◌, true, false, ◌||◌, none, some, [], ◌∷◌, pos}
use uvpp.Co.Cancellation.Spec.{enrol}
use uvpp.Co.Sleep.{Sleep, await_suspend, construct, enrol_sleep, finish, on_close, on_timer}
use uvpp.Co.Sleep.Awakening.{
  Run, Reach, asleep, closes, fires, next, start, registered, sleep_resumed_once,
}
use uvpp.Scenarios.Basics.{calm_registry, linux, one_registered, task}

abbrev waiting_sleep : Sleep
waiting_sleep = record {
  continuation = some 70;
  cancel = some one_registered;
  status = pos 0;
  close_started = false;
  running = true;
  owed = false;
}

await_suspend-waiting_sleep :
    await_suspend linux (construct (some calm_registry)) task (pos 0) (pos 0)
    ≡ (waiting_sleep, true)
unfolding await_suspend construct enrol_sleep enrol
await_suspend-waiting_sleep = refl

abbrev awake : Run
awake = record {
  sleep = record {
    continuation = none;
    cancel = some calm_registry;
    status = pos 0;
    close_started = true;
    running = false;
    owed = false;
  };
  resumed = 70 ∷ [];
}

awake-Reach : Reach linux task (asleep linux task waiting_sleep) awake
unfolding on_timer on_close finish
awake-Reach = next (next start (fires refl)) (closes refl)

sleep_resumed_once_example :
    ((awake.resumed ≡ []) × ((awake.sleep.running || awake.sleep.owed) ≡ true))
    ⊎ ((awake.resumed ≡ task.continuation ∷ [])
        × (awake.sleep.running ≡ false)
        × (awake.sleep.owed ≡ false)
        × (registered awake.sleep.cancel task.registration ≡ false))
sleep_resumed_once_example =
    sleep_resumed_once linux task (some calm_registry) (pos 0) (pos 0) waiting_sleep awake tt refl
      await_suspend-waiting_sleep awake-Reach
