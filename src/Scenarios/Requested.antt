-- ===== src/Scenarios/Requested.antt =====
-- An open that a stop request asks libuv to cancel, and that ends with the cancellation.
use uvpp.Base.{◌≤◌, ◌≡◌, refl, ◌⊎◌, true, false, none, some, [], ◌∷◌, pos, negsuc}
use uvpp.Co.Await.{World, link, unlink}
use uvpp.Co.Cancellation.Spec.{enrol, withdraw}
use uvpp.Co.Sleep.Awakening.{registered}
use uvpp.Fs.Request.{Op, complete, request_native_cancellation, submit, unsubmitted}
use uvpp.Fs.Request.Once.{Reach, Run, asleep, completes, next, request_resumed_once, start, stops}
use uvpp.Fs.File.{File, new_file, opened}
use uvpp.Scenarios.Basics.{calm_registry, new_awaiter, one_registered, task}

abbrev opening : File
opening = record new_file { loop = some 1 }

abbrev cold_open : World File Op
cold_open = record {
  source = new_file;
  awaiter = new_awaiter unsubmitted;
  cancel = some calm_registry;
}

abbrev pending_open : World File Op
pending_open = record {
  source = opening;
  awaiter = record {
    resume_to = some 70;
    linked = true;
    event = record { submitted = true; cancels = 0 };
    status = pos 0;
  };
  cancel = some one_registered;
}

submit-cold_open : submit cold_open opening task (pos 0) ≡ (pending_open, true)
unfolding submit link enrol
submit-cold_open = refl

abbrev canceled : Run File
canceled = record {
  world = record {
    source = opening;
    awaiter = record {
      resume_to = none;
      linked = false;
      event = record { submitted = false; cancels = 1 };
      status = negsuc 124;
    };
    cancel = some (record { halted = true; entries = [] });
  };
  resumed = 70 ∷ [];
}

canceled-Reach : Reach opened task (asleep opened task pending_open) canceled
unfolding request_native_cancellation complete unlink withdraw
canceled-Reach = next (next start (stops one_registered refl refl)) (completes (negsuc 124) refl)

request_resumed_once_example :
    (canceled.world.awaiter.event.cancels ≤ 1)
    × (((canceled.world.awaiter.event.submitted ≡ true)
          × (canceled.resumed ≡ [])
          × (canceled.world.awaiter.resume_to ≡ some task.continuation))
        ⊎ ((canceled.world.awaiter.event.submitted ≡ false)
            × (canceled.resumed ≡ task.continuation ∷ [])
            × (registered canceled.world.cancel task.registration ≡ false)))
request_resumed_once_example =
    request_resumed_once opened task cold_open pending_open opening (pos 0) canceled tt refl refl
      submit-cold_open canceled-Reach
