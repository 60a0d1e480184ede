-- ===== src/Scenarios/Posted.antt =====
-- Runs of the posting facility.
use uvpp.Core.Callback.Persistent
use uvpp.Base.{
  ℕ, ◌⊎◌, ◌*◌, ◌≤◌, ◌<◌, ◌≡◌, refl, inl, Bool, true, false, some, [], ◌∷◌, ◌++◌, arith, ◌==◌,
  length, pos,
}
use uvpp.Posting.Order.{accepted-executed}
use uvpp.Posting.State.{
  is_terminal, closing, State, begin_close_if_drained, construct, draining, init, opened, post,
  request_close,
}
use uvpp.Core.Error.{returned}
use uvpp.Posting.Drain.{clear_batch, drain_finish, drain_take, move_jobs, run_job}
use uvpp.Posting.System.{
  System, Reach, clears, finishes, here, idle, next, posts, requests_close, runs, start, to_run,
  wakes,
}
use uvpp.Posting.Wakeup.{no_lost_wakeup}
use uvpp.Posting.Close.{drains, drains_close}
use uvpp.Scenarios.Basics.{linux}

-- A facility of the loop 1 with capacity 2 and drain budget 1, before and after `init`.
abbrev facility : Bool → State
facility ready = record {
  loop = 1;
  queue = [];
  batch = [];
  close_waiters = [];
  failure_handler = Persistent.empty;
  capacity = 2;
  drain_budget = 1;
  active_batches = 0;
  phase = opened;
  initialized = ready;
}

facility-construct : construct 1 2 1 ≡ returned (facility false)
unfolding construct
facility-construct = refl

facility-init : init (facility false) (pos 0) ≡ returned (facility true)
unfolding init
facility-init = refl

-- Two jobs were accepted, one drain ran the first of them, and a close was requested.
abbrev half_way : System
half_way = record {
  state = record (facility true) { queue = 6 ∷ []; phase = draining };
  pc = idle;
  wake = true;
  accepted = 5 ∷ 6 ∷ [];
  executed = 5 ∷ [];
}

half_way-Reach : Reach linux (start (facility true)) half_way
unfolding start post drain_take move_jobs run_job clear_batch drain_finish begin_close_if_drained
    request_close
half_way-Reach =
    next
      (next
        (next
          (next
            (next (next (next here (posts 5 (pos 0))) (posts 6 (pos 0))) (wakes _ refl refl refl))
            (runs 5 [] true false (λ h slot. slot) _ refl refl))
          (clears true refl))
        (finishes true false (pos 0) _ refl refl))
      requests_close

accepted-executed_example :
    (half_way.accepted ≡ half_way.executed ++ (to_run half_way.pc ++ half_way.state.queue))
    × (length half_way.state.queue ≤ half_way.state.capacity)
    × (length half_way.state.batch ≤ half_way.state.drain_budget)
    × ((is_terminal half_way.state.phase ≡ false) ⊎ (half_way.accepted ≡ half_way.executed))
accepted-executed_example =
    accepted-executed linux 1 2 1 (pos 0) (facility false) (facility true) half_way
      facility-construct facility-init half_way-Reach

-- A facility whose only job has run and that is being closed.
abbrev shut : System
shut = record {
  state = record (facility true) { phase = closing };
  pc = idle;
  wake = false;
  accepted = 5 ∷ [];
  executed = 5 ∷ [];
}

shut-Reach : Reach linux (start (facility true)) shut
unfolding start post drain_take move_jobs run_job clear_batch drain_finish begin_close_if_drained
    request_close
shut-Reach =
    next
      (next
        (next
          (next (next (next here (posts 5 (pos 0))) (wakes _ refl refl refl))
            (runs 5 [] true false (λ h slot. slot) _ refl refl))
          (clears true refl))
        (finishes true false (pos 0) _ refl refl))
      requests_close

no_lost_wakeup_example : half_way.wake ≡ true
no_lost_wakeup_example =
    no_lost_wakeup linux 1 2 1 (pos 0) (facility false) (facility true) half_way facility-construct
      facility-init half_way-Reach refl (inl cc)

-- A facility that was asked to close with three jobs queued, of which the second throws.
abbrev loaded : State
loaded = record (facility true) {
  queue = 5 ∷ 6 ∷ 7 ∷ [];
  capacity = 4;
  phase = draining;
  failure_handler = record { callback = some 1; generation = 1 };
}

abbrev second_throws : ℕ → Bool
second_throws job = job == 6

budget_positive : 0 < loaded.drain_budget
budget_positive = omega arith

covered : length loaded.queue ≤ 3 * loaded.drain_budget
covered = omega arith

drains_close_example :
    drains second_throws 3 loaded
    ≡ some (record loaded {
      queue = [];
      batch = [];
      active_batches = 0;
      phase = uvpp.Posting.State.closing;
    })
drains_close_example =
    drains_close second_throws 3 loaded 1 refl refl refl refl budget_positive (cc) covered
