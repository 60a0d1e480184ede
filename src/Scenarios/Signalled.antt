-- ===== src/Scenarios/Signalled.antt =====
-- Runs of a signal source.
use uvpp.Core.Callback.OneShot
use uvpp.Base.{◌≡◌, refl, true, false, some, pos}
use uvpp.Detail.AsyncClose.{fresh, is_closing}
use uvpp.Sources.Signal.{Signal, Source}
use uvpp.Sources.Signal.Terminal.{waiting}
use uvpp.Scenarios.Basics.{calm_registry, new_awaiter, one_registered, task, waiting_awaiter}

abbrev source : Source
source = record {
  loop = 1;
  close = fresh;
  waiter = OneShot.empty;
  pending_signal = pos 0;
  pending = false;
  started = true;
  native_closing = false;
}

source-open : is_closing source.close ≡ false
unfolding fresh
source-open = refl

source-free : OneShot.claimed source.waiter ≡ false
unfolding OneShot.claimed OneShot.empty
source-free = refl

abbrev before : Signal
before = record { source = some source; awaiter = new_awaiter (pos 0); cancel = some calm_registry }

abbrev suspended : Signal
suspended = record {
  source = some (waiting source task);
  awaiter = waiting_awaiter (pos 0);
  cancel = some one_registered;
}

-- The signals 2 and 15, of which the latest is taken.
abbrev taken : Signal
taken = record before {
  source = some (record source { pending_signal = pos 15; pending = false });
  awaiter = record (before.awaiter) { event = pos 15 };
}
