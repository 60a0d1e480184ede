-- ===== src/Scenarios/Polled.antt =====
-- Runs of a poll source.
use uvpp.Core.Callback.OneShot
use uvpp.Base.{ℕ, ◌≡◌, refl, true, false, some, arith, pos, negsuc}
use uvpp.Co.Await.{refuse, link}
use uvpp.Core.Error.{returned}
use uvpp.Detail.AsyncClose.{fresh, is_closing}
use uvpp.Sources.Poll.{Poll, Source, await_suspend}
use uvpp.Sources.Poll.Next.{IsFresh, waiting}
use uvpp.Scenarios.Basics.{linux, calm_registry, new_awaiter, one_registered, task, waiting_awaiter}

abbrev mask : ℕ
mask = 1

abbrev source : Source
source = record {
  loop = 1;
  close = fresh;
  waiter = OneShot.empty;
  armed = false;
  native_closing = false;
}

abbrev before : Poll
before = record { source = some source; awaiter = new_awaiter 0; cancel = some calm_registry }

-- A wait for the mask 1 of the allowed masks 3.
abbrev suspended : Poll
suspended = record {
  source = some (waiting source task);
  awaiter = waiting_awaiter 0;
  cancel = some one_registered;
}

-- `uv_poll_start` failed with -22.
abbrev refused : Poll
refused = (refuse before (negsuc 21)).0

new_awaiter-IsFresh : IsFresh before.awaiter
new_awaiter-IsFresh = record { idle = refl; unlinked = refl }

await_suspend-refused : await_suspend linux 3 before task 1 (negsuc 21) ≡ returned (refused, false)
unfolding await_suspend fresh
await_suspend-refused = ground arith

await_suspend-suspended : await_suspend linux 3 before task 1 (pos 0) ≡ returned (suspended, true)
unfolding await_suspend link fresh
await_suspend-suspended = ground arith

source-open : is_closing source.close ≡ false
unfolding fresh
source-open = refl
