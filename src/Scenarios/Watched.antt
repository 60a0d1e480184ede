-- ===== src/Scenarios/Watched.antt =====
-- Runs of a filesystem watch.
use uvpp.Core.Callback.OneShot
use uvpp.Base.{ℕ, ◌≡◌, refl, true, false, Option, none, some, List, [], ◌∷◌, pos, negsuc}
use uvpp.Detail.AsyncClose.{fresh, is_closing}
use uvpp.Sources.FsEvent.{Delivered, FsEvents, Source, no_event}
use uvpp.Sources.FsEvent.Coalesce.{Notice, plain}
use uvpp.Sources.FsEvent.Terminal.{waiting}
use uvpp.Scenarios.Basics.{calm_registry, new_awaiter, one_registered, task, waiting_awaiter}

abbrev source : Source
source = record {
  loop = 1;
  close = fresh;
  waiter = OneShot.empty;
  pending_event = no_event;
  pending_exception = none;
  pending_status = pos 0;
  pending = false;
  started = true;
  native_closing = false;
}

source-open : is_closing source.close ≡ false
unfolding fresh
source-open = refl

source-free : OneShot.claimed source.waiter ≡ false
unfolding OneShot.claimed OneShot.empty
source-free = refl

abbrev nothing : Delivered
nothing = record { event = no_event; failure = none }

-- A watch that holds the error -2.
abbrev broken : Source
broken = record source { pending = true; pending_status = negsuc 1 }

abbrev holding : Source → FsEvents
holding s = record { source = some s; awaiter = new_awaiter nothing; cancel = some calm_registry }

-- The name "a", and a change of flag 1 and of flag 2.
abbrev file_name : Option (List ℕ)
file_name = some (97 ∷ [])

abbrev suspended : FsEvents
suspended = record {
  source = some (waiting source task);
  awaiter = waiting_awaiter nothing;
  cancel = some one_registered;
}

abbrev late : Notice
late = plain file_name 1 0
