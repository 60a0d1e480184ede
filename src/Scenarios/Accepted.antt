-- ===== src/Scenarios/Accepted.antt =====
-- A run of an accept whose `uv_accept` fails.
use uvpp.Base.{ℕ, false, Option, none, some, [], ◌∷◌, pos, negsuc}
use uvpp.Detail.AsyncClose.{fresh}
use uvpp.Net.TcpListener.{Accepting, Listener, absent, ended, ready}
use uvpp.Net.TcpListener.Accept.{Run}
use uvpp.Scenarios.Basics.{calm_registry, one_registered}

abbrev listener : Option ℕ → Listener
listener active = record { loop = 1; active = active; close = fresh; native_closing = false }

abbrev idle_accept : Accepting
idle_accept = record {
  listener = listener none;
  continuation = none;
  cancel = some calm_registry;
  status = pos 0;
  child = absent;
  child_waiter = none;
}

abbrev waiting_accept : Accepting
waiting_accept = record {
  listener = listener (some 50);
  continuation = some 70;
  cancel = some one_registered;
  status = pos 0;
  child = ready;
  child_waiter = none;
}

abbrev failed : Run
failed = record {
  accept = record {
    listener = listener none;
    continuation = none;
    cancel = some calm_registry;
    status = negsuc 22;
    child = ended;
    child_waiter = none;
  };
  resumed = 70 ∷ [];
}
