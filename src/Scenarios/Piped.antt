-- ===== src/Scenarios/Piped.antt =====
-- An accept of a pipe listener that is given a connection, and a listener that cannot be bound.
use uvpp.Base.{ℕ, true, false, Option, none, some, [], ◌∷◌, pos}
use uvpp.Detail.AsyncClose.{fresh}
use uvpp.Net.PipeListener.{Accepting, Listener}
use uvpp.Net.PipeListener.Accept
use uvpp.Net.PipeListener.Delivery
use uvpp.Net.PipeListener.Owner.{}
use uvpp.Net.TcpListener.Accept as Tcp
use uvpp.Scenarios.Basics.{calm_registry, one_registered}

abbrev pipe_listener : Option ℕ → Listener
pipe_listener active = record {
  loop = 1;
  active = active;
  ipc = true;
  close = fresh;
  native_closing = false;
}

abbrev idle_pipe : Accepting
idle_pipe = record {
  listener = pipe_listener none;
  connection = none;
  continuation = none;
  cancel = some calm_registry;
  status = pos 0;
  provisional_close_required = false;
  provisional_close_completed = false;
  child_waiter = none;
}

abbrev waiting_pipe : Accepting
waiting_pipe = record idle_pipe {
  listener = pipe_listener (some 50);
  connection = some (record { loop = 1; ipc = true; native_ipc = true });
  continuation = some 70;
  cancel = some one_registered;
}

abbrev connected_pipe : Accept.Run
connected_pipe = record {
  accept = record waiting_pipe {
    listener = pipe_listener none;
    continuation = none;
    cancel = some calm_registry;
  };
  resumed = 70 ∷ [];
}
