-- ===== src/Scenarios/Received.antt =====
-- Two connections over a pipe, of which the second cannot be accepted; and one receive that takes
-- over both.
use uvpp.Base.{ℕ, Bool, true, false, none, some, List, [], ◌∷◌, if◌then◌else◌, ℤ, pos, negsuc}
use uvpp.Net.PipeConnection.{
  Handle, Pending, Pipe, Receiving, missing, new_receiver, spare, waiting,
}
use uvpp.Net.PipeConnection.Receive.Waiting.{Run}
use uvpp.Scenarios.Basics.{calm_registry, new_awaiter, one_registered}
use uvpp.Detail.StreamIo.Reads.{reading}

abbrev handle : ℕ → ℤ → Handle
handle n accept = record {
  connection = n;
  is_tcp = true;
  room = true;
  made = true;
  init = pos 0;
  accept = accept;
}

abbrev half : List Pending
half = waiting (handle 5 (pos 0)) ∷ waiting (handle 6 (negsuc 22)) ∷ []

abbrev pipe : Bool → Pipe
pipe reading = record {
  io = record {
    loop = 1;
    is_closing = false;
    write_active = false;
    active_read = if reading then some 50 else none;
    reading = reading;
    pins = 0;
  };
  ipc = true;
}

abbrev cold_receive : Receiving
cold_receive = record {
  source = pipe false;
  awaiter = new_awaiter new_receiver;
  cancel = some calm_registry;
}

abbrev waiting_receive : Receiving
waiting_receive = record {
  source = pipe true;
  awaiter = record {
    resume_to = some 70;
    linked = true;
    event = record new_receiver { incoming = spare };
    status = pos 0;
  };
  cancel = some one_registered;
}

-- Three bytes come first, and then eight with two connections.
abbrev both : List Pending
both = waiting (handle 5 (pos 0)) ∷ waiting (handle 6 (pos 0)) ∷ []

abbrev received : Run
received = record {
  world = record {
    source = pipe false;
    awaiter = record {
      resume_to = none;
      linked = false;
      event = record new_receiver { bytes = 11; incoming = missing; received = 5 ∷ 6 ∷ [] };
      status = pos 0;
    };
    cancel = some calm_registry;
  };
  resumed = 70 ∷ [];
}
