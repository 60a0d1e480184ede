-- ===== src/Scenarios/Datagrams.antt =====
-- A datagram after an empty notification; and views of buffers.
use uvpp.Base.{◌≡◌, refl, ◌⊎◌, true, false, none, some, [], ◌∷◌, pos}
use uvpp.Co.Await.{link, unlink}
use uvpp.Co.Cancellation.Spec.{enrol, withdraw}
use uvpp.Co.Sleep.Awakening.{registered}
use uvpp.Core.Error.{returned}
use uvpp.Detail.AsyncClose.Life.{Life, quiet}
use uvpp.Detail.AsyncClose.{opened}
use uvpp.Net.UdpSocket.{
  Datagram, Receiving, Socket, await_receive, on_receive, release_slots, start_receive,
  stop_and_resume,
}
use uvpp.Net.UdpSocket.Receive.{
  Reach, Run, asleep, claims, datagram_resumed_once, next, receives, start,
}
use uvpp.Scenarios.Basics.{calm_registry, linux, new_awaiter, one_registered, task}

abbrev open_life : Life
open_life = record {
  close = record {
    phase = opened;
    waiters = [];
    callback_waiter = none;
    released = false;
    completion_active = false;
  };
  native = false;
  pc = quiet;
  deleted = 0;
}

abbrev socket : Socket
socket = record {
  loop = 1;
  life = open_life;
  send_active = true;
  active_receive = none;
  receiving = false;
}

abbrev no_datagram : Datagram
no_datagram = record { peer = none; flags = 0 }

abbrev cold_receive : Receiving
cold_receive = record {
  source = socket;
  awaiter = new_awaiter no_datagram;
  cancel = some calm_registry;
}

abbrev waiting_receive : Receiving
waiting_receive = record {
  source = record socket { active_receive = some 50; receiving = true };
  awaiter = record { resume_to = some 70; linked = true; event = no_datagram; status = pos 0 };
  cancel = some one_registered;
}

await_receive-cold_receive :
    await_receive linux false cold_receive task (pos 0) ≡ returned (waiting_receive, true)
unfolding await_receive start_receive link enrol
await_receive-cold_receive = refl

abbrev received : Run
received = record {
  world = record {
    source = socket;
    awaiter = record {
      resume_to = none;
      linked = false;
      event = record { peer = some 9; flags = 2 };
      status = pos 12;
    };
    cancel = some calm_registry;
  };
  resumed = 70 ∷ [];
}

received-Reach : Reach linux task (asleep waiting_receive) received
unfolding on_receive stop_and_resume release_slots unlink withdraw
received-Reach = next (next start (receives (pos 0) none 0 (pos 0) _ none refl refl)) (
    receives (pos 12) (some (record { known = true; address = 9 })) 2 (pos 0) _ (some 70) refl refl)

datagram_resumed_once_example :
    ((claims received.world task ≡ true)
      × (received.resumed ≡ [])
      × (received.world.source.receiving ≡ true))
    ⊎ ((claims received.world task ≡ false)
        × (received.resumed ≡ task.continuation ∷ [])
        × (registered received.world.cancel task.registration ≡ false))
datagram_resumed_once_example =
    datagram_resumed_once linux task cold_receive waiting_receive (pos 0) received tt refl
      await_receive-cold_receive received-Reach
