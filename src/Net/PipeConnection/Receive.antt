-- ===== src/Net/PipeConnection/Receive.antt =====
-- The life of a receive that suspended its task: reads of the pipe, stop requests and the close of
-- a connection that could not be accepted may come in any order that libuv and the cancellation
-- state allow.
pub mod Waiting
mod Reads
use uvpp.Base.{ℕ, ◌≤◌, ◌≡◌, true, Option, some, List, ℤ}
use uvpp.Net.PipeConnection.Receive.Waiting.{Run, claims, count}
use uvpp.Co.Await.{Caller}
use uvpp.Co.Cancellation.Spec.{Registry}
use uvpp.Co.Cancellation.View.{erase, mem}
use uvpp.Co.Sleep.Awakening.{IsDistinct, registered, add_resumed}
use uvpp.Core.Error.{Errnos}
use uvpp.Core.Buffer.{NativeBuffer}
use uvpp.Net.PipeConnection.{on_alloc}
use uvpp.Net.PipeConnection.{Receiving, Pending, on_read, on_stop_requested, on_child_closed}
use uvpp.Net.PipeConnection.Adopt.{is_ending}

module _ (e : Errnos) (c : Caller) (bits base size : ℕ) where
  pub data Step (r : Run) : Run → Type 0 where
    reads :
        (nread : ℤ) (pending : List Pending) (stop : ℤ) (w : Receiving) (h : Option ℕ)
        → claims r.world c ≡ true
        → count nread ≤ (on_alloc bits base size r.world.awaiter.event).len
        → on_read e r.world c size nread pending stop ≡ some (w, h)
        → Step r (record { world = w; resumed = add_resumed r.resumed h })
    stops :
        (g : Registry) (stop : ℤ) (w : Receiving) (h : Option ℕ)
        → r.world.cancel ≡ some g
        → mem c.registration g.entries ≡ true
        → on_stop_requested e
            (record (r.world) {
              cancel = some (record { halted = true; entries = erase c.registration g.entries });
            })
            c
            stop
          ≡ some (w, h)
        → Step r (record { world = w; resumed = add_resumed r.resumed h })
    others :
        (cancel : Option Registry)
        → IsDistinct cancel
        → registered cancel c.registration ≡ registered r.world.cancel c.registration
        → Step r (record r { world = record (r.world) { cancel = cancel } })
    closes_child :
        is_ending r.world.awaiter.event.incoming ≡ true
        → Step r (record r {
          world = (on_child_closed r.world).0;
          resumed = add_resumed r.resumed (on_child_closed r.world).1;
        })

  pub data Reach (r : Run) : Run → Type 0 where
    start : Reach r r
    next : {m n : Run} → Reach r m → Step m n → Reach r n
