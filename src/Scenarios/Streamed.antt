-- ===== src/Scenarios/Streamed.antt =====
-- Runs of a stream with a read and a write.
use uvpp.Base.{ℕ, ◌≡◌, refl, true, false, none, some, arith, pos, negsuc}
use uvpp.Detail.StreamIo.Reads.{on_read_once, reading}
use uvpp.Co.Await.{link}
use uvpp.Core.Error.{returned}
use uvpp.Detail.StreamIo.{
  Io, Stream, Write, WriteWorld, await_read, await_write, on_read, on_stop_requested, start_read,
}
use uvpp.Detail.StreamIo.Writes.{writing}
use uvpp.Scenarios.Basics.{linux, calm_registry, new_awaiter, one_registered, task, waiting_awaiter}

abbrev stream : Stream
stream = record {
  loop = 1;
  is_closing = false;
  write_active = false;
  active_read = none;
  reading = false;
  pins = 0;
}

abbrev buffer_size : ℕ
buffer_size = 4096

abbrev at_rest : Io
at_rest = record { source = some stream; awaiter = new_awaiter tt; cancel = some calm_registry }

-- A read of 4096 bytes that waits.
abbrev suspended : Io
suspended = record {
  source = some (reading stream task);
  awaiter = waiting_awaiter tt;
  cancel = some one_registered;
}

await_read-suspended :
    await_read linux at_rest task buffer_size (pos 0) (pos 0) ≡ returned (some (suspended, true))
unfolding await_read start_read link
await_read-suspended = ground arith

-- A second reader on the same loop.
abbrev second_reader : Io
second_reader = record {
  source = some (reading stream task);
  awaiter = new_awaiter tt;
  cancel = some calm_registry;
}

abbrev done : Io
done = record at_rest {
  source = some (record stream { active_read = none; reading = false });
  awaiter = record (at_rest.awaiter) { resume_to = none; linked = false; status = pos 12 };
}

on_read_once_example :
    (on_read suspended (reading stream task) task (pos 0) (pos 0) ≡ some (suspended, none))
    × (on_read suspended (reading stream task) task (pos 12) (pos 0)
        ≡ some (done, some task.continuation))
    × (on_stop_requested linux done
          (record stream { active_read = none; reading = false })
          task
          (pos 0)
        ≡ some (done, none))
    × (on_stop_requested linux suspended (reading stream task) task (pos 0)
        ≡ some (
          record done { awaiter = record (done.awaiter) { status = negsuc linux.ecanceled } },
          some task.continuation,
        ))
on_read_once_example =
    on_read_once linux at_rest suspended stream task buffer_size (pos 0) (pos 0) (pos 12) 0 refl
      await_read-suspended refl

-- A write that passes its handle on, with a pin of the same loop.
abbrev pinned : Write
pinned = record { pin = some 1; submission = pos 0; acquired = false }

abbrev sent : WriteWorld
sent = record {
  io = record at_rest {
    source = some (writing stream pinned);
    awaiter = record (at_rest.awaiter) { resume_to = some 70 };
  };
  write = record pinned { acquired = true };
}

await_write-sent : await_write linux at_rest pinned task (pos 0) (pos 0) ≡ returned (sent, true)
unfolding await_write
await_write-sent = ground arith

-- `uv_write2` failed with -32.
abbrev unsent : WriteWorld
unsent = record {
  io = record at_rest { awaiter = record (at_rest.awaiter) { status = negsuc 31 } };
  write = pinned;
}

await_write-unsent :
    await_write linux at_rest pinned task (pos 0) (negsuc 31) ≡ returned (unsent, false)
unfolding await_write
await_write-unsent = ground arith
