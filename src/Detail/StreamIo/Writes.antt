-- ===== src/Detail/StreamIo/Writes.antt =====
-- One write at a time, with its pin held from the submission to the completion and no longer.
use uvpp.Base.{◌+◌, ◌≡◌, true, false, none, some, arith, if◌then◌else◌, is_some, ℤ, is_neg}
use uvpp.Co.Await.{Caller}
use uvpp.Core.Error.{Errnos, returned}
use uvpp.Detail.StreamIo.{Io, Stream, Write, WriteWorld, await_write, on_write}

-- The stream while a write is in progress.
abbrev pub writing : Stream → Write → Stream
writing s p = record s { write_active = true; pins = if is_some p.pin then s.pins + 1 else s.pins }

-- A write that has no pin acquired yet and does not suspend reports a negative status and leaves the stream with its slots and
-- its count of pins, the cancellation state and the pin as they were.
pub await_write_refused :
    (e : Errnos) (w : Io) (v : WriteWorld) (s : Stream) (p : Write) (c : Caller) (acquire sent : ℤ)
    → w.source ≡ some s
    → p.acquired ≡ false
    → await_write e w p c acquire sent ≡ returned (v, false)
    → (is_neg v.io.awaiter.status ≡ true)
      × (v.io.source ≡ w.source)
      × (v.io.cancel ≡ w.cancel)
      × (v.write ≡ p)
unfolding await_write
await_write_refused e w v s p c acquire sent i a h = ground arith

-- A write that had no pin acquired yet and suspends took the write slot, which was free, and its pin, if it has one, whatever
-- the read slot holds; its completion, with any status, resumes exactly that task with that
-- status, after the slot is free and the pin released, so that the stream is as it was before.
pub on_write_balanced :
    (e : Errnos) (w : Io) (v : WriteWorld) (s : Stream) (p : Write) (c : Caller)
    (acquire sent status : ℤ)
    → w.source ≡ some s
    → p.acquired ≡ false
    → await_write e w p c acquire sent ≡ returned (v, true)
    → let (u, resumed) = on_write v (writing s p) status in
      (s.write_active ≡ false)
      × (v.io.source ≡ some (writing s p))
      × (v.write.acquired ≡ is_some p.pin)
      × (resumed ≡ some c.continuation)
      × (u.io.awaiter.status ≡ status)
      × (u.io.awaiter.resume_to ≡ none)
      × (u.io.source ≡ some s)
      × (u.io.cancel ≡ w.cancel)
      × (u.write ≡ p)
unfolding await_write on_write
on_write_balanced e w v s p c acquire sent status i a h = ground arith
