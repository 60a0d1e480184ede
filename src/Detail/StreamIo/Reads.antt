-- ===== src/Detail/StreamIo/Reads.antt =====
-- One read at a time, ended once: by data, by the end of the stream, by an error or by a stop.
use uvpp.Base.{
  ℕ, ◌≡◌, refl, ap, ◌∙◌, ◌≢◌, true, false, none, some, arith, ==_refl, is_some, ℤ, pos, negsuc, eqb,
}
use uvpp.Co.Await.{Caller, stop_requested, refuse, link, unlink}
use uvpp.Core.Error.{value_of, error_of, returned, Errnos}
use uvpp.Detail.StreamIo.{
  end_read, Io, Stream, await_read, on_read, on_stop_requested, read_result, release_slots,
  with_stream,
}

-- A stream with a read in progress.
abbrev pub reading : Stream → Caller → Stream
reading s c = record s { active_read = some c.self; reading = true }

-- A read that suspends found the read slot free on an open stream of the task's own loop, with a
-- buffer that is not empty and no stop requested, and took nothing but the slot, whether or not a
-- write is active.
pub await_read_exclusive :
    (e : Errnos) (w v : Io) (s : Stream) (c : Caller) (size : ℕ) (start stop : ℤ)
    → w.source ≡ some s
    → await_read e w c size start stop ≡ returned (some (v, true))
    → (s.active_read ≡ none)
      × (size ≢ 0)
      × (s.is_closing ≡ false)
      × (c.loop ≡ s.loop)
      × (stop_requested w ≡ false)
      × (v.source ≡ some (reading s c))
      × (v.awaiter.resume_to ≡ some c.continuation)
      × (v.cancel ≡ (link w c).0.cancel)
      × (v.awaiter.linked ≡ is_some w.cancel)
unfolding await_read
await_read_exclusive e w v s c size start stop i h = ground arith

-- While a read waits, every further read of the stream by a task of its loop with no stop requested
-- is refused with UV_EBUSY and changes nothing but its own status.
pub await_read_busy :
    (e : Errnos) (w v u : Io) (s : Stream) (c d : Caller) (size more : ℕ)
    (start stop again undo : ℤ)
    → w.source ≡ some s
    → await_read e w c size start stop ≡ returned (some (v, true))
    → u.source ≡ v.source
    → d.loop ≡ s.loop
    → stop_requested u ≡ false
    → await_read e u d more again undo ≡ returned (some (refuse u (negsuc e.ebusy)))
unfolding await_read
await_read_busy e w v u s c d size more start stop again undo i h j l r =
    let p = await_read_exclusive e w v s c size start stop i h in ground arith

release_slots-reading :
    (w : Io) (s : Stream) (c : Caller)
    → release_slots w (record s { active_read = some c.self; reading = false }) c
      ≡ unlink (with_stream w (record s { active_read = none; reading = false })) c
unfolding release_slots
release_slots-reading w s c = rw (==_refl c.self)

on_read-reading :
    (v : Io) (s : Stream) (c : Caller) (nread : ℤ) (k : ℕ)
    → eqb nread (pos 0) ≡ false
    → on_read v (reading s c) c nread (pos k) ≡ (
        let u = unlink (with_stream v (record s { active_read = none; reading = false })) c in
        some (
          record u { awaiter = record (u.awaiter) { status = nread; resume_to = none } },
          v.awaiter.resume_to,
        ))
unfolding on_read
on_read-reading v s c nread k z =
    rw (z, on_read)
      (ap
        (λ (u : Io). some (
          record u { awaiter = record (u.awaiter) { status = nread; resume_to = none } },
          v.awaiter.resume_to,
        ))
        (release_slots-reading v s c))

on_stop_requested-reading :
    (e : Errnos) (v : Io) (s : Stream) (c : Caller) (k : ℕ)
    → on_stop_requested e v (reading s c) c (pos k) ≡ (
        let u = unlink (with_stream v (record s { active_read = none; reading = false })) c in
        some (
          record u {
            awaiter = record (u.awaiter) { status = negsuc e.ecanceled; resume_to = none };
          },
          v.awaiter.resume_to,
        ))
unfolding on_stop_requested
on_stop_requested-reading e v s c k =
    rw (==_refl c.self, end_read)
      (ap
        (λ (u : Io). some (
          record u {
            awaiter = record (u.awaiter) { status = negsuc e.ecanceled; resume_to = none };
          },
          v.awaiter.resume_to,
        ))
        (release_slots-reading v s c))

-- From a read that suspended, a native read callback with a count, an error or the end of the
-- stream resumes that task and no other, with reading stopped, the slot free and the registration
-- withdrawn, so that a stop request that comes after it does nothing; a callback with nothing read
-- leaves everything as it is; and a stop request that comes instead resumes the task in the same
-- way with UV_ECANCELED. Stopping the native read is assumed to succeed.
pub on_read_once :
    (e : Errnos) (w v : Io) (s : Stream) (c : Caller) (size : ℕ) (start stop nread : ℤ) (k : ℕ)
    → w.source ≡ some s
    → await_read e w c size start stop ≡ returned (some (v, true))
    → eqb nread (pos 0) ≡ false
    → let done = record w {
      source = some (record s { active_read = none; reading = false });
      awaiter = record (w.awaiter) { resume_to = none; linked = false; status = nread };
    } in
      (on_read v (reading s c) c (pos 0) (pos k) ≡ some (v, none))
      × (on_read v (reading s c) c nread (pos k) ≡ some (done, some c.continuation))
      × (on_stop_requested e done (record s { active_read = none; reading = false }) c (pos k)
          ≡ some (done, none))
      × (on_stop_requested e v (reading s c) c (pos k)
          ≡ some (
            record done { awaiter = record (done.awaiter) { status = negsuc e.ecanceled } },
            some c.continuation,
          ))
unfolding on_read on_stop_requested link unlink
on_read_once e w v s c size start stop nread k i h z =
    let p = await_read_exclusive e w v s c size start stop i h in
    (
      ground arith,
      on_read-reading v s c nread k z ∙ ground arith,
      ground arith,
      on_stop_requested-reading e v s c k ∙ ground arith,
    )

-- The result of a read: the end of the stream is a value of no bytes marked as the end, which no
-- count is; a count is a value with that count; any other negative status is the error of its
-- code.
pub read_result_cases :
    (e : Errnos) (n m : ℕ)
    → m ≢ e.eof
    → (read_result e (negsuc e.eof) ≡ value_of (record { count = 0; eof = true }))
      × (read_result e (pos n) ≡ value_of (record { count = n; eof = false }))
      × (read_result e (negsuc m) ≡ error_of (record { status = negsuc m }))
unfolding read_result
read_result_cases e n m h = (ground arith, refl, ground arith)
