-- ===== src/Detail/StreamIo.antt =====
-- include/uvpp/detail/stream_io.hpp: the read and the write slot of a stream, with their awaiters.
-- The statuses of the uv_read and uv_write calls and of a pin's `acquire` are arguments; `none`
-- stands for `std::terminate`. `reading` is libuv's record that reading is started, and `pins`
-- counts the pins acquired and not released.
pub mod Reads
pub mod Writes
use uvpp.Base.{
  ℕ, ◌+◌, ◌-◌, Bool, true, false, not, Option, none, some, ◌==◌, if◌then◌else◌, is_some, points_to,
  ℤ, pos, negsuc, is_neg, eqb,
}
use uvpp.Co.Await.{World, Caller, stop_requested, refuse, link, unlink}
use uvpp.Core.Error.{
  Errnos, Outcome, Result, error_of, from_native, logic_error, returned, thrown, value_of,
}
use uvpp.Core.Callback.OneShot.{claimed}

pub record Stream : Type 0 where
  pub loop : ℕ
  pub is_closing : Bool
  pub write_active : Bool
  pub active_read : Option ℕ
  pub reading : Bool
  pub pins : ℕ

-- The event of a read awaiter is trivial: all that it gets is its status.
abbrev pub Io : Type 0
Io = World (Option Stream) (Unit {0})

-- stream_read_some_result
pub record ReadSome : Type 0 where
  pub count : ℕ
  pub eof : Bool

abbrev pub with_stream : Io → Stream → Io
with_stream w s = record w { source = some s }

-- The read awaiter's release_slots.
unfoldable pub release_slots : Io → Stream → Caller → Io
unfolding unlink
release_slots w s c =
    unlink
      (with_stream w
        (if points_to s.active_read c.self then record s { active_read = none } else s))
      c

-- stop_native_or_terminate
unfoldable pub stop_native : Stream → ℤ → Option Stream
stop_native s stop = if is_neg stop then none else some (record s { reading = false })

-- The end of a read: the status, a stopped native read, free slots; and what is resumed last.
unfoldable pub end_read : Io → Stream → Caller → ℤ → ℤ → Option (Io × Option ℕ)
unfolding stop_native
end_read w s c status stop = elim (stop_native s stop) [
  | none ↦ none
  | some t ↦
      (let v = release_slots w t c in
        some (
          record v { awaiter = record (v.awaiter) { status = status; resume_to = none } },
          w.awaiter.resume_to,
        ))
]

-- stream_read_awaiter::on_read
unfoldable pub on_read : Io → Stream → Caller → ℤ → ℤ → Option (Io × Option ℕ)
unfolding end_read
on_read w s c nread stop = if eqb nread (pos 0) then some (w, none) else end_read w s c nread stop

-- stream_read_awaiter::on_stop_requested
unfoldable pub on_stop_requested : Errnos → Io → Stream → Caller → ℤ → Option (Io × Option ℕ)
unfolding end_read
on_stop_requested e w s c stop =
    if not (points_to s.active_read c.self)
    then some (w, none)
    else end_read w s c (negsuc e.ecanceled) stop

-- The part of the read's `await_suspend` after its checks.
unfoldable pub start_read : Errnos → Io → Stream → Caller → ℤ → ℤ → Option (Io × Bool)
unfolding link stop_native release_slots
start_read e w s c start stop =
    if is_neg start
    then some (refuse (record w { awaiter = record (w.awaiter) { resume_to = none } }) start)
    else (let claimed = record s { active_read = some c.self; reading = true } in
        let (linked, accepted) = link (with_stream w claimed) c in
        if accepted
        then some (record linked { awaiter = record (linked.awaiter) { status = start } }, true)
        else elim (stop_native claimed stop) [
          | none ↦ none
          | some t ↦
              (let v = release_slots linked t c in
                some (
                  refuse (record v { awaiter = record (v.awaiter) { resume_to = none } })
                    (negsuc e.ecanceled)))
        ])

-- stream_read_awaiter::await_suspend, with the size of its buffer.
unfoldable pub await_read : Errnos → Io → Caller → ℕ → ℤ → ℤ → Outcome (Option (Io × Bool))
unfolding start_read
await_read e w c size start stop = elim w.source [
  | none ↦ returned (some (refuse w (negsuc e.ebadf)))
  | some s ↦
      if s.is_closing
      then returned (some (refuse w (negsuc e.ebadf)))
      else if not (c.loop == s.loop)
      then thrown logic_error
      else if stop_requested w
      then returned (some (refuse w (negsuc e.ecanceled)))
      else if is_some s.active_read
      then returned (some (refuse w (negsuc e.ebusy)))
      else if size == 0
      then returned (some (refuse w (negsuc e.einval)))
      else returned (start_read e w s c start stop)
]

-- stream_read_awaiter::await_resume_result
unfoldable pub read_result : Errnos → ℤ → Result ReadSome
unfolding from_native
read_result e status =
    if eqb status (negsuc e.eof) then value_of (record { count = 0; eof = true }) else elim status [
      | negsuc n ↦ error_of (from_native (negsuc n))
      | pos n ↦ value_of (record { count = n; eof = false })
    ]

-- stream_write_pin: the loop of the pinned owner, where there is a pin.
pub record Write : Type 0 where
  pub pin : Option ℕ
  pub submission : ℤ  -- handle_submission_status_
  pub acquired : Bool  -- pin_acquired_

-- stream_write_awaiter::release_pin
unfoldable pub release_pin : Stream → Write → Stream × Write
release_pin s p =
    if p.acquired then (record s { pins = s.pins - 1 }, record p { acquired = false }) else (s, p)

-- A write's world: the pin beside it.
pub record WriteWorld : Type 0 where
  pub io : Io
  pub write : Write

-- The submission: the slot, the continuation and `uv_write` or `uv_write2`.
unfoldable pub submit : Io → Stream → Write → Caller → ℤ → WriteWorld × Bool
unfolding release_pin
submit w s p c sent =
    if is_neg sent
    then (let (t, q) = release_pin s p in
        (
          record {
            io = record w {
              source = some t;
              awaiter = record (w.awaiter) { resume_to = none; status = sent };
            };
            write = q;
          },
          false,
        ))
    else (
      record {
        io = record w {
          source = some (record s { write_active = true });
          awaiter = record (w.awaiter) { resume_to = some c.continuation; status = sent };
        };
        write = p;
      },
      true,
    )

-- The slot and pin part of the write's `await_suspend`.
unfoldable pub start_write : Errnos → Io → Stream → Write → Caller → ℤ → ℤ → WriteWorld × Bool
unfolding submit
start_write e w s p c acquire sent =
    if s.write_active
    then (record { io = (refuse w (negsuc e.ebusy)).0; write = p }, false)
    else if is_some p.pin
    then (if is_neg acquire
        then (record { io = (refuse w acquire).0; write = p }, false)
        else submit w (record s { pins = s.pins + 1 }) (record p { acquired = true }) c sent)
    else submit w s p c sent

abbrev pub refuse_write : Io → Write → ℤ → WriteWorld × Bool
refuse_write w p status = (record { io = (refuse w status).0; write = p }, false)

abbrev pub pin_elsewhere : Option ℕ → ℕ → Bool
pin_elsewhere none current = false
pin_elsewhere (some l) current = not (current == l)

-- stream_write_awaiter::await_suspend
unfoldable pub await_write : Errnos → Io → Write → Caller → ℤ → ℤ → Outcome (WriteWorld × Bool)
unfolding start_write
await_write e w p c acquire sent = elim w.source [
  | none ↦ returned (refuse_write w p (negsuc e.ebadf))
  | some s ↦
      if s.is_closing
      then returned (refuse_write w p (negsuc e.ebadf))
      else if not (c.loop == s.loop)
      then thrown logic_error
      else if pin_elsewhere p.pin c.loop
      then thrown logic_error
      else if stop_requested w
      then returned (refuse_write w p (negsuc e.ecanceled))
      else if is_neg p.submission
      then returned (refuse_write w p p.submission)
      else returned (start_write e w s p c acquire sent)
]

-- stream_write_awaiter::on_write: the world after it, and what it resumes last.
unfoldable pub on_write : WriteWorld → Stream → ℤ → WriteWorld × Option ℕ
unfolding release_pin
on_write w s status =
    let (t, q) = release_pin (record s { write_active = false }) w.write in
    (
      record {
        io = record (w.io) {
          source = some t;
          awaiter = record (w.io.awaiter) { resume_to = none; status = status };
        };
        write = q;
      },
      w.io.awaiter.resume_to,
    )
