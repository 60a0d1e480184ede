-- ===== src/Handles/Stream.antt =====
-- include/uvpp/handles/stream.hpp: the read subscription and the connection callback of a raw stream.
-- A subscription, and a connection callback, is a value of `R`; what user code does to the stream
-- inside a callback is an argument. The statuses of the native calls are arguments; `none` stands
-- for the exception boundary, which terminates.
pub mod Lending
pub mod Loans
pub mod Subscriptions
pub mod Write
use uvpp.Base.{
  ℕ, Bool, true, false, ◌&&◌, ◌||◌, not, Option, none, some, ◌==◌, if◌then◌else◌, is_some, ℤ,
  negsuc, is_neg,
}
use uvpp.Core.Callback.Persistent.{Delivery, Slot, checkout, replace, restore, take}
use uvpp.Core.Error.{Errnos, Status, status_from_native, status_ok}
use uvpp.Handles.Timer.{stop}

-- `ready` says that the handle is initialised and not closing; `active` is libuv's `uv_is_active`.
pub record RawStream (R : Type 0) : Type 0 where
  pub ready : Bool
  pub active : Bool
  pub can_listen : Bool
  pub reading : Bool
  pub listening : Bool
  pub subscription : Slot R
  pub pending : Delivery R  -- pending_read_
  pub connection : Slot R
  pub static_connection : Option R

module _ {R : Type 0} where
  abbrev pub no_delivery : Delivery R
  no_delivery = record { taken = none; at = 0 }

  unfoldable pub read_stop : Errnos → RawStream R → ℤ → RawStream R × Status
  unfolding status_from_native status_ok replace
  read_stop e s native =
      if not s.ready
      then (s, status_from_native (negsuc e.ebadf))
      else (let result = status_from_native native in
          if status_ok result
          then (record s { reading = false; subscription = replace s.subscription none }, result)
          else (s, result))

  -- The part of start_read after it stopped an earlier subscription; `inline` is what callbacks do
  -- inside `uv_read_start`.
  unfoldable pub publish : RawStream R → R → ℤ → (RawStream R → RawStream R) → RawStream R × Status
  unfolding status_from_native status_ok replace
  publish s next native inline =
      let slot = replace s.subscription (some next) in
      let t = inline (record s { subscription = slot; reading = true }) in
      let result = status_from_native native in
      if not (status_ok result) && t.subscription.generation == slot.generation
      then (record t { reading = false; subscription = replace t.subscription none }, result)
      else (t, result)

  -- start_read, with the status of the `uv_read_stop` that it may call.
  unfoldable pub start_read :
      Errnos → RawStream R → R → ℤ → ℤ → (RawStream R → RawStream R) → RawStream R × Status
  unfolding read_stop publish status_from_native status_ok
  start_read e s next stop native inline =
      if s.listening
      then (s, status_from_native (negsuc e.einval))
      else if s.reading
      then (let (t, stopped) = read_stop e s stop in
          if not (status_ok stopped) then (t, stopped) else publish t next native inline)
      else publish s next native inline

  -- read_start, for the pair of an allocator and a reader.
  unfoldable pub read_start :
      Errnos → RawStream R → Option R → ℤ → ℤ → (RawStream R → RawStream R) → RawStream R × Status
  unfolding start_read status_from_native
  read_start e s next stop native inline =
      if not s.ready then (s, status_from_native (negsuc e.ebadf)) else elim next [
        | none ↦ (s, status_from_native (negsuc e.einval))
        | some r ↦ start_read e s r stop native inline
      ]

  -- alloc_trampoline: the stream, and the subscription whose allocator lent the buffer.
  unfoldable pub alloc : RawStream R → (RawStream R → RawStream R) → RawStream R × Option R
  unfolding checkout restore
  alloc s body =
      let (slot, lent) = checkout (restore s.subscription s.pending) in
      let t = record s { subscription = slot; pending = no_delivery } in
      (record (if is_some lent.taken then body t else t) { pending = lent }, lent.taken)

  -- read_trampoline: the stream, and the subscription whose reader gets the result; `stop` is the
  -- status of `uv_read_stop` after an error.
  unfoldable pub read :
      RawStream R → ℤ → ℤ → (RawStream R → RawStream R) → Option (RawStream R × Option R)
  unfolding checkout restore replace
  read s nread stop body =
      let t = record s { pending = no_delivery } in
      let (slot, lent) =
        if is_some s.pending.taken then (s.subscription, s.pending) else checkout s.subscription in
      let u = record t { subscription = slot } in
      let ended = record u { reading = false; subscription = replace u.subscription none } in
      let before = if is_neg nread then ended else u in
      let after = if is_some lent.taken then body before else before in
      if is_neg nread && is_neg stop
      then none
      else some (record after { subscription = restore after.subscription lent }, lent.taken)

  -- listen, with libuv's `uv_is_active` after the call.
  unfoldable pub listen : Errnos → RawStream R → ℕ → Option R → ℤ → Bool → RawStream R × Status
  unfolding status_from_native status_ok replace
  listen e s backlog callback native active =
      if not s.ready
      then (s, status_from_native (negsuc e.ebadf))
      else if not s.can_listen || (not (is_some callback) || backlog == 0)
      then (s, status_from_native (negsuc e.einval))
      else (let t = record s { active = active } in
          let result = status_from_native native in
          if status_ok result
          then (
            record t {
              listening = true;
              connection = replace t.connection callback;
              static_connection = none;
            },
            result,
          )
          else if not active
          then (
            record t {
              listening = false;
              connection = replace t.connection none;
              static_connection = none;
            },
            result,
          )
          else (t, result))

  -- listen_static
  unfoldable pub listen_static : Errnos → RawStream R → ℕ → R → ℤ → Bool → RawStream R × Status
  unfolding status_from_native status_ok replace
  listen_static e s backlog callback native active =
      if not s.ready
      then (s, status_from_native (negsuc e.ebadf))
      else if not s.can_listen || backlog == 0
      then (s, status_from_native (negsuc e.einval))
      else (let t = record s { active = active } in
          let result = status_from_native native in
          if status_ok result
          then (
            record t {
              listening = true;
              connection = replace t.connection none;
              static_connection = some callback;
            },
            result,
          )
          else if not active
          then (
            record t {
              listening = false;
              connection = replace t.connection none;
              static_connection = none;
            },
            result,
          )
          else (t, result))

  -- connection_trampoline up to the callback that it calls, which is returned: after a fatal error
  -- the callbacks are taken out.
  unfoldable pub connection_callback : RawStream R → ℤ → RawStream R × Option R
  unfolding take
  connection_callback s code =
      let called : Option R = elim s.static_connection [
        | some c ↦ some c
        | none ↦ s.connection.callback
      ] in
      if is_neg code && not s.active
      then (
        record s {
          listening = false;
          connection = (take s.connection).0;
          static_connection = none;
        },
        called,
      )
      else (s, called)

  -- release_callbacks
  unfoldable pub release_callbacks : RawStream R → RawStream R
  unfolding replace
  release_callbacks s = record s {
    reading = false;
    listening = false;
    subscription = replace s.subscription none;
    connection = replace s.connection none;
    static_connection = none;
  }

  -- close, and finish_close in the close callback.
  unfoldable pub close : RawStream R → RawStream R
  unfolding release_callbacks
  close s = if not s.ready then s else release_callbacks (record s { ready = false })

  unfoldable pub finish_close : RawStream R → RawStream R
  finish_close s = record s { pending = no_delivery }
