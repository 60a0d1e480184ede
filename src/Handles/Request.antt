-- ===== src/Handles/Request.antt =====
-- include/uvpp/detail/stream_request.hpp: the callbacks of a write or shutdown request. The native
-- call is its status. A callable of user code is a value of `C`; one without a target is `none`.
pub mod Delivery
use uvpp.Base.{Bool, true, false, not, Option, none, some, if◌then◌else◌, is_some, ℤ, negsuc}
use uvpp.Core.Error.{Errnos, Status, status_from_native, status_ok}

-- stream_request; `in_flight` is libuv's record that the completion is to come.
pub record StreamRequest (C : Type 0) : Type 0 where
  pub callback : Option C
  pub static_callback : Option C
  pub is_pending : Bool
  pub in_flight : Bool

module _ {C : Type 0} where
  -- stream_request_submission::submit
  unfoldable pub submit : Errnos → StreamRequest C → Option C → ℤ → StreamRequest C × Status
  unfolding status_from_native status_ok
  submit e r callback native =
      if r.is_pending
      then (r, status_from_native (negsuc e.ebusy))
      else if not (is_some callback)
      then (r, status_from_native (negsuc e.einval))
      else (let result = status_from_native native in
          if status_ok result
          then (
            record {
              callback = callback;
              static_callback = none;
              is_pending = true;
              in_flight = true;
            },
            result,
          )
          else (r, result))

  -- stream_request_submission::submit_static
  unfoldable pub submit_static : Errnos → StreamRequest C → C → ℤ → StreamRequest C × Status
  unfolding status_from_native status_ok
  submit_static e r callback native =
      if r.is_pending
      then (r, status_from_native (negsuc e.ebusy))
      else (let result = status_from_native native in
          if status_ok result
          then (
            record {
              callback = none;
              static_callback = some callback;
              is_pending = true;
              in_flight = true;
            },
            result,
          )
          else (r, result))

  -- stream_request::trampoline: the request as the callback finds it, and the callback.
  unfoldable pub trampoline : StreamRequest C → StreamRequest C × Option C
  trampoline r = (
    record { callback = none; static_callback = none; is_pending = false; in_flight = false },
    elim r.static_callback [ some c ↦ some c | none ↦ r.callback ],
  )

  abbrev pub new_request : StreamRequest C
  new_request = record {
    callback = none;
    static_callback = none;
    is_pending = false;
    in_flight = false;
  }
