-- ===== src/Requests/Work.antt =====
-- include/uvpp/requests/work.hpp: a request for the thread pool, with the callable that a worker runs
-- and the one that follows on the loop. A callable of user code is a value of `C`; one without a
-- target is `none`. The status of `uv_queue_work` is an argument.
pub mod Order
use uvpp.Base.{
  ℕ, Bool, true, false, not, Option, none, some, if◌then◌else◌, is_some, ℤ, negsuc, is_neg,
}
use uvpp.Core.Error.{Errnos, Status, status_from_native}

-- work_request
pub record WorkRequest (C : Type 0) : Type 0 where
  pub work : Option C
  pub after : Option C
  pub is_pending : Bool

module _ {C : Type 0} where
  abbrev pub new_work : WorkRequest C
  new_work = record { work = none; after = none; is_pending = false }

  -- submit
  unfoldable pub submit : Errnos → WorkRequest C → Option C → Option C → ℤ → WorkRequest C × Status
  unfolding status_from_native
  submit e r work after native =
      if r.is_pending
      then (r, status_from_native (negsuc e.ebusy))
      else if not (is_some work)
      then (r, status_from_native (negsuc e.einval))
      else (
        if is_neg native
            then record { work = none; after = none; is_pending = false }
            else record { work = work; after = after; is_pending = true },
        status_from_native native,
      )

  -- submit_static, whose callables are not kept in the request.
  unfoldable pub submit_static : Errnos → WorkRequest C → ℤ → WorkRequest C × Status
  unfolding status_from_native
  submit_static e r native =
      if r.is_pending
      then (r, status_from_native (negsuc e.ebusy))
      else (record r { is_pending = not (is_neg native) }, status_from_native native)

  -- cancel, with the status of `uv_cancel`.
  unfoldable pub cancel : Errnos → WorkRequest C → ℤ → Status
  unfolding status_from_native
  cancel e r native =
      if r.is_pending then status_from_native native else status_from_native (negsuc e.einval)

  -- run, on a worker: the callable that it runs.
  unfoldable pub run : WorkRequest C → WorkRequest C × Option C
  run r = (record r { work = none }, r.work)

  -- complete, on the loop: the callable that it calls last.
  unfoldable pub complete : WorkRequest C → WorkRequest C × Option C
  complete r = (record { work = none; after = none; is_pending = false }, r.after)
