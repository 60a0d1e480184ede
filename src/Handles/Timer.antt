-- ===== src/Handles/Timer.antt =====
-- include/uvpp/handles/timer.hpp: durations in milliseconds, and the callback of a timer. The
-- statuses of libuv's calls, and its `uv_is_active` after them, are arguments.
pub mod Millis
use uvpp.Base.{
  ℕ, zero, suc, ◌-◌, ◌*◌, ◌/◌, ◌%◌, ◌^◌, Bool, not, Option, ltb, ◌==◌, if◌then◌else◌, ℤ, pos,
  negsuc, is_neg,
}
use uvpp.Core.Callback.Persistent.{Slot}
use uvpp.Core.Error.{Errnos, Result, Status, error_of, from_native, status_from_native, value_of}
use uvpp.Handles.Watcher.{Watcher, commit_start, commit_stop, deliver, deliver_terminal, unusable}

-- `millis` of an integral duration of `count` ticks, each `num / den` milliseconds, where one of the
-- two is 1. The largest uint64_t is 2 ^ 64 - 1.
unfoldable pub millis : Errnos → ℕ → ℕ → ℤ → Result ℕ
unfolding from_native
millis e num den (negsuc n) = value_of 0
millis e num den (pos zero) = value_of 0
millis e num den (pos (suc n)) =
    let count = suc n % 2 ^ 64 in
    if num == 1
    then value_of (count / den)
    else if ltb ((2 ^ 64 - 1) / num) count
    then error_of (from_native (negsuc e.einval))
    else value_of (count * num % 2 ^ 64)

module _ {C : Type 0} where
  unfoldable pub init : Errnos → Watcher C → ℤ → Watcher C × Status
  unfolding status_from_native
  init e w native =
      if w.initialized
      then (w, status_from_native (negsuc e.ealready))
      else (record w { initialized = not (is_neg native) }, status_from_native native)

  -- start, with the two converted durations.
  unfoldable pub start_timer :
      Errnos → Watcher C → Result ℕ → Result ℕ → Option C → ℤ → Bool → Watcher C × Status
  unfolding commit_start status_from_native
  start_timer e w timeout repeat cb native active =
      if unusable w then (w, status_from_native (negsuc e.ebadf)) else elim timeout [
        | error_of c ↦ (w, record { code = c })
        | value_of t ↦ elim repeat [
          | error_of c ↦ (w, record { code = c })
          | value_of r ↦ commit_start w native active cb
        ]
      ]

  unfoldable pub stop : Errnos → Watcher C → ℤ → Bool → Watcher C × Status
  unfolding commit_stop status_from_native
  stop e w native active =
      if unusable w then (w, status_from_native (negsuc e.ebadf)) else commit_stop w native active

  unfoldable pub again : Errnos → Watcher C → ℤ → Watcher C × Status
  unfolding status_from_native
  again e w native =
      if unusable w
      then (w, status_from_native (negsuc e.ebadf))
      else if not w.active
      then (w, status_from_native (negsuc e.einval))
      else (w, status_from_native native)

  -- timer_trampoline, with `uv_is_active` when it is called, which is false for the last expiry.
  unfoldable pub timer_trampoline : Watcher C → Bool → (C → Slot C → Slot C) → Watcher C
  unfolding deliver deliver_terminal
  timer_trampoline w active body =
      let t = record w { active = active } in
      if active then (deliver t body).0 else (deliver_terminal t).0
