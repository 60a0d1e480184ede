-- ===== src/Handles/Watcher.antt =====
-- include/uvpp/detail/raw_watcher.hpp and initializable_handle.hpp: the callback of a raw watcher. A
-- `std::function` without a target is `none`.
use uvpp.Base.{Bool, true, false, ◌||◌, not, Option, none, if◌then◌else◌, ℤ, is_neg}
use uvpp.Core.Callback.Persistent.{Slot, invoke, replace, take}
use uvpp.Core.Error.{Status, status_from_native}

-- `initialized` and `closing` are read off the native handle, `active` is libuv's `uv_is_active`.
pub record Watcher (C : Type 0) : Type 0 where
  pub initialized : Bool
  pub closing : Bool
  pub active : Bool
  pub callback : Slot C

module _ {C : Type 0} where
  abbrev pub unusable : Watcher C → Bool
  unusable w = not w.initialized || w.closing

  -- commit_start, with `uv_is_active` after the native call.
  unfoldable pub commit_start : Watcher C → ℤ → Bool → Option C → Watcher C × Status
  unfolding replace status_from_native
  commit_start w native active cb =
      let t = record w { active = active } in
      (
        if not (is_neg native) || not active
            then record t { callback = replace t.callback (if active then cb else none) }
            else t,
        status_from_native native,
      )

  unfoldable pub commit_stop : Watcher C → ℤ → Bool → Watcher C × Status
  unfolding replace status_from_native
  commit_stop w native active =
      let t = record w { active = active } in
      (
        if not (is_neg native) then record t { callback = replace t.callback none } else t,
        status_from_native native,
      )

  -- deliver, with what the callable does to its slot; and whether there was one.
  unfoldable pub deliver : Watcher C → (C → Slot C → Slot C) → Watcher C × Bool
  unfolding invoke
  deliver w body =
      let (slot, called) = invoke w.callback body in (record w { callback = slot }, called)

  -- deliver_terminal: the callable that is called last.
  unfoldable pub deliver_terminal : Watcher C → Watcher C × Option C
  unfolding take
  deliver_terminal w = let (slot, cb) = take w.callback in (record w { callback = slot }, cb)

  -- close of an initialised handle, with the callable released after `uv_close`.
  unfoldable pub close : Watcher C → Watcher C
  unfolding replace
  close w =
      if not w.initialized
      then record w { callback = replace w.callback none }
      else record w { closing = true; active = false; callback = replace w.callback none }
