-- ===== src/Process/Raw.antt =====
-- include/uvpp/handles/process.hpp, `raw::process`: one spawn with its exit callback, and the storage
-- that a throwing constructor leaves behind. A callable of user code is a value of `C`; one without
-- a target is `none`. The status of `uv_spawn` and `uv_is_active` after it are arguments.
pub mod Abandoned
use uvpp.Base.{
  ℕ, ◌+◌, Bool, true, false, ◌||◌, not, Option, none, some, if◌then◌else◌, ℤ, negsuc, is_neg,
}
use uvpp.Core.Error.{
  Errnos, Outcome, Status, returned, status_from_native, status_ok, status_throw_if_error, thrown,
}
use uvpp.Process.Options.{NativeOptions, Options, passed, too_many}

-- process and its storage; `active` is libuv's record that the child runs.
pub record RawProcess (C : Type 0) : Type 0 where
  pub initialized : Bool
  pub closing : Bool
  pub active : Bool
  pub exit_callback : Option C
  pub static_exit : Option C

-- Storage without an owner; `close_owed` says that libuv owes it the close callback.
pub record Storage : Type 0 where
  pub active : Bool
  pub close_owed : Bool
  pub deleted : ℕ

module _ {C : Type 0} where
  abbrev pub new_raw_process : RawProcess C
  new_raw_process = record {
    initialized = false;
    closing = false;
    active = false;
    exit_callback = none;
    static_exit = none;
  }

  -- submit_spawn, and what `uv_spawn` is called with, if it is.
  unfoldable pub submit_spawn :
      Errnos
      → RawProcess C
      → Options
      → Option C
      → Option C
      → ℤ
      → Bool
      → RawProcess C × Status × Option NativeOptions
  unfolding passed status_from_native
  submit_spawn e p o cb static_exit native active =
      if p.initialized
      then (p, status_from_native (negsuc e.ealready), none)
      else if too_many o
      then (p, status_from_native (negsuc e.e2big), none)
      else (let t = record p { initialized = true; active = active } in
          (
            if not (is_neg native) || active
                then record t { exit_callback = cb; static_exit = static_exit }
                else t,
            status_from_native native,
            some (passed o),
          ))

  -- exit_trampoline of storage with an owner, and the callback that it calls.
  unfoldable pub exit_trampoline : RawProcess C → RawProcess C × Option C
  exit_trampoline p = (
    record p { active = false; exit_callback = none; static_exit = none },
    elim p.static_exit [ some c ↦ some c | none ↦ p.exit_callback ],
  )

  unfoldable pub close : RawProcess C → RawProcess C
  close p =
      if not p.initialized || p.closing
      then p
      else record p { closing = true; active = false; exit_callback = none; static_exit = none }

  -- throw_on_spawn_failure: what it throws, and the storage that it leaves to libuv.
  unfoldable pub throw_on_spawn_failure :
      RawProcess C → Status → Outcome (Unit {0}) × Option Storage
  unfolding status_ok status_throw_if_error
  throw_on_spawn_failure p result = if status_ok result then (returned tt, none) else (
    status_throw_if_error result,
    if p.initialized
        then some (record { active = p.active; close_owed = not p.active; deleted = 0 })
        else none,
  )

-- exit_trampoline of storage without an owner, and failed_spawn_close_trampoline.
unfoldable pub exit_abandoned : Storage → Storage
exit_abandoned s = record s { active = false; close_owed = true }

unfoldable pub close_abandoned : Storage → Storage
close_abandoned s = record s { close_owed = false; deleted = s.deleted + 1 }
