-- ===== src/Co/Sleep.antt =====
-- include/uvpp/co/sleep.hpp: the timer awaiter. Its native timer is closed before the task is
-- resumed, whatever ended the sleep. The statuses of `uv_timer_init` and `uv_timer_start` are
-- arguments.
pub mod Awakening
use uvpp.Base.{ℕ, Bool, true, false, Option, none, some, if◌then◌else◌, ℤ, pos, negsuc, is_neg}
use uvpp.Co.Await.{Caller}
use uvpp.Co.Cancellation.Spec.{Registry, enrol, withdraw}
use uvpp.Core.Error.{Errnos, Outcome, operational, returned, thrown}

-- `running` and `owed` are libuv's: the timer is started, and the close callback is to come.
pub record Sleep : Type 0 where
  pub continuation : Option ℕ
  pub cancel : Option Registry
  pub status : ℤ
  pub close_started : Bool
  pub running : Bool
  pub owed : Bool

-- An awaiter of a task with the given cancellation state, which may be null.
unfoldable pub construct : Option Registry → Sleep
construct cancel = record {
  continuation = none;
  cancel = cancel;
  status = pos 0;
  close_started = false;
  running = false;
  owed = false;
}

abbrev pub withdrawn : Option Registry → ℕ → Option Registry
withdrawn none r = none
withdrawn (some g) r = some (withdraw g r)

-- sleep_awaiter::finish
unfoldable pub finish : Sleep → Caller → ℤ → Sleep
unfolding withdraw
finish s c status = if s.close_started then s else record s {
  status = status;
  running = false;
  cancel = withdrawn s.cancel c.registration;
  close_started = true;
  owed = true;
}

-- The registration of a sleep whose timer was started.
unfoldable pub enrol_sleep : Errnos → Sleep → Caller → Sleep
unfolding finish enrol
enrol_sleep e s c = elim s.cancel [
  | none ↦ s
  | some g ↦
      (let t = record s { cancel = some (enrol g c.registration).0 } in
        if (enrol g c.registration).1 then t else finish t c (negsuc e.ecanceled))
]

-- sleep_awaiter::await_suspend
unfoldable pub await_suspend : Errnos → Sleep → Caller → ℤ → ℤ → Sleep × Bool
unfolding enrol_sleep
await_suspend e s c init start =
    let t = record s { continuation = some c.continuation } in
    if elim t.cancel [ none ↦ false | some g ↦ g.halted ]
    then (record t { status = negsuc e.ecanceled }, false)
    else if is_neg init
    then (record t { status = init }, false)
    else if is_neg start
    then (record t { status = start; owed = true; close_started = true }, true)
    else (enrol_sleep e (record t { status = start; running = true }) c, true)

-- sleep_awaiter::timer_trampoline
unfoldable pub on_timer : Sleep → Caller → Sleep
unfolding finish
on_timer s c = finish s c (pos 0)

-- sleep_awaiter::on_stop_requested
unfoldable pub on_stop_requested : Errnos → Sleep → Caller → Sleep
unfolding finish
on_stop_requested e s c = finish s c (negsuc e.ecanceled)

-- sleep_awaiter::close_trampoline: the sleep, and what it resumes.
unfoldable pub on_close : Sleep → Sleep × Option ℕ
on_close s = (record s { continuation = none; owed = false }, s.continuation)

-- sleep_awaiter::await_resume
unfoldable pub await_resume : Sleep → Outcome (Unit {0})
await_resume s = if is_neg s.status then thrown (operational s.status) else returned tt
