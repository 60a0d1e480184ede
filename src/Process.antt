-- ===== src/Process.antt =====
-- include/uvpp/handles/process.hpp: a child process with its exit, the one awaiter of it, and the
-- owner. The statuses of the native calls are arguments.
pub mod Life
pub mod Wait
pub mod Options
pub mod Raw
use uvpp.Base.{
  ℕ, Bool, true, false, ◌&&◌, ◌||◌, not, Option, none, some, ◌==◌, if◌then◌else◌, ℤ, pos, negsuc,
  is_neg,
}
use uvpp.Co.Await.{World, Awaiter, Caller, stop_requested, refuse, link, unlink}
use uvpp.Core.Callback.OneShot
use uvpp.Core.Error.{
  Errnos, Outcome, Result, Status, error_of, from_native, logic_error, operational, returned,
  status_from_native, thrown, value_of, throw_if_error,
}
use uvpp.Detail.AsyncClose.{
  CloseState, begin, fresh, is_closed, is_closing, is_opened, owner_released,
}

-- process_exit
pub record Exit : Type 0 where
  pub status : ℤ
  pub signal : ℤ

-- process_state
pub record Process : Type 0 where
  pub loop : ℕ
  pub close : CloseState
  pub waiter : OneShot.Slot (Unit {0})
  pub exit : Exit
  pub exited : Bool
  pub released : Bool  -- owner_released

abbrev pub no_exit : Exit
no_exit = record { status = pos 0; signal = pos 0 }

abbrev pub new_process : ℕ → Process
new_process loop = record {
  loop = loop;
  close = fresh;
  waiter = OneShot.empty;
  exit = no_exit;
  exited = false;
  released = false;
}

-- process_state::request_close; the second part says whether it calls `uv_close`.
unfoldable pub request_close : Process → Process × Bool
unfolding begin
request_close p =
    if not p.exited
    then (p, false)
    else (let (c, begun) = begin p.close in
        if not begun then (p, false) else (record p { close = c }, true))

-- process_state::release_owner: whether it calls `uv_close`, and whether it deletes the state.
unfoldable pub release_owner : Process → Process × Bool × Bool
unfolding owner_released request_close
release_owner p =
    let q = record p { released = true; close = owner_released p.close } in
    if not q.exited
    then (q, false, false)
    else if is_opened q.close.phase
    then (let (r, begun) = request_close q in (r, begun, false))
    else (q, false, is_closed q.close.phase)

-- process_state::on_exit: whether it calls `uv_close`, and what it delivers last.
unfoldable pub on_exit : Process → Exit → Process × Bool × Option (Option ℕ × Unit {0})
unfolding request_close OneShot.deliver
on_exit p exit =
    let q = record p { exit = exit; exited = true } in
    let (r, begun) = if q.released then request_close q else (q, false) in
    let (slot, call) = OneShot.deliver r.waiter in (record r { waiter = slot }, begun, call)

-- process::process, with the status of `uv_spawn`: the process, and after a failure the state that is
-- left to the close callback.
unfoldable pub construct : ℕ → ℤ → Outcome Process × Option Process
unfolding release_owner
construct loop status =
    if is_neg status
    then (thrown (operational status), some (release_owner (new_process loop)).0)
    else (returned (new_process loop), none)

-- process::request_close of an owner whose state may be null.
unfoldable pub request_owner_close : Errnos → Option Process → Outcome (Option (Process × Bool))
unfolding request_close
request_owner_close e state = elim state [
  | none ↦ thrown (operational (negsuc e.ebadf))
  | some p ↦
      if not p.exited
      then thrown (operational (negsuc e.ebusy))
      else returned (some (request_close p))
]

-- process::kill and ops::kill, with the status of `uv_process_kill`.
unfoldable pub kill : Errnos → Option Process → ℤ → Outcome ℤ
unfolding throw_if_error
kill e state native = elim state [
  | none ↦ thrown (operational (negsuc e.ebadf))
  | some p ↦
      if is_closing p.close then thrown (operational (negsuc e.ebadf)) else throw_if_error native
]

unfoldable pub try_kill : Errnos → Option Process → ℤ → Status
unfolding status_from_native
try_kill e state native = elim state [
  | none ↦ status_from_native (negsuc e.ebadf)
  | some p ↦
      if is_closing p.close then status_from_native (negsuc e.ebadf) else status_from_native native
]

abbrev pub Waiting : Type 0
Waiting = World Process Exit

-- wait_awaiter::await_suspend, for a process whose state is null or not.
unfoldable pub await_wait : Errnos → Bool → Waiting → Caller → Outcome (Waiting × Bool)
unfolding OneShot.claim OneShot.release link
await_wait e null w c =
    if null
    then returned (refuse w (negsuc e.ebadf))
    else if is_closing w.source.close
    then returned (refuse w (negsuc e.ebadf))
    else if not (c.loop == w.source.loop)
    then thrown logic_error
    else if stop_requested w
    then returned (refuse w (negsuc e.ecanceled))
    else if w.source.exited
    then returned (record w { awaiter = record (w.awaiter) { event = w.source.exit } }, false)
    else (let (slot, granted) = OneShot.claim w.source.waiter (some c.self) (some tt) in
        if not granted
        then returned (refuse w (negsuc e.ebusy))
        else (let (linked, accepted) =
              link (record w { source = record (w.source) { waiter = slot } }) c in
            if accepted
            then returned (linked, true)
            else returned (
                refuse
                  (record linked {
                    source = record (linked.source) {
                      waiter = (OneShot.release linked.source.waiter c.self).0;
                    };
                    awaiter = record (linked.awaiter) { resume_to = none; linked = false };
                  })
                  (negsuc e.ecanceled))))

-- wait_awaiter::on_delivery, and what it resumes.
unfoldable pub on_delivery : Waiting → Caller → ℤ → Exit → Waiting × Option ℕ
unfolding unlink
on_delivery w c status exit =
    let u = unlink w c in
    (
      record u { awaiter = record (u.awaiter) { resume_to = none; status = status; event = exit } },
      u.awaiter.resume_to,
    )

-- process_state::cancel_waiter, and the wait_awaiter::on_stop_requested that calls it.
unfoldable pub cancel_waiter : Errnos → Waiting → Caller → Waiting × Option ℕ
unfolding OneShot.deliver on_delivery
cancel_waiter e w c =
    let (slot, call) = OneShot.deliver w.source.waiter in
    let v = record w { source = record (w.source) { waiter = slot } } in
    elim call [ none ↦ (v, none) | some cb ↦ on_delivery v c (negsuc e.ecanceled) no_exit ]

-- The exit callback of a process that this awaiter waits for, or nobody.
unfoldable pub exits : Waiting → Caller → Exit → Waiting × Option ℕ
unfolding on_exit on_delivery
exits w c exit =
    let (p, begun, call) = on_exit w.source exit in
    let v = record w { source = p } in
    elim call [ none ↦ (v, none) | some cb ↦ on_delivery v c (pos 0) p.exit ]

-- wait_awaiter::await_resume, of both forms.
unfoldable pub wait_result : Awaiter Exit → Result Exit
unfolding from_native
wait_result a = if is_neg a.status then error_of (from_native a.status) else value_of a.event

unfoldable pub wait_exit : Awaiter Exit → Outcome Exit
wait_exit a = if is_neg a.status then thrown (operational a.status) else returned a.event
