-- ===== src/Sources/Poll.antt =====
-- include/uvpp/poll_source.hpp: readiness of a borrowed descriptor, one native wait at a time. The
-- statuses of the uv_poll calls are arguments. `armed` is libuv's record that polling is started.
pub mod Cancelled
pub mod Next
pub mod Terminal
use uvpp.Core.Callback.OneShot
use uvpp.Base.{
  ℕ, ◌-◌, Bool, true, false, ◌||◌, not, Option, none, some, ◌==◌, if◌then◌else◌, ℤ, negsuc, is_neg,
}
use Prim.Native.Nat.{bit_and}
use uvpp.Co.Await.{World, Awaiter, Caller, stop_requested, refuse, link, unlink}
use uvpp.Detail.AsyncClose.{CloseState, fresh, is_closing, begin}
use uvpp.Core.Error.{
  Errnos, Outcome, Result, error_of, from_native, logic_error, operational, returned, thrown,
  value_of,
}

pub record Source : Type 0 where
  pub loop : ℕ
  pub close : CloseState
  pub waiter : OneShot.Slot (Unit {0})
  pub armed : Bool
  pub native_closing : Bool

abbrev pub Poll : Type 0
Poll = World (Option Source) ℕ

-- `raw & ~allowed` of two masks.
abbrev pub and_not : ℕ → ℕ → ℕ
and_not raw allowed = raw - bit_and raw allowed

-- The constructor, given the status of its `uv_poll_init`.
unfoldable pub construct : ℕ → ℤ → Outcome Source
unfolding fresh OneShot.empty
construct loop status =
    if is_neg status
    then thrown (operational status)
    else returned (record {
      loop = loop;
      close = fresh;
      waiter = OneShot.empty;
      armed = false;
      native_closing = false;
    })

-- A source's waiter slot released by the awaiter that claimed it.
unfoldable pub let_go : Source → Caller → Source
unfolding OneShot.release
let_go s c = record s { waiter = (OneShot.release s.waiter c.self).0 }

-- The part of `await_suspend` after the claim: the mask, the registration and `uv_poll_start`.
unfoldable pub arm : Errnos → ℕ → Poll → Source → Caller → ℕ → ℤ → Poll × Bool
unfolding let_go link unlink
arm e allowed w s c requested start =
    if requested == 0 || not (and_not requested allowed == 0)
    then refuse (record w { source = some (let_go s c) }) (negsuc e.einval)
    else let (linked, accepted) = link (record w { source = some s }) c in
      if not accepted
      then refuse
          (record linked {
            source = some (let_go s c);
            awaiter = record (linked.awaiter) { resume_to = none; linked = false };
          })
          (negsuc e.ecanceled)
      else if is_neg start
      then (let undone = unlink linked c in
          refuse
            (record undone {
              source = some (let_go s c);
              awaiter = record (undone.awaiter) { resume_to = none };
            })
            start)
      else (
        record linked {
          source = some (record s { armed = true });
          awaiter = record (linked.awaiter) { status = start };
        },
        true,
      )

-- next_awaiter::await_suspend: the world after it, and whether the task stays suspended.
unfoldable pub await_suspend : Errnos → ℕ → Poll → Caller → ℕ → ℤ → Outcome (Poll × Bool)
unfolding OneShot.claim arm
await_suspend e allowed w c requested start = elim w.source [
  | none ↦ returned (refuse w (negsuc e.ebadf))
  | some s ↦
      if is_closing s.close
      then returned (refuse w (negsuc e.ebadf))
      else if not (c.loop == s.loop)
      then thrown logic_error
      else if stop_requested w
      then returned (refuse w (negsuc e.ecanceled))
      else (let (slot, granted) = OneShot.claim s.waiter (some c.self) (some tt) in
          if not granted
          then returned (refuse w (negsuc e.ebusy))
          else returned (arm e allowed w (record s { waiter = slot }) c requested start))
]

-- next_awaiter::on_delivery: the world after it, and the coroutine that it resumes last.
unfoldable pub on_delivery : Poll → Caller → ℤ → ℕ → Poll × Option ℕ
unfolding unlink
on_delivery w c status delivered =
    let u = unlink w c in
    (
      record u {
        awaiter = record (u.awaiter) { resume_to = none; status = status; event = delivered };
      },
      u.awaiter.resume_to,
    )

-- deliver_event: polling stops, the slot is released, and then the awaiter is called, if any.
unfoldable pub deliver_event : Poll → Source → Caller → ℤ → ℕ → Poll × Option ℕ
unfolding OneShot.deliver on_delivery
deliver_event w s c status events =
    let (slot, call) = OneShot.deliver s.waiter in
    let stopped = record w { source = some (record s { armed = false; waiter = slot }) } in
    elim call [ none ↦ (stopped, none) | some cb ↦ on_delivery stopped c status events ]

-- poll_source_state::request_close; the third part says whether the close began here.
unfoldable pub request_close : Errnos → Poll → Source → Caller → Poll × Option ℕ × Bool
unfolding begin deliver_event
request_close e w s c =
    let (close, begun) = begin s.close in
    if not begun
    then (w, none, false)
    else (let (v, resumed) =
          deliver_event w (record s { close = close }) c (negsuc e.ecanceled) 0 in
        (
          record v {
            source = elim v.source [
              | none ↦ none
              | some t ↦ some (record t { native_closing = true })
            ];
          },
          resumed,
          true,
        ))

-- next_awaiter::await_resume of the throwing form.
unfoldable pub await_resume : Awaiter ℕ → Outcome ℕ
await_resume a = if is_neg a.status then thrown (operational a.status) else returned a.event

-- next_awaiter::await_resume of the result form.
unfoldable pub await_resume_result : Awaiter ℕ → Result ℕ
unfolding from_native
await_resume_result a =
    if is_neg a.status then error_of (from_native a.status) else value_of a.event

-- next_awaiter::on_stop_requested, which cancels the wait of its source.
unfoldable pub on_stop_requested : Errnos → Poll → Caller → Poll × Option ℕ
unfolding deliver_event
on_stop_requested e w c = elim w.source [
  | none ↦ (w, none)
  | some s ↦ deliver_event w s c (negsuc e.ecanceled) 0
]
