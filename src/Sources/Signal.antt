-- ===== src/Sources/Signal.antt =====
-- include/uvpp/signal_source.hpp: a persistent signal subscription with one consumer; a signal with
-- no consumer is kept as one pending signal. `started` is libuv's record that the watch runs.
pub mod Cancelled
pub mod Pending
pub mod Terminal
use uvpp.Core.Callback.OneShot
use uvpp.Base.{
  ℕ, Bool, true, false, not, Option, none, some, ◌==◌, if◌then◌else◌, ℤ, pos, negsuc, is_neg, eqb,
}
use uvpp.Co.Await.{World, Caller, stop_requested, refuse, link, unlink, Awaiter}
use uvpp.Detail.AsyncClose.{CloseState, fresh, is_closing, begin}
use uvpp.Core.Error.{
  Errnos, Outcome, logic_error, operational, returned, thrown, value, Result, error_of, from_native,
  value_of,
}

pub record Source : Type 0 where
  pub loop : ℕ
  pub close : CloseState
  pub waiter : OneShot.Slot (Unit {0})
  pub pending_signal : ℤ
  pub pending : Bool
  pub started : Bool
  pub native_closing : Bool

abbrev pub Signal : Type 0
Signal = World (Option Source) ℤ

-- The constructor, given the statuses of `uv_signal_init` and `uv_signal_start`. A source whose
-- start failed is closed at once and thrown away.
unfoldable pub construct : ℕ → ℤ → ℤ → Outcome Source
unfolding fresh OneShot.empty
construct loop init start =
    if is_neg init
    then thrown (operational init)
    else if is_neg start
    then thrown (operational start)
    else returned (record {
      loop = loop;
      close = fresh;
      waiter = OneShot.empty;
      pending_signal = pos 0;
      pending = false;
      started = true;
      native_closing = false;
    })

-- next_awaiter::on_delivery: the value UV_ECANCELED stands for a cancellation.
unfoldable pub on_delivery : Errnos → Signal → Caller → ℤ → Signal × Option ℕ
unfolding unlink
on_delivery e w c delivered =
    let u = unlink w c in
    (
      if eqb delivered (negsuc e.ecanceled)
          then record u {
            awaiter = record (u.awaiter) { resume_to = none; status = negsuc e.ecanceled };
          }
          else record u { awaiter = record (u.awaiter) { resume_to = none; event = delivered } },
      u.awaiter.resume_to,
    )

-- waiter.deliver
unfoldable pub deliver : Errnos → Signal → Source → Caller → ℤ → Signal × Option ℕ
unfolding OneShot.deliver on_delivery
deliver e w s c value =
    let (slot, call) = OneShot.deliver s.waiter in
    let freed = record w { source = some (record s { waiter = slot }) } in
    elim call [ none ↦ (freed, none) | some cb ↦ on_delivery e freed c value ]

-- deliver_signal: the world after it, and the coroutine that it resumes last.
unfoldable pub deliver_signal : Errnos → Signal → Source → Caller → ℤ → Signal × Option ℕ
unfolding deliver OneShot.claimed
deliver_signal e w s c signum =
    if is_closing s.close
    then (w, none)
    else if OneShot.claimed s.waiter
    then deliver e w s c signum
    else (record w { source = some (record s { pending_signal = signum; pending = true }) }, none)

-- signal_source_state::request_close
unfoldable pub request_close : Errnos → Signal → Source → Caller → Signal × Option ℕ × Bool
unfolding begin deliver
request_close e w s c =
    let (close, begun) = begin s.close in
    if not begun
    then (w, none, false)
    else (let (v, resumed) =
          deliver e w (record s { close = close; started = false }) c (negsuc e.ecanceled) in
        (
          record v {
            source = elim v.source [
              | none ↦ none
              | some t ↦ some (record t { native_closing = true })
            ];
          },
          resumed,
          true,
        ))

-- The part of `await_suspend` after the check for a pending signal.
unfoldable pub wait : Errnos → Signal → Source → Caller → Signal × Bool
unfolding OneShot.claim OneShot.release link
wait e w s c =
    let (slot, granted) = OneShot.claim s.waiter (some c.self) (some tt) in
    if not granted
    then refuse w (negsuc e.ebusy)
    else (let (linked, accepted) =
          link (record w { source = some (record s { waiter = slot }) }) c in
        if not accepted
        then refuse
            (record linked {
              source = some (record s { waiter = (OneShot.release slot c.self).0 });
              awaiter = record (linked.awaiter) { resume_to = none; linked = false };
            })
            (negsuc e.ecanceled)
        else (linked, true))

-- next_awaiter::await_suspend
unfoldable pub await_suspend : Errnos → Signal → Caller → Outcome (Signal × Bool)
unfolding wait
await_suspend e w c = elim w.source [
  | none ↦ returned (refuse w (negsuc e.ebadf))
  | some s ↦
      if is_closing s.close
      then returned (refuse w (negsuc e.ebadf))
      else if not (c.loop == s.loop)
      then thrown logic_error
      else if stop_requested w
      then returned (refuse w (negsuc e.ecanceled))
      else if s.pending
      then returned (
        record w {
          source = some (record s { pending = false });
          awaiter = record (w.awaiter) { event = s.pending_signal };
        },
        false,
      )
      else returned (wait e w s c)
]

-- next_awaiter::on_stop_requested, which cancels the wait of its source.
unfoldable pub on_stop_requested : Errnos → Signal → Caller → Signal × Option ℕ
unfolding deliver
on_stop_requested e w c = elim w.source [
  | none ↦ (w, none)
  | some s ↦ deliver e w s c (negsuc e.ecanceled)
]

-- next_awaiter::await_resume of the throwing form, and of the result form.
unfoldable pub await_resume : Awaiter ℤ → Outcome ℤ
await_resume a = if is_neg a.status then thrown (operational a.status) else returned a.event

unfoldable pub await_resume_result : Awaiter ℤ → Result ℤ
unfolding from_native
await_resume_result a =
    if is_neg a.status then error_of (from_native a.status) else value_of a.event
