-- ===== src/Net/PipeListener.antt =====
-- include/uvpp/net/pipe_listener.hpp with the slot of include/uvpp/detail/accept_slot.hpp: the listener
-- and one accept of it. The claim of the slot is
-- the address of its awaiter. The statuses of libuv are arguments.
pub mod Tcp
pub mod Accept
pub mod Delivery
pub mod Owner
use uvpp.Base.{
  ℕ, Bool, true, false, ◌&&◌, ◌||◌, not, Option, none, some, ◌==◌, if◌then◌else◌, is_some,
  points_to, ℤ, pos, negsuc, is_neg,
}
use uvpp.Co.Await.{Caller}
use uvpp.Co.Cancellation.Spec.{Registry, enrol}
use uvpp.Co.Sleep.{withdrawn}
use uvpp.Core.Error.{
  Errnos, Outcome, Result, error_of, from_native, logic_error, operational, returned, thrown,
  value_of,
}
use uvpp.Detail.AsyncClose.{
  CloseState, begin, can_destroy_now, fresh, is_closing, is_opened, owner_released,
}

-- pipe_listener_state
pub record Listener : Type 0 where
  pub loop : ℕ
  pub active : Option ℕ  -- the claim of `accept`
  pub ipc : Bool
  pub close : CloseState
  pub native_closing : Bool

-- The connection that an accept prepares: its loop, its mode, and the mode of its native pipe.
pub record Child : Type 0 where
  pub loop : ℕ
  pub ipc : Bool
  pub native_ipc : Bool

-- An accept_awaiter on its listener. `child_waiter` is what the close of the connection resumes.
pub record Accepting : Type 0 where
  pub listener : Listener
  pub connection : Option Child
  pub continuation : Option ℕ
  pub cancel : Option Registry
  pub status : ℤ
  pub provisional_close_required : Bool
  pub provisional_close_completed : Bool
  pub child_waiter : Option ℕ

-- accept_awaiter::close_untransferred_connection
unfoldable pub close_untransferred_connection : Accepting → Option ℕ → Accepting
close_untransferred_connection a continuation = record a {
  connection = none;
  provisional_close_required = true;
  child_waiter = continuation;
}

-- accept_awaiter::on_listener_close_requested
unfoldable pub on_listener_close_requested : Errnos → Accepting → Caller → Accepting
unfolding close_untransferred_connection
on_listener_close_requested e a c =
    let t = record a {
      status = negsuc e.ecanceled;
      cancel = withdrawn a.cancel c.registration;
      continuation = none;
    } in
    close_untransferred_connection t a.continuation

-- pipe_listener_state::quiesce_active_accept
unfoldable pub quiesce_active_accept : Errnos → Accepting → Caller → Accepting
unfolding on_listener_close_requested
quiesce_active_accept e a c =
    let freed = record a { listener = record (a.listener) { active = none } } in
    if points_to a.listener.active c.self then on_listener_close_requested e freed c else freed

-- The end of `await_suspend`: the registration of an accept that holds the slot.
unfoldable pub enrol_accept : Errnos → Accepting → Caller → Accepting
unfolding quiesce_active_accept enrol
enrol_accept e a c = elim a.cancel [
  | none ↦ a
  | some g ↦
      (let t = record a { cancel = some (enrol g c.registration).0 } in
        if (enrol g c.registration).1 then t else quiesce_active_accept e t c)
]

abbrev pub refuse : Accepting → ℤ → Outcome (Accepting × Bool)
refuse a status = returned (record a { status = status }, false)

-- accept_awaiter::await_suspend. The first Boolean says that the owner has no state, the number is
-- the status of the connection's `uv_pipe_init`.
unfoldable pub await_accept : Errnos → Bool → Accepting → Caller → ℤ → Outcome (Accepting × Bool)
unfolding enrol_accept
await_accept e null a c init =
    if null || is_closing a.listener.close
    then refuse a (negsuc e.ebadf)
    else if not (c.loop == a.listener.loop)
    then thrown logic_error
    else if elim a.cancel [ none ↦ false | some g ↦ g.halted ]
    then refuse a (negsuc e.ecanceled)
    else if is_some a.listener.active
    then refuse a (negsuc e.ebusy)
    else (let made = record a {
      status = init;
      connection = some (record {
        loop = a.listener.loop;
        ipc = a.listener.ipc;
        native_ipc = if a.listener.ipc then true else false;
      });
    } in
        if is_neg init
        then returned (made, false)
        else returned (
          enrol_accept e
              (record made {
                continuation = some c.continuation;
                listener = record (a.listener) { active = some c.self };
              })
              c,
          true,
        ))

-- accept_awaiter::on_connection, with the status of `uv_accept`; and what it resumes.
unfoldable pub on_connection : Accepting → Caller → ℤ → ℤ → Accepting × Option ℕ
unfolding close_untransferred_connection
on_connection a c status accepted =
    let t = record a {
      cancel = withdrawn a.cancel c.registration;
      status = if is_neg status then status else accepted;
      continuation = none;
    } in
    if is_neg t.status
    then (close_untransferred_connection t a.continuation, none)
    else (t, a.continuation)

-- pipe_listener_state::on_connection, for the awaiter that has the slot.
unfoldable pub deliver : Accepting → Caller → ℤ → ℤ → Accepting × Option ℕ
unfolding on_connection
deliver a c status accepted =
    if is_closing a.listener.close
    then (a, none)
    else (let freed = record a { listener = record (a.listener) { active = none } } in
        if points_to a.listener.active c.self
        then on_connection freed c status accepted
        else (freed, none))

-- pipe_listener_state::request_close
unfoldable pub request_close : Errnos → Accepting → Caller → Accepting × Bool
unfolding begin quiesce_active_accept
request_close e a c =
    let (close, begun) = begin a.listener.close in
    if not begun
    then (a, false)
    else (let t =
          quiesce_active_accept e (record a { listener = record (a.listener) { close = close } })
            c in
        (record t { listener = record (t.listener) { native_closing = true } }, true))

-- accept_awaiter::on_stop_requested
unfoldable pub on_stop_requested : Errnos → Accepting → Caller → Accepting
unfolding quiesce_active_accept
on_stop_requested e a c =
    if points_to a.listener.active c.self then quiesce_active_accept e a c else a

-- The close callback of the connection, which marks its completion; and what is resumed.
unfoldable pub on_child_closed : Accepting → Accepting × Option ℕ
on_child_closed a =
    (record a { provisional_close_completed = true; child_waiter = none }, a.child_waiter)

-- accept_awaiter::await_resume_result; a failed assertion is `none`.
unfoldable pub accept_result : Accepting → Option (Result (Option Child))
unfolding from_native
accept_result a =
    if a.provisional_close_required && not a.provisional_close_completed
    then none
    else if is_neg a.status
    then some (error_of (from_native a.status))
    else some (value_of a.connection)
