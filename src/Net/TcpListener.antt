-- ===== src/Net/TcpListener.antt =====
-- include/uvpp/net/tcp_listener.hpp with the slot of include/uvpp/detail/accept_slot.hpp: one
-- accept of a listener. The claim of the slot is the address of its awaiter; its two functions are
-- set and cleared with it and are not kept. The child is the connection that the accept prepares.
pub mod Accept
use uvpp.Base.{
  ℕ, Bool, true, false, ◌||◌, not, Option, none, some, ◌==◌, if◌then◌else◌, is_some, points_to, ℤ,
  negsuc, is_neg,
}
use uvpp.Co.Await.{Caller}
use uvpp.Co.Cancellation.Spec.{Registry, enrol, withdraw}
use uvpp.Co.Sleep.{withdrawn}
use uvpp.Core.Error.{Errnos, Outcome, logic_error, returned, thrown}
use uvpp.Detail.AsyncClose.{CloseState, begin, is_closing}

-- tcp_listener_state
pub record Listener : Type 0 where
  pub loop : ℕ
  pub active : Option ℕ  -- the claim of `accept`
  pub close : CloseState
  pub native_closing : Bool

-- Not made, initialised, closing with the close callback to come, and closed.
pub data Child : Type 0 where
  absent ready ending ended : Child

-- An accept_awaiter on its listener. `child_waiter` is what the close of the child resumes.
pub record Accepting : Type 0 where
  pub listener : Listener
  pub continuation : Option ℕ
  pub cancel : Option Registry
  pub status : ℤ
  pub child : Child
  pub child_waiter : Option ℕ

-- close_untransferred_connection, with the continuation taken out of the awaiter.
unfoldable pub close_child : Accepting → Accepting
close_child a = record a { child = ending; child_waiter = a.continuation; continuation = none }

-- accept_awaiter::on_listener_close_requested
unfoldable pub on_listener_close_requested : Errnos → Accepting → Caller → Accepting
unfolding close_child withdraw
on_listener_close_requested e a c =
    close_child
      (record a { status = negsuc e.ecanceled; cancel = withdrawn a.cancel c.registration })

-- quiesce_active_accept: the claim goes, and the awaiter that had it is cancelled.
unfoldable pub quiesce : Errnos → Accepting → Caller → Accepting
unfolding on_listener_close_requested
quiesce e a c =
    let freed = record a { listener = record (a.listener) { active = none } } in
    if points_to a.listener.active c.self then on_listener_close_requested e freed c else freed

-- The registration of an accept that holds the slot.
unfoldable pub enrol_accept : Errnos → Accepting → Caller → Accepting
unfolding quiesce enrol
enrol_accept e a c = elim a.cancel [
  | none ↦ a
  | some g ↦
      (let t = record a { cancel = some (enrol g c.registration).0 } in
        if (enrol g c.registration).1 then t else quiesce e t c)
]

abbrev pub refuse : Accepting → ℤ → Outcome (Accepting × Bool)
refuse a status = returned (record a { status = status }, false)

-- accept_awaiter::await_suspend. The first Boolean says that the owner has no state, the number is
-- the status of the child's `uv_tcp_init`.
unfoldable pub await_suspend : Errnos → Bool → Accepting → Caller → ℤ → Outcome (Accepting × Bool)
unfolding enrol_accept
await_suspend e null a c init =
    if null || is_closing a.listener.close
    then refuse a (negsuc e.ebadf)
    else if not (c.loop == a.listener.loop)
    then thrown logic_error
    else if elim a.cancel [ none ↦ false | some g ↦ g.halted ]
    then refuse a (negsuc e.ecanceled)
    else if is_some a.listener.active
    then refuse a (negsuc e.ebusy)
    else if is_neg init
    then refuse a init
    else returned (
      enrol_accept e
          (record a {
            status = init;
            child = ready;
            continuation = some c.continuation;
            listener = record (a.listener) { active = some c.self };
          })
          c,
      true,
    )

-- accept_awaiter::on_connection, with the status of `uv_accept`; and what it resumes.
unfoldable pub on_connection : Accepting → Caller → ℤ → ℤ → Accepting × Option ℕ
unfolding close_child withdraw
on_connection a c status accepted =
    let t = record a {
      cancel = withdrawn a.cancel c.registration;
      status = if is_neg status then status else accepted;
    } in
    if is_neg t.status
    then (close_child t, none)
    else (record t { continuation = none }, t.continuation)

-- tcp_listener_state::on_connection, for the awaiter that has the slot.
unfoldable pub deliver : Accepting → Caller → ℤ → ℤ → Accepting × Option ℕ
unfolding on_connection
deliver a c status accepted =
    if is_closing a.listener.close
    then (a, none)
    else (let freed = record a { listener = record (a.listener) { active = none } } in
        if points_to a.listener.active c.self
        then on_connection freed c status accepted
        else (freed, none))

-- tcp_listener_state::request_close
unfoldable pub request_close : Errnos → Accepting → Caller → Accepting × Bool
unfolding begin quiesce
request_close e a c =
    let (close, begun) = begin a.listener.close in
    if not begun
    then (a, false)
    else (let t = quiesce e (record a { listener = record (a.listener) { close = close } }) c in
        (record t { listener = record (t.listener) { native_closing = true } }, true))

-- accept_awaiter::on_stop_requested
unfoldable pub on_stop_requested : Errnos → Accepting → Caller → Accepting
unfolding quiesce
on_stop_requested e a c = if points_to a.listener.active c.self then quiesce e a c else a

-- The close callback of the child: the accept, and what is resumed.
unfoldable pub on_child_closed : Accepting → Accepting × Option ℕ
on_child_closed a = (record a { child = ended; child_waiter = none }, a.child_waiter)
