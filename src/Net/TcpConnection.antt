-- ===== src/Net/TcpConnection.antt =====
-- include/uvpp/net/tcp_connection.hpp: the native state of a connection, its owner and the awaiter of
-- a connect. Pointers between the state and the awaiter that is making it are the flag `provisional`.
pub mod Connect
use uvpp.Base.{
  ℕ, ◌+◌, Bool, true, false, ◌&&◌, ◌||◌, not, Option, none, some, List, if◌then◌else◌, is_some, ℤ,
  pos, negsuc, is_neg,
}
use uvpp.Core.Error.{Errnos, Outcome, operational, returned, thrown}
use uvpp.Detail.AsyncClose.{
  complete_begin, complete_end, is_closed, is_closing, set_callback_waiter,
}
use uvpp.Detail.AsyncClose.Life.{Life, born, release_owner, request_close}
use uvpp.Core.Loop.{close}

-- tcp_connection_state; its `async_close_state` is in `life`, with libuv's record of the native close
-- and the deletions of the state. `io` is its `stream_io_state`.
pub record Connection : Type 0 where
  pub loop : Option ℕ
  pub connect_continuation : Option ℕ
  pub provisional : Bool
  pub connect_status : ℤ
  pub initialized : Bool
  pub life : Life
  pub write_active : Bool
  pub active_read : Option ℕ
  pub handle_export_active : Bool

unfoldable pub new_connection : Connection
unfolding born
new_connection = record {
  loop = none;
  connect_continuation = none;
  provisional = false;
  connect_status = pos 0;
  initialized = false;
  life = born;
  write_active = false;
  active_read = none;
  handle_export_active = false;
}

-- tcp_connection_state::has_active_operation
unfoldable pub has_active_operation : Connection → Bool
has_active_operation s = s.write_active || (is_some s.active_read || s.handle_export_active)

unfoldable pub acquire_handle_export : Errnos → Connection → Connection × ℤ
acquire_handle_export e s =
    if is_closing s.life.close
    then (s, negsuc e.ebadf)
    else if s.handle_export_active
    then (s, negsuc e.ebusy)
    else (record s { handle_export_active = true }, pos 0)

unfoldable pub release_handle_export : Connection → Connection
release_handle_export s = record s { handle_export_active = false }

-- tcp_connection_state::request_close_from_callback
unfoldable pub request_close_from_callback : Connection → Option ℕ → Connection
unfolding set_callback_waiter request_close
request_close_from_callback s h = record s {
  life = request_close (record (s.life) { close = set_callback_waiter s.life.close h });
}

-- tcp_connection_state::on_close, without the code that the resumed coroutines run: the state, and
-- what is resumed.
unfoldable pub on_close : Connection → Connection × List ℕ
unfolding complete_begin complete_end
on_close s =
    let (begun, hs) = complete_begin s.life.close in
    let (finished, deletes) = complete_end begun in
    (
      record s {
        life = record (s.life) {
          close = finished;
          native = false;
          deleted = if deletes then s.life.deleted + 1 else s.life.deleted;
        };
      },
      hs,
    )

-- tcp_connection::request_close of an owner whose state may be null.
unfoldable pub request_owner_close : Errnos → Option Connection → Outcome (Option Connection)
unfolding has_active_operation request_close
request_owner_close e state = elim state [
  | none ↦ thrown (operational (negsuc e.ebadf))
  | some s ↦
      if not (is_closed s.life.close.phase) && has_active_operation s
      then thrown (operational (negsuc e.ebusy))
      else returned (some (record s { life = request_close s.life }))
]

-- tcp_connection::reset: the native state that it leaves behind; `none` stands for `std::terminate`.
unfoldable pub reset : Connection → Option Connection
unfolding release_owner has_active_operation
reset s = if has_active_operation s then none else some (record s { life = release_owner s.life })

-- A connect_awaiter; `owned` says that its unique pointer still has the state. `pending` is libuv's
-- record that the connect callback is to come.
pub record Connecting : Type 0 where
  pub state : Option Connection
  pub owned : Bool
  pub status : ℤ
  pub pending : Bool

abbrev pub idle : Connecting
idle = record { state = none; owned = false; status = pos 0; pending = false }

-- A connect that failed gives the state up and closes it; the coroutine goes on after the close.
unfoldable pub fail : Connecting → Connection → Option ℕ → Connecting
unfolding release_owner request_close_from_callback
fail a s h = record a {
  state = some (request_close_from_callback (record s { life = release_owner s.life }) h);
  owned = false;
}

-- connect_awaiter::await_suspend for a task with the given loop, stop flag and continuation, with
-- the statuses of `uv_tcp_init` and `uv_tcp_connect`.
unfoldable pub await_suspend : Errnos → Bool → ℕ → ℕ → ℤ → ℤ → Connecting × Bool
unfolding fail new_connection
await_suspend e stopped loop h init sent =
    if stopped
    then (
      record idle { state = some new_connection; owned = true; status = negsuc e.ecanceled },
      false,
    )
    else (let s = record new_connection {
      loop = some loop;
      connect_continuation = some h;
      provisional = true;
      connect_status = init;
    } in
        if is_neg init
        then (record idle { state = some s; owned = true; status = init }, false)
        else (let t = record s { initialized = true; connect_status = sent } in
            if is_neg sent
            then (
              fail (record idle { status = sent }) (record t { connect_continuation = none })
                  (some h),
              true,
            )
            else (record { state = some t; owned = true; status = sent; pending = true }, true)))

-- tcp_connection_state::on_connect, and what it resumes.
unfoldable pub on_connect : Connecting → Connection → ℤ → Connecting × Option ℕ
unfolding fail
on_connect a s status =
    let t = record s { connect_status = status; connect_continuation = none } in
    let b = record a { status = status; pending = false } in
    if is_neg status
    then (fail b t s.connect_continuation, none)
    else (record b { state = some t }, s.connect_continuation)

-- connect_awaiter::await_resume: the state of the connection that it returns.
unfoldable pub await_resume : Connecting → Outcome (Option Connection)
await_resume a = if is_neg a.status then thrown (operational a.status) else elim a.state [
  | none ↦ returned none
  | some s ↦ returned (some (record s { provisional = false }))
]
