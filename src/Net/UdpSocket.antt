-- ===== src/Net/UdpSocket.antt =====
-- include/uvpp/net/udp_socket.hpp: the receive and the send slot of a socket, which are independent
-- of each other, with their awaiters, and the owner. The statuses of the native calls are arguments;
-- `none` stands for `std::terminate`.
pub mod Receive
use uvpp.Base.{
  ℕ, Bool, true, false, ◌&&◌, ◌||◌, not, Option, none, some, ◌==◌, if◌then◌else◌, is_some,
  points_to, ℤ, pos, negsuc, is_neg, eqb,
}
use uvpp.Co.Await.{World, Caller, stop_requested, refuse, link, unlink}
use uvpp.Core.Error.{
  Errnos, Outcome, Result, Status, error_of, from_native, logic_error, operational, returned,
  status_from_native, thrown, value_of,
}
use uvpp.Detail.AsyncClose.{is_closed, is_closing}
use uvpp.Detail.AsyncClose.Life.{Life, born, release_owner, request_close}
use uvpp.Core.Callback.OneShot.{claimed}

-- udp_socket_state; `receiving` is libuv's record that receiving is started.
pub record Socket : Type 0 where
  pub loop : ℕ
  pub life : Life
  pub send_active : Bool
  pub active_receive : Option ℕ
  pub receiving : Bool

unfoldable pub has_active_operation : Socket → Bool
has_active_operation s = s.send_active || is_some s.active_receive

-- udp_socket::request_close of an owner whose state may be null.
unfoldable pub request_owner_close : Errnos → Option Socket → Outcome (Option Socket)
unfolding has_active_operation request_close
request_owner_close e state = elim state [
  | none ↦ thrown (operational (negsuc e.ebadf))
  | some s ↦
      if not (is_closed s.life.close.phase) && has_active_operation s
      then thrown (operational (negsuc e.ebusy))
      else returned (some (record s { life = request_close s.life }))
]

-- udp_socket::reset: the state that it leaves behind; `none` stands for `std::terminate`.
unfoldable pub reset : Socket → Option Socket
unfolding release_owner
reset s =
    if s.send_active || is_some s.active_receive
    then none
    else some (record s { life = release_owner s.life })

-- udp_socket::make_state, with the statuses of `uv_udp_init` and `uv_udp_bind`; and the state that it
-- leaves to its own close, if there is one.
unfoldable pub make_state : ℕ → ℤ → ℤ → Result Socket × Option Socket
unfolding release_owner born from_native
make_state loop init bound =
    let s : Socket = record {
      loop = loop;
      life = born;
      send_active = false;
      active_receive = none;
      receiving = false;
    } in
    if is_neg init
    then (error_of (from_native init), none)
    else if is_neg bound
    then (error_of (from_native bound), some (record s { life = release_owner s.life }))
    else (value_of s, none)

-- The sender of a datagram; an address of another family is not kept.
pub record Peer : Type 0 where
  pub known : Bool
  pub address : ℕ

-- What a receive awaiter stores with its status.
pub record Datagram : Type 0 where
  pub peer : Option ℕ
  pub flags : ℕ

abbrev pub Receiving : Type 0
Receiving = World Socket Datagram

abbrev pub new_peer : Option Peer → Option ℕ → Option ℕ
new_peer none old = old
new_peer (some p) old = if p.known then some p.address else old

-- recv_from_awaiter::release_slots
unfoldable pub release_slots : Receiving → Caller → Receiving
unfolding unlink
release_slots w c =
    unlink
      (if points_to w.source.active_receive c.self
        then record w { source = record (w.source) { active_receive = none } }
        else w)
      c

-- recv_from_awaiter::stop_and_resume, and what it resumes.
unfoldable pub stop_and_resume : Receiving → Caller → ℤ → Option (Receiving × Option ℕ)
unfolding release_slots
stop_and_resume w c stop =
    if is_neg stop
    then none
    else (let v = release_slots (record w { source = record (w.source) { receiving = false } }) c in
        some (record v { awaiter = record (v.awaiter) { resume_to = none } }, w.awaiter.resume_to))

-- recv_from_awaiter::on_receive, for the awaiter that has the slot, if there is one.
unfoldable pub on_receive :
    Receiving → Caller → ℤ → Option Peer → ℕ → ℤ → Option (Receiving × Option ℕ)
unfolding stop_and_resume
on_receive w c nread peer flags stop =
    if not (is_some w.source.active_receive) || (eqb nread (pos 0) && not (is_some peer))
    then some (w, none)
    else stop_and_resume
        (record w {
          awaiter = record (w.awaiter) {
            status = nread;
            event = record { peer = new_peer peer w.awaiter.event.peer; flags = flags };
          };
        })
        c stop

-- recv_from_awaiter::cancel
unfoldable pub cancel_receive : Errnos → Receiving → Caller → ℤ → Option (Receiving × Option ℕ)
unfolding stop_and_resume
cancel_receive e w c stop =
    if not (points_to w.source.active_receive c.self)
    then some (w, none)
    else stop_and_resume (record w { awaiter = record (w.awaiter) { status = negsuc e.ecanceled } })
        c stop

-- The part of the receive's `await_suspend` after its checks.
unfoldable pub start_receive : Errnos → Receiving → Caller → ℤ → Receiving × Bool
unfolding link release_slots
start_receive e w c begun =
    let claimed = record w { source = record (w.source) { active_receive = some c.self } } in
    let (linked, accepted) = link claimed c in
    if not accepted
    then refuse
        (record linked {
          source = record (linked.source) { active_receive = none };
          awaiter = record (linked.awaiter) { resume_to = none };
        })
        (negsuc e.ecanceled)
    else if is_neg begun
    then refuse (release_slots linked c) begun
    else (
      record linked {
        source = record (linked.source) { receiving = true };
        awaiter = record (linked.awaiter) { status = begun };
      },
      true,
    )

-- recv_from_awaiter::await_suspend, for a socket whose state is null or not.
unfoldable pub await_receive : Errnos → Bool → Receiving → Caller → ℤ → Outcome (Receiving × Bool)
unfolding start_receive
await_receive e null w c begun =
    if null
    then returned (refuse w (negsuc e.ebadf))
    else if is_closing w.source.life.close
    then returned (refuse w (negsuc e.ebadf))
    else if not (c.loop == w.source.loop)
    then thrown logic_error
    else if stop_requested w
    then returned (refuse w (negsuc e.ecanceled))
    else if is_some w.source.active_receive
    then returned (refuse w (negsuc e.ebusy))
    else returned (start_receive e w c begun)

-- recv_from_result
pub record RecvFrom : Type 0 where
  pub size : ℕ
  pub peer : Option ℕ
  pub flags : ℕ

-- recv_from_awaiter::await_resume_result
unfoldable pub receive_result : Receiving → Result RecvFrom
unfolding from_native
receive_result w = elim w.awaiter.status [
  | negsuc n ↦ error_of (from_native (negsuc n))
  | pos n ↦
      value_of (record { size = n; peer = w.awaiter.event.peer; flags = w.awaiter.event.flags })
]

abbrev pub Sending : Type 0
Sending = World Socket (Unit {0})

-- send_to_awaiter::await_suspend, for a socket whose state is null or not.
unfoldable pub await_send : Errnos → Bool → Sending → Caller → ℤ → Outcome (Sending × Bool)
await_send e null w c sent =
    if null
    then returned (refuse w (negsuc e.ebadf))
    else if is_closing w.source.life.close
    then returned (refuse w (negsuc e.ebadf))
    else if not (c.loop == w.source.loop)
    then thrown logic_error
    else if stop_requested w
    then returned (refuse w (negsuc e.ecanceled))
    else if w.source.send_active
    then returned (refuse w (negsuc e.ebusy))
    else if is_neg sent
    then returned (
        refuse
          (record w {
            source = record (w.source) { send_active = false };
            awaiter = record (w.awaiter) { resume_to = none };
          })
          sent)
    else returned (
      record w {
        source = record (w.source) { send_active = true };
        awaiter = record (w.awaiter) { resume_to = some c.continuation; status = sent };
      },
      true,
    )

-- send_to_awaiter::on_send, and what it resumes.
unfoldable pub on_send : Sending → ℤ → Sending × Option ℕ
on_send w status = (
  record w {
    source = record (w.source) { send_active = false };
    awaiter = record (w.awaiter) { resume_to = none; status = status };
  },
  w.awaiter.resume_to,
)

-- send_to_awaiter::await_resume_result
unfoldable pub send_result : Sending → Status
unfolding status_from_native
send_result w = status_from_native w.awaiter.status
