-- ===== src/Net/PipeConnection.antt =====
-- include/uvpp/net/pipe_connection.hpp: receiving TCP connections over a pipe, with the bytes that
-- come with them. What libuv and the allocator answer is in the pending entries and in the
-- arguments; `none` stands for `std::terminate`.
pub mod Adopt
pub mod Receive
use uvpp.Base.{
  ◌-◌, ℕ, zero, suc, ◌+◌, Bool, true, false, ◌&&◌, not, Option, none, some, List, [], ◌∷◌, ◌++◌,
  ◌==◌, if◌then◌else◌, is_some, points_to, ℤ, pos, negsuc, is_neg,
}
use uvpp.Core.Buffer.{NativeBuffer, make_native_buffer_unchecked}
use uvpp.Co.Await.{World, Caller, stop_requested, link, unlink}
use uvpp.Core.Error.{Errnos, Outcome, logic_error, operational, returned, thrown}
use uvpp.Detail.StreamIo.{Stream, stop_native}
use uvpp.Detail.AsyncClose.{is_closing}
use uvpp.Detail.StreamIo.Reads.{reading}

-- The part of pipe_connection_state that a receive uses; the pipe's `close` is in `io.is_closing`.
pub record Pipe : Type 0 where
  pub io : Stream
  pub ipc : Bool

-- A handle in the native queue of the pipe, with the answers of the calls that take it over:
-- whether it is a TCP handle, whether `reserve` and `make_unique` find memory, and the statuses of
-- `uv_tcp_init` and `uv_accept`.
pub record Handle : Type 0 where
  pub connection : ℕ
  pub is_tcp : Bool
  pub room : Bool
  pub made : Bool
  pub init : ℤ
  pub accept : ℤ

-- What `uv_pipe_pending_count` finds: a handle at the front of the queue, or an error.
pub data Pending : Type 0 where
  waiting : Handle → Pending
  broken : ℕ → Pending

-- incoming_: null, not initialised, initialised, closing with its close callback to come, closed.
pub data Incoming : Type 0 where
  missing spare initialized ending ended : Incoming

abbrev pub is_missing : Incoming → Bool
is_missing missing = true
is_missing _ = false

abbrev pub is_initialized : Incoming → Bool
is_initialized initialized = true
is_initialized _ = false

-- receive_handle_awaiter, whose status and continuation are with the awaiter. `discarded` are the
-- connections whose owners it destroyed; `child_waiter` is what the close of `incoming` resumes.
pub record Receiver : Type 0 where
  pub bytes : ℕ  -- bytes_transferred_
  pub status : ℤ
  pub incoming : Incoming
  pub received : List ℕ
  pub close_pipe : Bool
  pub discarded : List ℕ
  pub child_waiter : Option ℕ

abbrev pub new_receiver : Receiver
new_receiver = record {
  bytes = 0;
  status = pos 0;
  incoming = missing;
  received = [];
  close_pipe = false;
  discarded = [];
  child_waiter = none;
}

abbrev pub protocol_failure : Receiver → Incoming → ℤ → Receiver × Bool
protocol_failure r incoming status =
    (record r { status = status; incoming = incoming; close_pipe = true }, true)

-- adopt_pending_tcp, for the entries that the native queue has; `adopted` starts as false.
unfoldable pub adopt_pending_tcp : Errnos → List Pending → Receiver → Bool → Receiver × Bool
adopt_pending_tcp e [] r adopted = (record r { status = pos 0 }, adopted)
adopt_pending_tcp e (broken n ∷ ps) r adopted = protocol_failure r r.incoming (negsuc n)
adopt_pending_tcp e (waiting h ∷ ps) r adopted =
    let rest =
      adopt_pending_tcp e ps
        (record r {
          status = h.accept;
          incoming = missing;
          received = r.received ++ h.connection ∷ [];
        })
        true in
    if not h.is_tcp
    then protocol_failure r r.incoming (negsuc e.eproto)
    else if not h.room
    then protocol_failure r r.incoming (negsuc e.enomem)
    else if is_missing r.incoming && not h.made
    then protocol_failure r r.incoming (negsuc e.enomem)
    else if is_neg h.init
    then protocol_failure r spare h.init
    else if is_neg h.accept
    then protocol_failure r initialized h.accept
    else rest

abbrev pub Receiving : Type 0
Receiving = World Pipe Receiver

abbrev pub with_receiver : Receiving → Receiver → Receiving
with_receiver w r = record w { awaiter = record (w.awaiter) { event = r } }

-- release_slots
unfoldable pub release_slots : Receiving → Caller → Receiving
unfolding unlink
release_slots w c =
    unlink
      (if points_to w.source.io.active_read c.self
        then record w {
          source = record (w.source) { io = record (w.source.io) { active_read = none } };
        }
        else w)
      c

-- stop_native_or_terminate and release_slots, with the continuation taken out; and that continuation.
unfoldable pub quiet : Receiving → Caller → ℤ → Option (Receiving × Option ℕ)
unfolding stop_native release_slots
quiet w c stop = elim (stop_native w.source.io stop) [
  | none ↦ none
  | some s ↦
      (let v = release_slots (record w { source = record (w.source) { io = s } }) c in
        some (record v { awaiter = record (v.awaiter) { resume_to = none } }, w.awaiter.resume_to))
]

-- close_pipe_after_protocol_failure, where it is called.
unfoldable pub close_pipe_if_failed : Receiving → Receiving
close_pipe_if_failed w =
    if w.awaiter.event.close_pipe
    then record w { source = record (w.source) { io = record (w.source.io) { is_closing = true } } }
    else w

-- discard_received
unfoldable pub discard_received : Receiver → Receiver
discard_received r = record r { received = []; discarded = r.discarded ++ r.received }

-- The end of on_read, after the native read is stopped; and what is resumed.
unfoldable pub deliver : Receiving → Option ℕ → Receiving × Option ℕ
unfolding close_pipe_if_failed discard_received
deliver w continuation =
    if is_neg w.awaiter.event.status
    then (let v = close_pipe_if_failed w in
        let r = discard_received v.awaiter.event in
        if is_initialized r.incoming
        then (with_receiver v (record r { incoming = ending; child_waiter = continuation }), none)
        else (with_receiver v r, continuation))
    else (w, continuation)

unfoldable pub end_read : Receiving → Caller → ℤ → Option (Receiving × Option ℕ)
unfolding quiet deliver
end_read w c stop = elim (quiet w c stop) [
  | none ↦ none
  | some v ↦ (let (u, continuation) = v in some (deliver u continuation))
]

-- receive_handle_awaiter::on_alloc, for a buffer from the address `base` on: what libuv may write to.
-- A native length has `bits` bits.
unfoldable pub on_alloc : ℕ → ℕ → ℕ → Receiver → NativeBuffer
unfolding make_native_buffer_unchecked
on_alloc bits base size r = make_native_buffer_unchecked bits (base + r.bytes) (size - r.bytes)

-- receive_handle_awaiter::on_read with the size of the buffer and the native queue.
unfoldable pub on_read :
    Errnos → Receiving → Caller → ℕ → ℤ → List Pending → ℤ → Option (Receiving × Option ℕ)
unfolding adopt_pending_tcp end_read
on_read e w c size (negsuc n) pending stop =
    end_read (with_receiver w (record (w.awaiter.event) { status = negsuc n })) c stop
on_read e w c size (pos zero) pending stop =
    let (r, done) =
      adopt_pending_tcp e pending (record (w.awaiter.event) { status = pos 0 }) false in
    if done then end_read (with_receiver w r) c stop else some (with_receiver w r, none)
on_read e w c size (pos (suc n)) pending stop =
    let (r, done) =
      adopt_pending_tcp e pending
        (record (w.awaiter.event) { status = pos (suc n); bytes = w.awaiter.event.bytes + suc n })
        false in
    if done
    then end_read (with_receiver w r) c stop
    else if r.bytes == size
    then end_read (with_receiver w (record r { status = negsuc e.enobufs })) c stop
    else some (with_receiver w r, none)

-- receive_handle_awaiter::on_stop_requested
unfoldable pub on_stop_requested : Errnos → Receiving → Caller → ℤ → Option (Receiving × Option ℕ)
unfolding quiet
on_stop_requested e w c stop =
    if not (points_to w.source.io.active_read c.self)
    then some (w, none)
    else quiet (with_receiver w (record (w.awaiter.event) { status = negsuc e.ecanceled })) c stop

-- The close callback of the connection that could not be accepted, and what it resumes.
unfoldable pub on_child_closed : Receiving → Receiving × Option ℕ
on_child_closed w = (
  with_receiver w (record (w.awaiter.event) { incoming = ended; child_waiter = none }),
  w.awaiter.event.child_waiter,
)

abbrev pub refuse_receive : Receiving → ℤ → Receiving × Bool
refuse_receive w status = (with_receiver w (record (w.awaiter.event) { status = status }), false)

-- The part of `await_suspend` after its checks.
unfoldable pub start_receive : Errnos → Receiving → Caller → ℤ → ℤ → Option (Receiving × Bool)
unfolding link quiet
start_receive e w c start stop =
    let t = with_receiver w (record (w.awaiter.event) { incoming = spare; status = start }) in
    if is_neg start
    then some (record t { awaiter = record (t.awaiter) { resume_to = none } }, false)
    else (let (linked, accepted) =
          link
            (record t {
              source = record (t.source) {
                io = record (t.source.io) { active_read = some c.self; reading = true };
              };
            })
            c in
        if accepted then some (linked, true) else elim (quiet linked c stop) [
          | none ↦ none
          | some v ↦ some (refuse_receive v.0 (negsuc e.ecanceled))
        ])

-- receive_handle_awaiter::await_suspend, for a connection whose state is null or not.
unfoldable pub await_receive :
    Errnos → Bool → Receiving → Caller → ℕ → ℤ → ℤ → Outcome (Option (Receiving × Bool))
unfolding start_receive
await_receive e null w c size start stop =
    if null
    then returned (some (refuse_receive w (negsuc e.ebadf)))
    else if w.source.io.is_closing
    then returned (some (refuse_receive w (negsuc e.ebadf)))
    else if not (c.loop == w.source.io.loop)
    then thrown logic_error
    else if stop_requested w
    then returned (some (refuse_receive w (negsuc e.ecanceled)))
    else if not w.source.ipc
    then returned (some (refuse_receive w (negsuc e.einval)))
    else if is_some w.source.io.active_read
    then returned (some (refuse_receive w (negsuc e.ebusy)))
    else if size == 0
    then returned (some (refuse_receive w (negsuc e.einval)))
    else returned (start_receive e w c start stop)

-- receive_handle_result: the connections and the bytes.
pub record Received : Type 0 where
  pub tcp : List ℕ
  pub bytes_transferred : ℕ

-- receive_handle_awaiter::await_resume
unfoldable pub receive_result : Receiver → Outcome Received
receive_result r =
    if is_neg r.status
    then thrown (operational r.status)
    else returned (record { tcp = r.received; bytes_transferred = r.bytes })

-- receive_handle_result::take_tcp
unfoldable pub take_tcp : Received → Outcome (Received × ℕ)
take_tcp r = elim r.tcp [
  | [] ↦ thrown logic_error
  | t ∷ rest ↦ returned (record r { tcp = rest }, t)
]
