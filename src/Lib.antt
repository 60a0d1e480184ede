-- ===== src/Lib.antt =====
-- uvpp: coroutine-based ownership over libuv, and what its core guarantees.
--
-- The library wraps libuv handles in owners with a close protocol, and lets coroutines await native
-- events on the loop thread. The parts modelled here, with the repository's paths:
--
-- - Core.Error: include/uvpp/core/error.hpp. `error_code`, `throw_if_error`, `result<T>` and
--   `result<void>`; an exception is a value of Exn, a call that may throw returns an Outcome.
-- - Core.Callback.Persistent and Core.Callback.OneShot: the callback slots of
--   include/uvpp/core/callback.hpp and include/uvpp/detail/one_shot_callback_slot.hpp.
-- - Core.Buffer and Core.Loop: include/uvpp/core/buffer.hpp and loop.hpp, the views of buffers with
--   their native lengths, and what the loop adds to that of libuv.
-- - Posting: include/uvpp/loop_posting.hpp. Posting.State has the fields and the locked operations,
--   Posting.Drain the drain of the loop thread, Posting.System the interleavings of producers, the
--   loop thread and the async handle, Posting.Endpoint the producers' capability.
-- - Detail.AsyncClose and Detail.OwnerClose: include/uvpp/detail/async_close_state.hpp and
--   owner_close.hpp, which every owner uses to close its native handle and to be awaited meanwhile.
-- - Detail.Ownership: the moves of owners, after include/uvpp/poll_source.hpp.
-- - Detail.StreamIo: include/uvpp/detail/stream_io.hpp, the read and the write slot of a stream.
-- - Co.Cancellation: include/uvpp/co/cancellation.hpp. The intrusive list over a store of nodes;
--   Co.Cancellation.Spec is what it promises to the awaiters, which use only that (Co.Await).
-- - Co.TaskScope: include/uvpp/co/task_scope.hpp, and Co.ResourceScope:
--   include/uvpp/co/resource_scope.hpp. Co.Sleep: include/uvpp/co/sleep.hpp.
-- - Co.Task and Co.Spawn: include/uvpp/co/task.hpp, the promise of a task and the state that a
--   spawned root shares with its handle; Co.Spawn.Destiny has the orders in which they are used.
-- - Fs.Request and Fs.File: include/uvpp/fs/coroutines.hpp, the awaiters of a file and its state.
-- - Sources.Poll, Sources.Signal, Sources.FsEvent: include/uvpp/poll_source.hpp, signal_source.hpp
--   and fs_event_source.hpp, which put a one-shot slot, a close state and a registration together.
-- - Net.TcpListener: one accept of include/uvpp/net/tcp_listener.hpp, with the slot of
--   include/uvpp/detail/accept_slot.hpp. Net.TcpConnection: include/uvpp/net/tcp_connection.hpp,
--   the connect. Net.PipeConnection: the receive of connections over a pipe in
--   include/uvpp/net/pipe_connection.hpp. Net.UdpSocket: include/uvpp/net/udp_socket.hpp.
-- - Fs.Scandir: the range over the entries of a scan in include/uvpp/fs/result.hpp.
-- - Handles.SendBatch, Handles.SendNow and Handles.Udp: the batch of datagrams, the sends that do not
--   wait and the receive subscription in include/uvpp/handles/udp.hpp.
-- - Handles.Request, Handles.Stream, Handles.Watcher and Handles.Timer: the callbacks of raw handles,
--   include/uvpp/detail/stream_request.hpp, include/uvpp/handles/stream.hpp,
--   include/uvpp/detail/raw_watcher.hpp and include/uvpp/handles/timer.hpp.
-- - Net.PipeListener: include/uvpp/net/pipe_listener.hpp, whose accept is that of the TCP listener on a
--   pipe (Net.PipeListener.Tcp) and prepares a connection of the listener's mode.
-- - Net.Resolve: the resolution of names in include/uvpp/net/dns.hpp.
-- - Process: include/uvpp/handles/process.hpp. The state of a process with its exit, its close and the
--   deletion of the state (Process.Life), and the wait for its exit; Process.Options has the options and
--   what libuv is given for them, Process.Raw a raw process whose spawn fails.
-- - Requests.Work and Requests.Dns: include/uvpp/requests/work.hpp and dns.hpp, requests with callbacks
--   of their own and the values that are copied from resolved addresses.
-- - Fs.Owned: the functions of namespace `uv::fs` in include/uvpp/fs/operations.hpp, by what their
--   callbacks do; a state on the heap counts how often it was deleted and was used after that.
-- - Misc.System: the strings that libuv writes to growing buffers and the blocking sleep of
--   include/uvpp/misc/system.hpp. Misc.Thread: the thread object and the attempts to lock of
--   include/uvpp/threading/primitives.hpp.
--
-- libuv is not part of the repository: the status that a call of it returns is an argument of the
-- operation that makes the call, and what libuv does later (a close callback, a wake-up, a signal)
-- is a step or a call of the model's own. Its error constants are parameters, of which only their
-- sign is known. A coroutine handle, a loop, an awaiter and a registration are their addresses. An
-- operation that resumes a coroutine as its last act returns which one. `std::terminate` and a
-- failed assertion are `none`.
--
-- Bounds and fuel: sizes are natural numbers. The generation of a persistent slot wraps at 2 ^ 64, the
-- length of a native buffer at its width, which is a parameter, a count of buffers at 2 ^ 32 and a
-- count of milliseconds at 2 ^ 64. Loops over lists are structural. `unregister` and `request_stop`
-- follow pointers and run on fuel: one unit for each entry of the list is enough, and one more for the
-- loop of `request_stop`, which their theorems show. The range loop over a scan and the loop that
-- copies one take one unit more than the scan has entries. A buffer that grows for a string takes one
-- unit for each byte of the string and one more. The callback of a stop request is given by the
-- registrations that it unregisters.
--
-- Not modelled: the other raw handles and requests, the argument lists of the single filesystem
-- operations, and the other locks and system calls, which forward to libuv; the contents of buffers,
-- but for those that a filesystem read returns; durations in floating point; failures of memory
-- allocation, but for those that a receive over a pipe handles.
pub mod Scenarios
pub mod Base
pub mod Core
pub mod Posting
pub mod Detail
pub mod Co
pub mod Sources
pub mod Net
pub mod Fs
pub mod Handles
pub mod Process
pub mod Misc
pub mod Requests
