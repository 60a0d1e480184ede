-- ===== src/Handles.antt =====
-- include/uvpp/handles and include/uvpp/detail/stream_request.hpp: the raw handles and requests.
pub mod Stream
pub mod Request
pub mod Watcher
pub mod Timer
pub mod SendBatch
pub mod SendNow
pub mod Udp
