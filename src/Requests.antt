-- ===== src/Requests.antt =====
-- include/uvpp/requests and include/uvpp/threadpool: requests with callbacks of their own.
pub mod Work
pub mod Dns
