-- ===== src/Core.antt =====
-- include/uvpp/core: native statuses and errors, callback slots, buffer lengths.
pub mod Error
pub mod Callback
pub mod Buffer
pub mod Loop
