-- ===== src/Posting.antt =====
-- include/uvpp/loop_posting.hpp: publication of work to a loop from other threads, through a
-- bounded queue, budgeted drains on the loop thread, and a close that waits for the queue.
pub mod Endpoint
pub mod State
pub mod Drain
pub mod System
pub mod Order
pub mod Wakeup
pub mod Close
