-- ===== src/Misc.antt =====
-- include/uvpp/misc and include/uvpp/threading: strings of the operating system and threads.
pub mod System
pub mod Thread
