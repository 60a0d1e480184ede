-- ===== src/Sources.antt =====
-- The persistent event sources: poll_source.hpp, signal_source.hpp and fs_event_source.hpp.
pub mod Poll
pub mod Signal
pub mod FsEvent
