-- ===== src/Detail.antt =====
-- include/uvpp/detail: the close protocol and the slots that the high-level owners share.
pub mod AsyncClose
pub mod OwnerClose
pub mod Ownership
pub mod StreamIo
