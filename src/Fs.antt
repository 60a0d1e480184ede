-- ===== src/Fs.antt =====
-- include/uvpp/fs/coroutines.hpp: the awaiters of a file's operations.
pub mod Request
pub mod File
pub mod Scandir
pub mod Owned
