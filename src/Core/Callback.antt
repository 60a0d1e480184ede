-- ===== src/Core/Callback.antt =====
-- include/uvpp/core/callback.hpp and include/uvpp/detail/one_shot_callback_slot.hpp: the two slots
-- that hold user callbacks.
pub mod Persistent
pub mod OneShot
