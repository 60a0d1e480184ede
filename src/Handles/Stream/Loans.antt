-- ===== src/Handles/Stream/Loans.antt =====
-- Whose allocator and whose reader a raw stream calls, include/uvpp/handles/stream.hpp.
use uvpp.Base.{if◌then◌else◌, is_some}
use uvpp.Core.Callback.Persistent.{Delivery, checkout}
use uvpp.Core.Error.{Errnos}
use uvpp.Handles.Stream.{RawStream}

module _ {R : Type 0} (e : Errnos) where
  loan : RawStream R → Delivery R
  loan s = if is_some s.pending.taken then s.pending else (checkout s.subscription).1
