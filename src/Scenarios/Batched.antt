-- ===== src/Scenarios/Batched.antt =====
-- A batch of two datagrams.
use uvpp.Base.{pos, ◌⊎◌, true, false, ◌≡◌, refl, none, some, [], ◌∷◌}
use uvpp.Core.Buffer.{NativeBuffer, narrow_buffer_count_unchecked}
use uvpp.Handles.SendNow.{send_many_now}
use uvpp.Handles.SendNow.Batch.{Given, Refused, accepts, native_view, send_many_now-native_view}
use uvpp.Scenarios.Basics.{linux}
use uvpp.Handles.SendBatch.{
  append, append_datagram, buffer_pointer, check_count, copy, pointers, rebuild_buffer_pointers,
  reserve,
}
use uvpp.Handles.SendBatch.Views.{Reach, Run, adds, copies, next, reserves, start, unused}

abbrev buffer : NativeBuffer
buffer = record { base = 7; len = 64 }

-- Two buffers for 9, a moved storage, one buffer, and a copy.
abbrev two_datagrams : Run
two_datagrams = record {
  batch = record {
    storage = 30;
    raw_buffers = buffer ∷ buffer ∷ buffer ∷ [];
    buffer_starts = 0 ∷ 2 ∷ [];
    buffer_counts = 2 ∷ 1 ∷ [];
    addresses = some 9 ∷ none ∷ [];
    buffer_arrays = some (30, 0) ∷ some (30, 2) ∷ [];
  };
  added = (buffer ∷ buffer ∷ []) ∷ (buffer ∷ []) ∷ [];
  sent_to = some 9 ∷ none ∷ [];
}

two_datagrams-Reach : Reach unused two_datagrams
unfolding append append_datagram check_count rebuild_buffer_pointers pointers buffer_pointer reserve
    copy narrow_buffer_count_unchecked
two_datagrams-Reach =
    next
      (next
        (next (next start (adds (buffer ∷ buffer ∷ []) (some 9) (some 10) _ refl))
          (reserves 2 8 (some 20) _ refl))
        (adds (buffer ∷ []) none none _ refl))
      (copies 30)

-- The second datagram is sent.
send_many_now-native_view_example :
    ((accepts true 1 two_datagrams.added ≡ false)
      × Refused linux true (send_many_now linux true (native_view two_datagrams.batch) 1 (pos 1)))
    ⊎ ((accepts true 1 two_datagrams.added ≡ true)
        × Given 1
            (pos 1)
            two_datagrams.added
            two_datagrams.sent_to
            (send_many_now linux true (native_view two_datagrams.batch) 1 (pos 1)))
send_many_now-native_view_example =
    send_many_now-native_view linux true 1 (pos 1) two_datagrams two_datagrams-Reach
