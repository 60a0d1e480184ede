-- ===== src/Handles/SendBatch.antt =====
-- include/uvpp/handles/udp.hpp, `udp_send_batch`: a batch of datagrams in the arrays that libuv takes,
-- with pointers into the storage of one vector of buffers. The address of this storage is a number;
-- where a `reserve` of the vector moves it, if it does, is an argument.
pub mod Views
use uvpp.Base.{
  ℕ, zero, suc, ◌+◌, ◌-◌, ◌%◌, ◌^◌, Bool, not, Option, none, some, List, [], ◌∷◌, ◌++◌, ◌==◌,
  if◌then◌else◌, length, ltb,
}
use uvpp.Core.Buffer.{NativeBuffer, make_native_buffer, narrow_buffer_count_unchecked}
use uvpp.Core.Error.{Outcome, length_error, returned, thrown}

-- A pointer to a buffer: the storage that it points into, and the index there; `none` is null.
abbrev pub Pointer : Type 0
Pointer = Option (ℕ × ℕ)

-- udp_send_batch; an address of `sockaddr` is its number, or `none`.
pub record SendBatch : Type 0 where
  pub storage : ℕ  -- raw_buffers_.data()
  pub raw_buffers : List NativeBuffer
  pub buffer_starts : List ℕ
  pub buffer_counts : List ℕ
  pub addresses : List (Option ℕ)
  pub buffer_arrays : List Pointer

abbrev pub new_batch : SendBatch
new_batch = record {
  storage = 0;
  raw_buffers = [];
  buffer_starts = [];
  buffer_counts = [];
  addresses = [];
  buffer_arrays = [];
}

-- check_count
unfoldable pub check_count : ℕ → Outcome (Unit {0})
check_count n = if ltb (2 ^ 32 - 1) n then thrown length_error else returned tt

unfoldable pub buffer_pointer : ℕ → ℕ → ℕ → Pointer
buffer_pointer storage first count = if count == 0 then none else some (storage, first)

-- The loop of rebuild_buffer_pointers.
unfoldable pub pointers : ℕ → List ℕ → List ℕ → List Pointer
unfolding buffer_pointer
pointers storage [] counts = []
pointers storage (s ∷ ss) [] = []
pointers storage (s ∷ ss) (c ∷ cs) = buffer_pointer storage s c ∷ pointers storage ss cs

unfoldable pub rebuild_buffer_pointers : SendBatch → SendBatch
unfolding pointers
rebuild_buffer_pointers b = record b {
  buffer_arrays = pointers b.storage b.buffer_starts b.buffer_counts;
}

abbrev pub moved_to : Option ℕ → ℕ → ℕ
moved_to none old = old
moved_to (some new) old = new

-- append_datagram
unfoldable pub append_datagram : SendBatch → ℕ → ℕ → Option ℕ → Bool → SendBatch
unfolding rebuild_buffer_pointers buffer_pointer narrow_buffer_count_unchecked
append_datagram b first count address reallocated =
    let t = record b {
      buffer_starts = b.buffer_starts ++ first ∷ [];
      buffer_counts = b.buffer_counts ++ narrow_buffer_count_unchecked count ∷ [];
      addresses = b.addresses ++ address ∷ [];
    } in
    if reallocated
    then rebuild_buffer_pointers t
    else record t { buffer_arrays = t.buffer_arrays ++ buffer_pointer t.storage first count ∷ [] }

-- append, and `add` of a span of buffers.
unfoldable pub append : SendBatch → List NativeBuffer → Option ℕ → Option ℕ → Outcome SendBatch
unfolding check_count append_datagram
append b buffers address moved = elim (check_count (length buffers)) [
  | thrown x ↦ thrown x
  | returned u ↦ elim (check_count (length b.buffer_counts + 1)) [
    | thrown x ↦ thrown x
    | returned v ↦
        (let storage = moved_to moved b.storage in
          returned (
            append_datagram (record b { storage = storage; raw_buffers = b.raw_buffers ++ buffers })
              (length b.raw_buffers) (length buffers) address (not (storage == b.storage))))
  ]
]

-- add of a span of `n` bytes at `base`, for a native length of `bits` bits.
unfoldable pub add_bytes : ℕ → SendBatch → ℕ → ℕ → Option ℕ → Option ℕ → Outcome SendBatch
unfolding append make_native_buffer
add_bytes bits b base n address moved = elim (make_native_buffer bits base n) [
  | thrown x ↦ thrown x
  | returned raw ↦ append b (raw ∷ []) address moved
]

unfoldable pub reserve : SendBatch → ℕ → ℕ → Option ℕ → Outcome SendBatch
unfolding check_count rebuild_buffer_pointers
reserve b datagram_count buffer_count moved = elim (check_count datagram_count) [
  | thrown x ↦ thrown x
  | returned u ↦ elim (check_count buffer_count) [
    | thrown x ↦ thrown x
    | returned v ↦
        (let t = record b { storage = moved_to moved b.storage } in
          returned (if not (t.storage == b.storage) then rebuild_buffer_pointers t else t))
  ]
]

unfoldable pub clear : SendBatch → SendBatch
clear b = record b {
  raw_buffers = [];
  buffer_starts = [];
  buffer_counts = [];
  addresses = [];
  buffer_arrays = [];
}

-- The copy constructor, whose vector has its buffers at `storage`.
unfoldable pub copy : SendBatch → ℕ → SendBatch
unfolding rebuild_buffer_pointers
copy other storage = rebuild_buffer_pointers (record other { storage = storage })
