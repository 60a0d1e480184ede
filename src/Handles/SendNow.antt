-- ===== src/Handles/SendNow.antt =====
-- include/uvpp/handles/udp.hpp: the sends of a raw UDP handle that do not wait. What libuv's function
-- returns is an argument, and what it was given is part of the result. A null address is 0.
pub mod Batch
use uvpp.Base.{
  ℕ, zero, suc, ◌-◌, ◌^◌, Bool, true, false, ◌&&◌, ◌||◌, not, Option, none, some, List, [], ◌∷◌,
  leb, ltb, ◌==◌, if◌then◌else◌, length, drop, ℤ, pos, negsuc, is_neg, eqb,
}
use uvpp.Core.Buffer.{
  NativeBuffer, buffer_count_fits, checked_buffer_count, narrow_buffer_count_unchecked,
}
use uvpp.Core.Error.{Errnos, ErrorCode, Outcome, from_native, invalid_argument, returned, thrown}

-- valid_native_buffers, for what a pointer and a count name; a null pointer is `none`.
abbrev pub valid_entries : List NativeBuffer → Bool
valid_entries [] = true
valid_entries (b ∷ bs) =
    let rest = valid_entries bs in if not (b.len == 0) && b.base == 0 then false else rest

unfoldable pub valid_native_buffers : Option (List NativeBuffer) → ℕ → Bool
unfolding buffer_count_fits
valid_native_buffers none count = false
valid_native_buffers (some bs) count =
    if count == 0 || not (buffer_count_fits count) then false else valid_entries bs

-- send_now, for a span of buffers: the result's value, and the count that `uv_udp_try_send` was given.
unfoldable pub send_now : Errnos → Bool → Option (List NativeBuffer) → ℕ → ℤ → ℤ × Option ℕ
unfolding valid_native_buffers narrow_buffer_count_unchecked
send_now e ready buffers size native =
    if not ready
    then (negsuc e.ebadf, none)
    else if not (valid_native_buffers buffers size)
    then (negsuc e.einval, none)
    else (native, some (narrow_buffer_count_unchecked size))

-- send_now_result and send_many_now_result
unfoldable pub would_block : Errnos → ℤ → Bool
would_block e value = eqb value (negsuc e.eagain)

unfoldable pub has_error : Errnos → ℤ → Bool
has_error e value = is_neg value && not (eqb value (negsuc e.eagain))

unfoldable pub sent : ℤ → ℕ
sent value = elim value [ pos n ↦ n | negsuc n ↦ 0 ]

unfoldable pub error_code : Errnos → ℤ → ErrorCode
unfolding has_error from_native
error_code e value = if has_error e value then from_native value else record { status = pos 0 }

-- udp_send_many_view: what its pointers read, with their counts and addresses; `null` says that one of
-- the three arrays is null.
pub record SendManyView : Type 0 where
  pub count : ℕ
  pub null : Bool
  pub datagrams : List (Option (List NativeBuffer))
  pub buffer_counts : List ℕ
  pub addresses : List (Option ℕ)

-- The constructor from three spans.
unfoldable pub view_of_spans :
    List (Option (List NativeBuffer)) → List ℕ → List (Option ℕ) → Outcome SendManyView
unfolding checked_buffer_count
view_of_spans buffers counts addresses = elim (checked_buffer_count (length buffers)) [
  | thrown x ↦ thrown x
  | returned n ↦
      if not (length buffers == length counts) || not (length buffers == length addresses)
      then thrown invalid_argument
      else returned (record {
        count = n;
        null = n == 0;
        datagrams = buffers;
        buffer_counts = counts;
        addresses = addresses;
      })
]

-- The loop of send_many_now over `n` datagrams.
unfoldable pub all_valid : ℕ → List (Option (List NativeBuffer)) → List ℕ → Bool
unfolding valid_native_buffers
all_valid zero ds cs = true
all_valid (suc n) [] cs = true
all_valid (suc n) (d ∷ ds) [] = true
all_valid (suc n) (d ∷ ds) (c ∷ cs) =
    let rest = all_valid n ds cs in if not (valid_native_buffers d c) then false else rest

-- send_many_now: the result's value, and what `uv_udp_try_send2` was given.
unfoldable pub send_many_now : Errnos → Bool → SendManyView → ℕ → ℤ → ℤ × Option SendManyView
unfolding all_valid
send_many_now e ready batch first native =
    if not ready
    then (negsuc e.ebadf, none)
    else if leb batch.count first || (ltb (2 ^ 31 - 1) (batch.count - first) || batch.null)
    then (negsuc e.einval, none)
    else if not (
        all_valid (batch.count - first) (drop first batch.datagrams)
          (drop first batch.buffer_counts))
    then (negsuc e.einval, none)
    else (
      native,
      some (record {
        count = batch.count - first;
        null = false;
        datagrams = drop first batch.datagrams;
        buffer_counts = drop first batch.buffer_counts;
        addresses = drop first batch.addresses;
      }),
    )
