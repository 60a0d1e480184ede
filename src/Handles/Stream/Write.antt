-- ===== src/Handles/Stream/Write.antt =====
-- include/uvpp/handles/stream.hpp: the writes of a raw stream. What a call of libuv is given is a
-- value, and its status an argument; the null pointer is 0.
use uvpp.Base.{
  ℕ, ◌-◌, ◌%◌, ◌^◌, ◌≤◌, ◌≡◌, ◌≢◌, ◌⊎◌, inl, inr, Bool, true, false, ◌&&◌, ◌||◌, not, Option, none,
  some, List, [], ◌∷◌, arith, leb, ◌==◌, if◌then◌else◌, is_some, length, Bool-cases, ℤ, negsuc,
  is_neg,
}
use uvpp.Core.Buffer.{
  BufferView, NativeBuffer, buffer_count_fits, buffer_length_fits, make_native_buffer_unchecked,
  narrow_buffer_count_unchecked,
}
use uvpp.Core.Error.{Errnos, Status, status_from_native, status_ok}
use uvpp.Handles.Request.{StreamRequest, submit}
use uvpp.Handles.Stream.{RawStream}

-- The arguments of `uv_write` and of `uv_try_write`.
pub record NativeWrite : Type 0 where
  pub buffers : List NativeBuffer
  pub count : ℕ

-- The loop of valid_buffers.
unfoldable pub all_named : List BufferView → Bool
all_named [] = true
all_named (b ∷ bs) =
    let rest = all_named bs in if not (b.raw.len == 0) && b.raw.base == 0 then false else rest

abbrev pub is_empty : List BufferView → Bool
is_empty [] = true
is_empty _ = false

unfoldable pub valid_buffers : List BufferView → Bool
unfolding all_named buffer_count_fits
valid_buffers buffers =
    if is_empty buffers || not (buffer_count_fits (length buffers))
    then false
    else all_named buffers

abbrev pub raw_of : List BufferView → List NativeBuffer
raw_of [] = []
raw_of (b ∷ bs) = b.raw ∷ raw_of bs

module _ {R : Type 0} where
  -- What a write does when it is submitted: its code, and the native call, if it makes one.
  unfoldable pub attempt : Errnos → RawStream R → List BufferView → ℤ → ℤ × Option NativeWrite
  unfolding valid_buffers narrow_buffer_count_unchecked
  attempt e s buffers native =
      if not s.ready
      then (negsuc e.ebadf, none)
      else if not (valid_buffers buffers)
      then (negsuc e.einval, none)
      else (
        native,
        some (record {
          buffers = raw_of buffers;
          count = narrow_buffer_count_unchecked (length buffers);
        }),
      )

  -- The same for a span of `n` bytes at `base`, for a native length of `bits` bits.
  unfoldable pub attempt_bytes : ℕ → Errnos → RawStream R → ℕ → ℕ → ℤ → ℤ × Option NativeWrite
  unfolding buffer_length_fits make_native_buffer_unchecked
  attempt_bytes bits e s base n native =
      if not s.ready
      then (negsuc e.ebadf, none)
      else if not (buffer_length_fits bits n)
      then (negsuc e.einval, none)
      else (
        native,
        some (record { buffers = make_native_buffer_unchecked bits base n ∷ []; count = 1 }),
      )

  -- write_now, whose result is what `uv_try_write` returns.
  unfoldable pub write_now : Errnos → RawStream R → List BufferView → ℤ → ℤ × Option NativeWrite
  unfolding attempt
  write_now e s buffers native = attempt e s buffers native

-- submit reaches the native call of a request that is not pending and has a callback.
abbrev pub reached :
    {C : Type 0} → StreamRequest C → Option C → Option NativeWrite → Option NativeWrite
reached r callback call = if r.is_pending || not (is_some callback) then none else call

valid_buffers-true :
    (bs : List BufferView)
    → valid_buffers bs ≡ true
    → (length bs % 2 ^ 32 ≡ length bs) × (bs ≢ []) × (all_named bs ≡ true)
unfolding valid_buffers buffer_count_fits
valid_buffers-true [] v = ground arith
valid_buffers-true (b ∷ bs) v = elim (Bool-cases (leb (length (b ∷ bs)) (2 ^ 32 - 1))) [
  | inl fits ↦
      (let m : length (b ∷ bs) ≤ 2 ^ 32 - 1 = ground arith in
        (omega arith, ground arith, ground arith))
  | inr many ↦ ground arith
]

module _ {R C : Type 0} where
  unfoldable pub write :
      Errnos
      → RawStream R
      → StreamRequest C
      → List BufferView
      → Option C
      → ℤ
      → StreamRequest C × Status × Option NativeWrite
  unfolding attempt submit
  write e s r buffers callback native =
      let (code, call) = attempt e s buffers native in
      let (q, result) = submit e r callback code in (q, result, reached r callback call)

  unfoldable pub write_bytes :
      ℕ
      → Errnos
      → RawStream R
      → StreamRequest C
      → ℕ
      → ℕ
      → Option C
      → ℤ
      → StreamRequest C × Status × Option NativeWrite
  unfolding attempt_bytes submit
  write_bytes bits e s r base n callback native =
      let (code, call) = attempt_bytes bits e s base n native in
      let (q, result) = submit e r callback code in (q, result, reached r callback call)

  -- shutdown
  unfoldable pub shutdown :
      Errnos → RawStream R → StreamRequest C → Option C → ℤ → StreamRequest C × Status
  unfolding submit
  shutdown e s r callback native =
      submit e r callback (if not s.ready then negsuc e.ebadf else native)

  -- A write hands libuv exactly its buffers, of which there is at least one, with their number not
  -- cut, and has the native status for its result, and its request is pending then exactly if this
  -- status is no error; or it fails without a native call and leaves its request as it was.
  pub write-attempt :
      (e : Errnos) (s : RawStream R) (r : StreamRequest C) (buffers : List BufferView)
      (callback : Option C) (native : ℤ)
      → let (q, result, call) = write e s r buffers callback native in
        ((call ≡ some (record { buffers = raw_of buffers; count = length buffers }))
          × (result ≡ status_from_native native)
          × (q.is_pending ≡ not (is_neg native))
          × (buffers ≢ [])
          × (all_named buffers ≡ true))
        ⊎ ((call ≡ none) × (status_ok result ≡ false) × (q ≡ r))
  unfolding write attempt submit narrow_buffer_count_unchecked status_from_native status_ok
  write-attempt e s r buffers callback native =
      elim (Bool-cases (r.is_pending || not (is_some callback))) [
        | inl refused ↦ ground arith
        | inr taken ↦ elim (Bool-cases s.ready) [
          | inr off ↦ ground arith
          | inl on ↦ elim (Bool-cases (valid_buffers buffers)) [
            | inr bad ↦ ground arith
            | inl ok ↦ (let v = valid_buffers-true buffers ok in ground arith)
          ]
        ]
      ]
