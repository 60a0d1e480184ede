-- ===== src/Core/Buffer.antt =====
-- include/uvpp/core/buffer.hpp. The length of a native buffer has `bits` bits, which depend on the
-- platform; an unsigned int has 32.
use uvpp.Base.{
  ℕ, zero, suc, ◌-◌, ◌%◌, ◌^◌, ◌≤◌, ◌<◌, ◌≡◌, refl, ap, ◌⊎◌, inl, inr, Bool, not, List, [], ◌∷◌,
  ◌++◌, append-nil, arith, leb, if◌then◌else◌, Bool-cases, length, length-append, take, length-take,
}
use native.Mathlib.Nat.{one-le-pow}
use uvpp.Core.Error.{Outcome, length_error, returned, thrown}

-- uv_buf_t
pub record NativeBuffer : Type 0 where
  pub base : ℕ
  pub len : ℕ

unfoldable pub buffer_length_fits : ℕ → ℕ → Bool
buffer_length_fits bits n = leb n (2 ^ bits - 1)

unfoldable pub check_buffer_length : ℕ → ℕ → Outcome (Unit {0})
unfolding buffer_length_fits
check_buffer_length bits n =
    if not (buffer_length_fits bits n) then thrown length_error else returned tt

unfoldable pub make_native_buffer_unchecked : ℕ → ℕ → ℕ → NativeBuffer
make_native_buffer_unchecked bits base n = record { base = base; len = n % 2 ^ bits }

unfoldable pub make_native_buffer : ℕ → ℕ → ℕ → Outcome NativeBuffer
unfolding check_buffer_length make_native_buffer_unchecked
make_native_buffer bits base n = elim (check_buffer_length bits n) [
  | thrown x ↦ thrown x
  | returned u ↦ returned (make_native_buffer_unchecked bits base n)
]

unfoldable pub buffer_count_fits : ℕ → Bool
buffer_count_fits n = leb n (2 ^ 32 - 1)

unfoldable pub narrow_buffer_count_unchecked : ℕ → ℕ
narrow_buffer_count_unchecked n = n % 2 ^ 32

unfoldable pub checked_buffer_count : ℕ → Outcome ℕ
unfolding buffer_count_fits narrow_buffer_count_unchecked
checked_buffer_count n =
    if not (buffer_count_fits n)
    then thrown length_error
    else returned (narrow_buffer_count_unchecked n)

-- buffer_view
pub record BufferView : Type 0 where
  pub raw : NativeBuffer

unfoldable pub buffer_view : ℕ → ℕ → ℕ → Outcome BufferView
unfolding make_native_buffer
buffer_view bits base n = elim (make_native_buffer bits base n) [
  | thrown x ↦ thrown x
  | returned raw ↦ returned (record { raw = raw })
]

unfoldable pub from_native : NativeBuffer → BufferView
from_native raw = record { raw = raw }

-- owned_buffer: its bytes, at the address `at`.
pub record OwnedBuffer : Type 0 where
  pub storage : List ℕ
  pub at : ℕ

abbrev pub zeros : ℕ → List ℕ
zeros zero = []
zeros (suc n) = 0 ∷ zeros n

-- `resize` of the vector: the bytes that fit are kept, and new ones are zero.
unfoldable pub resize : List ℕ → ℕ → List ℕ
resize bytes n = take n bytes ++ zeros (n - length bytes)

unfoldable pub owned_view : ℕ → OwnedBuffer → Outcome BufferView
unfolding buffer_view
owned_view bits b = buffer_view bits b.at (length b.storage)

-- A view of a length that the native buffer can hold has exactly this length and this address, and
-- is what the native buffer that it hands out is read back as; a longer length throws a length
-- error, at every width of the native length. No length is ever cut.
pub buffer_view-from_native :
    (bits base n : ℕ)
    → ((v : BufferView) × (buffer_view bits base n ≡ returned v)
        × (v.raw.len ≡ n)
        × (v.raw.base ≡ base)
        × (from_native v.raw ≡ v)
        × (n < 2 ^ bits))
      ⊎ ((buffer_view bits base n ≡ thrown length_error) × (2 ^ bits ≤ n))
unfolding buffer_view make_native_buffer check_buffer_length make_native_buffer_unchecked
    from_native buffer_length_fits
buffer_view-from_native bits base n =
    let p = one-le-pow bits 2 (omega arith) in
    elim (Bool-cases (leb n (2 ^ bits - 1))) [
      | inl fits ↦
          (let m : n < 2 ^ bits = ground arith in
            let k : n % 2 ^ bits ≡ n = grind arith in
            inl (
              record { raw = make_native_buffer_unchecked bits base n },
              ground arith,
              k,
              refl,
              refl,
              m,
            ))
      | inr long ↦ inr (ground arith, ground arith)
    ]

pub checked_buffer_count_lem :
    (n : ℕ)
    → ((checked_buffer_count n ≡ returned n) × (n < 2 ^ 32))
      ⊎ ((checked_buffer_count n ≡ thrown length_error) × (2 ^ 32 ≤ n))
unfolding checked_buffer_count
checked_buffer_count_lem n = elim (Bool-cases (leb n (2 ^ 32 - 1))) [
  | inl fits ↦ inl (ground arith, ground arith)
  | inr many ↦ inr (ground arith, ground arith)
]

length-zeros : (n : ℕ) → length (zeros n) ≡ n
length-zeros zero = refl
length-zeros (suc n) = omega (arith, length-zeros n)

take_all : (xs : List ℕ) (n : ℕ) → length xs ≤ n → take n xs ≡ xs
take_all [] zero h = refl
take_all [] (suc n) h = refl
take_all (x ∷ xs) zero h = absurd (omega arith)
take_all (x ∷ xs) (suc n) h = ap (λ ys. x ∷ ys) (take_all xs n (omega arith))

take-append : (xs ys : List ℕ) → take (length xs) (xs ++ ys) ≡ xs
take-append [] ys = refl
take-append (x ∷ xs) ys = ap (λ zs. x ∷ zs) (take-append xs ys)

-- Growing an owned buffer and shrinking it again gives back its bytes; a resized buffer has the
-- length asked for.
pub resize-resize :
    (bytes : List ℕ) (n m : ℕ)
    → length bytes ≤ n
    → (length (resize bytes m) ≡ m) × (resize (resize bytes n) (length bytes) ≡ bytes)
unfolding resize
resize-resize bytes n m h =
    let longer : length (bytes ++ zeros (n - length bytes)) ≡ n =
      omega
        (arith, length-append bytes (zeros (n - length bytes)), length-zeros (n - length bytes)) in
    let none_left : length bytes - length (bytes ++ zeros (n - length bytes)) ≡ 0 = omega arith in
    (
      omega (
        arith,
        length-append (take m bytes) (zeros (m - length bytes)),
        length-zeros (m - length bytes),
        length-take m bytes,
      ),
      rw (take_all bytes n h, none_left, take-append bytes (zeros (n - length bytes)))
          (append-nil bytes),
    )
