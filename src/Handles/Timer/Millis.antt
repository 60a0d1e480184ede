-- ===== src/Handles/Timer/Millis.antt =====
-- The bounds of a duration in milliseconds.
use uvpp.Base.{
  ℕ, suc, ◌-◌, ◌*◌, ◌/◌, ◌%◌, ◌^◌, ◌≤◌, ◌<◌, ◌≡◌, refl, ◌⊎◌, inl, inr, false, arith, ltb, ◌==◌,
  Bool-cases, pos, negsuc,
}
use native.Mathlib.Nat.{le-div_iff_mul-le, div-lt_iff_lt-mul}
use uvpp.Core.Error.{Errnos, error_of, from_native, value_of}
use uvpp.Handles.Timer.{millis}

-- A positive count of coarse ticks is converted exactly when its milliseconds fit into 64 bits,
-- and is refused with UV_EINVAL when they do not; nothing ever wraps.
pub millis_coarse :
    (e : Errnos) (num n : ℕ)
    → 1 < num
    → suc n < 2 ^ 64
    → ((millis e num 1 (pos (suc n)) ≡ value_of (suc n * num)) × (suc n * num < 2 ^ 64))
      ⊎ ((millis e num 1 (pos (suc n)) ≡ error_of (from_native (negsuc e.einval)))
          × (2 ^ 64 ≤ suc n * num))
unfolding millis
millis_coarse e num n h k =
    let whole : suc n % 2 ^ 64 ≡ suc n = omega arith in
    let coarse : (num == 1) ≡ false = ground arith in
    elim (Bool-cases (ltb ((2 ^ 64 - 1) / num) (suc n))) [
      | inl over ↦
          (let m : 2 ^ 64 - 1 < suc n * num =
              (div-lt_iff_lt-mul {k = num} {x = 2 ^ 64 - 1} {y = suc n} (omega arith)).0
                (ground arith) in
            inr (rw (coarse, whole, over) refl, omega arith))
      | inr fits ↦
          (let m : suc n * num ≤ 2 ^ 64 - 1 =
              (le-div_iff_mul-le {k = num} {x = suc n} {y = 2 ^ 64 - 1} (omega arith)).0
                (ground arith) in
            let small : suc n * num % 2 ^ 64 ≡ suc n * num = omega arith in
            inl (rw (coarse, whole, fits, small) refl, omega arith))
    ]
