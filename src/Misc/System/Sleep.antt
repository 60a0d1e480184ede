-- ===== src/Misc/System/Sleep.antt =====
-- The milliseconds of a sleep of the calling thread.
use uvpp.Base.{
  ℕ, zero, suc, ◌+◌, ◌-◌, ◌*◌, ◌/◌, ◌^◌, ◌≤◌, ◌<◌, ◌≡◌, refl, ◌⊎◌, inl, inr, arith, ltb, Bool-cases,
  pos, negsuc,
}
use native.Mathlib.Nat.{le-div_iff_mul-le, div-lt_iff_lt-mul}
use uvpp.Core.Error.{length_error, returned, thrown}
use uvpp.Misc.System.{sleep_blocking_for}

-- A number of milliseconds that covers `n` ticks, and of which one less does not.
abbrev pub IsCeiling : ℕ → ℕ → ℕ → Type 0
IsCeiling ticks n m = (n ≤ m * ticks) × (m * ticks < n + ticks)

rounded_up : (ticks n : ℕ) → 1 ≤ ticks → IsCeiling ticks n ((n + (ticks - 1)) / ticks)
rounded_up ticks n h =
    let m = (n + (ticks - 1)) / ticks in
    let above : n + (ticks - 1) < (m + 1) * ticks =
      (div-lt_iff_lt-mul {k = ticks} {x = n + (ticks - 1)} {y = m + 1} (omega arith)).0
        (omega arith) in
    let below : m * ticks ≤ n + (ticks - 1) =
      (le-div_iff_mul-le {k = ticks} {x = m} {y = n + (ticks - 1)} (omega arith)).0 (omega arith) in
    (omega (arith, above), omega (arith, below))

bounded : (ticks n : ℕ) → 1 ≤ ticks → n ≤ (2 ^ 32 - 1) * ticks → (n + (ticks - 1)) / ticks < 2 ^ 32
bounded ticks n h k =
    (div-lt_iff_lt-mul {k = ticks} {x = n + (ticks - 1)} {y = 2 ^ 32} (omega arith)).1 (omega arith)

-- A sleep of any duration, in ticks of which one or more are a millisecond. A negative one gives no
-- milliseconds. Any other is refused exactly when it exceeds the largest number of milliseconds that
-- 32 bits hold, and otherwise gives the smallest number of milliseconds that covers it, in 32 bits.
pub sleep_blocking_for_lem :
    (ticks n : ℕ)
    → 1 ≤ ticks
    → (sleep_blocking_for ticks (negsuc n) ≡ returned 0)
      × (((sleep_blocking_for ticks (pos n) ≡ thrown length_error) × ((2 ^ 32 - 1) * ticks < n))
          ⊎ ((m : ℕ) × (sleep_blocking_for ticks (pos n) ≡ returned m)
              × (n ≤ (2 ^ 32 - 1) * ticks)
              × (m < 2 ^ 32)
              × IsCeiling ticks n m))
unfolding sleep_blocking_for
sleep_blocking_for_lem ticks zero h =
    (refl, inr (0, refl, omega arith, omega arith, (omega arith, omega arith)))
sleep_blocking_for_lem ticks (suc n) h = (
  refl,
  elim (Bool-cases (ltb ((2 ^ 32 - 1) * ticks) (suc n))) [
    | inl over ↦ inl (rw over (ground arith), ground arith)
    | inr fits ↦
        (let k : suc n ≤ (2 ^ 32 - 1) * ticks = ground arith in
          inr (
            (suc n + (ticks - 1)) / ticks,
            rw fits (ground arith),
            k,
            bounded ticks (suc n) h k,
            rounded_up ticks (suc n) h,
          ))
  ],
)
