-- ===== src/Core/Error/Laws.antt =====
-- The throwing and the result-returning surface of core/error.hpp agree.
use uvpp.Base.{◌≡◌, not, arith, if◌then◌else◌, ℤ, pos, negsuc, is_neg}
use uvpp.Core.Error.{
  Outcome, returned, thrown, from_native, throw_if_error, status_from_native, status_ok,
  status_throw_if_error,
}

-- Dropping the value of a throwing call.
abbrev pub forget : Outcome ℤ → Outcome (Unit {0})
forget (returned n) = returned tt
forget (thrown x) = thrown x

-- For every native status the exception surface and the result surface report the same failure:
-- the status converted to `uv::status` throws exactly when and exactly what throw_if_error throws,
-- it reads as success exactly when the status is not negative, and the code it keeps is the native
-- code on failure and zero on success.
pub status-throw_if_error :
    (n : ℤ)
    → (status_throw_if_error (status_from_native n) ≡ forget (throw_if_error n))
      × (status_ok (status_from_native n) ≡ not (is_neg n))
      × ((status_from_native n).code.status ≡ (if is_neg n then n else pos 0))
unfolding status_throw_if_error status_from_native throw_if_error status_ok
status-throw_if_error (pos n) = ground arith
status-throw_if_error (negsuc n) = ground arith

-- An error code made from a native status survives another round through its native code.
pub from_native-status : (n : ℤ) → from_native (from_native n).status ≡ from_native n
unfolding from_native
from_native-status n = ground arith
