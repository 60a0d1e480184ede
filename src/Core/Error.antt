-- ===== src/Core/Error.antt =====
-- include/uvpp/core/error.hpp: a native status is an integer, negative for an error. The class
-- `error_code` keeps negative codes only, `result<T>` is a value or an error code, and
-- `result<void>` (`status`) keeps an error code whose zero stands for success.
pub mod Laws
use uvpp.Base.{ℕ, Bool, true, false, not, if◌then◌else◌, ℤ, pos, is_neg, eqb}

-- libuv's error constants. Their values belong to libuv; documented is that they are negative, so
-- each is given by how far it lies below -1.
pub record Errnos : Type 0 where
  pub ebadf : ℕ
  pub ebusy : ℕ
  pub ecanceled : ℕ
  pub einval : ℕ
  pub eagain : ℕ
  pub eof : ℕ
  pub eproto : ℕ
  pub enomem : ℕ
  pub enobufs : ℕ
  pub ealready : ℕ
  pub e2big : ℕ

-- What a C++ exception carries here: the standard logic errors by kind, a `uv::error` by its
-- native code, and an exception of user code by a tag.
pub data Exn : Type 0 where
  logic_error : Exn
  invalid_argument : Exn
  length_error : Exn
  operational : ℤ → Exn
  user : ℕ → Exn

-- The end of a call that may throw.
pub data Outcome {ℓ} (A : Type ℓ) : Type ℓ where
  returned : A → Outcome A
  thrown : Exn → Outcome A

pub record ErrorCode : Type 0 where
  pub status : ℤ

-- error_code::from_native
unfoldable pub from_native : ℤ → ErrorCode
from_native n = record { status = if is_neg n then n else pos 0 }

-- error_code::operator bool
unfoldable pub has_error : ErrorCode → Bool
has_error c = not (eqb c.status (pos 0))

-- uv::throw_if_error
unfoldable pub throw_if_error : ℤ → Outcome ℤ
throw_if_error n = if is_neg n then thrown (operational n) else returned n

-- result<T>: the variant of a value and an error code.
pub data Result {ℓ} (A : Type ℓ) : Type ℓ where
  value_of : A → Result A
  error_of : ErrorCode → Result A

module _ {ℓ} {A : Type ℓ} where
  unfoldable pub has_value : Result A → Bool
  has_value (value_of a) = true
  has_value (error_of c) = false

  -- result<T>::value
  unfoldable pub value : Result A → Outcome A
  value (value_of a) = returned a
  value (error_of c) = thrown (operational c.status)

  -- result<T>::error
  unfoldable pub error : Result A → ErrorCode
  error (value_of a) = record { status = pos 0 }
  error (error_of c) = c

-- result<void>
pub record Status : Type 0 where
  pub code : ErrorCode

unfoldable pub status_from_native : ℤ → Status
unfolding from_native
status_from_native n = record { code = from_native n }

unfoldable pub status_ok : Status → Bool
unfolding has_error
status_ok s = not (has_error s.code)

unfoldable pub status_throw_if_error : Status → Outcome (Unit {0})
unfolding has_error
status_throw_if_error s =
    if has_error s.code then thrown (operational s.code.status) else returned tt
