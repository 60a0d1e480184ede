-- ===== src/Misc/System.antt =====
-- include/uvpp/misc/system.hpp: strings that libuv writes to a buffer of the caller, which the code
-- makes larger until they fit, and a sleep of the calling thread. A string is the list of its bytes.
pub mod Growth
pub mod Sleep
use uvpp.Base.{
  ℕ, zero, suc, ◌+◌, ◌-◌, ◌*◌, ◌/◌, ◌^◌, Bool, true, false, ◌&&◌, not, Option, none, some, List, [],
  ◌∷◌, ◌++◌, ltb, leb, ◌==◌, if◌then◌else◌, length, take, ℤ, pos, negsuc, is_neg, eqb,
}
use uvpp.Core.Error.{Errnos, Outcome, length_error, operational, returned, thrown, throw_if_error}

abbrev pub Bytes : Type 0
Bytes = List ℕ

-- The answer of a lookup to a buffer of some size: its status, the size that it reports, and what it
-- wrote from the buffer's start on.
pub record Reply : Type 0 where
  pub status : ℤ
  pub size : ℕ
  pub written : Bytes

abbrev pub zeros : ℕ → Bytes
zeros zero = []
zeros (suc n) = 0 ∷ zeros n

-- The size of the next buffer.
unfoldable pub grown : ℕ → ℕ → ℕ
grown size capacity = if ltb capacity size then size + 1 else capacity * 2

-- The last byte of a string is dropped when it is zero.
unfoldable pub drop_terminator : Bytes → Bytes
drop_terminator [] = []
drop_terminator (b ∷ []) = if b == 0 then [] else b ∷ []
drop_terminator (b ∷ c ∷ bs) = b ∷ drop_terminator (c ∷ bs)

-- The string of a buffer after a success.
unfoldable pub finished : ℕ → Reply → Bytes
unfolding drop_terminator
finished capacity r = drop_terminator (
    take (if leb r.size capacity then r.size else capacity)
      (r.written ++ zeros (capacity - length r.written)))

-- os_string, on fuel.
unfoldable pub os_string : Errnos → (ℕ → Reply) → ℕ → ℕ → Option (Outcome Bytes)
unfolding throw_if_error grown finished
os_string e lookup zero capacity = none
os_string e lookup (suc fuel) capacity =
    let r = lookup capacity in
    let rest = os_string e lookup fuel (grown r.size capacity) in
    if eqb r.status (negsuc e.enobufs) then rest else (elim (throw_if_error r.status) [
      | thrown x ↦ some (thrown x)
      | returned n ↦ some (returned (finished capacity r))
    ])

-- environment_variable, on fuel, for libuv's error of a variable that is not set.
unfoldable pub environment_variable :
    Errnos → ℕ → (ℕ → Reply) → ℕ → ℕ → Option (Outcome (Option Bytes))
unfolding throw_if_error grown finished
environment_variable e enoent lookup zero capacity = none
environment_variable e enoent lookup (suc fuel) capacity =
    let r = lookup capacity in
    let rest = environment_variable e enoent lookup fuel (grown r.size capacity) in
    if eqb r.status (negsuc enoent)
    then some (returned none)
    else if eqb r.status (negsuc e.enobufs)
    then rest
    else (elim (throw_if_error r.status) [
      | thrown x ↦ some (thrown x)
      | returned n ↦ some (returned (some (finished capacity r)))
    ])

-- sleep_blocking_for, of a duration in ticks of which `ticks` are a millisecond: the milliseconds that
-- `uv_sleep` is given.
unfoldable pub sleep_blocking_for : ℕ → ℤ → Outcome ℕ
sleep_blocking_for ticks duration = elim duration [
  | negsuc n ↦ returned 0
  | pos n ↦
      if n == 0
      then returned 0
      else if ltb ((2 ^ 32 - 1) * ticks) n
      then thrown length_error
      else returned ((n + (ticks - 1)) / ticks)
]
