-- ===== src/Detail/AsyncClose.antt =====
-- include/uvpp/detail/async_close_state.hpp: the bookkeeping of a close. A coroutine handle is a
-- number; a null handle is `none`.
pub mod Life
use uvpp.Base.{
  ℕ, Bool, true, false, ◌&&◌, not, Option, none, some, List, [], ◌∷◌, ◌++◌, if◌then◌else◌,
}

pub data Phase : Type 0 where
  opened closing closed : Phase

abbrev pub is_opened : Phase → Bool
is_opened opened = true
is_opened _ = false

abbrev pub is_closed : Phase → Bool
is_closed closed = true
is_closed _ = false

pub record CloseState : Type 0 where
  pub phase : Phase
  pub waiters : List (Option ℕ)
  pub callback_waiter : Option ℕ
  pub released : Bool  -- owner_released_
  pub completion_active : Bool

unfoldable pub fresh : CloseState
fresh = record {
  phase = opened;
  waiters = [];
  callback_waiter = none;
  released = false;
  completion_active = false;
}

-- closing(): a close has begun.
abbrev pub is_closing : CloseState → Bool
is_closing c = not (is_opened c.phase)

unfoldable pub begin : CloseState → CloseState × Bool
begin c = if not (is_opened c.phase) then (c, false) else (record c { phase = closing }, true)

unfoldable pub add_waiter : CloseState → Option ℕ → CloseState × Bool
add_waiter c h =
    if is_closed c.phase then (c, false) else (record c { waiters = c.waiters ++ h ∷ [] }, true)

unfoldable pub set_callback_waiter : CloseState → Option ℕ → CloseState
set_callback_waiter c h = record c { callback_waiter = h }

unfoldable pub owner_released : CloseState → CloseState
owner_released c = record c { released = true }

unfoldable pub can_destroy_now : CloseState → Bool
can_destroy_now c = c.released && (is_closed c.phase && not c.completion_active)

-- The handles that are not null.
abbrev pub handles : List (Option ℕ) → List ℕ
handles [] = []
handles (none ∷ hs) = handles hs
handles (some h ∷ hs) = h ∷ handles hs

-- `complete` up to its first resumption: the new state, and what it then resumes in order.
unfoldable pub complete_begin : CloseState → CloseState × List ℕ
complete_begin c = (
  record c { phase = closed; completion_active = true; callback_waiter = none; waiters = [] },
  handles (c.callback_waiter ∷ c.waiters),
)

-- `complete` after its last resumption: the new state, and whether it deletes the owner's state.
unfoldable pub complete_end : CloseState → CloseState × Bool
complete_end c = (record c { completion_active = false }, c.released)
