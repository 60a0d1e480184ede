-- ===== src/Detail/OwnerClose.antt =====
-- include/uvpp/detail/owner_close.hpp: the awaiter of an owner's close. Whether the owner has an
-- operation under way is the owner family's to say, and an argument here.
use uvpp.Base.{
  ℕ, ◌≡◌, refl, ◌⊎◌, inl, inr, Bool, true, false, ◌&&◌, not, Option, none, some, List, [], ◌∷◌,
  ◌++◌, arith, ◌==◌, if◌then◌else◌, ==_refl, Bool-cases, ℤ, pos, negsuc,
}
use uvpp.Core.Error.{Errnos, Outcome, logic_error, returned, thrown}
use uvpp.Detail.AsyncClose.{add_waiter, complete_begin, handles, is_closed, is_opened}
use uvpp.Detail.AsyncClose.Life.{Inv, Life, request_close}

-- owner_close_awaiter, without what does not change while it awaits.
pub record OwnerAwaiter : Type 0 where
  pub status : ℤ
  pub initiated : Bool

abbrev pub idle : OwnerAwaiter
idle = record { status = pos 0; initiated = false }

-- What an owner's state shows to its close: its loop and its native life.
pub record Owned : Type 0 where
  pub loop : ℕ
  pub active : Bool  -- has_active_operation()
  pub life : Life

-- The part of `await_suspend` after its checks; `request_close` begins a close where none has begun.
unfoldable pub join_close : Owned → OwnerAwaiter → ℕ → (Owned × OwnerAwaiter) × Bool
unfolding add_waiter request_close
join_close o a h =
    let (c, added) = add_waiter o.life.close (some h) in
    if not added
    then ((o, a), false)
    else (let l = record (o.life) { close = c } in
        ((record o { life = request_close l }, record a { initiated = is_opened c.phase }), true))

-- await_suspend
unfoldable pub await_close :
    Errnos
    → Option Owned
    → OwnerAwaiter
    → Bool
    → ℕ
    → ℕ
    → Outcome ((Option Owned × OwnerAwaiter) × Bool)
unfolding join_close
await_close e state a reject loop h = elim state [
  | none ↦ returned ((none, record a { status = negsuc e.ebadf }), false)
  | some o ↦
      if not (loop == o.loop)
      then thrown logic_error
      else if is_closed o.life.close.phase
      then returned ((some o, a), false)
      else if reject && o.active
      then returned ((some o, record a { status = negsuc e.ebusy }), false)
      else (let ((p, b), suspended) = join_close o a h in returned ((some p, b), suspended))
]

handles-snoc : (hs : List (Option ℕ)) (h : ℕ) → handles (hs ++ some h ∷ []) ≡ handles hs ++ h ∷ []
handles-snoc [] h = refl
handles-snoc (none ∷ hs) h = handles-snoc hs h
handles-snoc (some g ∷ hs) h = rw (handles-snoc hs h)

-- For an owner whose native life keeps its invariant, an await of its close that suspends leaves
-- libuv owing the close callback, and the completion that the callback runs resumes what it would
-- have resumed before, in the same order, and the new waiter last; the await has initiated the
-- close exactly when none had begun, and its status is success.
pub await_close-completes :
    (e : Errnos) (o p : Owned) (b : OwnerAwaiter) (reject : Bool) (h : ℕ)
    → Inv o.life
    → await_close e (some o) idle reject o.loop h ≡ returned ((some p, b), true)
    → (p.life.native ≡ true)
      × ((complete_begin p.life.close).1 ≡ (complete_begin o.life.close).1 ++ h ∷ [])
      × (b.initiated ≡ is_opened o.life.close.phase)
      × (b.status ≡ pos 0)
unfolding await_close complete_begin join_close add_waiter request_close
await_close-completes e o p b reject h v s =
    let hs = handles-snoc (o.life.close.callback_waiter ∷ o.life.close.waiters) h in ground arith

-- An await of the close on the owner's loop that does not suspend leaves the owner as it is, and
-- either the owner is closed and the status is success, or an operation is active, which such an
-- await rejects with UV_EBUSY.
pub await_close_at_once :
    (e : Errnos) (o p : Owned) (b : OwnerAwaiter) (reject : Bool) (h : ℕ)
    → await_close e (some o) idle reject o.loop h ≡ returned ((some p, b), false)
    → (p ≡ o)
      × (((is_closed o.life.close.phase ≡ true) × (b.status ≡ pos 0))
          ⊎ (((reject && o.active) ≡ true) × (b.status ≡ negsuc e.ebusy)))
unfolding await_close join_close add_waiter request_close
await_close_at_once e o p b reject h s = elim (Bool-cases (is_closed o.life.close.phase)) [
  | inl c ↦ (ground (arith, ==_refl o.loop), inl (ground (arith, ==_refl o.loop)))
  | inr c ↦ (ground (arith, ==_refl o.loop), inr (ground (arith, ==_refl o.loop)))
]
