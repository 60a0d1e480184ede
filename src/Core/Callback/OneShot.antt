-- ===== src/Core/Callback/OneShot.antt =====
-- include/uvpp/detail/one_shot_callback_slot.hpp: an exclusive claim of one delivery. A pointer is
-- an `Option`, with `none` for null; a call that `deliver` makes is returned, since it is the last
-- thing that `deliver` does.
use uvpp.Base.{
  ℕ, ◌≡◌, Bool, true, false, ◌&&◌, ◌||◌, not, Option, none, some, arith, if◌then◌else◌, ==_refl,
  is_some, points_to,
}

pub record Slot (C : Type 0) : Type 0 where
  pub context : Option ℕ
  pub callback : Option C

module _ {C : Type 0} where
  unfoldable pub empty : Slot C
  empty = record { context = none; callback = none }

  unfoldable pub claimed : Slot C → Bool
  claimed s = is_some s.context

  unfoldable pub claimed_by : Slot C → ℕ → Bool
  unfolding claimed
  claimed_by s c = claimed s && points_to s.context c

  -- The new slot, and whether the claim was granted.
  unfoldable pub claim : Slot C → Option ℕ → Option C → Slot C × Bool
  unfolding claimed
  claim s context cb =
      if not (is_some context) || (not (is_some cb) || claimed s)
      then (s, false)
      else (record { context = context; callback = cb }, true)

  unfoldable pub release : Slot C → ℕ → Slot C × Bool
  unfolding claimed_by empty
  release s c = if not (claimed_by s c) then (s, false) else (empty, true)

  -- The new slot, and the callback to call with its context.
  unfoldable pub deliver : Slot C → Slot C × Option (Option ℕ × C)
  unfolding empty
  deliver s = (empty, elim s.callback [ none ↦ none | some cb ↦ some (s.context, cb) ])

  -- Both pointers are null, or neither is.
  abbrev pub IsCoherent : Slot C → Type 0
  IsCoherent s = is_some s.context ≡ is_some s.callback

  pub claim-IsCoherent :
      (s : Slot C) (c : Option ℕ) (cb : Option C) → IsCoherent s → IsCoherent (claim s c cb).0
  unfolding claim
  claim-IsCoherent s c cb h = ground arith

  -- A claim by `c` with callback `cb` is granted exactly when the slot is free; `c` owns the slot
  -- after it if it is granted or `c` owned it before; the next delivery calls `cb` with `c` if it
  -- is granted, and otherwise what it would have called, and the delivery after that calls nothing.
  -- A refused claim leaves the slot as it was.
  pub claim_once :
      (s : Slot C) (c : ℕ) (cb : C)
      → let (t, granted) = claim s (some c) (some cb) in
        (granted ≡ not (claimed s))
        × (claimed_by t c ≡ (granted || claimed_by s c))
        × ((deliver t).1 ≡ (if granted then some (some c, cb) else (deliver s).1))
        × ((deliver (deliver t).0).1 ≡ none)
        × ((if granted then s else t) ≡ s)
  unfolding claim claimed_by deliver
  claim_once s c cb = ground (arith, ==_refl c)
