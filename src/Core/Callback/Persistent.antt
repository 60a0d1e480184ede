-- ===== src/Core/Callback/Persistent.antt =====
-- include/uvpp/core/callback.hpp, persistent_callback_slot: a callback that may be invoked again
-- and may replace itself while it runs. The generation is a size_t and wraps at 2 ^ 64.
use uvpp.Base.{
  ℕ, ◌+◌, ◌%◌, ◌^◌, ◌<◌, ◌≡◌, refl, Bool, true, false, Option, none, some, List, [], ◌∷◌, arith,
  ◌==◌, if◌then◌else◌, length,
}

abbrev pub size_mod : ℕ
size_mod = 2 ^ 64

pub record Slot (C : Type 0) : Type 0 where
  pub callback : Option C
  pub generation : ℕ

-- `delivery`: the callback and the generation at which it was taken out.
pub record Delivery (C : Type 0) : Type 0 where
  pub taken : Option C
  pub at : ℕ

module _ {C : Type 0} where
  unfoldable pub empty : Slot C
  empty = record { callback = none; generation = 0 }

  unfoldable pub replace : Slot C → Option C → Slot C
  replace s cb = record { callback = cb; generation = (s.generation + 1) % size_mod }

  unfoldable pub take : Slot C → Slot C × Option C
  take s = (record { callback = none; generation = (s.generation + 1) % size_mod }, s.callback)

  unfoldable pub checkout : Slot C → Slot C × Delivery C
  checkout s = (record s { callback = none }, record { taken = s.callback; at = s.generation })

  unfoldable pub restore : Slot C → Delivery C → Slot C
  restore s d = if s.generation == d.at then record s { callback = d.taken } else s

  -- `invoke`: the callable runs with the slot emptied, and what it does to the slot meanwhile is
  -- the argument `body`. The second part says whether there was a callable.
  unfoldable pub invoke : Slot C → (C → Slot C → Slot C) → Slot C × Bool
  invoke s body = elim s.callback [
    | none ↦ (record s { callback = none }, false)
    | some cb ↦ (
      let after = body cb (record s { callback = none }) in
          if after.generation == s.generation then record after { callback = some cb } else after,
      true,
    )
  ]

-- What the running callable may do to its own slot.
pub data Change (C : Type 0) : Type 0 where
  replaces : Option C → Change C
  takes : Change C

module _ {C : Type 0} where
  unfoldable pub apply : Slot C → List (Change C) → Slot C
  unfolding replace take
  apply s [] = s
  apply s (replaces cb ∷ cs) = apply (replace s cb) cs
  apply s (takes ∷ cs) = apply (take s).0 cs

  generation-apply :
      (cs : List (Change C)) (s : Slot C)
      → s.generation < size_mod
      → (apply s cs).generation ≡ (s.generation + length cs) % size_mod
  unfolding apply
  generation-apply [] s h = omega arith
  generation-apply (replaces cb ∷ cs) s h =
      omega (arith, generation-apply cs (replace s cb) (omega arith))
  generation-apply (takes ∷ cs) s h = omega (arith, generation-apply cs (take s).0 (omega arith))

  apply_none : (cs : List (Change C)) (s : Slot C) → length cs ≡ 0 → apply s cs ≡ s
  unfolding apply
  apply_none [] s h = refl
  apply_none (c ∷ cs) s h = absurd (omega arith)

  -- A callable that leaves its slot alone is there again afterwards, with the slot unchanged; one
  -- that replaced or took the callback, fewer than 2 ^ 64 times, finds its own last change kept.
  pub invoke-apply :
      (s : Slot C) (cb : C) (changes : C → List (Change C))
      → s.callback ≡ some cb
      → s.generation < size_mod
      → length (changes cb) < size_mod
      → ((invoke s (λ c t. apply t (changes c))).1 ≡ true)
        × ((invoke s (λ c t. apply t (changes c))).0 ≡ (
            if length (changes cb) == 0
            then s
            else apply (record s { callback = none }) (changes cb)))
  unfolding invoke apply
  invoke-apply s cb changes e g l = ground (
    arith,
    generation-apply (changes cb) (record s { callback = none }) g,
    apply_none (changes cb) (record s { callback = none }),
  )
