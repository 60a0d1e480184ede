-- ===== src/Handles/Stream/Subscriptions.antt =====
-- What user code does to the read subscription of a raw stream, include/uvpp/handles/stream.hpp, and
-- what becomes of the slot by it.
use uvpp.Base.{
  subst, ◌∙◌, ℕ, ◌+◌, ◌*◌, ◌≤◌, ◌<◌, ◌≡◌, refl, ◌⊎◌, inl, inr, ◌&&◌, ◌||◌, not, Option, none, some,
  List, [], ◌∷◌, arith, if◌then◌else◌, length, ℤ, is_neg,
}
use uvpp.Core.Callback.Persistent.{Slot, replace, size_mod}
use uvpp.Core.Error.{Errnos, status_from_native, status_ok}
use uvpp.Handles.Stream.{
  RawStream, close, publish, read_start, read_stop, release_callbacks, start_read,
}

-- What user code does: it starts reading with a subscription, stops reading, or closes the stream, with
-- the statuses of `uv_read_stop` and `uv_read_start`.
pub data Action (R : Type 0) : Type 0 where
  begins : R → ℤ → ℤ → Action R
  halts : ℤ → Action R
  closes : Action R

module _ {R : Type 0} (e : Errnos) where
  abbrev pub perform : RawStream R → Action R → RawStream R
  perform s (begins r stop native) = (read_start e s (some r) stop native (λ x. x)).0
  perform s (halts native) = (read_stop e s native).0
  perform s closes = close s

  -- The subscription that user code wants after an action, when it wanted `current` before.
  abbrev pub wanted : RawStream R → Option R → Action R → Option R
  wanted s current (begins r stop native) =
      if not s.ready || (s.listening || (s.reading && is_neg stop))
      then current
      else if is_neg native
      then none
      else some r
  wanted s current (halts native) = if not s.ready || is_neg native then current else none
  wanted s current closes = if s.ready then none else current

  abbrev pub performs : List (Action R) → RawStream R → RawStream R
  performs [] s = s
  performs (a ∷ acts) s = performs acts (perform s a)

  abbrev pub wants : List (Action R) → RawStream R → Option R → Option R
  wants [] s current = current
  wants (a ∷ acts) s current = wants acts (perform s a) (wanted s current a)

  -- What actions do to the slot: nothing, or it is of a later generation and has what is wanted.
  abbrev pub Moves : ℕ → Slot R → Option R → Slot R → Option R → Type 0
  Moves n s current t later =
      ((t ≡ s) × (later ≡ current))
      ⊎ ((s.generation < t.generation) × (t.generation ≤ s.generation + n) × (t.callback ≡ later))

  pub replace_lem :
      (s : Slot R) (cb : Option R)
      → s.generation + 1 < size_mod
      → replace s cb ≡ record { callback = cb; generation = s.generation + 1 }
  unfolding replace
  replace_lem s cb h = ground arith

  pub perform-Moves :
      (a : Action R) (s : RawStream R) (current : Option R)
      → s.subscription.generation + 3 < size_mod
      → Moves 3 s.subscription current (perform s a).subscription (wanted s current a)
  unfolding read_start start_read publish read_stop close release_callbacks status_from_native
      status_ok
  perform-Moves (begins r stop native) s current h =
      let one = replace_lem s.subscription none (omega arith) in
      let first = replace_lem s.subscription (some r) (omega arith) in
      let second =
        replace_lem (record { callback = none; generation = s.subscription.generation + 1 })
          (some r) (omega arith) in
      let undone =
        replace_lem (record { callback = some r; generation = s.subscription.generation + 1 }) none
          (omega arith) in
      let undone_later =
        replace_lem (record { callback = some r; generation = s.subscription.generation + 2 }) none
          (omega arith) in
      ground arith
  perform-Moves (halts native) s current h =
      let one = replace_lem s.subscription none (omega arith) in ground arith
  perform-Moves closes s current h =
      let one = replace_lem s.subscription none (omega arith) in ground arith

  Moves-trans :
      (n m : ℕ) (s t u : Slot R) (before current later : Option R)
      → Moves n s before t current
      → Moves m t current u later
      → Moves (n + m) s before u later
  Moves-trans n m s t u before current later (inl p) (inl q) = inl (q.0 ∙ p.0, q.1 ∙ p.1)
  Moves-trans n m s t u before current later (inl p) (inr q) = inr (ground arith)
  Moves-trans n m s t u before current later (inr p) (inl q) = inr (ground arith)
  Moves-trans n m s t u before current later (inr p) (inr q) = inr (ground arith)

  Moves-generation :
      (n : ℕ) (s t : Slot R) (before current : Option R)
      → Moves n s before t current
      → t.generation ≤ s.generation + n
  Moves-generation n s t before current p = ground arith

  pub performs-Moves :
      (acts : List (Action R)) (s : RawStream R) (current : Option R)
      → s.subscription.generation + 3 * length acts < size_mod
      → Moves
          (3 * length acts)
          s.subscription
          current
          (performs acts s).subscription
          (wants acts s current)
  performs-Moves [] s current h = inl (refl, refl)
  performs-Moves (a ∷ acts) s current h =
      let p = perform-Moves a s current (omega arith) in
      let near =
        Moves-generation 3 s.subscription (perform s a).subscription current (wanted s current a)
          p in
      let rest = performs-Moves acts (perform s a) (wanted s current a) (omega arith) in
      subst
        (λ n.
          Moves n s.subscription current (performs acts (perform s a)).subscription
            (wants acts (perform s a) (wanted s current a)))
        (omega arith)
        (Moves-trans 3 (3 * length acts) s.subscription (perform s a).subscription
          (performs acts (perform s a)).subscription current (wanted s current a)
          (wants acts (perform s a) (wanted s current a)) p rest)

  pub perform-pending : (s : RawStream R) (a : Action R) → (perform s a).pending ≡ s.pending
  unfolding read_start start_read publish read_stop close release_callbacks status_from_native
      status_ok
  perform-pending s (begins r stop native) = ground arith
  perform-pending s (halts native) = ground arith
  perform-pending s closes = ground arith

  pub performs-pending :
      (acts : List (Action R)) (s : RawStream R) → (performs acts s).pending ≡ s.pending
  performs-pending [] s = refl
  performs-pending (a ∷ does) s = performs-pending does (perform s a) ∙ perform-pending s a
