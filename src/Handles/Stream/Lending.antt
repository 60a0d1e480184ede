-- ===== src/Handles/Stream/Lending.antt =====
-- The life of the read subscriptions of a raw stream, include/uvpp/handles/stream.hpp: reads are
-- started and stopped and the stream is closed by user code, inside of the callbacks too, while libuv
-- asks for buffers and delivers what it read, in any order.
use uvpp.Base.{
  ℕ, ◌+◌, ◌*◌, ◌≤◌, ◌<◌, ◌≡◌, ◌≢◌, refl, inl, inr, false, Option, none, some, List, [], ◌∷◌, ◌++◌,
  arith, ◌==◌, if◌then◌else◌, is_some, length, Bool-cases, ℤ, is_neg,
}
use uvpp.Core.Callback.Persistent.{Slot, checkout, replace, restore, size_mod}
use uvpp.Core.Error.{Errnos}
use uvpp.Handles.Stream.{RawStream, alloc, no_delivery, read}
use uvpp.Handles.Stream.Subscriptions.{
  Action, perform, performs, wanted, wants, Moves, perform-Moves, perform-pending,
}

-- The stream; the subscription that user code wants, and the one that lent the buffer which libuv has;
-- the subscriptions whose callbacks were called, those that should be, in order, and a bound on the
-- changes of the slot.
pub record Run (R : Type 0) : Type 0 where
  pub stream : RawStream R
  pub current : Option R
  pub lender : Option R
  pub called : List (Option R)
  pub expected : List (Option R)
  pub changes : ℕ

module _ {R : Type 0} where
  abbrev pub unread : RawStream R → Run R
  unread s = record {
    stream = s;
    current = none;
    lender = none;
    called = [];
    expected = [];
    changes = 0;
  }

  -- The stream as an allocator finds it, and as a reader does.
  abbrev pub allocating : RawStream R → RawStream R
  allocating s = record s {
    subscription = (checkout (restore s.subscription s.pending)).0;
    pending = no_delivery;
  }

  abbrev pub reading_slot : RawStream R → Slot R
  reading_slot s = if is_some s.pending.taken then s.subscription else (checkout s.subscription).0

  abbrev pub delivering : RawStream R → ℤ → RawStream R
  delivering s nread =
      if is_neg nread
      then record s {
        subscription = replace (reading_slot s) none;
        reading = false;
        pending = no_delivery;
      }
      else record s { subscription = reading_slot s; pending = no_delivery }

  -- The actions of a callback, which there may be none to do.
  abbrev pub acts_of : Option R → List (Action R) → List (Action R)
  acts_of called acts = if is_some called then acts else []

  -- Whose reader should get what was read, and what is wanted when it runs.
  abbrev pub reader : Run R → Option R
  reader r = if is_some r.lender then r.lender else r.current

  abbrev pub still_wanted : Run R → ℤ → Option R
  still_wanted r nread = if is_neg nread then none else r.current

  pub record Inv (r : Run R) : Type 0 where
    pub bounded : r.stream.subscription.generation ≤ r.changes
    pub older : r.stream.pending.at ≤ r.stream.subscription.generation
    pub blank : r.stream.pending.at ≡ 0 → r.stream.pending.taken ≡ none
    pub same :
        r.stream.subscription.generation ≡ r.stream.pending.at
        → (r.stream.subscription.callback ≡ none) × (r.current ≡ r.stream.pending.taken)
    pub other :
        r.stream.subscription.generation ≢ r.stream.pending.at
        → r.stream.subscription.callback ≡ r.current
    pub lent : r.stream.pending.taken ≡ r.lender
    pub right : r.called ≡ r.expected

  -- What the slot and the loan stand for together.
  pub effective :
      (r : Run R)
      → Inv r
      → ((restore r.stream.subscription r.stream.pending).callback ≡ r.current)
        × ((restore r.stream.subscription r.stream.pending).generation
            ≡ r.stream.subscription.generation)
  unfolding restore
  effective r v = elim (Bool-cases (r.stream.subscription.generation == r.stream.pending.at)) [
    | inl i ↦ ground arith
    | inr i ↦ ground arith
  ]

  pub acts_of-length :
      (called : Option R) (does : List (Action R)) → length (acts_of called does) ≤ length does
  acts_of-length none does = omega arith
  acts_of-length (some r) does = omega arith

module _ {R : Type 0} (e : Errnos) where
  pub data Step (r : Run R) : Run R → Type 0 where
    acts :
        (a : Action R)
        → Step r (record r {
          stream = perform e r.stream a;
          current = wanted e r.stream r.current a;
          changes = r.changes + 3;
        })
    allocs :
        (does : List (Action R))
        → Step r (record r {
          stream = (alloc r.stream (performs e does)).0;
          current = wants e (acts_of r.current does) (allocating r.stream) r.current;
          lender = r.current;
          called = r.called ++ (alloc r.stream (performs e does)).1 ∷ [];
          expected = r.expected ++ r.current ∷ [];
          changes = r.changes + 3 * length does;
        })
    reads :
        (nread stop : ℤ) (does : List (Action R)) (s : RawStream R) (out : Option R)
        → read r.stream nread stop (performs e does) ≡ some (s, out)
        → Step r (record r {
          stream = s;
          current =
              wants e (acts_of (reader r) does) (delivering r.stream nread) (still_wanted r nread);
          lender = none;
          called = r.called ++ out ∷ [];
          expected = r.expected ++ reader r ∷ [];
          changes = r.changes + (3 * length does + 1);
        })

  pub data Reach (r : Run R) : Run R → Type 0 where
    start : Reach r r
    next : {m n : Run R} → Reach r m → Step m n → Reach r n

  pub acts-Inv :
      (r : Run R) (a : Action R)
      → r.changes + 3 < size_mod
      → Inv r
      → Inv (record r {
        stream = perform e r.stream a;
        current = wanted e r.stream r.current a;
        changes = r.changes + 3;
      })
  acts-Inv r a h v =
      let b = v.bounded in
      let p = perform-Moves e a r.stream r.current (omega arith) in
      let q = perform-pending e r.stream a in
      elim p [ inl kept ↦ ground arith | inr moved ↦ ground arith ]

  pub alloc_lem :
      (s : RawStream R) (does : List (Action R))
      → let d = restore s.subscription s.pending in
        alloc s (performs e does) ≡ (
          record (performs e (acts_of d.callback does) (allocating s)) {
            pending = record { taken = d.callback; at = d.generation };
          },
          d.callback,
        )
  unfolding alloc checkout
  alloc_lem s does = elim (Bool-cases (is_some (restore s.subscription s.pending).callback)) [
    | inl i ↦ rw (i) refl
    | inr i ↦ rw (i) refl
  ]

  -- A callback that was called, from a slot without a callback on.
  pub lends-Inv :
      (r : Run R) (t : RawStream R) (later : Option R) (n m at : ℕ) (slot : Slot R)
      → Inv r
      → slot.callback ≡ none
      → slot.generation ≡ r.stream.subscription.generation
      → at ≡ r.stream.subscription.generation
      → Moves e n slot r.current t.subscription later
      → n ≤ m
      → Inv (record r {
        stream = record t { pending = record { taken = r.current; at = at } };
        current = later;
        lender = r.current;
        called = r.called ++ r.current ∷ [];
        expected = r.expected ++ r.current ∷ [];
        changes = r.changes + m;
      })
  lends-Inv r t later n m at slot v i j l (inl p) k = ground arith
  lends-Inv r t later n m at slot v i j l (inr p) k = ground arith
