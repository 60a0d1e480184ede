-- ===== src/Fs/Owned/Lifetime.antt =====
-- The state that an operation of namespace `uv::fs` puts on the heap: from its allocation to its
-- deletion, whatever libuv answers.
use uvpp.Base.{ℕ, ◌≡◌, refl, true, false, Option, some, ◌++◌, length, drop, ℤ, pos, negsuc}
use uvpp.Core.Error.{Outcome, operational, returned, thrown}
use uvpp.Fs.Owned.{Answer, Bytes, Kind, Output, Owned, allocate, invoke, output, submit_owned}

-- What libuv writes to a buffer.
abbrev pub written : Bytes → Bytes → Bytes
written bs buffer = bs ++ drop (length bs) buffer

module _ {S F C : Type 0} where
  -- libuv ends the request: it has its answer, and `bs` are in the buffer.
  abbrev pub answers : Owned S F C → Answer S F → Bytes → Owned S F C
  answers s a bs = record s { answer = a; buffer = written bs s.buffer }

  -- The state is deleted, once, after its request was cleaned `k` times.
  pub Freed : Owned S F C → ℕ → Type 0
  Freed s k = (s.live ≡ false) × (s.deletes ≡ 1) × (s.cleanups ≡ k) × (s.faults ≡ 0)

  pub Ended : Kind → Answer S F → C → Bytes → Owned S F C × Option (C × Output S F) → Type 0
  Ended kind a c buffer (s, called) = (called ≡ some (c, output kind a buffer)) × Freed s 1

  pub Fate : Kind → Answer S F → C → Bytes → Answer S F → Bytes → Outcome ℤ → Type 0
  Fate kind fresh c buffer a bs (thrown x) =
      ((submit_owned (allocate fresh c buffer) (thrown x)).1 ≡ thrown x)
      × Freed (submit_owned (allocate fresh c buffer) (thrown x)).0 0
  Fate kind fresh c buffer a bs (returned (negsuc n)) =
      ((submit_owned (allocate fresh c buffer) (returned (negsuc n))).1
        ≡ thrown (operational (negsuc n)))
      × Freed (submit_owned (allocate fresh c buffer) (returned (negsuc n))).0 1
  Fate kind fresh c buffer a bs (returned (pos n)) =
      let s = (submit_owned (allocate fresh c buffer) (returned (pos n))).0 in
      ((submit_owned (allocate fresh c buffer) (returned (pos n))).1 ≡ returned tt)
      × (s.live ≡ true)
      × (s.deletes ≡ 0)
      × (s.cleanups ≡ 0)
      × Ended kind a c (written bs buffer) (invoke kind (answers s a bs))

  -- Any operation of `uv::fs`, with any callback and buffer. When it throws before libuv is called,
  -- the caller has that exception, and the state is deleted once, its request never cleaned. When
  -- libuv's function fails, the caller has an exception with that status, and the state is deleted
  -- once, after its request was cleaned once. When libuv accepts the request, nothing is deleted or
  -- cleaned until libuv ends it; then the callback is called once, with what the request and the
  -- buffer held before they were cleaned and deleted, which both happened once. No access of the
  -- state follows its deletion.
  pub owned_once :
      (kind : Kind) (fresh : Answer S F) (c : C) (buffer : Bytes) (a : Answer S F) (bs : Bytes)
      (call : Outcome ℤ)
      → Fate kind fresh c buffer a bs call
  unfolding submit_owned invoke Fate Freed Ended
  owned_once kind fresh c buffer a bs (thrown x) = (refl, (refl, refl, refl, refl))
  owned_once kind fresh c buffer a bs (returned (negsuc n)) = (refl, (refl, refl, refl, refl))
  owned_once kind fresh c buffer a bs (returned (pos n)) =
      (refl, refl, refl, refl, (refl, (refl, refl, refl, refl)))
