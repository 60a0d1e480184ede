-- ===== src/Net/PipeConnection/Receive/Waiting.antt =====
-- The invariant of a receive that suspended its task, and how it begins.
use uvpp.Base.{
  ℕ, ◌≤◌, ◌<◌, ◌≡◌, ◌≢◌, inl, inr, Bool, true, false, Option, some, List, [], ◌∷◌, arith,
  Bool-cases, points_to, ℤ, pos, negsuc, is_neg,
}
use uvpp.Co.Await.{Caller, unlink}
use uvpp.Co.Cancellation.Spec.{withdraw}
use uvpp.Co.Sleep.Awakening.{IsDistinct, registered, withdrawn-none}
use uvpp.Net.PipeConnection.{is_initialized}
use uvpp.Net.PipeConnection.{Receiving, quiet, release_slots, spare}
use uvpp.Net.PipeConnection.Adopt.{is_ending}

-- A receive with the coroutines that it resumed.
pub record Run : Type 0 where
  pub world : Receiving
  pub resumed : List ℕ

abbrev pub asleep : Receiving → Run
asleep w = record { world = w; resumed = [] }

abbrev pub claims : Receiving → Caller → Bool
claims w c = points_to w.source.io.active_read c.self

-- What libuv read into a buffer of the given size; an error is no data.
abbrev pub count : ℤ → ℕ
count (pos n) = n
count (negsuc n) = 0

module _ (c : Caller) (size : ℕ) where
  pub record Waits (r : Run) : Type 0 where
    pub unresumed : r.resumed ≡ []
    pub resume_to : r.world.awaiter.resume_to ≡ some c.continuation
    pub incoming : r.world.awaiter.event.incoming ≡ spare
    pub received : r.world.awaiter.event.received ≡ []
    pub discarded : r.world.awaiter.event.discarded ≡ []
    pub close_pipe : r.world.awaiter.event.close_pipe ≡ false
    pub room : r.world.awaiter.event.bytes < size

  pub record Inv (r : Run) : Type 0 where
    pub distinct : IsDistinct r.world.cancel
    pub linked : r.world.awaiter.linked ≡ false → registered r.world.cancel c.registration ≡ false
    pub bounded : r.world.awaiter.event.bytes ≤ size
    pub waiting : claims r.world c ≡ true → Waits r
    pub freed : claims r.world c ≡ false → registered r.world.cancel c.registration ≡ false
    pub closing :
        claims r.world c ≡ false
        → is_ending r.world.awaiter.event.incoming ≡ true
        → (r.resumed ≡ [])
          × (r.world.awaiter.event.child_waiter ≡ some c.continuation)
          × (is_neg r.world.awaiter.event.status ≡ true)
    pub over :
        claims r.world c ≡ false
        → is_ending r.world.awaiter.event.incoming ≡ false
        → r.resumed ≡ c.continuation ∷ []
    pub success :
        claims r.world c ≡ false
        → is_neg r.world.awaiter.event.status ≡ false
        → (r.world.awaiter.event.received ≢ []) × (r.world.awaiter.event.discarded ≡ [])
    pub failure :
        claims r.world c ≡ false
        → is_neg r.world.awaiter.event.status ≡ true
        → (r.world.awaiter.event.received ≡ [])
          × (is_initialized r.world.awaiter.event.incoming ≡ false)
    pub closed_pipe :
        claims r.world c ≡ false
        → r.world.awaiter.event.close_pipe ≡ true
        → (r.world.source.io.is_closing ≡ true) × (is_neg r.world.awaiter.event.status ≡ true)

  -- What ends a receive: the pipe's slot and the registration are given back.
  pub quiet_lem :
      (w v : Receiving) (stop : ℤ) (h : Option ℕ)
      → IsDistinct w.cancel
      → (w.awaiter.linked ≡ false → registered w.cancel c.registration ≡ false)
      → quiet w c stop ≡ some (v, h)
      → (h ≡ w.awaiter.resume_to)
        × (v.awaiter.event ≡ w.awaiter.event)
        × (claims v c ≡ false)
        × IsDistinct v.cancel
        × (registered v.cancel c.registration ≡ false)
        × (v.source.io.is_closing ≡ w.source.io.is_closing)
  unfolding quiet release_slots unlink withdraw
  quiet_lem w v stop h d l i = elim (Bool-cases w.awaiter.linked) [
    | inl on ↦ (let q = withdrawn-none c.registration w.cancel d in ground arith)
    | inr off ↦ (let q = l off in ground arith)
  ]
