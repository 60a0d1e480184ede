-- ===== src/Fs/Request/Once.antt =====
-- The life of a request that suspended its task, in any order of its callback, of stop requests and
-- of what others do to the file and to the cancellation state.
use uvpp.Base.{
  ℕ, ◌≤◌, ◌≡◌, refl, subst, ◌⊎◌, inl, inr, true, false, Option, none, some, List, [], ◌∷◌, arith,
  Bool-cases, ℤ,
}
use uvpp.Co.Await.{World, Caller, link, unlink}
use uvpp.Co.Cancellation.Spec.{Registry, enrol, withdraw}
use uvpp.Co.Cancellation.View.{erase, mem, erase-Distinct, mem-erased}
use uvpp.Co.Sleep.Awakening.{IsDistinct, registered, add_resumed, withdrawn-none}
use uvpp.Fs.Request.{Op, submit, complete, request_native_cancellation, unsubmitted}

-- A request with the coroutines that it resumed.
pub record Run (S : Type 0) : Type 0 where
  pub world : World S Op
  pub resumed : List ℕ

module _ {S : Type 0} (settle : S → ℤ → S) (c : Caller) where
  abbrev pub asleep : World S Op → Run S
  asleep w = record { world = w; resumed = [] }

  -- A stop takes the registration off the list before it calls it.
  pub data Step (r : Run S) : Run S → Type 0 where
    completes :
        (status : ℤ)
        → r.world.awaiter.event.submitted ≡ true
        → Step r (record {
          world = (complete settle r.world c status).0;
          resumed = add_resumed r.resumed (complete settle r.world c status).1;
        })
    stops :
        (g : Registry)
        → r.world.cancel ≡ some g
        → mem c.registration g.entries ≡ true
        → Step r (record r {
          world = request_native_cancellation (record (r.world) {
            cancel = some (record { halted = true; entries = erase c.registration g.entries });
          });
        })
    others :
        (state : S) (cancel : Option Registry)
        → IsDistinct cancel
        → registered cancel c.registration ≡ registered r.world.cancel c.registration
        → Step r (record r { world = record (r.world) { source = state; cancel = cancel } })

  pub data Reach (r : Run S) : Run S → Type 0 where
    start : Reach r r
    next : {m n : Run S} → Reach r m → Step m n → Reach r n

  record Inv (r : Run S) : Type 0 where
    distinct : IsDistinct r.world.cancel
    linked : r.world.awaiter.linked ≡ false → registered r.world.cancel c.registration ≡ false
    uncancelled :
        registered r.world.cancel c.registration ≡ true → r.world.awaiter.event.cancels ≡ 0
    once : r.world.awaiter.event.cancels ≤ 1
    waiting :
        r.world.awaiter.event.submitted ≡ true
        → (r.resumed ≡ []) × (r.world.awaiter.resume_to ≡ some c.continuation)
    over :
        r.world.awaiter.event.submitted ≡ false
        → (r.resumed ≡ c.continuation ∷ []) × (registered r.world.cancel c.registration ≡ false)

  submitted-Inv :
      (w v : World S Op) (taken : S) (native : ℤ)
      → IsDistinct w.cancel
      → registered w.cancel c.registration ≡ false
      → w.awaiter.event ≡ unsubmitted
      → submit w taken c native ≡ (v, true)
      → Inv (asleep v)
  unfolding submit link enrol request_native_cancellation
  submitted-Inv w v taken native d n f h =
      elim w.cancel as (λ x. w.cancel ≡ x → Inv (asleep v)) [
        | none ↦ λ i. ground arith
        | some g ↦ λ i. ground arith
      ]
        refl

  complete-Inv :
      (r : Run S) (status : ℤ)
      → r.world.awaiter.event.submitted ≡ true
      → Inv r
      → Inv (record {
        world = (complete settle r.world c status).0;
        resumed = add_resumed r.resumed (complete settle r.world c status).1;
      })
  unfolding complete unlink withdraw
  complete-Inv r status p v =
      let d = withdrawn-none c.registration r.world.cancel v.distinct in ground arith

  stop-Inv :
      (r : Run S) (g : Registry)
      → r.world.cancel ≡ some g
      → mem c.registration g.entries ≡ true
      → Inv r
      → Inv (record r {
        world = request_native_cancellation (record (r.world) {
          cancel = some (record { halted = true; entries = erase c.registration g.entries });
        });
      })
  unfolding request_native_cancellation
  stop-Inv r g i m v =
      let d = subst IsDistinct i v.distinct in
      let e = erase-Distinct c.registration g.entries d in
      let n = mem-erased c.registration g.entries d in ground arith

  Step-Inv : {r q : Run S} → Step r q → Inv r → Inv q
  Step-Inv {r} (completes status p) v = complete-Inv r status p v
  Step-Inv {r} (stops g i m) v = stop-Inv r g i m v
  Step-Inv {r} (others state cancel d m) v = ground arith

  Reach-Inv : {r q : Run S} → Reach r q → Inv r → Inv q
  Reach-Inv start v = v
  Reach-Inv (next p s) v = Step-Inv s (Reach-Inv p v)

  -- A request that was submitted, whose registration was not in effect before, in any order of its
  -- callback, stop requests and other changes of the file and the cancellation state: libuv was
  -- asked at most once to cancel it, and either it is still with libuv and the task was not
  -- resumed, or the callback has come, the task was resumed exactly once and its registration is
  -- withdrawn.
  pub request_resumed_once :
      (w v : World S Op) (taken : S) (native : ℤ) (r : Run S)
      → IsDistinct w.cancel
      → registered w.cancel c.registration ≡ false
      → w.awaiter.event ≡ unsubmitted
      → submit w taken c native ≡ (v, true)
      → Reach (asleep v) r
      → (r.world.awaiter.event.cancels ≤ 1)
        × (((r.world.awaiter.event.submitted ≡ true)
              × (r.resumed ≡ [])
              × (r.world.awaiter.resume_to ≡ some c.continuation))
            ⊎ ((r.world.awaiter.event.submitted ≡ false)
                × (r.resumed ≡ c.continuation ∷ [])
                × (registered r.world.cancel c.registration ≡ false)))
  request_resumed_once w v taken native r d n f h p =
      let i = Reach-Inv p (submitted-Inv w v taken native d n f h) in
      elim (Bool-cases r.world.awaiter.event.submitted) [
        | inl on ↦ (i.once, let (q, k) = i.waiting on in inl (on, q, k))
        | inr off ↦ (i.once, let (q, k) = i.over off in inr (off, q, k))
      ]
