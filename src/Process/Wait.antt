-- ===== src/Process/Wait.antt =====
-- The life of a wait that suspended its task: the exit, stop requests and what others do to the
-- process and to the cancellation state may come in any order.
use uvpp.Base.{
  ℕ, ◌≡◌, refl, subst, ◌⊎◌, inl, inr, true, false, Option, none, some, List, [], ◌∷◌, arith,
  ==_refl, Bool, Bool-cases, points_to, is_some, pos, negsuc,
}
use uvpp.Co.Await.{Caller, link, unlink}
use uvpp.Co.Cancellation.Spec.{Registry, enrol, withdraw}
use uvpp.Co.Cancellation.View.{erase, mem, erase-Distinct, mem-erased}
use uvpp.Co.Sleep.Awakening.{IsDistinct, registered, add_resumed, withdrawn-none}
use uvpp.Core.Callback.OneShot
use uvpp.Core.Error.{Errnos, operational, returned, thrown}
use uvpp.Process.{
  Exit, Process, Waiting, await_wait, cancel_waiter, exits, on_delivery, on_exit, request_close,
  wait_exit,
}

-- A wait with the coroutines that it resumed.
pub record Run : Type 0 where
  pub world : Waiting
  pub resumed : List ℕ

abbrev pub asleep : Waiting → Run
asleep w = record { world = w; resumed = [] }

abbrev pub claims : Process → Caller → Bool
claims p c = points_to p.waiter.context c.self

-- What others leave as it is: the claim of this wait, and the slot and the exit that it waits for
-- while it has the claim; and an exit that has come.
pub record Keeps (c : Caller) (p q : Process) : Type 0 where
  pub claim : claims q c ≡ claims p c
  pub held : claims p c ≡ true → (q.waiter ≡ p.waiter) × (q.exited ≡ p.exited)
  pub come : p.exited ≡ true → (q.exited ≡ true) × (q.exit ≡ p.exit)

module _ (e : Errnos) (c : Caller) where
  -- A stop takes the registration off the list before it calls it.
  abbrev pub halted : Waiting → Registry → Waiting
  halted w g = record w {
    cancel = some (record { halted = true; entries = erase c.registration g.entries });
  }

  pub data Step (r : Run) : Run → Type 0 where
    finishes :
        (exit : Exit)
        → claims r.world.source c ≡ true
        → Step r (record {
          world = (exits r.world c exit).0;
          resumed = add_resumed r.resumed (exits r.world c exit).1;
        })
    stops :
        (g : Registry)
        → r.world.cancel ≡ some g
        → mem c.registration g.entries ≡ true
        → Step r (record {
          world = (cancel_waiter e (halted r.world g) c).0;
          resumed = add_resumed r.resumed (cancel_waiter e (halted r.world g) c).1;
        })
    others :
        (p : Process) (cancel : Option Registry)
        → Keeps c r.world.source p
        → IsDistinct cancel
        → registered cancel c.registration ≡ registered r.world.cancel c.registration
        → Step r (record r { world = record (r.world) { source = p; cancel = cancel } })

  pub data Reach (r : Run) : Run → Type 0 where
    start : Reach r r
    next : {m n : Run} → Reach r m → Step m n → Reach r n

  record Inv (r : Run) : Type 0 where
    distinct : IsDistinct r.world.cancel
    linked : r.world.awaiter.linked ≡ false → registered r.world.cancel c.registration ≡ false
    waiting :
        claims r.world.source c ≡ true
        → (r.resumed ≡ [])
          × (r.world.awaiter.resume_to ≡ some c.continuation)
          × (r.world.source.exited ≡ false)
          × (is_some r.world.source.waiter.callback ≡ true)
    over :
        claims r.world.source c ≡ false
        → (r.resumed ≡ c.continuation ∷ [])
          × (registered r.world.cancel c.registration ≡ false)
          × (((r.world.awaiter.status ≡ pos 0)
                × (r.world.source.exited ≡ true)
                × (r.world.awaiter.event ≡ r.world.source.exit))
              ⊎ (r.world.awaiter.status ≡ negsuc e.ecanceled))

  suspended-Inv :
      (w v : Waiting)
      → IsDistinct w.cancel
      → registered w.cancel c.registration ≡ false
      → await_wait e false w c ≡ returned (v, true)
      → Inv (asleep v)
  unfolding await_wait OneShot.claim link enrol
  suspended-Inv w v d n h =
      elim w.cancel as (λ x. w.cancel ≡ x → Inv (asleep v)) [
        | none ↦ λ i. ground (arith, ==_refl c.self)
        | some g ↦ λ i. ground (arith, ==_refl c.self)
      ]
        refl

  finish-Inv :
      (r : Run) (exit : Exit)
      → claims r.world.source c ≡ true
      → Inv r
      → Inv (record {
        world = (exits r.world c exit).0;
        resumed = add_resumed r.resumed (exits r.world c exit).1;
      })
  unfolding exits on_exit request_close OneShot.deliver on_delivery unlink withdraw
  finish-Inv r exit p v =
      let d = withdrawn-none c.registration r.world.cancel v.distinct in
      let k = v.waiting p in
      elim (Bool-cases r.world.awaiter.linked) [
        | inl on ↦ ground arith
        | inr off ↦ (let n = v.linked off in ground arith)
      ]

  stop-Inv :
      (r : Run) (g : Registry)
      → r.world.cancel ≡ some g
      → mem c.registration g.entries ≡ true
      → Inv r
      → Inv (record {
        world = (cancel_waiter e (halted r.world g) c).0;
        resumed = add_resumed r.resumed (cancel_waiter e (halted r.world g) c).1;
      })
  unfolding cancel_waiter OneShot.deliver on_delivery unlink withdraw
  stop-Inv r g i m v =
      let d = subst IsDistinct i v.distinct in
      let left = erase-Distinct c.registration g.entries d in
      let out = mem-erased c.registration g.entries d in
      let gone = withdrawn-none c.registration (halted r.world g).cancel left in
      elim (Bool-cases (claims r.world.source c)) [
        | inr off ↦ (let n = v.over off in ground arith)
        | inl on ↦ (let k = v.waiting on in ground arith)
      ]

  Step-Inv : {r q : Run} → Step r q → Inv r → Inv q
  Step-Inv {r} (finishes exit p) v = finish-Inv r exit p v
  Step-Inv {r} (stops g i m) v = stop-Inv r g i m v
  Step-Inv {r} (others p cancel k d m) v = elim (Bool-cases (claims r.world.source c)) [
    | inl on ↦ (let h = k.held on in ground arith)
    | inr off ↦ (let h = v.over off in ground arith)
  ]

  Reach-Inv : {r q : Run} → Reach r q → Inv r → Inv q
  Reach-Inv start v = v
  Reach-Inv (next p s) v = Step-Inv s (Reach-Inv p v)

  -- A wait that suspended its task, whose registration was not in effect before, in any order of the
  -- exit of the process, stop requests and what others do: either it has the one slot, the process
  -- has not exited and the task was not resumed; or the slot and the registration are given back
  -- and the task was resumed exactly once, with the exit that the process keeps, or with
  -- UV_ECANCELED.
  pub wait_resumed_once :
      (w v : Waiting) (r : Run)
      → IsDistinct w.cancel
      → registered w.cancel c.registration ≡ false
      → await_wait e false w c ≡ returned (v, true)
      → Reach (asleep v) r
      → ((claims r.world.source c ≡ true) × (r.resumed ≡ []) × (r.world.source.exited ≡ false))
        ⊎ ((claims r.world.source c ≡ false)
            × (r.resumed ≡ c.continuation ∷ [])
            × (registered r.world.cancel c.registration ≡ false)
            × (((r.world.source.exited ≡ true)
                  × (wait_exit r.world.awaiter ≡ returned r.world.source.exit))
                ⊎ (wait_exit r.world.awaiter ≡ thrown (operational (negsuc e.ecanceled)))))
  unfolding wait_exit
  wait_resumed_once w v r d n h p =
      let i = Reach-Inv p (suspended-Inv w v d n h) in
      elim (Bool-cases (claims r.world.source c)) [
        | inl on ↦ (let k = i.waiting on in inl (on, k.0, k.2))
        | inr off ↦
            (let k = i.over off in
              inr (
                off,
                k.0,
                k.1,
                elim k.2 [
                  | inl done ↦ inl (done.1, ground arith)
                  | inr stopped ↦ inr (ground arith)
                ],
              ))
      ]
