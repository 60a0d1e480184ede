-- ===== src/Co/Sleep/Awakening.antt =====
-- The life of a sleep that suspended its task: the timer may fire, stop may be requested and the
-- close callback come, in any order that libuv and the cancellation state allow.
use uvpp.Base.{
  ℕ, ◌≡◌, refl, sym, ◌∙◌, subst, ◌⊎◌, inl, inr, Bool, true, false, ◌||◌, Option, none, some, List,
  [], ◌∷◌, arith, Bool-cases, ℤ, pos, negsuc,
}
use uvpp.Co.Await.{Caller}
use uvpp.Co.Cancellation.Spec.{Registry, withdraw, enrol}
use uvpp.Co.Cancellation.View.{Distinct, erase, mem, mem-erased, erase-Distinct}
use uvpp.Co.Sleep.{
  Sleep, finish, withdrawn, on_close, on_stop_requested, on_timer, await_suspend, construct,
}
use uvpp.Core.Error.{Errnos}

-- A sleep with the coroutines that it resumed, newest first.
pub record Run : Type 0 where
  pub sleep : Sleep
  pub resumed : List ℕ

abbrev pub registered : Option Registry → ℕ → Bool
registered none r = false
registered (some g) r = mem r g.entries

abbrev pub IsDistinct : Option Registry → Type 0
IsDistinct none = Unit
IsDistinct (some g) = Distinct g.entries

abbrev pub add_resumed : List ℕ → Option ℕ → List ℕ
add_resumed hs none = hs
add_resumed hs (some h) = h ∷ hs

-- After a withdrawal the registration is no longer in effect.
pub withdrawn-none :
    (r : ℕ) (cancel : Option Registry)
    → IsDistinct cancel
    → IsDistinct (withdrawn cancel r) × (registered (withdrawn cancel r) r ≡ false)
unfolding withdraw
withdrawn-none r none d = (tt, refl)
withdrawn-none r (some g) d = (erase-Distinct r g.entries d, mem-erased r g.entries d)

module _ (e : Errnos) (c : Caller) where
  -- A stop takes the registration off the list before it calls it. What others do to the
  -- cancellation state leaves the sleep's registration as it is.
  pub data Step (r : Run) : Run → Type 0 where
    fires : r.sleep.running ≡ true → Step r (record r { sleep = on_timer r.sleep c })
    stops :
        (g : Registry)
        → r.sleep.cancel ≡ some g
        → mem c.registration g.entries ≡ true
        → Step r (record r {
          sleep =
              on_stop_requested e
                (record (r.sleep) {
                  cancel =
                      some (record { halted = true; entries = erase c.registration g.entries });
                })
                c;
        })
    others :
        (cancel : Option Registry)
        → IsDistinct cancel
        → registered cancel c.registration ≡ registered r.sleep.cancel c.registration
        → Step r (record r { sleep = record (r.sleep) { cancel = cancel } })
    closes :
        r.sleep.owed ≡ true
        → Step r (record r {
          sleep = (on_close r.sleep).0;
          resumed = add_resumed r.resumed (on_close r.sleep).1;
        })

  pub data Reach (r : Run) : Run → Type 0 where
    start : Reach r r
    next : {m n : Run} → Reach r m → Step m n → Reach r n

  record Inv (r : Run) : Type 0 where
    distinct : IsDistinct r.sleep.cancel
    sleeping :
        r.sleep.close_started ≡ false
        → (r.sleep.running ≡ true)
          × (r.sleep.owed ≡ false)
          × (r.resumed ≡ [])
          × (r.sleep.continuation ≡ some c.continuation)
    ending :
        r.sleep.close_started ≡ true
        → (r.sleep.running ≡ false) × (registered r.sleep.cancel c.registration ≡ false)
    closing : r.sleep.owed ≡ true → (r.resumed ≡ []) × (r.sleep.continuation ≡ some c.continuation)
    over : r.sleep.close_started ≡ true → r.sleep.owed ≡ false → r.resumed ≡ c.continuation ∷ []

  -- Whatever ends a sleep first closes its timer and withdraws its registration.
  finish-Inv : (r : Run) (status : ℤ) → Inv r → Inv (record r { sleep = finish r.sleep c status })
  unfolding finish
  finish-Inv r status v =
      let (d, g) = withdrawn-none c.registration r.sleep.cancel v.distinct in ground arith

  cancel-Inv :
      (r : Run) (cancel : Option Registry)
      → IsDistinct cancel
      → (registered cancel c.registration ≡ true → registered r.sleep.cancel c.registration ≡ true)
      → Inv r
      → Inv (record r { sleep = record (r.sleep) { cancel = cancel } })
  cancel-Inv r cancel d m v = elim (Bool-cases (registered cancel c.registration)) [
    | inl on ↦ (let h = m on in ground arith)
    | inr off ↦ ground arith
  ]

  Step-Inv : {r q : Run} → Step r q → Inv r → Inv q
  unfolding on_timer on_stop_requested on_close
  Step-Inv {r} (fires n) v = finish-Inv r (pos 0) v
  Step-Inv {r} (stops g i m) v =
      let left : Registry = record { halted = true; entries = erase c.registration g.entries } in
      let d : Distinct g.entries = subst IsDistinct i v.distinct in
      finish-Inv (record r { sleep = record (r.sleep) { cancel = some left } }) (negsuc e.ecanceled)
        (cancel-Inv r (some left) (erase-Distinct c.registration g.entries d)
          (λ h. ground (arith, mem-erased c.registration g.entries d)) v)
  Step-Inv {r} (others cancel d m) v = cancel-Inv r cancel d (λ h. sym m ∙ h) v
  Step-Inv {r} (closes o) v = ground arith

  Reach-Inv : {r q : Run} → Reach r q → Inv r → Inv q
  Reach-Inv start v = v
  Reach-Inv (next p s) v = Step-Inv s (Reach-Inv p v)

  abbrev pub asleep : Sleep → Run
  asleep s = record { sleep = s; resumed = [] }

  started-Inv :
      (cancel : Option Registry) (init begun : ℤ) (s : Sleep)
      → IsDistinct cancel
      → registered cancel c.registration ≡ false
      → await_suspend e (construct cancel) c init begun ≡ (s, true)
      → Inv (asleep s)
  unfolding await_suspend construct enrol
  started-Inv none init begun s d n h = ground arith
  started-Inv (some g) init begun s d n h = ground arith

  -- A sleep that suspended its task, whose registration was not in effect before, in any order of
  -- the timer, stop requests, other changes of the cancellation state and the close callback:
  -- either the task has not been resumed and libuv still owes the sleep its timer or its close
  -- callback, or the task was resumed exactly once, after which neither is left and the
  -- registration is withdrawn.
  pub sleep_resumed_once :
      (cancel : Option Registry) (init begun : ℤ) (s : Sleep) (r : Run)
      → IsDistinct cancel
      → registered cancel c.registration ≡ false
      → await_suspend e (construct cancel) c init begun ≡ (s, true)
      → Reach (asleep s) r
      → ((r.resumed ≡ []) × ((r.sleep.running || r.sleep.owed) ≡ true))
        ⊎ ((r.resumed ≡ c.continuation ∷ [])
            × (r.sleep.running ≡ false)
            × (r.sleep.owed ≡ false)
            × (registered r.sleep.cancel c.registration ≡ false))
  sleep_resumed_once cancel init begun s r d n h p =
      let v = Reach-Inv p (started-Inv cancel init begun s d n h) in
      elim (Bool-cases r.sleep.close_started) [
        | inl ended ↦ elim (Bool-cases r.sleep.owed) [
          | inl owed ↦ inl (ground arith, ground arith)
          | inr done ↦ inr (ground arith, ground arith, ground arith, ground arith)
        ]
        | inr more ↦ inl (ground arith, ground arith)
      ]
