-- ===== src/Handles/Request/Delivery.antt =====
-- The life of a request that is submitted again and again.
use uvpp.Base.{
  ◌≡◌, refl, ap, ◌∙◌, ◌⊎◌, inl, inr, Bool, true, false, Option, none, some, List, [], ◌∷◌, ◌++◌,
  arith, Bool-cases, Option-cases, is_some, ℤ,
}
use uvpp.Core.Error.{Errnos, status_from_native, status_ok}
use uvpp.Handles.Request.{StreamRequest, new_request, submit, submit_static, trampoline}

-- A request with the callbacks whose submission was accepted and those that were called.
pub record Run (C : Type 0) : Type 0 where
  pub request : StreamRequest C
  pub accepted : List C
  pub called : List C

module _ {C : Type 0} (e : Errnos) where
  abbrev pub accept : List C → C → Bool → List C
  accept cs c true = cs ++ c ∷ []
  accept cs c false = cs

  abbrev pub add_called : List C → Option C → List C
  add_called cs none = cs
  add_called cs (some c) = cs ++ c ∷ []

  pub data Step (r : Run C) : Run C → Type 0 where
    submits :
        (c : C) (native : ℤ)
        → Step r (record r {
          request = (submit e r.request (some c) native).0;
          accepted = accept r.accepted c (status_ok (submit e r.request (some c) native).1);
        })
    submits_empty :
        (native : ℤ) → Step r (record r { request = (submit e r.request none native).0 })
    submits_static :
        (c : C) (native : ℤ)
        → Step r (record r {
          request = (submit_static e r.request c native).0;
          accepted = accept r.accepted c (status_ok (submit_static e r.request c native).1);
        })
    completes :
        r.request.in_flight ≡ true
        → Step r (record r {
          request = (trampoline r.request).0;
          called = add_called r.called (trampoline r.request).1;
        })

  pub data Reach (r : Run C) : Run C → Type 0 where
    start : Reach r r
    next : {m n : Run C} → Reach r m → Step m n → Reach r n

  record Inv (r : Run C) : Type 0 where
    same : r.request.is_pending ≡ r.request.in_flight
    idle :
        r.request.is_pending ≡ false
        → (r.accepted ≡ r.called) × (r.request.callback ≡ none) × (r.request.static_callback ≡ none)
    waiting :
        r.request.is_pending ≡ true → r.accepted ≡ add_called r.called (trampoline r.request).1
    filled : r.request.is_pending ≡ true → is_some (trampoline r.request).1 ≡ true
    single : (r.request.callback ≡ none) ⊎ (r.request.static_callback ≡ none)

  Step-Inv : {r q : Run C} → Step r q → Inv r → Inv q
  unfolding submit submit_static trampoline status_ok status_from_native
  Step-Inv {r} (submits c native) v = ground arith
  Step-Inv {r} (submits_empty native) v = ground arith
  Step-Inv {r} (submits_static c native) v = ground arith
  Step-Inv {r} (completes p) v = ground arith

  Reach-Inv : {r q : Run C} → Reach r q → Inv r → Inv q
  Reach-Inv start v = v
  Reach-Inv (next p s) v = Step-Inv s (Reach-Inv p v)

  abbrev pub unused : Run C
  unused = record { request = new_request; accepted = []; called = [] }

  -- A request from its construction on, submitted any number of times, with a callable, an empty one
  -- or a static callback, whatever the native calls return, and completed whenever libuv has it:
  -- it is pending exactly while libuv has it; the callbacks of the accepted submissions are called
  -- once each, in order, but for the one that is still pending; and a request that is not pending
  -- keeps no callback.
  pub called_once :
      (r : Run C)
      → Reach unused r
      → (r.request.is_pending ≡ r.request.in_flight)
        × (((r.request.is_pending ≡ false)
              × (r.accepted ≡ r.called)
              × (r.request.callback ≡ none)
              × (r.request.static_callback ≡ none))
            ⊎ ((c : C) × (r.request.is_pending ≡ true)
                × ((trampoline r.request).1 ≡ some c)
                × (r.accepted ≡ r.called ++ c ∷ [])))
  called_once r p =
      let v = Reach-Inv p (record {
        same = refl;
        idle = λ i. (refl, refl, refl);
        waiting = λ i. ground arith;
        filled = λ i. ground arith;
        single = inl refl;
      }) in
      (
        v.same,
        elim (Bool-cases r.request.is_pending) [
          | inr off ↦ (let k = v.idle off in inl (off, k.0, k.1, k.2))
          | inl on ↦ elim (Option-cases (trampoline r.request).1) [
            | inl n ↦ (let f = v.filled on in ground arith)
            | inr (c, i) ↦ inr (c, on, i, v.waiting on ∙ ap (add_called r.called) i)
          ]
        ],
      )
