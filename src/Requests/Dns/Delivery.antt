-- ===== src/Requests/Dns/Delivery.antt =====
-- The life of a DNS request that is submitted again and again.
use uvpp.Base.{
  ◌≡◌, refl, ◌⊎◌, inl, inr, Bool, true, false, not, Option, none, some, List, [], ◌∷◌, ◌++◌, arith,
  Bool-cases, if◌then◌else◌, ℤ, is_neg,
}
use uvpp.Core.Error.{Errnos}
use uvpp.Requests.Dns.{DnsRequest, complete, new_request, submit, submit_static}

-- The request, the callbacks of the accepted submissions and those that were called, in order.
pub record Run (C : Type 0) : Type 0 where
  pub request : DnsRequest C
  pub accepted : List C
  pub called : List (Option C)

module _ {C : Type 0} where
  abbrev pub unused : Run C
  unused = record { request = new_request; accepted = []; called = [] }

  abbrev pub accepts : DnsRequest C → ℤ → Bool
  accepts r native = if r.is_pending then false else not (is_neg native)

  abbrev pub noted : List C → Bool → C → List C
  noted cs yes_or_not c = if yes_or_not then cs ++ c ∷ [] else cs

  abbrev pub all_called : List C → List (Option C)
  all_called [] = []
  all_called (c ∷ cs) = some c ∷ all_called cs

  all_called-append :
      (cs : List C) (c : C) → all_called (cs ++ c ∷ []) ≡ all_called cs ++ some c ∷ []
  all_called-append [] c = refl
  all_called-append (x ∷ cs) c = rw (all_called-append cs c)

module _ {C : Type 0} (e : Errnos) where
  pub data Step (r : Run C) : Run C → Type 0 where
    submits :
        (c : C) (native : ℤ)
        → Step r (record r {
          request = (submit e r.request (some c) native).0;
          accepted = noted r.accepted (accepts r.request native) c;
        })
    submits_empty :
        (native : ℤ) → Step r (record r { request = (submit e r.request none native).0 })
    submits_static :
        (c : C) (native : ℤ)
        → Step r (record r {
          request = (submit_static e r.request c native).0;
          accepted = noted r.accepted (accepts r.request native) c;
        })
    completes :
        r.request.is_pending ≡ true
        → Step r (record r {
          request = (complete r.request).0;
          called = r.called ++ (complete r.request).1 ∷ [];
        })

  pub data Reach (r : Run C) : Run C → Type 0 where
    start : Reach r r
    next : {m n : Run C} → Reach r m → Step m n → Reach r n

  record Inv (r : Run C) : Type 0 where
    owed :
        r.request.is_pending ≡ true
        → all_called r.accepted ≡ r.called ++ (complete r.request).1 ∷ []
    paid : r.request.is_pending ≡ false → all_called r.accepted ≡ r.called

  Step-Inv : {r q : Run C} → Step r q → Inv r → Inv q
  unfolding submit submit_static complete
  Step-Inv {r} (submits c native) v = ground (arith, all_called-append r.accepted c)
  Step-Inv {r} (submits_empty native) v = ground arith
  Step-Inv {r} (submits_static c native) v = ground (arith, all_called-append r.accepted c)
  Step-Inv {r} (completes p) v = ground arith

  Reach-Inv : {r q : Run C} → Reach r q → Inv r → Inv q
  Reach-Inv start v = v
  Reach-Inv (next p s) v = Step-Inv s (Reach-Inv p v)

  -- A DNS request from its construction on, submitted any number of times, with a callback, with an
  -- empty one and with a static one, whatever libuv answers, and completed whenever it is pending: the
  -- callbacks of the accepted submissions are called once each, in order, each its own, but for the
  -- one of a request that is still pending, which its completion will call.
  pub delivered_once :
      (r : Run C)
      → Reach unused r
      → (((r.request.is_pending ≡ true)
            × (all_called r.accepted ≡ r.called ++ (complete r.request).1 ∷ []))
          ⊎ ((r.request.is_pending ≡ false) × (all_called r.accepted ≡ r.called)))
  unfolding complete
  delivered_once r p =
      let v = Reach-Inv p (ground arith) in
      elim (Bool-cases r.request.is_pending) [
        | inl on ↦ inl (on, v.owed on)
        | inr off ↦ inr (off, v.paid off)
      ]
