-- ===== src/Net/TcpListener/Accept.antt =====
-- The life of an accept that suspended its task: connections, stop requests, the listener's close
-- and the close of the child may come in any order that libuv and the cancellation state allow.
use uvpp.Base.{ℕ, ◌≡◌, ◌⊎◌, Bool, true, false, Option, some, List, [], ◌∷◌, points_to, ℤ, is_neg}
use uvpp.Co.Await.{Caller}
use uvpp.Co.Cancellation.Spec.{Registry}
use uvpp.Co.Cancellation.View.{erase, mem}
use uvpp.Co.Sleep.Awakening.{IsDistinct, registered, add_resumed}
use uvpp.Net.TcpListener.{
  Accepting, Child, ready, ending, ended, deliver, request_close, on_stop_requested,
  on_child_closed,
}
use uvpp.Core.Error.{Errnos}

-- An accept with the coroutines that it resumed.
pub record Run : Type 0 where
  pub accept : Accepting
  pub resumed : List ℕ

abbrev pub is_ending : Child → Bool
is_ending ending = true
is_ending _ = false

abbrev pub claims : Accepting → Caller → Bool
claims a c = points_to a.listener.active c.self

abbrev pub asleep : Accepting → Run
asleep a = record { accept = a; resumed = [] }

module _ (e : Errnos) (c : Caller) where
  -- A stop takes the registration off the list before it calls it. What others do to the
  -- cancellation state and to the slot leaves this accept's registration and claim as they are.
  pub data Step (r : Run) : Run → Type 0 where
    connects :
        (status accepted : ℤ)
        → claims r.accept c ≡ true
        → Step r (record r {
          accept = (deliver r.accept c status accepted).0;
          resumed = add_resumed r.resumed (deliver r.accept c status accepted).1;
        })
    closes_listener : Step r (record r { accept = (request_close e r.accept c).0 })
    stops :
        (g : Registry)
        → r.accept.cancel ≡ some g
        → mem c.registration g.entries ≡ true
        → Step r (record r {
          accept =
              on_stop_requested e
                (record (r.accept) {
                  cancel =
                      some (record { halted = true; entries = erase c.registration g.entries });
                })
                c;
        })
    others :
        (cancel : Option Registry)
        → IsDistinct cancel
        → registered cancel c.registration ≡ registered r.accept.cancel c.registration
        → Step r (record r { accept = record (r.accept) { cancel = cancel } })
    others_accept :
        (active : Option ℕ)
        → claims r.accept c ≡ false
        → points_to active c.self ≡ false
        → Step r (record r {
          accept = record (r.accept) { listener = record (r.accept.listener) { active = active } };
        })
    closes_child :
        is_ending r.accept.child ≡ true
        → Step r (record r {
          accept = (on_child_closed r.accept).0;
          resumed = add_resumed r.resumed (on_child_closed r.accept).1;
        })

  pub data Reach (r : Run) : Run → Type 0 where
    start : Reach r r
    next : {m n : Run} → Reach r m → Step m n → Reach r n

  record Inv (r : Run) : Type 0 where
    distinct : IsDistinct r.accept.cancel
    waiting :
        claims r.accept c ≡ true
        → (r.resumed ≡ [])
          × (r.accept.child ≡ ready)
          × (r.accept.continuation ≡ some c.continuation)
    freed : claims r.accept c ≡ false → registered r.accept.cancel c.registration ≡ false
    closing :
        is_ending r.accept.child ≡ true
        → (r.resumed ≡ [])
          × (r.accept.child_waiter ≡ some c.continuation)
          × (is_neg r.accept.status ≡ true)
          × (claims r.accept c ≡ false)
    over :
        claims r.accept c ≡ false
        → is_ending r.accept.child ≡ false
        → (r.resumed ≡ c.continuation ∷ [])
          × (((is_neg r.accept.status ≡ false) × (r.accept.child ≡ ready))
              ⊎ ((is_neg r.accept.status ≡ true) × (r.accept.child ≡ ended)))

  -- An awaiter that has not been awaited, with a registration that is not in effect.
  pub record IsIdle (a : Accepting) : Type 0 where
    pub distinct : IsDistinct a.cancel
    pub unregistered : registered a.cancel c.registration ≡ false
