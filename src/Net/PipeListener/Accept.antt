-- ===== src/Net/PipeListener/Accept.antt =====
-- The life of an accept of a pipe listener: its steps are those of a TCP accept, and the connection
-- that it prepared is kept until it is handed over or closed.
use uvpp.Base.{
  ℕ, ◌≡◌, refl, sym, ap, subst, Bool, true, false, Option, none, some, List, [], arith, not,
  if◌then◌else◌, ℤ, points_to,
}
use uvpp.Co.Await.{Caller}
use uvpp.Co.Cancellation.Spec.{Registry}
use uvpp.Co.Cancellation.View.{erase, mem}
use uvpp.Co.Sleep.Awakening.{IsDistinct, add_resumed, registered}
use uvpp.Core.Error.{Errnos}
use uvpp.Net.PipeListener.{
  Accepting, Child, deliver, on_child_closed, on_stop_requested, quiesce_active_accept,
  request_close,
}
use uvpp.Net.PipeListener.Tcp.{
  claims, view, view-deliver, view-on_child_closed, view-on_stop_requested, view-request_close,
}
use uvpp.Net.TcpListener
use uvpp.Net.TcpListener.Accept as Tcp

-- An accept with the coroutines that it resumed.
pub record Run : Type 0 where
  pub accept : Accepting
  pub resumed : List ℕ

abbrev pub asleep : Accepting → Run
asleep a = record { accept = a; resumed = [] }

-- The close callback of the connection is to come.
abbrev pub is_closing : Accepting → Bool
is_closing a = if a.provisional_close_required then not a.provisional_close_completed else false

abbrev pub tcp : Run → Tcp.Run
tcp r = record { accept = view r.accept; resumed = r.resumed }

abbrev stopped : Accepting → Caller → Registry → Accepting
stopped a c g = record a {
  cancel = some (record { halted = true; entries = erase c.registration g.entries });
}

module _ (e : Errnos) (c : Caller) where
  pub data Step (r : Run) : Run → Type 0 where
    connects :
        (status accepted : ℤ)
        → claims r.accept c ≡ true
        → Step r (record {
          accept = (deliver r.accept c status accepted).0;
          resumed = add_resumed r.resumed (deliver r.accept c status accepted).1;
        })
    closes_listener : Step r (record r { accept = (request_close e r.accept c).0 })
    stops :
        (g : Registry)
        → r.accept.cancel ≡ some g
        → mem c.registration g.entries ≡ true
        → Step r (record r {
          accept =
              on_stop_requested e
                (record (r.accept) {
                  cancel =
                      some (record { halted = true; entries = erase c.registration g.entries });
                })
                c;
        })
    others :
        (cancel : Option Registry)
        → IsDistinct cancel
        → registered cancel c.registration ≡ registered r.accept.cancel c.registration
        → Step r (record r { accept = record (r.accept) { cancel = cancel } })
    others_accept :
        (active : Option ℕ)
        → claims r.accept c ≡ false
        → points_to active c.self ≡ false
        → Step r (record r {
          accept = record (r.accept) { listener = record (r.accept.listener) { active = active } };
        })
    closes_child :
        is_closing r.accept ≡ true
        → Step r (record {
          accept = (on_child_closed r.accept).0;
          resumed = add_resumed r.resumed (on_child_closed r.accept).1;
        })

  pub data Reach (r : Run) : Run → Type 0 where
    start : Reach r r
    next : {m n : Run} → Reach r m → Step m n → Reach r n

  -- The connection of an accept that waits or has succeeded.
  pub record Inv (child : Child) (r : Run) : Type 0 where
    pub claimed :
        claims r.accept c ≡ true
        → (r.accept.provisional_close_completed ≡ false)
          × (r.accept.provisional_close_required ≡ false)
    pub kept : r.accept.provisional_close_required ≡ false → r.accept.connection ≡ some child
    pub gone :
        r.accept.provisional_close_completed ≡ true → r.accept.provisional_close_required ≡ true
    pub dropped : r.accept.provisional_close_required ≡ true → r.accept.connection ≡ none

  Step-Inv : {r q : Run} (child : Child) → Step r q → Inv child r → Inv child q
  unfolding deliver request_close on_stop_requested quiesce_active_accept on_child_closed
  Step-Inv {r} child (connects status accepted m) v = ground arith
  Step-Inv {r} child closes_listener v = ground arith
  Step-Inv {r} child (stops g i m) v = ground arith
  Step-Inv {r} child (others cancel d m) v = ground arith
  Step-Inv {r} child (others_accept active m n) v = ground arith
  Step-Inv {r} child (closes_child i) v = ground arith

  arrive :
      (t : Tcp.Run) (a b : TcpListener.Accepting) (xs ys : List ℕ)
      → b ≡ a
      → ys ≡ xs
      → Tcp.Step e c t (record { accept = a; resumed = xs })
      → Tcp.Step e c t (record { accept = b; resumed = ys })
  arrive t a b xs ys p q s =
      subst (λ z. Tcp.Step e c t (record { accept = z; resumed = ys })) (sym p)
        (subst (λ z. Tcp.Step e c t (record { accept = a; resumed = z })) (sym q) s)

  connects-tcp :
      (r : Run) (child : Child) (status accepted : ℤ)
      → claims r.accept c ≡ true
      → Inv child r
      → Tcp.Step e c (tcp r) (record {
        accept = view (deliver r.accept c status accepted).0;
        resumed = add_resumed r.resumed (deliver r.accept c status accepted).1;
      })
  connects-tcp r child status accepted m v =
      let (p, q) = view-deliver r.accept c status accepted (λ k. ground arith) in
      arrive (tcp r) (TcpListener.deliver (view r.accept) c status accepted).0
        (view (deliver r.accept c status accepted).0)
        (add_resumed r.resumed (TcpListener.deliver (view r.accept) c status accepted).1)
        (add_resumed r.resumed (deliver r.accept c status accepted).1) p
        (ap (add_resumed r.resumed) q) (Tcp.connects status accepted m)

  stops-tcp :
      (r : Run) (child : Child) (g : Registry)
      → r.accept.cancel ≡ some g
      → mem c.registration g.entries ≡ true
      → Inv child r
      → Tcp.Step e c (tcp r) (record {
        accept = view (on_stop_requested e (stopped r.accept c g) c);
        resumed = r.resumed;
      })
  stops-tcp r child g i m v =
      arrive (tcp r) (TcpListener.on_stop_requested e (view (stopped r.accept c g)) c)
        (view (on_stop_requested e (stopped r.accept c g) c)) r.resumed r.resumed
        (view-on_stop_requested e (stopped r.accept c g) c (λ k. (v.claimed k).0)) refl
        (Tcp.stops g i m)

  closes_child-tcp :
      (r : Run)
      → is_closing r.accept ≡ true
      → Tcp.Step e c (tcp r) (record {
        accept = view (on_child_closed r.accept).0;
        resumed = add_resumed r.resumed (on_child_closed r.accept).1;
      })
  closes_child-tcp r i =
      let (p, q) = view-on_child_closed r.accept (ground arith) in
      arrive (tcp r) (TcpListener.on_child_closed (view r.accept)).0
        (view (on_child_closed r.accept).0)
        (add_resumed r.resumed (TcpListener.on_child_closed (view r.accept)).1)
        (add_resumed r.resumed (on_child_closed r.accept).1) p (ap (add_resumed r.resumed) q)
        (Tcp.closes_child (ground arith))

  Step-tcp : {r q : Run} (child : Child) → Step r q → Inv child r → Tcp.Step e c (tcp r) (tcp q)
  Step-tcp {r} child (connects status accepted m) v = connects-tcp r child status accepted m v
  Step-tcp {r} child closes_listener v =
      arrive (tcp r) (TcpListener.request_close e (view r.accept) c).0
        (view (request_close e r.accept c).0) r.resumed r.resumed
        (view-request_close e r.accept c (λ k. (v.claimed k).0)) refl Tcp.closes_listener
  Step-tcp {r} child (stops g i m) v = stops-tcp r child g i m v
  Step-tcp {r} child (others cancel d m) v = Tcp.others cancel d m
  Step-tcp {r} child (others_accept active m n) v = Tcp.others_accept active m n
  Step-tcp {r} child (closes_child i) v = closes_child-tcp r i

  pub Reach-Inv : {r q : Run} (child : Child) → Reach r q → Inv child r → Inv child q
  Reach-Inv child start v = v
  Reach-Inv child (next p s) v = Step-Inv child s (Reach-Inv child p v)

  pub Reach-tcp :
      {r q : Run} (child : Child) → Reach r q → Inv child r → Tcp.Reach e c (tcp r) (tcp q)
  Reach-tcp child start v = Tcp.start
  Reach-tcp child (next p s) v =
      Tcp.next (Reach-tcp child p v) (Step-tcp child s (Reach-Inv child p v))
