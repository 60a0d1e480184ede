-- ===== src/Net/PipeListener/Tcp.antt =====
-- The accept of a pipe listener seen as that of a TCP listener: the same protocol on another handle.
use uvpp.Base.{◌≡◌, refl, Bool, true, false, Option, none, some, arith, is_some, points_to, ℤ}
use uvpp.Co.Await.{Caller}
use uvpp.Core.Error.{Errnos, returned}
use uvpp.Net.PipeListener.{
  Accepting, Child, await_accept, deliver, on_child_closed, on_stop_requested,
  quiesce_active_accept, request_close,
}
use uvpp.Net.TcpListener

abbrev pub child_view : Bool → Bool → Option Child → TcpListener.Child
child_view false completed none = TcpListener.absent
child_view false completed (some x) = TcpListener.ready
child_view true false x = TcpListener.ending
child_view true true x = TcpListener.ended

abbrev pub view : Accepting → TcpListener.Accepting
view a = record {
  listener = record {
    loop = a.listener.loop;
    active = a.listener.active;
    close = a.listener.close;
    native_closing = a.listener.native_closing;
  };
  continuation = a.continuation;
  cancel = a.cancel;
  status = a.status;
  child = child_view a.provisional_close_required a.provisional_close_completed a.connection;
  child_waiter = a.child_waiter;
}

-- Whoever has the slot has not closed its connection.
abbrev pub claims : Accepting → Caller → Bool
claims a c = points_to a.listener.active c.self

module _ (e : Errnos) (a : Accepting) (c : Caller)
    (h : claims a c ≡ true → a.provisional_close_completed ≡ false) where
  pub view-quiesce : view (quiesce_active_accept e a c) ≡ TcpListener.quiesce e (view a) c
  unfolding quiesce_active_accept TcpListener.quiesce
  view-quiesce = ground arith

  pub view-request_close : view (request_close e a c).0 ≡ (TcpListener.request_close e (view a) c).0
  unfolding request_close TcpListener.request_close quiesce_active_accept TcpListener.quiesce
  view-request_close = ground arith

  pub view-on_stop_requested :
      view (on_stop_requested e a c) ≡ TcpListener.on_stop_requested e (view a) c
  unfolding on_stop_requested TcpListener.on_stop_requested
  view-on_stop_requested = let q = view-quiesce in ground arith

module _ (a : Accepting) (c : Caller) (status accepted : ℤ)
    (h : claims a c ≡ true
      → (a.provisional_close_completed ≡ false)
        × (a.provisional_close_required ≡ false)
        × (is_some a.connection ≡ true)) where
  pub view-deliver :
      (view (deliver a c status accepted).0 ≡ (TcpListener.deliver (view a) c status accepted).0)
      × ((deliver a c status accepted).1 ≡ (TcpListener.deliver (view a) c status accepted).1)
  unfolding deliver TcpListener.deliver
  view-deliver = ground arith

pub view-on_child_closed :
    (a : Accepting)
    → a.provisional_close_required ≡ true
    → (view (on_child_closed a).0 ≡ (TcpListener.on_child_closed (view a)).0)
      × ((on_child_closed a).1 ≡ (TcpListener.on_child_closed (view a)).1)
unfolding on_child_closed TcpListener.on_child_closed
view-on_child_closed a h = ground arith

pub view-await_accept :
    (e : Errnos) (null : Bool) (a b : Accepting) (c : Caller) (init : ℤ)
    → a.provisional_close_required ≡ false
    → a.provisional_close_completed ≡ false
    → await_accept e null a c init ≡ returned (b, true)
    → TcpListener.await_suspend e null (view a) c init ≡ returned (view b, true)
unfolding await_accept TcpListener.await_suspend quiesce_active_accept TcpListener.quiesce
view-await_accept e null a b c init p q h =
    elim a.cancel
        as (λ x.
          a.cancel ≡ x
          → TcpListener.await_suspend e null (view a) c init ≡ returned (view b, true)) [
            | none ↦ λ i. ground arith
            | some g ↦ λ i. ground arith
          ]
      refl
