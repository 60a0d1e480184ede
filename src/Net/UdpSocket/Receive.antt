-- ===== src/Net/UdpSocket/Receive.antt =====
-- The life of a receive that suspended its task: datagrams, stop requests, sends and other changes
-- of the cancellation state may come in any order.
use uvpp.Base.{
  ℕ, ◌≡◌, refl, sym, subst, ◌⊎◌, inl, inr, Bool, true, false, ◌&&◌, ◌||◌, not, Option, none, some,
  List, [], ◌∷◌, arith, ==_refl, Bool-cases, is_some, points_to, ℤ, pos, negsuc, eqb,
}
use uvpp.Co.Await.{Caller, link, unlink}
use uvpp.Co.Cancellation.Spec.{Registry, enrol, withdraw}
use uvpp.Co.Cancellation.View.{erase, mem, erase-Distinct, mem-erased}
use uvpp.Co.Sleep.Awakening.{IsDistinct, registered, add_resumed, withdrawn-none}
use uvpp.Core.Error.{Errnos, returned}
use uvpp.Net.UdpSocket.{
  new_peer, Peer, Receiving, Socket, await_receive, cancel_receive, on_receive, release_slots,
  start_receive, stop_and_resume,
}

-- A receive with the coroutines that it resumed.
pub record Run : Type 0 where
  pub world : Receiving
  pub resumed : List ℕ

abbrev pub asleep : Receiving → Run
asleep w = record { world = w; resumed = [] }

abbrev pub claims : Receiving → Caller → Bool
claims w c = points_to w.source.active_receive c.self

module _ (e : Errnos) (c : Caller) where
  -- What others do leaves this receive's claim and registration as they are, and native receiving
  -- too while the claim is held.
  pub data Step (r : Run) : Run → Type 0 where
    receives :
        (nread : ℤ) (peer : Option Peer) (flags : ℕ) (stop : ℤ) (w : Receiving) (h : Option ℕ)
        → claims r.world c ≡ true
        → on_receive r.world c nread peer flags stop ≡ some (w, h)
        → Step r (record { world = w; resumed = add_resumed r.resumed h })
    stops :
        (g : Registry) (stop : ℤ) (w : Receiving) (h : Option ℕ)
        → r.world.cancel ≡ some g
        → mem c.registration g.entries ≡ true
        → cancel_receive e
            (record (r.world) {
              cancel = some (record { halted = true; entries = erase c.registration g.entries });
            })
            c
            stop
          ≡ some (w, h)
        → Step r (record { world = w; resumed = add_resumed r.resumed h })
    others :
        (s : Socket) (cancel : Option Registry)
        → points_to s.active_receive c.self ≡ claims r.world c
        → (claims r.world c ≡ false) ⊎ (s.receiving ≡ r.world.source.receiving)
        → IsDistinct cancel
        → registered cancel c.registration ≡ registered r.world.cancel c.registration
        → Step r (record r { world = record (r.world) { source = s; cancel = cancel } })

  pub data Reach (r : Run) : Run → Type 0 where
    start : Reach r r
    next : {m n : Run} → Reach r m → Step m n → Reach r n

  record Inv (r : Run) : Type 0 where
    distinct : IsDistinct r.world.cancel
    linked : r.world.awaiter.linked ≡ false → registered r.world.cancel c.registration ≡ false
    waiting :
        claims r.world c ≡ true
        → (r.resumed ≡ [])
          × (r.world.awaiter.resume_to ≡ some c.continuation)
          × (r.world.source.receiving ≡ true)
    over :
        claims r.world c ≡ false
        → (r.resumed ≡ c.continuation ∷ []) × (registered r.world.cancel c.registration ≡ false)

  suspended-Inv :
      (w v : Receiving) (begun : ℤ)
      → IsDistinct w.cancel
      → registered w.cancel c.registration ≡ false
      → await_receive e false w c begun ≡ returned (v, true)
      → Inv (asleep v)
  unfolding await_receive start_receive link enrol
  suspended-Inv w v begun d n h =
      elim w.cancel as (λ x. w.cancel ≡ x → Inv (asleep v)) [
        | none ↦ λ i. ground (arith, ==_refl c.self)
        | some g ↦ λ i. ground (arith, ==_refl c.self)
      ]
        refl

  -- What ends a receive.
  stop-Inv :
      (w v : Receiving) (stop : ℤ) (h : Option ℕ)
      → IsDistinct w.cancel
      → (w.awaiter.linked ≡ false → registered w.cancel c.registration ≡ false)
      → w.awaiter.resume_to ≡ some c.continuation
      → stop_and_resume w c stop ≡ some (v, h)
      → Inv (record { world = v; resumed = add_resumed [] h })
  unfolding stop_and_resume release_slots unlink withdraw
  stop-Inv w v stop h d l k i = elim (Bool-cases w.awaiter.linked) [
    | inl on ↦ (let q = withdrawn-none c.registration w.cancel d in ground arith)
    | inr off ↦ (let q = l off in ground arith)
  ]

  resumed-Inv :
      (r : Run) (w : Receiving) (h : Option ℕ)
      → r.resumed ≡ []
      → Inv (record { world = w; resumed = add_resumed [] h })
      → Inv (record { world = w; resumed = add_resumed r.resumed h })
  resumed-Inv r w h u v =
      subst (λ xs. Inv (record { world = w; resumed = add_resumed xs h })) (sym u) v

  receive-Inv :
      (r : Run) (nread : ℤ) (peer : Option Peer) (flags : ℕ) (stop : ℤ) (w : Receiving)
      (h : Option ℕ)
      → claims r.world c ≡ true
      → on_receive r.world c nread peer flags stop ≡ some (w, h)
      → Inv r
      → Inv (record { world = w; resumed = add_resumed r.resumed h })
  unfolding on_receive
  receive-Inv r nread peer flags stop w h p i v =
      let (u, t, q) = v.waiting p in
      elim (Bool-cases (
        not (is_some r.world.source.active_receive) || (eqb nread (pos 0) && not (is_some peer)))) [
          | inl idle ↦ ground arith
          | inr passed ↦ resumed-Inv r w h u (
              stop-Inv
                (record (r.world) {
                  awaiter = record (r.world.awaiter) {
                    status = nread;
                    event = record {
                      peer = new_peer peer r.world.awaiter.event.peer;
                      flags = flags;
                    };
                  };
                })
                w stop h v.distinct v.linked t (ground arith))
        ]

  cancel-Inv :
      (r : Run) (g : Registry) (stop : ℤ) (w : Receiving) (h : Option ℕ)
      → r.world.cancel ≡ some g
      → mem c.registration g.entries ≡ true
      → cancel_receive e
          (record (r.world) {
            cancel = some (record { halted = true; entries = erase c.registration g.entries });
          })
          c
          stop
        ≡ some (w, h)
      → Inv r
      → Inv (record { world = w; resumed = add_resumed r.resumed h })
  unfolding cancel_receive
  cancel-Inv r g stop w h i m q v =
      let left : Registry = record { halted = true; entries = erase c.registration g.entries } in
      let d = erase-Distinct c.registration g.entries (subst IsDistinct i v.distinct) in
      let out = mem-erased c.registration g.entries (subst IsDistinct i v.distinct) in
      elim (Bool-cases (claims r.world c)) [
        | inr off ↦ (let n = v.over off in ground arith)
        | inl on ↦
            (let (u, t, k) = v.waiting on in
              resumed-Inv r w h u (
                stop-Inv
                  (record (r.world) {
                    awaiter = record (r.world.awaiter) { status = negsuc e.ecanceled };
                    cancel = some left;
                  })
                  w stop h d (λ x. out) t (ground arith)))
      ]

  Step-Inv : {r q : Run} → Step r q → Inv r → Inv q
  Step-Inv {r} (receives nread peer flags stop w h p i) v =
      receive-Inv r nread peer flags stop w h p i v
  Step-Inv {r} (stops g stop w h i m q) v = cancel-Inv r g stop w h i m q v
  Step-Inv {r} (others s cancel p n d m) v = ground arith

  Reach-Inv : {r q : Run} → Reach r q → Inv r → Inv q
  Reach-Inv start v = v
  Reach-Inv (next p s) v = Step-Inv s (Reach-Inv p v)

  -- A receive of a datagram that suspended its task, whose registration was not in effect before, in
  -- any order of datagrams, empty notifications, stop requests and what others do: either it has the
  -- socket's receive slot, libuv is receiving and the task was not resumed; or the task was resumed
  -- exactly once, and the slot and the registration are given back.
  pub datagram_resumed_once :
      (w v : Receiving) (begun : ℤ) (r : Run)
      → IsDistinct w.cancel
      → registered w.cancel c.registration ≡ false
      → await_receive e false w c begun ≡ returned (v, true)
      → Reach (asleep v) r
      → ((claims r.world c ≡ true) × (r.resumed ≡ []) × (r.world.source.receiving ≡ true))
        ⊎ ((claims r.world c ≡ false)
            × (r.resumed ≡ c.continuation ∷ [])
            × (registered r.world.cancel c.registration ≡ false))
  datagram_resumed_once w v begun r d n h p =
      let i = Reach-Inv p (suspended-Inv w v begun d n h) in
      elim (Bool-cases (claims r.world c)) [
        | inl on ↦ (let k = i.waiting on in inl (on, k.0, k.2))
        | inr off ↦ (let k = i.over off in inr (off, k.0, k.1))
      ]
