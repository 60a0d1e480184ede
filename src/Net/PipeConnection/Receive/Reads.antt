-- ===== src/Net/PipeConnection/Receive/Reads.antt =====
-- The reads of a receive keep its invariant.
use uvpp.Base.{
  ℕ, zero, suc, ◌+◌, ◌-◌, ◌≤◌, ◌<◌, ◌≡◌, refl, sym, ◌∙◌, subst, ◌≢◌, ◌⊎◌, inr, Bool, true, false,
  Option, none, some, List, [], arith, ◌==◌, if◌then◌else◌, ℤ, pos, negsuc, is_neg,
}
use uvpp.Net.PipeConnection.Receive.Waiting.{Run, Inv, claims, count, quiet_lem}
use uvpp.Co.Await.{Caller}
use uvpp.Co.Sleep.Awakening.{IsDistinct, registered, add_resumed}
use uvpp.Core.Error.{Errnos}
use uvpp.Net.PipeConnection.{
  Receiving, Pending, on_read, Receiver, adopt_pending_tcp, quiet, deliver, end_read,
  close_pipe_if_failed, discard_received, with_receiver,
}
use uvpp.Net.PipeConnection.Adopt.{is_ending, adopt_first}

module _ (e : Errnos) (c : Caller) (size : ℕ) where
  -- The end of a read whose outcome is settled.
  end-Inv :
      (w v : Receiving) (stop : ℤ) (h : Option ℕ)
      → IsDistinct w.cancel
      → (w.awaiter.linked ≡ false → registered w.cancel c.registration ≡ false)
      → w.awaiter.resume_to ≡ some c.continuation
      → w.awaiter.event.bytes ≤ size
      → w.awaiter.event.discarded ≡ []
      → is_ending w.awaiter.event.incoming ≡ false
      → ((is_neg w.awaiter.event.status ≡ false)
          × (w.awaiter.event.received ≢ [])
          × (w.awaiter.event.close_pipe ≡ false))
        ⊎ (is_neg w.awaiter.event.status ≡ true)
      → end_read w c stop ≡ some (v, h)
      → Inv c size (record { world = v; resumed = add_resumed [] h })
  unfolding end_read deliver close_pipe_if_failed discard_received
  end-Inv w v stop h d l resume b k i s q =
      elim (quiet w c stop)
          as (λ x.
            quiet w c stop ≡ x → Inv c size (record { world = v; resumed = add_resumed [] h })) [
              | none ↦ λ p. ground arith
              | some (u, g) ↦ λ p. (let f = quiet_lem c size w u stop g d l p in ground arith)
            ]
        refl

  settles-Inv :
      (r : Run) (t : Receiver) (stop : ℤ) (w : Receiving) (h : Option ℕ)
      → claims r.world c ≡ true
      → Inv c size r
      → t.bytes ≤ size
      → t.discarded ≡ []
      → is_ending t.incoming ≡ false
      → ((is_neg t.status ≡ false) × (t.received ≢ []) × (t.close_pipe ≡ false))
        ⊎ (is_neg t.status ≡ true)
      → end_read (with_receiver r.world t) c stop ≡ some (w, h)
      → Inv c size (record { world = w; resumed = add_resumed r.resumed h })
  settles-Inv r t stop w h p v b d k s q =
      let f = v.waiting p in
      subst (λ xs. Inv c size (record { world = w; resumed = add_resumed xs h })) (sym f.unresumed)
        (end-Inv (with_receiver r.world t) w stop h v.distinct v.linked f.resume_to b d k s q)

  -- What follows the loop over the native queue; `full` says that the buffer is.
  adopts-Inv :
      (r : Run) (n : ℕ) (t : Receiver) (done full : Bool) (stop : ℤ) (w : Receiving) (h : Option ℕ)
      → claims r.world c ≡ true
      → Inv c size r
      → n ≤ size
      → (full ≡ false → n < size)
      → (t.bytes ≡ n)
        × (t.discarded ≡ r.world.awaiter.event.discarded)
        × (t.child_waiter ≡ r.world.awaiter.event.child_waiter)
        × (is_ending t.incoming ≡ false)
        × (((done ≡ false) × (t ≡ record (r.world.awaiter.event) { bytes = n; status = pos 0 }))
            ⊎ ((done ≡ true)
                × (((is_neg t.status ≡ false)
                      × (t.received ≢ [])
                      × (t.close_pipe ≡ r.world.awaiter.event.close_pipe))
                    ⊎ ((is_neg t.status ≡ true) × (t.close_pipe ≡ true)))))
      → (if done
          then end_read (with_receiver r.world t) c stop
          else if full
          then end_read (with_receiver r.world (record t { status = negsuc e.enobufs })) c stop
          else some (with_receiver r.world t, none))
        ≡ some (w, h)
      → Inv c size (record { world = w; resumed = add_resumed r.resumed h })
  adopts-Inv r n t true full stop w h p v b l (bytes, kept, waiter, child, s) q =
      let f = v.waiting p in
      settles-Inv r t stop w h p v (ground arith) (kept ∙ f.discarded) child
        (ground (arith, f.close_pipe)) q
  adopts-Inv r n t false true stop w h p v b l (bytes, kept, waiter, child, s) q =
      let f = v.waiting p in
      settles-Inv r (record t { status = negsuc e.enobufs }) stop w h p v (ground arith)
        (kept ∙ f.discarded) child (inr refl) q
  adopts-Inv r n t false false stop w h p v b l (bytes, kept, waiter, child, s) q =
      let f = v.waiting p in let m = l refl in ground arith

  pub read-Inv :
      (r : Run) (nread : ℤ) (pending : List Pending) (stop : ℤ) (w : Receiving) (h : Option ℕ)
      → claims r.world c ≡ true
      → count nread ≤ size - r.world.awaiter.event.bytes
      → on_read e r.world c size nread pending stop ≡ some (w, h)
      → Inv c size r
      → Inv c size (record { world = w; resumed = add_resumed r.resumed h })
  unfolding on_read
  read-Inv r (negsuc n) pending stop w h p b q v =
      let f = v.waiting p in
      settles-Inv r (record (r.world.awaiter.event) { status = negsuc n }) stop w h p v v.bounded
        f.discarded (ground (arith, f.incoming)) (inr refl) q
  read-Inv r (pos zero) pending stop w h p b q v =
      let f = v.waiting p in
      let r0 = record (r.world.awaiter.event) { status = pos 0 } in
      let (t, done) = adopt_pending_tcp e pending r0 false in
      adopts-Inv r r.world.awaiter.event.bytes t done false stop w h p v v.bounded (λ n. f.room)
        (adopt_first e pending r0 f.incoming f.received) q
  read-Inv r (pos (suc n)) pending stop w h p b q v =
      let f = v.waiting p in
      let m = r.world.awaiter.event.bytes + suc n in
      let r0 = record (r.world.awaiter.event) { status = pos (suc n); bytes = m } in
      let (t, done) = adopt_pending_tcp e pending r0 false in
      let a = adopt_first e pending r0 f.incoming f.received in
      adopts-Inv r m t done (t.bytes == size) stop w h p v (omega (arith, b, f.room))
        (λ n. ground (arith, a.0, b, f.room)) a q
