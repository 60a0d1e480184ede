-- ===== src/Handles/Udp.antt =====
-- include/uvpp/handles/udp.hpp: the receive subscription of a raw UDP handle. A subscription is a value
-- of `R`; what user code does to the handle inside a callback, and the statuses of the native calls,
-- are arguments. `none` stands for the exception boundary, which terminates.
use uvpp.Base.{
  ℕ, ◌≡◌, ◌≢◌, refl, ◌∙◌, ap, Bool, true, false, ◌&&◌, not, Option, none, some, List, [], ◌∷◌,
  arith, ==_refl, if◌then◌else◌, is_some, ℤ, pos, negsuc, is_neg,
}
use uvpp.Core.Callback.Persistent.{Delivery, Slot, checkout, replace, restore}
use uvpp.Core.Error.{Errnos, Status, status_from_native, status_ok}
use uvpp.Handles.Stream.{no_delivery}

-- `ready` says that the handle is initialised and not closing.
pub record RawUdp (R : Type 0) : Type 0 where
  pub ready : Bool
  pub receiving : Bool
  pub subscription : Slot R
  pub pending : Delivery R  -- pending_receive_

module _ {R : Type 0} where
  -- retire_receive
  unfoldable pub retire_receive : RawUdp R → RawUdp R
  unfolding replace
  retire_receive u = record u { receiving = false; subscription = replace u.subscription none }

  unfoldable pub receive_stop : Errnos → RawUdp R → ℤ → RawUdp R × Status
  unfolding retire_receive status_from_native status_ok
  receive_stop e u native =
      if not u.ready
      then (u, status_from_native (negsuc e.ebadf))
      else (let result = status_from_native native in
          (if status_ok result then retire_receive u else u, result))

  -- The part of start_receive after it stopped an earlier subscription.
  unfoldable pub subscribe : RawUdp R → R → ℤ → RawUdp R × Status
  unfolding replace status_from_native status_ok
  subscribe u next native =
      let result = status_from_native native in
      if status_ok result
      then (
        record u { subscription = replace u.subscription (some next); receiving = true },
        result,
      )
      else (u, result)

  -- start_receive, with the status of the `uv_udp_recv_stop` that it may call.
  unfoldable pub start_receive : Errnos → RawUdp R → R → ℤ → ℤ → RawUdp R × Status
  unfolding receive_stop subscribe status_ok
  start_receive e u next stop native =
      if u.receiving
      then (let (t, stopped) = receive_stop e u stop in
          if not (status_ok stopped) then (t, stopped) else subscribe t next native)
      else subscribe u next native

  -- receive_start, for the pair of an allocator and a receiver.
  unfoldable pub receive_start : Errnos → RawUdp R → Option R → ℤ → ℤ → RawUdp R × Status
  unfolding start_receive status_from_native
  receive_start e u next stop native =
      if not u.ready then (u, status_from_native (negsuc e.ebadf)) else elim next [
        | none ↦ (u, status_from_native (negsuc e.einval))
        | some r ↦ start_receive e u r stop native
      ]

  -- alloc_trampoline: the handle, and the subscription whose allocator lent the buffer.
  unfoldable pub alloc : RawUdp R → (RawUdp R → RawUdp R) → RawUdp R × Option R
  unfolding checkout restore
  alloc u body =
      let (slot, lent) = checkout (restore u.subscription u.pending) in
      let t = record u { subscription = slot; pending = no_delivery } in
      (record (if is_some lent.taken then body t else t) { pending = lent }, lent.taken)

  -- receive_trampoline: the handle, and the subscription whose receiver gets the result, which may be
  -- a chunk of a buffer that stays lent; `stop` is the status of `uv_udp_recv_stop` after an error.
  unfoldable pub receive :
      RawUdp R → ℤ → Bool → ℤ → (RawUdp R → RawUdp R) → Option (RawUdp R × Option R)
  unfolding checkout restore retire_receive
  receive u count chunk stop body =
      let t = record u { pending = no_delivery } in
      let (slot, lent) =
        if is_some u.pending.taken then (u.subscription, u.pending) else checkout u.subscription in
      let v = record t { subscription = slot } in
      let before = if is_neg count then retire_receive v else v in
      let after = if is_some lent.taken then body before else before in
      if is_neg count && is_neg stop
      then none
      else some (
        if chunk
            then record after { pending = lent }
            else record after { subscription = restore after.subscription lent },
        lent.taken,
      )

  -- close, and close_trampoline up to the close callback.
  unfoldable pub close : RawUdp R → RawUdp R
  unfolding retire_receive
  close u = if not u.ready then u else retire_receive (record u { ready = false })

  unfoldable pub finish_close : RawUdp R → RawUdp R
  finish_close u = record u { pending = no_delivery }

  -- The chunks of one buffer, whose receivers leave the handle alone, and the receivers called.
  abbrev pub call :
      Option R → Option (RawUdp R × List (Option R)) → Option (RawUdp R × List (Option R))
  call c none = none
  call c (some v) = some (v.0, c ∷ v.1)

  unfoldable pub chunks : RawUdp R → List ℕ → Option (RawUdp R × List (Option R))
  unfolding receive
  chunks u [] = some (u, [])
  chunks u (n ∷ ns) = elim (receive u (pos n) true (pos 0) (λ x. x)) [
    | none ↦ none
    | some v ↦ call v.1 (chunks v.0 ns)
  ]

  abbrev pub same : R → List ℕ → List (Option R)
  same r [] = []
  same r (n ∷ ns) = some r ∷ same r ns

  chunk_kept :
      (u : RawUdp R) (r : R) (n : ℕ)
      → u.pending.taken ≡ some r
      → receive u (pos n) true (pos 0) (λ x. x) ≡ some (u, some r)
  unfolding receive
  chunk_kept u r n p = ground arith

  chunks_kept :
      (u : RawUdp R) (r : R) (ns : List ℕ)
      → u.pending.taken ≡ some r
      → chunks u ns ≡ some (u, same r ns)
  unfolding chunks
  chunks_kept u r [] p = refl
  chunks_kept u r (n ∷ ns) p =
      ap
        (λ o. elim o as (λ _. Option (RawUdp R × List (Option R))) [
          | none ↦ none
          | some v ↦ call v.1 (chunks v.0 ns)
        ])
        (chunk_kept u r n p)
      ∙ ap (call (some r)) (chunks_kept u r ns p)

  -- A handle that has a subscription, and no buffer lent, lends one and gets any number of chunks of
  -- it, and then the end of the buffer: the receiver called is each time that of the subscription,
  -- and the handle is in the end as it was before.
  pub chunks-alloc :
      (u : RawUdp R) (r : R) (ns : List ℕ) (n : ℕ)
      → u.subscription.callback ≡ some r
      → u.subscription.generation ≢ 0
      → u.pending ≡ no_delivery
      → let (t, lender) = alloc u (λ x. x) in
        (lender ≡ some r)
        × (chunks t ns ≡ some (t, same r ns))
        × (receive t (pos n) false (pos 0) (λ x. x) ≡ some (u, some r))
  unfolding alloc receive checkout restore
  chunks-alloc u r ns n c g p = (
    ground arith,
    chunks_kept (alloc u (λ x. x)).0 r ns (ground arith),
    ground (arith, ==_refl u.subscription.generation),
  )
