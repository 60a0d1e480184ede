-- ===== src/Net/Resolve/Delivery.antt =====
-- A resolution from its awaiting to its result.
use uvpp.Base.{
  is_some, sym, ◌∙◌, ℕ, ◌≡◌, refl, ap, Bool, true, false, Option, none, some, List, [], map, arith,
  ℤ, pos, negsuc, Option-cases, inl, inr,
}
use uvpp.Co.Await.{Caller, refuse, link, stop_requested, unlink}
use uvpp.Co.Cancellation.Spec.{Registry, withdraw}
use uvpp.Core.Error.{
  Errnos, Outcome, Result, error_of, from_native, operational, returned, thrown, throw_if_error,
  value_of,
}
use uvpp.Fs.Request.{complete, request_native_cancellation, submit, unsubmitted}
use uvpp.Net.Resolve.{
  Resolution, ResolveOptions, Resolving, await_resolve, clear_inputs, complete_resolve, construct,
  resolve_result, resolve_value,
}
use uvpp.Requests.Dns.{AddrInfo, AddressInfo, Bytes, to_value}
use uvpp.Requests.Dns.Copies.{to_vector-map}
use uvpp.Co.Sleep.{withdrawn}
use uvpp.Co.Sleep.Awakening.{IsDistinct, registered, withdrawn-none}

-- Another cancellation state, after any number of stops.
abbrev pub changed : Resolving → Option Registry → ℕ → Resolving
changed w cancel cancels = record w {
  awaiter = record (w.awaiter) { event = record (w.awaiter.event) { cancels = cancels } };
  cancel = cancel;
}

abbrev pub awaiting : Resolution → Option Registry → Resolving
awaiting r cancel = record {
  source = r;
  awaiter = record { resume_to = none; linked = false; event = unsubmitted; status = pos 0 };
  cancel = cancel;
}

-- The result that a status stands for, explicit and thrown.
abbrev pub explicit : ℕ → List AddrInfo → ℤ → Result (List AddressInfo)
explicit storage addresses (pos n) = value_of (map (λ a. to_value storage (some a)) addresses)
explicit storage addresses (negsuc n) = error_of (record { status = negsuc n })

abbrev pub implicit : ℕ → List AddrInfo → ℤ → Outcome (List AddressInfo)
implicit storage addresses (pos n) = returned (map (λ a. to_value storage (some a)) addresses)
implicit storage addresses (negsuc n) = thrown (operational (negsuc n))

pub Gives : ℕ → List AddrInfo → ℤ → Resolving → Type 0
Gives storage addresses status w =
    (resolve_result storage w ≡ explicit storage addresses status)
    × (resolve_value storage w ≡ implicit storage addresses status)

pub IsCleared : Resolution → Type 0
IsCleared r = (r.node ≡ none) × (r.service ≡ none) × (r.hints ≡ none)

pub Fails : ℕ → ℤ → Resolving × Bool → Type 0
Fails storage status (w, suspended) = (suspended ≡ false) × Gives storage [] status w

pub Completes : ℕ → Caller → List AddrInfo → ℤ → Option Registry → Resolving × Option ℕ → Type 0
Completes storage c addresses status cancel (w, resumed) =
    (resumed ≡ some c.continuation)
    × Gives storage addresses status w
    × IsCleared w.source
    × (w.awaiter.linked ≡ false)
    × (w.cancel ≡ withdrawn cancel c.registration)
    × (registered w.cancel c.registration ≡ false)

module _ (e : Errnos) (storage : ℕ) (c : Caller) (inputs : Resolution) (addresses : List AddrInfo)
    (status : ℤ) (cancel : Option Registry) (stops : ℕ) where
  -- Of a task with or without a stop request, and for the status of `uv_getaddrinfo`.
  pub Fate : Resolving × Bool → Bool → ℤ → Type 0
  Fate v true native = Fails storage (negsuc e.ecanceled) v
  Fate v false (negsuc n) = Fails storage (negsuc n) v × IsCleared v.0.source
  Fate v false (pos n) =
      (v.1 ≡ true)
      × (v.0.source ≡ inputs)
      × Completes storage c addresses status cancel
          (complete_resolve addresses (changed v.0 cancel stops) c status)

gives :
    (storage : ℕ) (w : Resolving) (addresses : List AddrInfo) (status : ℤ)
    → w.awaiter.status ≡ status
    → w.source.completion ≡ addresses
    → Gives storage addresses status w
unfolding Gives resolve_result resolve_value from_native throw_if_error
gives storage w addresses (pos n) s a =
    let p = to_vector-map storage addresses in (rw (s, a, p), rw (s, a, p))
gives storage w addresses (negsuc n) s a = (rw s, rw s)

unlinked :
    (w : Resolving) (c : Caller)
    → w.awaiter.linked ≡ is_some w.cancel
    → ((unlink w c).awaiter.resume_to ≡ w.awaiter.resume_to)
      × ((unlink w c).awaiter.linked ≡ false)
      × ((unlink w c).cancel ≡ withdrawn w.cancel c.registration)
unfolding unlink withdraw
unlinked w c h = elim (Option-cases w.cancel) [ inl i ↦ ground arith | inr (g, i) ↦ ground arith ]

submitted :
    (w : Resolving) (taken : Resolution) (c : Caller) (n : ℕ)
    → ((submit w taken c (pos n)).1 ≡ true)
      × ((submit w taken c (pos n)).0.source ≡ taken)
      × ((submit w taken c (pos n)).0.awaiter.resume_to ≡ some c.continuation)
      × ((submit w taken c (pos n)).0.awaiter.linked ≡ is_some w.cancel)
unfolding submit link request_native_cancellation
submitted w taken c n = elim (Option-cases w.cancel) [
  | inl i ↦ ground arith
  | inr (g, i) ↦ ground arith
]

completed :
    (storage : ℕ) (c : Caller) (addresses : List AddrInfo) (status : ℤ) (w : Resolving)
    → w.awaiter.resume_to ≡ some c.continuation
    → w.awaiter.linked ≡ is_some w.cancel
    → IsDistinct w.cancel
    → Completes storage c addresses status w.cancel (complete_resolve addresses w c status)
unfolding Completes complete_resolve complete unlink clear_inputs withdraw IsCleared
completed storage c addresses status w h l d =
    let v = (complete_resolve addresses w c status).0 in
    let (same, off, gone) = unlinked w c l in
    (
      same ∙ h,
      gives storage v addresses status refl refl,
      (refl, refl, refl),
      off,
      gone,
      ap (λ g. registered g c.registration) gone ∙ (withdrawn-none c.registration w.cancel d).1,
    )

failed :
    (e : Errnos) (storage : ℕ) (c : Caller) (inputs : Resolution) (w : Resolving) (n : ℕ)
    → inputs.completion ≡ []
    → w.source ≡ clear_inputs inputs
    → Fails storage (negsuc n) (submit w inputs c (negsuc n))
      × IsCleared (submit w inputs c (negsuc n)).0.source
unfolding Fails submit clear_inputs IsCleared
failed e storage c inputs w n i s =
    let v = (submit w inputs c (negsuc n)).0 in
    (
      (refl, gives storage v [] (negsuc n) refl (ap (λ r. r.completion) s ∙ i)),
      (ap (λ r. r.node) s, ap (λ r. r.service) s, ap (λ r. r.hints) s),
    )

submission :
    (e : Errnos) (storage : ℕ) (c : Caller) (inputs : Resolution) (addresses : List AddrInfo)
    (status : ℤ) (after : Option Registry) (stops : ℕ) (w : Resolving) (native : ℤ)
    → IsDistinct after
    → is_some after ≡ is_some w.cancel
    → inputs.completion ≡ []
    → w.source ≡ clear_inputs inputs
    → Fate e storage c inputs addresses status after stops (submit w inputs c native) false native
unfolding Fate
submission e storage c inputs addresses status after stops w (pos n) d b i s =
    let (suspended, kept, resuming, linked) = submitted w inputs c n in
    let v = changed (submit w inputs c (pos n)).0 after stops in
    (suspended, kept, completed storage c addresses status v resuming (linked ∙ sym b) d)
submission e storage c inputs addresses status after stops w (negsuc n) d b i s =
    failed e storage c inputs w n i s

awaited :
    (e : Errnos) (storage : ℕ) (c : Caller) (inputs : Resolution) (addresses : List AddrInfo)
    (status native : ℤ) (before after : Option Registry) (stops : ℕ) (stopped : Bool)
    → IsDistinct after
    → is_some after ≡ is_some before
    → inputs.completion ≡ []
    → stop_requested (awaiting inputs before) ≡ stopped
    → Fate e storage c inputs addresses status after stops
        (await_resolve e (awaiting inputs before) c native)
        stopped
        native
unfolding await_resolve Fate Fails
awaited e storage c inputs addresses status native before after stops true d b i h = rw h (
  refl,
  gives storage (refuse (awaiting inputs before) (negsuc e.ecanceled)).0 [] (negsuc e.ecanceled)
      refl i,
)
awaited e storage c inputs addresses status native before after stops false d b i h = rw h (
    submission e storage c inputs addresses status after stops
      (record (awaiting inputs before) { source = clear_inputs inputs }) native d b i refl)

-- A resolution of any node and service, with or without options, whose task may have a stop request,
-- and for any status of libuv's function and of the completion, any addresses, and any stop requests
-- and changes of the cancellation state in between that keep its registrations distinct. With a stop request the task goes on at once, with
-- the error for a cancelled operation. When libuv refuses, it goes on at once with that status, and the
-- inputs are gone. When libuv accepts, the task is suspended and the awaiter keeps the inputs for
-- libuv; the completion resumes this task, clears the inputs and takes this task's registration, and no other, off the cancellation state that it finds, and the result
-- is the copy of each address, in order, or the error of the status. The explicit result and the one
-- that throws agree in all three cases.
pub resolve_delivered :
    (e : Errnos) (storage : ℕ) (c : Caller) (node service : Option Bytes)
    (options : Option ResolveOptions) (addresses : List AddrInfo) (status native : ℤ)
    (before after : Option Registry) (stops : ℕ)
    → IsDistinct after
    → is_some after ≡ is_some before
    → Fate e storage c
        (construct node service options)
        addresses
        status
        after
        stops
        (await_resolve e (awaiting (construct node service options) before) c native)
        (stop_requested (awaiting (construct node service options) before))
        native
unfolding construct
resolve_delivered e storage c node service options addresses status native before after stops d b =
    awaited e storage c (construct node service options) addresses status native before after stops
      (stop_requested (awaiting (construct node service options) before)) d b refl refl
