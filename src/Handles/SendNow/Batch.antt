-- ===== src/Handles/SendNow/Batch.antt =====
-- A batch sent without waiting, from some datagram on.
use uvpp.Base.{
  ℕ, zero, suc, ◌-◌, ◌^◌, ◌<◌, ◌≡◌, refl, sym, ap, ◌∙◌, ◌⊎◌, inl, inr, Bool, true, false, ◌&&◌,
  Option, none, some, List, [], ◌∷◌, map, arith, leb, ltb, ◌==◌, if◌then◌else◌, length, length-drop,
  drop, Bool-cases, subst, ℤ, negsuc,
}
use uvpp.Core.Buffer.{NativeBuffer, narrow_buffer_count_unchecked}
use uvpp.Core.Error.{Errnos}
use uvpp.Handles.SendBatch.{SendBatch}
use uvpp.Handles.SendBatch.Views.{Reach, Run, counts-append, lengths, reads, reads-append, unused}
use uvpp.Handles.SendNow.{SendManyView, all_valid, send_many_now, valid_native_buffers}

-- udp_send_batch::native_view; its arrays are null only when they are empty.
unfoldable pub native_view : SendBatch → SendManyView
unfolding narrow_buffer_count_unchecked reads
native_view b = record {
  count = narrow_buffer_count_unchecked (length b.buffer_arrays);
  null = length b.buffer_arrays == 0;
  datagrams = reads b.storage b.raw_buffers b.buffer_arrays b.buffer_counts;
  buffer_counts = b.buffer_counts;
  addresses = b.addresses;
}

-- Every datagram has a buffer, not too many, and none without an address but an empty one.
abbrev pub sendable : List (List NativeBuffer) → Bool
sendable [] = true
sendable (d ∷ ds) =
    let rest = sendable ds in if valid_native_buffers (some d) (length d) then rest else false

all_valid-sendable :
    (ds : List (List NativeBuffer)) → all_valid (length ds) (map some ds) (lengths ds) ≡ sendable ds
unfolding all_valid
all_valid-sendable [] = refl
all_valid-sendable (d ∷ ds) = let i = all_valid-sendable ds in ground arith

drop-map : (n : ℕ) (ds : List (List NativeBuffer)) → drop n (map some ds) ≡ map some (drop n ds)
drop-map zero ds = refl
drop-map (suc n) [] = refl
drop-map (suc n) (d ∷ ds) = drop-map n ds

drop-lengths : (n : ℕ) (ds : List (List NativeBuffer)) → drop n (lengths ds) ≡ lengths (drop n ds)
drop-lengths zero ds = refl
drop-lengths (suc n) [] = refl
drop-lengths (suc n) (d ∷ ds) = drop-lengths n ds

-- The handle can send the datagrams from `first` on at once.
abbrev pub accepts : Bool → ℕ → List (List NativeBuffer) → Bool
accepts ready first ds =
    ready
    && (ltb first (length ds) && (leb (length ds - first) (2 ^ 31 - 1) && sendable (drop first ds)))

pub Refused : Errnos → Bool → ℤ × Option SendManyView → Type 0
Refused e ready (value, given) =
    (value ≡ (if ready then negsuc e.einval else negsuc e.ebadf)) × (given ≡ none)

pub Given : ℕ → ℤ → List (List NativeBuffer) → List (Option ℕ) → ℤ × Option SendManyView → Type 0
Given first native ds to (value, given) =
    (value ≡ native)
    × ((g : SendManyView) × (given ≡ some g)
        × (g.count ≡ length (drop first ds))
        × (g.datagrams ≡ map some (drop first ds))
        × (g.buffer_counts ≡ lengths (drop first ds))
        × (g.addresses ≡ drop first to))

-- What is given to libuv of a view whose arrays have an entry for each of `ds`.
abbrev given_of : SendManyView → ℕ → SendManyView
given_of v first = record {
  count = v.count - first;
  null = false;
  datagrams = drop first v.datagrams;
  buffer_counts = drop first v.buffer_counts;
  addresses = drop first v.addresses;
}

module _ (e : Errnos) (first : ℕ) (native : ℤ) (v : SendManyView) (ds : List (List NativeBuffer))
    (to : List (Option ℕ)) (n : v.count ≡ length ds) (d : v.datagrams ≡ map some ds)
    (c : v.buffer_counts ≡ lengths ds) (a : v.addresses ≡ to)
    (k : first < length ds → v.null ≡ false) where
  validity :
      all_valid (v.count - first) (drop first v.datagrams) (drop first v.buffer_counts)
      ≡ sendable (drop first ds)
  validity =
      rw (n, d, c, drop-map first ds, drop-lengths first ds, sym (length-drop first ds))
        (all_valid-sendable (drop first ds))

  given : Given first native ds to (native, some (given_of v first))
  unfolding Given
  given = (
    refl,
    (
      given_of v first,
      refl,
      ap (λ m. m - first) n ∙ sym (length-drop first ds),
      ap (drop first) d ∙ drop-map first ds,
      ap (drop first) c ∙ drop-lengths first ds,
      ap (drop first) a,
    ),
  )

  accepted :
      (ready : Bool)
      → accepts ready first ds ≡ true
      → send_many_now e ready v first native ≡ (native, some (given_of v first))
  unfolding send_many_now
  accepted ready h = let s = validity in ground arith

  refused :
      (ready : Bool)
      → accepts ready first ds ≡ false
      → Refused e ready (send_many_now e ready v first native)
  unfolding send_many_now Refused
  refused ready h = let s = validity in ground arith

  send_view :
      (ready : Bool)
      → ((accepts ready first ds ≡ false) × Refused e ready (send_many_now e ready v first native))
        ⊎ ((accepts ready first ds ≡ true)
            × Given first native ds to (send_many_now e ready v first native))
  send_view ready = elim (Bool-cases (accepts ready first ds)) [
    | inl yes_accepted ↦
        inr
          (yes_accepted, subst (Given first native ds to) (sym (accepted ready yes_accepted)) given)
    | inr no_accepted ↦ inl (no_accepted, refused ready no_accepted)
  ]

-- A batch after any use of it that its own operations allow, sent without waiting from datagram
-- `first` on, by a handle that is ready or not. libuv is called exactly when the handle is ready, at
-- least one and at most 2 ^ 31 - 1 datagrams are left, and each of these has a buffer, no more
-- buffers than 32 bits count, and none without an address but empty ones. It is then given the datagrams that were added since the last
-- clear from `first` on, each with its own count and address, and the result is libuv's. Otherwise
-- the result is the error for a bad handle or for an invalid argument.
pub send_many_now-native_view :
    (e : Errnos) (ready : Bool) (first : ℕ) (native : ℤ) (r : Run)
    → Reach unused r
    → ((accepts ready first r.added ≡ false)
        × Refused e ready (send_many_now e ready (native_view r.batch) first native))
      ⊎ ((accepts ready first r.added ≡ true)
          × Given first native r.added r.sent_to
              (send_many_now e ready (native_view r.batch) first native))
unfolding native_view narrow_buffer_count_unchecked
send_many_now-native_view e ready first native r p =
    let (d, a, n) = reads-append r p in
    send_view e first native (native_view r.batch) r.added r.sent_to n d (counts-append r p) a
      (λ k. ground (arith, n)) ready
