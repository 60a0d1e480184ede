-- ===== src/Handles/SendBatch/Views.antt =====
-- What libuv reads through the pointers of a batch, after any use of the batch.
use uvpp.Base.{
  ℕ, suc, ◌+◌, ◌%◌, ◌^◌, ◌<◌, ◌≡◌, refl, sym, ap, subst, ◌-◌, inl, inr, ◌∙◌, Bool, true, false, not,
  Option, none, some, List, [], ◌∷◌, ◌++◌, map, append-nil, append_assoc, arith, ltb, ◌==◌, ==_refl,
  Bool-cases, if◌then◌else◌, length, length-append, take, drop,
}
use uvpp.Core.Buffer.{NativeBuffer, narrow_buffer_count_unchecked}
use uvpp.Core.Error.{returned}
use uvpp.Handles.SendBatch.{
  Pointer, SendBatch, append, append_datagram, buffer_pointer, check_count, clear, copy, moved_to,
  new_batch, pointers, rebuild_buffer_pointers, reserve,
}

-- The buffers that a pointer and a count name in a storage; a pointer into another storage dangles.
abbrev pub deref : ℕ → List NativeBuffer → Pointer → ℕ → Option (List NativeBuffer)
deref storage raw none count = if count == 0 then some [] else none
deref storage raw (some (at, first)) count =
    if at == storage then some (take count (drop first raw)) else none

unfoldable pub reads :
    ℕ → List NativeBuffer → List Pointer → List ℕ → List (Option (List NativeBuffer))
reads storage raw [] counts = []
reads storage raw (p ∷ ps) [] = []
reads storage raw (p ∷ ps) (c ∷ cs) = deref storage raw p c ∷ reads storage raw ps cs

abbrev concat : List (List NativeBuffer) → List NativeBuffer
concat [] = []
concat (d ∷ ds) = d ++ concat ds

abbrev starts_of : ℕ → List (List NativeBuffer) → List ℕ
starts_of k [] = []
starts_of k (d ∷ ds) = k ∷ starts_of (k + length d) ds

abbrev pub lengths : List (List NativeBuffer) → List ℕ
lengths [] = []
lengths (d ∷ ds) = length d ∷ lengths ds

concat-append :
    (ds : List (List NativeBuffer)) (d : List NativeBuffer) → concat (ds ++ d ∷ []) ≡ concat ds ++ d
concat-append [] d = append-nil d
concat-append (x ∷ ds) d = rw (concat-append ds d) (sym (append_assoc x (concat ds) d))

starts_of-append :
    (k : ℕ) (ds : List (List NativeBuffer)) (d : List NativeBuffer)
    → starts_of k (ds ++ d ∷ []) ≡ starts_of k ds ++ (k + length (concat ds)) ∷ []
starts_of-append k [] d = ap (λ n. n ∷ []) (omega arith)
starts_of-append k (x ∷ ds) d =
    let same : k + length x + length (concat ds) ≡ k + length (x ++ concat ds) =
      omega (arith, length-append x (concat ds)) in
    ap (λ ns. k ∷ ns)
      (starts_of-append (k + length x) ds d ∙ ap (λ n. starts_of (k + length x) ds ++ n ∷ []) same)

lengths-append :
    (ds : List (List NativeBuffer)) (d : List NativeBuffer)
    → lengths (ds ++ d ∷ []) ≡ lengths ds ++ length d ∷ []
lengths-append [] d = refl
lengths-append (x ∷ ds) d = ap (λ ns. length x ∷ ns) (lengths-append ds d)

pointers-append :
    (storage k : ℕ) (ds : List (List NativeBuffer)) (s c : ℕ)
    → pointers storage (starts_of k ds ++ s ∷ []) (lengths ds ++ c ∷ [])
      ≡ pointers storage (starts_of k ds) (lengths ds) ++ buffer_pointer storage s c ∷ []
unfolding pointers
pointers-append storage k [] s c = refl
pointers-append storage k (x ∷ ds) s c =
    ap (λ ps. buffer_pointer storage k (length x) ∷ ps)
      (pointers-append storage (k + length x) ds s c)

drop-append : (xs ys : List NativeBuffer) → drop (length xs) (xs ++ ys) ≡ ys
drop-append [] ys = refl
drop-append (x ∷ xs) ys = drop-append xs ys

take-append : (xs ys : List NativeBuffer) → take (length xs) (xs ++ ys) ≡ xs
take-append [] ys = refl
take-append (x ∷ xs) ys = ap (λ zs. x ∷ zs) (take-append xs ys)

deref-pointer :
    (storage : ℕ) (pre d rest : List NativeBuffer)
    → deref storage (pre ++ (d ++ rest)) (buffer_pointer storage (length pre) (length d)) (length d)
      ≡ some d
unfolding buffer_pointer
deref-pointer storage pre [] rest = refl
deref-pointer storage pre (x ∷ d) rest =
    let z : (suc (length d) == 0) ≡ false = ground arith in
    rw (z, ==_refl storage, drop-append pre (x ∷ d ++ rest), take-append d rest) refl

reads-pointers :
    (storage : ℕ) (pre : List NativeBuffer) (ds : List (List NativeBuffer))
    → reads storage
        (pre ++ concat ds)
        (pointers storage (starts_of (length pre) ds) (lengths ds))
        (lengths ds)
      ≡ map some ds
unfolding reads pointers
reads-pointers storage pre [] = refl
reads-pointers storage pre (d ∷ ds) =
    let t =
      subst
        (λ raw.
          reads storage raw (pointers storage (starts_of (length (pre ++ d)) ds) (lengths ds))
            (lengths ds)
          ≡ map some ds)
        (append_assoc pre d (concat ds)) (reads-pointers storage (pre ++ d) ds) in
    let u =
      subst
        (λ k.
          reads storage (pre ++ (d ++ concat ds)) (pointers storage (starts_of k ds) (lengths ds))
            (lengths ds)
          ≡ map some ds)
        (length-append pre d) t in
    rw (deref-pointer storage pre d (concat ds)) (ap (λ xs. some d ∷ xs) u)

-- A batch with the datagrams added to it, and where they go.
pub record Run : Type 0 where
  pub batch : SendBatch
  pub added : List (List NativeBuffer)
  pub sent_to : List (Option ℕ)

abbrev pub unused : Run
unused = record { batch = new_batch; added = []; sent_to = [] }

pub data Step (r : Run) : Run → Type 0 where
  adds :
      (buffers : List NativeBuffer) (address moved : Option ℕ) (t : SendBatch)
      → append r.batch buffers address moved ≡ returned t
      → Step r (record {
        batch = t;
        added = r.added ++ buffers ∷ [];
        sent_to = r.sent_to ++ address ∷ [];
      })
  reserves :
      (datagrams buffers : ℕ) (moved : Option ℕ) (t : SendBatch)
      → reserve r.batch datagrams buffers moved ≡ returned t
      → Step r (record r { batch = t })
  copies : (storage : ℕ) → Step r (record r { batch = copy r.batch storage })
  clears : Step r (record { batch = clear r.batch; added = []; sent_to = [] })

pub data Reach (r : Run) : Run → Type 0 where
  start : Reach r r
  next : {m n : Run} → Reach r m → Step m n → Reach r n

record Inv (r : Run) : Type 0 where
  buffers : r.batch.raw_buffers ≡ concat r.added
  starts : r.batch.buffer_starts ≡ starts_of 0 r.added
  counts : r.batch.buffer_counts ≡ lengths r.added
  arrays :
      r.batch.buffer_arrays ≡ pointers r.batch.storage r.batch.buffer_starts r.batch.buffer_counts
  to : r.batch.addresses ≡ r.sent_to
  few : length r.added < 2 ^ 32

length-lengths : (ds : List (List NativeBuffer)) → length (lengths ds) ≡ length ds
length-lengths [] = refl
length-lengths (d ∷ ds) = ap suc (length-lengths ds)

length-pointers :
    (storage k : ℕ) (ds : List (List NativeBuffer))
    → length (pointers storage (starts_of k ds) (lengths ds)) ≡ length ds
unfolding pointers
length-pointers storage k [] = refl
length-pointers storage k (d ∷ ds) = ap suc (length-pointers storage (k + length d) ds)

append_returned :
    (b t : SendBatch) (buffers : List NativeBuffer) (address moved : Option ℕ)
    → append b buffers address moved ≡ returned t
    → (length buffers < 2 ^ 32)
      × (length b.buffer_counts + 1 < 2 ^ 32)
      × (t
          ≡ append_datagram
              (record b {
                storage = moved_to moved b.storage;
                raw_buffers = b.raw_buffers ++ buffers;
              })
              (length b.raw_buffers)
              (length buffers)
              address
              (not (moved_to moved b.storage == b.storage)))
unfolding append check_count
append_returned b t buffers address moved h =
    elim (Bool-cases (ltb (2 ^ 32 - 1) (length buffers))) [
      | inl many ↦ ground arith
      | inr few ↦ elim (Bool-cases (ltb (2 ^ 32 - 1) (length b.buffer_counts + 1))) [
        | inl many ↦ ground arith
        | inr k ↦ ground arith
      ]
    ]

-- The pointers of a batch after one more datagram, whether its storage has moved or not.
append_datagram-arrays :
    (b : SendBatch) (ds : List (List NativeBuffer)) (d : List NativeBuffer) (first old : ℕ)
    (address : Option ℕ)
    → length d < 2 ^ 32
    → b.buffer_starts ≡ starts_of 0 ds
    → b.buffer_counts ≡ lengths ds
    → b.buffer_arrays ≡ pointers old b.buffer_starts b.buffer_counts
    → let t = append_datagram b first (length d) address (not (b.storage == old)) in
      t.buffer_arrays ≡ pointers t.storage t.buffer_starts t.buffer_counts
unfolding append_datagram rebuild_buffer_pointers narrow_buffer_count_unchecked
append_datagram-arrays b ds d first old address few s c a =
    let small : length d % 2 ^ 32 ≡ length d = omega arith in
    elim (Bool-cases (b.storage == old)) [
      | inl kept ↦
          (let same : b.storage ≡ old = ground arith in
            rw (kept, a, s, c, small, same) (sym (pointers-append old 0 ds first (length d))))
      | inr moved ↦ rw (moved) refl
    ]

append_datagram-fields :
    (b : SendBatch) (first count : ℕ) (address : Option ℕ) (reallocated : Bool)
    → let t = append_datagram b first count address reallocated in
      (t.raw_buffers ≡ b.raw_buffers)
      × (t.buffer_starts ≡ b.buffer_starts ++ first ∷ [])
      × (t.buffer_counts ≡ b.buffer_counts ++ count % 2 ^ 32 ∷ [])
      × (t.addresses ≡ b.addresses ++ address ∷ [])
unfolding append_datagram rebuild_buffer_pointers narrow_buffer_count_unchecked
append_datagram-fields b first count address true = (refl, refl, refl, refl)
append_datagram-fields b first count address false = (refl, refl, refl, refl)

adds-Inv :
    (r : Run) (buffers : List NativeBuffer) (address moved : Option ℕ) (t : SendBatch)
    → append r.batch buffers address moved ≡ returned t
    → Inv r
    → Inv
        (record { batch = t; added = r.added ++ buffers ∷ []; sent_to = r.sent_to ++ address ∷ [] })
adds-Inv r buffers address moved t h v =
    let (few, room, e) = append_returned r.batch t buffers address moved h in
    let b : SendBatch = record (r.batch) {
      storage = moved_to moved r.batch.storage;
      raw_buffers = r.batch.raw_buffers ++ buffers;
    } in
    let first = length r.batch.raw_buffers in
    let f =
      append_datagram-fields b first (length buffers) address
        (not (b.storage == r.batch.storage)) in
    let small : length buffers % 2 ^ 32 ≡ length buffers = omega arith in
    let at : first ≡ 0 + length (concat r.added) = ap length v.buffers ∙ omega arith in
    record {
      buffers = rw (e, f.0, v.buffers) (sym (concat-append r.added buffers));
      starts = rw (e, f.1, v.starts, at) (sym (starts_of-append 0 r.added buffers));
      counts = rw (e, f.2, v.counts, small) (sym (lengths-append r.added buffers));
      arrays = rw (e) (
          append_datagram-arrays b r.added buffers first r.batch.storage address few v.starts
            v.counts v.arrays);
      to = rw (e, f.3, v.to) refl;
      few =
          omega (
            arith,
            length-append r.added (buffers ∷ []),
            ap length v.counts,
            length-lengths r.added,
          );
    }

Step-Inv : {r q : Run} → Step r q → Inv r → Inv q
unfolding reserve check_count rebuild_buffer_pointers copy clear pointers
Step-Inv {r} (adds buffers address moved t h) v = adds-Inv r buffers address moved t h v
Step-Inv {r} (reserves datagrams buffers moved t h) v = ground arith
Step-Inv {r} (copies storage) v = ground arith
Step-Inv {r} clears v = ground arith

Reach-Inv : {r q : Run} → Reach r q → Inv r → Inv q
Reach-Inv start v = v
Reach-Inv (next p s) v = Step-Inv s (Reach-Inv p v)

pub counts-append : (r : Run) → Reach unused r → r.batch.buffer_counts ≡ lengths r.added
unfolding pointers
counts-append r p =
    let v = Reach-Inv p (record {
      buffers = refl;
      starts = refl;
      counts = refl;
      arrays = refl;
      to = refl;
      few = omega arith;
    }) in
    v.counts

-- A batch from its construction on, added to, reserved, copied and cleared in any order, wherever
-- the reserves move its storage. What libuv reads through the pointers and counts of its view is
-- exactly the datagrams added since the last clear, in order, no pointer dangles, the addresses are
-- those that were given, and the count of the view, which is narrowed to 32 bits, is their number.
pub reads-append :
    (r : Run)
    → Reach unused r
    → let b = r.batch in
      (reads b.storage b.raw_buffers b.buffer_arrays b.buffer_counts ≡ map some r.added)
      × (b.addresses ≡ r.sent_to)
      × (narrow_buffer_count_unchecked (length b.buffer_arrays) ≡ length r.added)
unfolding narrow_buffer_count_unchecked pointers
reads-append r p =
    let v = Reach-Inv p (record {
      buffers = refl;
      starts = refl;
      counts = refl;
      arrays = refl;
      to = refl;
      few = omega arith;
    }) in
    let k : length r.batch.buffer_arrays ≡ length r.added =
      rw (v.arrays, v.starts, v.counts) (length-pointers r.batch.storage 0 r.added) in
    (
      rw (v.arrays, v.starts, v.counts, v.buffers) (reads-pointers r.batch.storage [] r.added),
      v.to,
      (let f = v.few in omega arith),
    )
