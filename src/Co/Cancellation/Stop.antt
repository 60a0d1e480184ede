-- ===== src/Co/Cancellation/Stop.antt =====
-- A stop request calls every registered callback once, while callbacks may unregister others.
use uvpp.Base.{
  ℕ, zero, suc, ◌≤◌, ◌<◌, ◌≡◌, refl, ◌∙◌, ◌⊎◌, inl, inr, true, false, ◌&&◌, not, none, some, List,
  [], ◌∷◌, arith, ◌==◌, ==_refl, ==→eq, Bool-cases, length,
}
use uvpp.Co.Cancellation.{
  Cancellation, pop_stop, stop_loop, unregister_all, clear, detached, unregister, register_callback,
  request_stop,
}
use uvpp.Co.Cancellation.View.{
  Distinct, Represents, erase, erase-Distinct, mem, mem-erase, Chain-update,
}
use uvpp.Co.Cancellation.Unlink.{unregister-Represents}

abbrev pub erase_all : List ℕ → List ℕ → List ℕ
erase_all [] xs = xs
erase_all (r ∷ rs) xs = erase_all rs (erase r xs)

length-erase-le : (r : ℕ) (xs : List ℕ) → length (erase r xs) ≤ length xs
length-erase-le r [] = omega arith
length-erase-le r (x ∷ xs) = ground (arith, length-erase-le r xs)

length-erase_all-le : (rs xs : List ℕ) → length (erase_all rs xs) ≤ length xs
length-erase_all-le [] xs = omega arith
length-erase_all-le (r ∷ rs) xs =
    omega (arith, length-erase_all-le rs (erase r xs), length-erase-le r xs)

mem-erase_all :
    (i : ℕ) (rs xs : List ℕ) → Distinct xs → mem i (erase_all rs xs) ≡ (mem i xs && not (mem i rs))
mem-erase_all i [] xs d = ground arith
mem-erase_all i (r ∷ rs) xs d =
    ground (arith, mem-erase_all i rs (erase r xs) (erase-Distinct r xs d), mem-erase r i xs d)

unregister_all-cons :
    (size : ℕ) (s : Cancellation) (r : ℕ) (rs : List ℕ) (t : Cancellation)
    → unregister size s r ≡ some t
    → unregister_all size s (r ∷ rs) ≡ unregister_all size t rs
unfolding unregister_all
unregister_all-cons size s r rs t e = rw (e, unregister_all)

unregister_all-Represents :
    (rs : List ℕ) (size : ℕ) (s : Cancellation) (xs : List ℕ)
    → Represents s xs
    → length xs ≤ size
    → (t : Cancellation) × (unregister_all size s rs ≡ some t)
      × Represents t (erase_all rs xs)
      × (t.stopped ≡ s.stopped)
unfolding unregister_all
unregister_all-Represents [] size s xs v l = (s, refl, v, refl)
unregister_all-Represents (r ∷ rs) size s xs v l =
    let (t, e, w, k, a) = unregister-Represents size s r xs v l in
    let (u, f, z, m) =
      unregister_all-Represents rs size t (erase r xs) w (omega (arith, length-erase-le r xs)) in
    (u, unregister_all-cons size s r rs t e ∙ f, z, m ∙ k)

pop_stop-Represents :
    (s : Cancellation) (x : ℕ) (xs : List ℕ)
    → Represents s (x ∷ xs)
    → (t : Cancellation) × (pop_stop s ≡ some (t, x, (s.node x).callback, (s.node x).context))
      × Represents t xs
      × (t.stopped ≡ s.stopped)
unfolding pop_stop clear
pop_stop-Represents s x xs v = (
  clear (record s { head = (s.node x).next }) x,
  rw (v.chain.0, pop_stop),
  record {
    chain = Chain-update xs s.node x detached (s.node x).next v.distinct.0 v.chain.1;
    distinct = v.distinct.1;
    exact = λ i. ground (arith, v.exact i, v.distinct.0, ==→eq x i);
  },
  refl,
)

-- What a run of the loop did: `called` lists the called nodes of `xs`.
pub record Stopped (drops : ℕ → List ℕ) (xs called : List ℕ) : Type 0 where
  pub once : Distinct called
  pub registered : (i : ℕ) → mem i called ≡ true → mem i xs ≡ true
  pub complete :
      (i : ℕ)
      → mem i xs ≡ true
      → (mem i called ≡ true) ⊎ ((j : ℕ) × (mem j called ≡ true) × (mem i (drops j) ≡ true))

complete-call :
    (drops : ℕ → List ℕ) (x : ℕ) (xs called : List ℕ) (i : ℕ)
    → Distinct (x ∷ xs)
    → mem i (x ∷ xs) ≡ true
    → (mem i (erase_all (drops x) xs) ≡ true
        → (mem i called ≡ true) ⊎ ((j : ℕ) × (mem j called ≡ true) × (mem i (drops j) ≡ true)))
    → (mem i (x ∷ called) ≡ true)
      ⊎ ((j : ℕ) × (mem j (x ∷ called) ≡ true) × (mem i (drops j) ≡ true))
complete-call drops x xs called i d m c = elim (Bool-cases (i == x)) [
  | inl hit ↦ inl (rw hit)
  | inr other ↦ elim (Bool-cases (mem i (drops x))) [
    | inl dropped ↦ inr (x, rw (==_refl x), dropped)
    | inr kept ↦ elim (c (ground (arith, mem-erase_all i (drops x) xs d.1))) [
      | inl called_too ↦ inl (ground arith)
      | inr (j, called_j, dropped) ↦ inr (j, ground arith, dropped)
    ]
  ]
]

call-Stopped :
    (drops : ℕ → List ℕ) (x : ℕ) (xs called : List ℕ)
    → Distinct (x ∷ xs)
    → Stopped drops (erase_all (drops x) xs) called
    → Stopped drops (x ∷ xs) (x ∷ called)
call-Stopped drops x xs called d c = record {
  once = (ground (arith, c.registered x, mem-erase_all x (drops x) xs d.1, d.0), c.once);
  registered = λ i m. ground (arith, c.registered i, mem-erase_all i (drops x) xs d.1);
  complete = λ i m. complete-call drops x xs called i d m (c.complete i);
}

stop_loop-nil :
    (fuel size : ℕ) (drops : ℕ → List ℕ) (s : Cancellation)
    → s.head ≡ none
    → stop_loop (suc fuel) size drops s ≡ some (s, [])
unfolding stop_loop
stop_loop-nil fuel size drops s e = ground arith

stop_loop-cons :
    (fuel size : ℕ) (drops : ℕ → List ℕ) (s t u v : Cancellation) (r : ℕ) (called : List ℕ)
    → pop_stop s ≡ some (t, r, (s.node r).callback, (s.node r).context)
    → unregister_all size t (drops r) ≡ some u
    → stop_loop fuel size drops u ≡ some (v, called)
    → stop_loop (suc fuel) size drops s ≡ some (v, r ∷ called)
unfolding stop_loop
stop_loop-cons fuel size drops s t u v r called e f g = rw (e, stop_loop) (rw f (rw g))

stop_loop-Stopped :
    (fuel size : ℕ) (drops : ℕ → List ℕ) (s : Cancellation) (xs : List ℕ)
    → Represents s xs
    → length xs < fuel
    → length xs ≤ size
    → (t : Cancellation) × (called : List ℕ) × (stop_loop fuel size drops s ≡ some (t, called))
      × Represents t []
      × (t.stopped ≡ s.stopped)
      × Stopped drops xs called
unfolding stop_loop pop_stop
stop_loop-Stopped zero size drops s xs v l n = elim l [ ]
stop_loop-Stopped (suc fuel) size drops s [] v l n = (
  s,
  [],
  stop_loop-nil fuel size drops s v.chain,
  v,
  refl,
  record { once = tt; registered = λ i m. m; complete = λ i m. cc },
)
stop_loop-Stopped (suc fuel) size drops s (x ∷ xs) v l n =
    let (t, e, w, k) = pop_stop-Represents s x xs v in
    let (u, f, z, m) = unregister_all-Represents (drops x) size t xs w (omega arith) in
    let (p, called, g, q, o, c) =
      stop_loop-Stopped fuel size drops u (erase_all (drops x) xs) z
        (omega (arith, length-erase_all-le (drops x) xs))
        (omega (arith, length-erase_all-le (drops x) xs)) in
    (
      p,
      x ∷ called,
      stop_loop-cons fuel size drops s t u p x called e f g,
      q,
      o ∙ m ∙ k,
      call-Stopped drops x xs called v.distinct c,
    )

-- The first stop request of a state whose list has the entries `xs`, with fuel for each of them,
-- ends with an empty list and the stop flag set. It calls only registrations of the list, each at
-- most once; one that it does not call was unregistered by a callback that it did call.
pub request_stop-Stopped :
    (fuel size : ℕ) (drops : ℕ → List ℕ) (s : Cancellation) (xs : List ℕ)
    → Represents s xs
    → s.stopped ≡ false
    → length xs < fuel
    → length xs ≤ size
    → (t : Cancellation) × (called : List ℕ) × (request_stop fuel size drops s ≡ some (t, called))
      × Represents t []
      × (t.stopped ≡ true)
      × Stopped drops xs called
unfolding request_stop
request_stop-Stopped fuel size drops s xs v n l z =
    let (t, called, e, w, k, c) =
      stop_loop-Stopped fuel size drops (record s { stopped = true }) xs
        (record { chain = v.chain; distinct = v.distinct; exact = v.exact }) l z in
    (t, called, rw n e, w, k, c)

-- A state that was stopped calls nothing on a further request, which leaves it as it is, and
-- refuses every new registration.
pub stopped_for_good :
    (fuel size : ℕ) (drops : ℕ → List ℕ) (s : Cancellation) (r callback context : ℕ)
    → s.stopped ≡ true
    → (request_stop fuel size drops s ≡ some (s, []))
      × (register_callback s r callback context ≡ (s, false))
unfolding request_stop register_callback
stopped_for_good fuel size drops s r callback context h = (ground arith, ground arith)
