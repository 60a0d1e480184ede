-- ===== src/Co/Cancellation/Unlink.antt =====
-- The search loop of `unregister` removes one registration from the list, and touches no other.
use uvpp.Base.{
  ℕ, zero, suc, ◌≤◌, ◌≡◌, refl, sym, ap, ◌∙◌, subst, ◌⊎◌, inl, inr, true, false, Option, none, some,
  List, [], ◌∷◌, arith, ◌==◌, ==_refl, ==→eq, Bool-cases, is_some, points_to, length,
}
use uvpp.Co.Cancellation.{Cancellation, read, unlink, write, detached, unregister, clear}
use uvpp.Co.Cancellation.View.{
  Chain, Distinct, erase, mem, Chain-update, Represents, erase-Distinct, erase_absent, mem-erase,
}

-- `current` is not a node of the list that it leads to.
abbrev Outside : Option ℕ → List ℕ → Type 0
Outside none xs = Unit
Outside (some j) xs = mem j xs ≡ false

-- What the loop leaves: the list without `r` below `current`; everything but `next_` pointers of
-- `current` and of the nodes of the list is as it was.
record Unlinked (s t : Cancellation) (r : ℕ) (current : Option ℕ) (xs : List ℕ) : Type 0 where
  below : Chain t.node (read t current) (erase r xs)
  frame :
      (i : ℕ) → points_to current i ≡ false → mem i xs ≡ false → (t.node i).next ≡ (s.node i).next
  head_frame : is_some current ≡ true → t.head ≡ s.head
  rest :
      (i : ℕ)
      → ((t.node i).attached ≡ (s.node i).attached)
        × ((t.node i).callback ≡ (s.node i).callback)
        × ((t.node i).context ≡ (s.node i).context)
  same_stop : t.stopped ≡ s.stopped

read-write : (s : Cancellation) (current p : Option ℕ) → read (write s current p) current ≡ p
unfolding read write
read-write s none p = refl
read-write s (some j) p = ground arith

write-Unlinked :
    (s : Cancellation) (r : ℕ) (current : Option ℕ) (xs : List ℕ)
    → Outside current (r ∷ xs)
    → Chain s.node (s.node r).next xs
    → Unlinked s (write s current (s.node r).next) r current (r ∷ xs)
unfolding write
write-Unlinked s r none xs o c = record {
  below = rw (==_refl r, read-write) c;
  frame = λ i n m. refl;
  head_frame = λ h. cc;
  rest = λ i. (refl, refl, refl);
  same_stop = refl;
}
write-Unlinked s r (some j) xs o c = record {
  below = rw (==_refl r, read-write) (Chain-update xs s.node j _ (s.node r).next (ground arith) c);
  frame = λ i n m. ground arith;
  head_frame = λ h. refl;
  rest = λ i. (ground arith, ground arith, ground arith);
  same_stop = refl;
}

read-Unlinked :
    (s t : Cancellation) (r x : ℕ) (current : Option ℕ) (xs : List ℕ)
    → Outside current (x ∷ xs)
    → Unlinked s t r (some x) xs
    → read t current ≡ read s current
unfolding read
read-Unlinked s t r x none xs o u = u.head_frame refl
read-Unlinked s t r x (some j) xs o u = u.frame j (ground arith) (ground arith)

step-Unlinked :
    (s t : Cancellation) (r x : ℕ) (current : Option ℕ) (xs : List ℕ)
    → (x == r) ≡ false
    → Outside current (x ∷ xs)
    → read s current ≡ some x
    → Unlinked s t r (some x) xs
    → Unlinked s t r current (x ∷ xs)
unfolding read
step-Unlinked s t r x current xs miss o c u = record {
  below = rw miss (read-Unlinked s t r x current xs o u ∙ c, u.below);
  frame = λ i n m. u.frame i (ground arith) (ground arith);
  head_frame = λ h. u.head_frame refl;
  rest = u.rest;
  same_stop = u.same_stop;
}

unlink_hit :
    (fuel : ℕ) (s : Cancellation) (r : ℕ) (current : Option ℕ) (xs : List ℕ)
    → Outside current (r ∷ xs)
    → read s current ≡ some r
    → Chain s.node (s.node r).next xs
    → (t : Cancellation) × (unlink (suc fuel) s r current ≡ some t)
      × Unlinked s t r current (r ∷ xs)
unfolding unlink
unlink_hit fuel s r current xs o c chain = (
  write s current (s.node r).next,
  rw (c, unlink) (rw (==_refl r)),
  write-Unlinked s r current xs o chain,
)

unlink_lem :
    (xs : List ℕ) (fuel : ℕ) (s : Cancellation) (r : ℕ) (current : Option ℕ)
    → length xs ≤ fuel
    → mem r xs ≡ true
    → Distinct xs
    → Outside current xs
    → Chain s.node (read s current) xs
    → (t : Cancellation) × (unlink fuel s r current ≡ some t) × Unlinked s t r current xs
unfolding unlink read
unlink_lem [] fuel s r current l m d o c = cc
unlink_lem (x ∷ xs) zero s r current l m d o c = absurd (omega arith)
unlink_lem (x ∷ xs) (suc fuel) s r current l m d o c = elim (Bool-cases (x == r)) [
  | inl hit ↦
      let e = ==→eq x r hit in
      subst
        (λ y.
          (t : Cancellation) × (unlink (suc fuel) s r current ≡ some t)
          × Unlinked s t r current (y ∷ xs))
        (sym e)
        (unlink_hit fuel s r current xs (subst (λ y. Outside current (y ∷ xs)) e o)
          (c.0 ∙ ap some e) (subst (λ y. Chain s.node (s.node y).next xs) e c.1))
  | inr miss ↦
      let (t, e, u) = unlink_lem xs fuel s r (some x) (omega arith) (ground arith) d.1 d.0 c.1 in
      (t, rw (c.0, unlink) (rw miss e), step-Unlinked s t r x current xs miss o c.0 u)
]

clear-Represents :
    (s t : Cancellation) (r : ℕ) (xs : List ℕ)
    → Represents s xs
    → Unlinked s t r none xs
    → Represents (clear t r) (erase r xs)
unfolding clear read
clear-Represents s t r xs v u = record {
  chain =
      Chain-update (erase r xs) t.node r detached t.head
        (ground (arith, mem-erase r r xs v.distinct)) u.below;
  distinct = erase-Distinct r xs v.distinct;
  exact = λ i. ground (arith, mem-erase r i xs v.distinct, v.exact i, u.rest i);
}

-- `unregister` of any registration, with fuel for each entry of the list, finds it without meeting
-- a null pointer: afterwards the list represents the entries without that one, in their order, the
-- stop flag is as before, and the registration is detached with all its fields cleared; a
-- registration that is not attached leaves everything as it is.
pub unregister-Represents :
    (fuel : ℕ) (s : Cancellation) (r : ℕ) (xs : List ℕ)
    → Represents s xs
    → length xs ≤ fuel
    → (t : Cancellation) × (unregister fuel s r ≡ some t)
      × Represents t (erase r xs)
      × (t.stopped ≡ s.stopped)
      × ((((s.node r).attached ≡ true) × (t.node r ≡ detached))
          ⊎ (((s.node r).attached ≡ false) × (t ≡ s)))
unfolding unregister clear read
unregister-Represents fuel s r xs v l = elim (Bool-cases (s.node r).attached) [
  | inl on ↦
      let (t, e, u) = unlink_lem xs fuel s r none l (sym (v.exact r) ∙ on) v.distinct tt v.chain in
      (
        clear t r,
        rw (on, unregister) (rw (e, unregister)),
        clear-Represents s t r xs v u,
        u.same_stop,
        inl (on, ground arith),
      )
  | inr off ↦ (
    s,
    rw (off, unregister),
    rw (erase_absent r xs (sym (v.exact r) ∙ off)) v,
    refl,
    inr (off, refl),
  )
]
