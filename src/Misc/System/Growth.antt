-- ===== src/Misc/System/Growth.antt =====
-- The growth of a buffer until a string of the operating system fits.
use uvpp.Base.{
  min, sym, ◌⊎◌, length-append, if◌then◌else◌, ℕ, zero, suc, ◌+◌, ◌-◌, ◌≤◌, ◌<◌, ◌≡◌, ◌≢◌, refl, ap,
  ◌∙◌, inl, inr, some, [], ◌∷◌, ◌++◌, arith, ltb, leb, length, take, All, pos, negsuc, Bool-cases,
  append_assoc, eqb_refl, ne→==_false,
}
use uvpp.Core.Error.{Errnos, returned, throw_if_error}
use uvpp.Misc.System.{
  Bytes, Reply, drop_terminator, environment_variable, finished, grown, os_string, zeros,
}

-- A string of libuv has no zero byte.
abbrev pub IsText : Bytes → Type 0
IsText bs = All (λ b. b ≢ 0) bs

-- The answer to a buffer in which the string and a terminator fit, with some size reported.
abbrev pub success : Bytes → ℕ → Reply
success text size = record { status = pos 0; size = size; written = text ++ 0 ∷ [] }

-- A size that counts the string in a buffer, with its terminator or without, once it is cut down to
-- the buffer's size.
abbrev pub Counts : Bytes → ℕ → ℕ → Type 0
Counts text capacity size =
    (min size capacity ≡ length text) ⊎ (min size capacity ≡ length text + 1)

drop_terminator_lem : (text : Bytes) → IsText text → drop_terminator text ≡ text
unfolding drop_terminator
drop_terminator_lem [] t = refl
drop_terminator_lem (b ∷ []) t = ground (arith, t.0)
drop_terminator_lem (b ∷ c ∷ bs) t = ap (λ xs. b ∷ xs) (drop_terminator_lem (c ∷ bs) t.1)

take-append : (xs ys : Bytes) → take (length xs) (xs ++ ys) ≡ xs
take-append [] ys = refl
take-append (x ∷ xs) ys = rw (take-append xs ys)

drop_terminator-append : (text : Bytes) → drop_terminator (text ++ 0 ∷ []) ≡ text
unfolding drop_terminator
drop_terminator-append [] = refl
drop_terminator-append (b ∷ []) = refl
drop_terminator-append (b ∷ c ∷ bs) = ap (λ xs. b ∷ xs) (drop_terminator-append (c ∷ bs))

clamp-min : (n c : ℕ) → (if leb n c then n else c) ≡ min n c
clamp-min n c = ground arith

finished_lem :
    (text : Bytes) (capacity size : ℕ)
    → IsText text
    → Counts text capacity size
    → finished capacity (success text size) ≡ text
unfolding finished
finished_lem text capacity size t (inl h) =
    let spare = zeros (capacity - length (text ++ 0 ∷ [])) in
    rw (clamp-min size capacity, h, append_assoc text (0 ∷ []) spare, take-append text (0 ∷ spare))
      (drop_terminator_lem text t)
finished_lem text capacity size t (inr h) =
    let spare = zeros (capacity - length (text ++ 0 ∷ [])) in
    rw
      (
        clamp-min size capacity,
        h,
        sym (length-append text (0 ∷ [])),
        take-append (text ++ 0 ∷ []) spare,
      )
      (drop_terminator-append text)

grown_lem : (size capacity : ℕ) → 1 ≤ capacity → capacity < grown size capacity
unfolding grown
grown_lem size capacity h = ground arith

module _ (e : Errnos) (enoent : ℕ) (text : Bytes) (lookup : ℕ → Reply) (t : IsText text)
    (reported : ℕ → ℕ)
    (fits : (capacity : ℕ)
      → length text < capacity
      → lookup capacity ≡ success text (reported capacity))
    (counts : (capacity : ℕ) → length text < capacity → Counts text capacity (reported capacity))
    (small : (capacity : ℕ) → capacity ≤ length text → (lookup capacity).status ≡ negsuc e.enobufs)
    (known : e.enobufs ≢ enoent) where
  fitting :
      (f capacity : ℕ)
      → length text < capacity
      → (os_string e lookup (suc f) capacity ≡ some (returned text))
        × (environment_variable e enoent lookup (suc f) capacity ≡ some (returned (some text)))
  unfolding os_string environment_variable throw_if_error
  fitting f capacity h =
      let d =
        ap (finished capacity) (fits capacity h)
        ∙ finished_lem text capacity (reported capacity) t (counts capacity h) in
      (rw (fits capacity h, d), rw (fits capacity h, d))

  growing :
      (f capacity : ℕ)
      → capacity ≤ length text
      → (os_string e lookup (suc f) capacity
          ≡ os_string e lookup f (grown (lookup capacity).size capacity))
        × (environment_variable e enoent lookup (suc f) capacity
            ≡ environment_variable e enoent lookup f (grown (lookup capacity).size capacity))
  unfolding os_string environment_variable
  growing f capacity h =
      let s = small capacity h in
      let r = eqb_refl (negsuc e.enobufs) in
      let n = ne→==_false e.enobufs enoent known in (rw (s, r), rw (s, n, r))

  found :
      (f capacity : ℕ)
      → 1 ≤ capacity
      → length text < capacity + f
      → (os_string e lookup (suc f) capacity ≡ some (returned text))
        × (environment_variable e enoent lookup (suc f) capacity ≡ some (returned (some text)))
  found zero capacity h k = fitting zero capacity (ground arith)
  found (suc f) capacity h k = elim (Bool-cases (ltb (length text) capacity)) [
    | inl b ↦ fitting (suc f) capacity (ground arith)
    | inr b ↦
        (let (p, q) = growing (suc f) capacity (ground arith) in
          let larger = grown_lem (lookup capacity).size capacity h in
          let (r, s) =
            found f (grown (lookup capacity).size capacity) (ground arith) (ground arith) in
          (p ∙ r, q ∙ s))
  ]

  -- A string of the operating system of any length, without zero bytes, for a lookup that writes it
  -- and a terminator to a buffer that holds both, reporting a size which, cut down to the buffer's,
  -- counts the terminator or not, and that answers a smaller buffer with the error for that and any
  -- size at all. The loop ends, from a buffer of any size but zero, within one round for each byte
  -- and one more, and gives the string without its terminator; so does that of an environment
  -- variable, when the errors for a small buffer and for a variable that is not set differ.
  pub os_string_lem :
      (initial : ℕ)
      → 1 ≤ initial
      → (os_string e lookup (suc (length text)) initial ≡ some (returned text))
        × (environment_variable e enoent lookup (suc (length text)) initial
            ≡ some (returned (some text)))
  os_string_lem initial h = found (length text) initial h (ground arith)
