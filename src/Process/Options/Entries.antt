-- ===== src/Process/Options/Entries.antt =====
-- The stdio entries of the options, by descriptor.
use uvpp.Base.{
  ℕ, zero, suc, ◌+◌, ◌≤◌, ◌<◌, ◌≡◌, refl, Option, none, some, List, [], ◌∷◌, arith, ◌==◌, leb, ltb,
  Bool-cases, inl, inr, if◌then◌else◌, length,
}
use uvpp.Process.Options.{Options, Stdio, assign, grow, ignore, set_stdio}

abbrev pub entry_at : List Stdio → ℕ → Option Stdio
entry_at [] i = none
entry_at (x ∷ xs) zero = some x
entry_at (x ∷ xs) (suc i) = entry_at xs i

past_end : (xs : List Stdio) (i : ℕ) → length xs ≤ i → entry_at xs i ≡ none
past_end [] i h = refl
past_end (x ∷ xs) zero h = absurd (omega arith)
past_end (x ∷ xs) (suc i) h = past_end xs i (omega arith)

entry_at-grow :
    (xs : List Stdio) (n i : ℕ)
    → entry_at (grow xs n) i
      ≡ (if ltb i (length xs) then entry_at xs i else if ltb i n then some ignore else none)
entry_at-grow [] zero i = ground arith
entry_at-grow (x ∷ xs) zero i = elim (Bool-cases (ltb i (suc (length xs)))) [
  | inl within ↦ ground arith
  | inr beyond ↦ ground (arith, past_end (x ∷ xs) i (ground arith))
]
entry_at-grow [] (suc n) zero = ground arith
entry_at-grow [] (suc n) (suc i) = ground (arith, entry_at-grow [] n i)
entry_at-grow (x ∷ xs) (suc n) zero = ground arith
entry_at-grow (x ∷ xs) (suc n) (suc i) = ground (arith, entry_at-grow xs n i)

entry_at-assign :
    (xs : List Stdio) (fd i : ℕ) (x : Stdio)
    → fd < length xs
    → entry_at (assign xs fd x) i ≡ (if i == fd then some x else entry_at xs i)
entry_at-assign [] fd i x h = absurd (omega arith)
entry_at-assign (y ∷ xs) zero zero x h = ground arith
entry_at-assign (y ∷ xs) zero (suc i) x h = ground arith
entry_at-assign (y ∷ xs) (suc fd) zero x h = ground arith
entry_at-assign (y ∷ xs) (suc fd) (suc i) x h =
    ground (arith, entry_at-assign xs fd i x (omega arith))

length-grow : (xs : List Stdio) (n : ℕ) → length xs ≤ n → length (grow xs n) ≡ n
length-grow [] zero h = refl
length-grow (x ∷ xs) zero h = absurd (omega arith)
length-grow [] (suc n) h = omega (arith, length-grow [] n (omega arith))
length-grow (x ∷ xs) (suc n) h = omega (arith, length-grow xs n (omega arith))

-- Setting the entry of a descriptor sets it, keeps every other entry, and gives the descriptors
-- below it that had none the entry of an ignored one.
pub entry_at-set_stdio :
    (o : Options) (fd i : ℕ) (x : Stdio)
    → entry_at (set_stdio o fd x).stdio_entries i ≡ (
        if i == fd
        then some x
        else if ltb i (length o.stdio_entries)
        then entry_at o.stdio_entries i
        else if ltb i fd
        then some ignore
        else none)
unfolding set_stdio
entry_at-set_stdio o fd i x = elim (Bool-cases (leb (length o.stdio_entries) fd)) [
  | inl short ↦
      (let h = length-grow o.stdio_entries (fd + 1) (ground arith) in
        ground (
          arith,
          entry_at-assign (grow o.stdio_entries (fd + 1)) fd i x (omega arith),
          entry_at-grow o.stdio_entries (fd + 1) i,
        ))
  | inr long ↦ elim (Bool-cases (ltb i (length o.stdio_entries))) [
    | inl within ↦ ground (arith, entry_at-assign o.stdio_entries fd i x (ground arith))
    | inr beyond ↦ ground (
      arith,
      entry_at-assign o.stdio_entries fd i x (ground arith),
      past_end o.stdio_entries i (ground arith),
    )
  ]
]
