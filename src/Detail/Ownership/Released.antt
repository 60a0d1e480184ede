-- ===== src/Detail/Ownership/Released.antt =====
-- Who releases a state, after any moves of its owners.
use uvpp.Base.{
  ℕ, zero, suc, ◌+◌, ◌<◌, ◌≡◌, ◌≢◌, ◌⊎◌, refl, ap, ◌∙◌, inl, inr, Option, none, some, List, [], ◌∷◌,
  ◌++◌, arith, ◌==◌, if◌then◌else◌, Bool-cases, length, points_to,
}
use uvpp.Detail.Ownership.{Owners, construct, get, move_assign, move_construct, only, put, reset}

-- How often a state is held, and how often it stands in a list.
abbrev pub one : ℕ → Option ℕ → ℕ
one s x = if points_to x s then 1 else 0

abbrev pub held : ℕ → List (Option ℕ) → ℕ
held s [] = 0
held s (x ∷ xs) = one s x + held s xs

abbrev pub counted : ℕ → List ℕ → ℕ
counted s [] = 0
counted s (x ∷ xs) = (if x == s then 1 else 0) + counted s xs

held-append :
    (s : ℕ) (xs : List (Option ℕ)) (y : Option ℕ) → held s (xs ++ y ∷ []) ≡ held s xs + one s y
held-append s [] y = omega arith
held-append s (x ∷ xs) y = omega (arith, held-append s xs y)

counted-only :
    (s : ℕ) (xs : List ℕ) (x : Option ℕ) → counted s (xs ++ only x) ≡ counted s xs + one s x
counted-only s [] none = refl
counted-only s [] (some x) = omega arith
counted-only s (y ∷ xs) x = omega (arith, counted-only s xs x)

held-put :
    (s : ℕ) (xs : List (Option ℕ)) (i : ℕ) (y : Option ℕ)
    → i < length xs
    → held s (put xs i y) + one s (get xs i) ≡ held s xs + one s y
held-put s [] i y h = ground arith
held-put s (x ∷ xs) zero y h = omega arith
held-put s (x ∷ xs) (suc i) y h = omega (arith, held-put s xs i y (omega arith))

length-put : (xs : List (Option ℕ)) (i : ℕ) (y : Option ℕ) → length (put xs i y) ≡ length xs
length-put [] i y = refl
length-put (x ∷ xs) zero y = refl
length-put (x ∷ xs) (suc i) y = omega (arith, length-put xs i y)

get-put : (xs : List (Option ℕ)) (i : ℕ) (y : Option ℕ) → i < length xs → get (put xs i y) i ≡ y
get-put [] i y h = ground arith
get-put (x ∷ xs) zero y h = refl
get-put (x ∷ xs) (suc i) y h = get-put xs i y (omega arith)

get-put_other :
    (xs : List (Option ℕ)) (i j : ℕ) (y : Option ℕ) → i ≢ j → get (put xs i y) j ≡ get xs j
get-put_other [] i j y h = refl
get-put_other (x ∷ xs) zero zero y h = ground arith
get-put_other (x ∷ xs) zero (suc j) y h = refl
get-put_other (x ∷ xs) (suc i) zero y h = refl
get-put_other (x ∷ xs) (suc i) (suc j) y h = get-put_other xs i j y (λ e. h (omega arith))

-- Owners with the states that were made.
pub record Run : Type 0 where
  pub owners : Owners
  pub made : List ℕ

abbrev pub nobody : Run
nobody = record { owners = record { states = []; released = [] }; made = [] }

pub data Step (r : Run) : Run → Type 0 where
  constructs :
      (s : ℕ) → Step r (record { owners = construct r.owners s; made = r.made ++ only (some s) })
  moves :
      (j : ℕ)
      → j < length r.owners.states
      → Step r (record r { owners = move_construct r.owners j })
  assigns :
      (i j : ℕ)
      → i < length r.owners.states
      → j < length r.owners.states
      → Step r (record r { owners = move_assign r.owners i j })
  destroys : (i : ℕ) → i < length r.owners.states → Step r (record r { owners = reset r.owners i })

pub data Reach (r : Run) : Run → Type 0 where
  start : Reach r r
  next : {m n : Run} → Reach r m → Step m n → Reach r n

abbrev pub Balanced : ℕ → Run → Type 0
Balanced s r = held s r.owners.states + counted s r.owners.released ≡ counted s r.made

reset-Balanced :
    (s : ℕ) (r : Run) (i : ℕ)
    → i < length r.owners.states
    → Balanced s r
    → Balanced s (record r { owners = reset r.owners i })
unfolding reset
reset-Balanced s r i h v = omega (
  arith,
  held-put s r.owners.states i none h,
  counted-only s r.owners.released (get r.owners.states i),
)

-- Owner `i`, which holds nothing, takes over what owner `j` holds.
take-held :
    (s : ℕ) (xs : List (Option ℕ)) (i j : ℕ)
    → i ≢ j
    → i < length xs
    → j < length xs
    → get xs i ≡ none
    → held s (put (put xs i (get xs j)) j none) ≡ held s xs
take-held s xs i j n h k g =
    let ys = put xs i (get xs j) in
    let a = held-put s xs i (get xs j) h in
    let b = held-put s ys j none (ground (arith, length-put xs i (get xs j))) in
    let c = get-put_other xs i j (get xs j) n in ground arith

assign-Balanced :
    (s : ℕ) (r : Run) (i j : ℕ)
    → i < length r.owners.states
    → j < length r.owners.states
    → Balanced s r
    → Balanced s (record r { owners = move_assign r.owners i j })
unfolding move_assign reset
assign-Balanced s r i j h k v = elim (Bool-cases (i == j)) [
  | inl same ↦ rw same v
  | inr other ↦
      (let n : i ≢ j = λ e. ground arith in
        let xs = put r.owners.states i none in
        let l = length-put r.owners.states i none in
        let t =
          take-held s xs i j n (omega (arith, l)) (omega (arith, l))
            (get-put r.owners.states i none h) in
        let b = reset-Balanced s r i h v in
        rw other (ap (λ m. m + counted s (reset r.owners i).released) t ∙ b))
]

Step-Balanced : {r q : Run} (s : ℕ) → Step r q → Balanced s r → Balanced s q
unfolding construct move_construct
Step-Balanced {r} s (constructs x) v =
    omega (arith, held-append s r.owners.states (some x), counted-only s r.made (some x))
Step-Balanced {r} s (moves j h) v = omega (
  arith,
  held-put s r.owners.states j none h,
  held-append s (put r.owners.states j none) (get r.owners.states j),
)
Step-Balanced {r} s (assigns i j h k) v = assign-Balanced s r i j h k v
Step-Balanced {r} s (destroys i h) v = reset-Balanced s r i h v

Reach-Balanced : {r q : Run} (s : ℕ) → Reach r q → Balanced s r → Balanced s q
Reach-Balanced s start v = v
Reach-Balanced s (next p t) v = Step-Balanced s t (Reach-Balanced s p v)

-- Owners that are constructed, moved from and to in any order, themselves included, and destroyed. A
-- state that was made once is held by exactly one owner and was not released, or it is held by none
-- and was released exactly once.
pub released_once :
    (s : ℕ) (r : Run)
    → Reach nobody r
    → counted s r.made ≡ 1
    → ((held s r.owners.states ≡ 1) × (counted s r.owners.released ≡ 0))
      ⊎ ((held s r.owners.states ≡ 0) × (counted s r.owners.released ≡ 1))
released_once s r p once = let v = Reach-Balanced s p refl in ground arith
