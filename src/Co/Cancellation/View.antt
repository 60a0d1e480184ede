-- ===== src/Co/Cancellation/View.antt =====
-- The abstract view of the linked list: the addresses of the registrations, newest first.
use uvpp.Base.{
  ℕ, ◌≡◌, refl, sym, ◌∙◌, Bool, true, false, ◌&&◌, ◌||◌, not, Option, none, some, List, [], ◌∷◌,
  arith, ◌==◌, if◌then◌else◌, ==_refl, ==→eq,
}
use uvpp.Co.Cancellation.{Cancellation, Registration, register_callback, update}

abbrev pub mem : ℕ → List ℕ → Bool
mem a [] = false
mem a (x ∷ xs) = a == x || mem a xs

abbrev pub erase : ℕ → List ℕ → List ℕ
erase a [] = []
erase a (x ∷ xs) = if x == a then xs else x ∷ erase a xs

abbrev pub Distinct : List ℕ → Type 0
Distinct [] = Unit
Distinct (x ∷ xs) = (mem x xs ≡ false) × Distinct xs

-- The nodes reached from a pointer, up to null.
abbrev pub Chain : (ℕ → Registration) → Option ℕ → List ℕ → Type 0
Chain node p [] = p ≡ none
Chain node p (x ∷ xs) = (p ≡ some x) × Chain node (node x).next xs

-- The list holds exactly the attached nodes, each once.
pub record Represents (s : Cancellation) (xs : List ℕ) : Type 0 where
  pub chain : Chain s.node s.head xs
  pub distinct : Distinct xs
  pub exact : (i : ℕ) → (s.node i).attached ≡ mem i xs

pub Chain-frame :
    (xs : List ℕ) (node other : ℕ → Registration) (p : Option ℕ)
    → ((i : ℕ) → mem i xs ≡ true → (other i).next ≡ (node i).next)
    → Chain node p xs
    → Chain other p xs
Chain-frame [] node other p same c = c
Chain-frame (x ∷ xs) node other p same c = (
  c.0,
  rw (same x (ground arith))
      (Chain-frame xs node other (node x).next (λ i m. same i (ground arith)) c.1),
)

pub Chain-update :
    (xs : List ℕ) (node : ℕ → Registration) (r : ℕ) (new : Registration) (p : Option ℕ)
    → mem r xs ≡ false
    → Chain node p xs
    → Chain (update node r new) p xs
Chain-update xs node r new p out c =
    Chain-frame xs node (update node r new) p (λ i m. ground (arith, ==→eq r i)) c

pub mem-erase :
    (a i : ℕ) (xs : List ℕ) → Distinct xs → mem i (erase a xs) ≡ (mem i xs && not (i == a))
mem-erase a i [] d = refl
mem-erase a i (x ∷ xs) d = ground (arith, mem-erase a i xs d.1)

pub mem-erased : (a : ℕ) (xs : List ℕ) → Distinct xs → mem a (erase a xs) ≡ false
mem-erased a xs d = mem-erase a a xs d ∙ ground (arith, ==_refl a)

pub erase_absent : (a : ℕ) (xs : List ℕ) → mem a xs ≡ false → erase a xs ≡ xs
erase_absent a [] h = refl
erase_absent a (x ∷ xs) h = ground (arith, erase_absent a xs)

pub erase-Distinct : (a : ℕ) (xs : List ℕ) → Distinct xs → Distinct (erase a xs)
erase-Distinct a [] d = tt
erase-Distinct a (x ∷ xs) d = ground (arith, erase-Distinct a xs d.1, mem-erase a x xs d.1)

-- A registration made while no stop is requested goes to the front.
pub register-Represents :
    (s : Cancellation) (r callback context : ℕ) (xs : List ℕ)
    → Represents s xs
    → s.stopped ≡ false
    → (s.node r).attached ≡ false
    → Represents (register_callback s r callback context).0 (r ∷ xs)
unfolding register_callback
register-Represents s r callback context xs v n a = rw n (record {
  chain = (refl, rw (==_refl r) (Chain-update xs s.node r _ s.head (sym (v.exact r) ∙ a) v.chain));
  distinct = (sym (v.exact r) ∙ a, v.distinct);
  exact = λ i. ground (arith, v.exact i);
})
