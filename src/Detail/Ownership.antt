-- ===== src/Detail/Ownership.antt =====
-- The owners of include/uvpp/poll_source.hpp, signal_source.hpp and fs_event_source.hpp, and of the
-- connections and listeners: each holds a unique pointer to its native state, which it moves, and
-- which it releases when it is destroyed or moved to. Owners are numbered in the order of their
-- construction, and a state is its address.
pub mod Released
use uvpp.Base.{ℕ, zero, suc, Option, none, some, List, [], ◌∷◌, ◌++◌, ◌==◌, if◌then◌else◌}

-- The pointers of the owners, and the states for which `release_owner` was called.
pub record Owners : Type 0 where
  pub states : List (Option ℕ)
  pub released : List ℕ

abbrev pub get : List (Option ℕ) → ℕ → Option ℕ
get [] i = none
get (x ∷ xs) zero = x
get (x ∷ xs) (suc i) = get xs i

abbrev pub put : List (Option ℕ) → ℕ → Option ℕ → List (Option ℕ)
put [] i y = []
put (x ∷ xs) zero y = y ∷ xs
put (x ∷ xs) (suc i) y = x ∷ put xs i y

abbrev pub only : Option ℕ → List ℕ
only none = []
only (some s) = s ∷ []

-- A constructor that has made a state.
unfoldable pub construct : Owners → ℕ → Owners
construct o s = record o { states = o.states ++ some s ∷ [] }

-- reset, and the destructor.
unfoldable pub reset : Owners → ℕ → Owners
reset o i = record { states = put o.states i none; released = o.released ++ only (get o.states i) }

-- The move constructor, from owner `j`.
unfoldable pub move_construct : Owners → ℕ → Owners
move_construct o j = record o { states = put o.states j none ++ get o.states j ∷ [] }

-- The move assignment to owner `i` from owner `j`.
unfoldable pub move_assign : Owners → ℕ → ℕ → Owners
unfolding reset
move_assign o i j =
    if i == j
    then o
    else (let t = reset o i in record t { states = put (put t.states i (get t.states j)) j none })
