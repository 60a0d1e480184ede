-- ===== src/Scenarios/Moved.antt =====
-- Two owners, of which the second is moved to the first.
use uvpp.Base.{◌≡◌, ◌⊎◌, refl, none, some, [], ◌∷◌, arith}
use uvpp.Detail.Ownership.{construct, move_assign, reset}
use uvpp.Detail.Ownership.Released.{
  Reach, Run, assigns, constructs, counted, held, next, nobody, released_once, start,
}

abbrev moved_owners : Run
moved_owners = record {
  owners = record { states = some 8 ∷ none ∷ []; released = 7 ∷ [] };
  made = 7 ∷ 8 ∷ [];
}

moved_owners-Reach : Reach nobody moved_owners
unfolding construct move_assign reset
moved_owners-Reach =
    next (next (next start (constructs 7)) (constructs 8)) (assigns 0 1 (omega arith) (omega arith))

released_once_example :
    ((held 7 moved_owners.owners.states ≡ 1) × (counted 7 moved_owners.owners.released ≡ 0))
    ⊎ ((held 7 moved_owners.owners.states ≡ 0) × (counted 7 moved_owners.owners.released ≡ 1))
released_once_example = released_once 7 moved_owners moved_owners-Reach refl
