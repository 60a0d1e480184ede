-- ===== src/Co/ResourceScope/Ordered.antt =====
-- The order of a cleanup: listeners stop before any other owner closes.
use uvpp.Base.{
  Bool, ℕ, ◌≡◌, refl, ap, ◌⊎◌, true, false, not, Option, none, some, List, [], ◌∷◌, ◌++◌, arith,
  if◌then◌else◌, All,
}
use uvpp.Co.ResourceScope.{
  file, pipe_connection, pipe_listener, tcp_listener, udp_socket, CleanupPhase, Environment, Kind,
  Resource, close_resources, finish_all, finish_kind, finish_phase, owner_of, phase_of, same_phase,
  stop_admission, tcp_connection,
}
use uvpp.Core.Error.{returned}

-- The owners that the records of a list hold.
abbrev pub owners : List (Option Resource) → List ℕ
owners [] = []
owners (none ∷ rs) = owners rs
owners (some r ∷ rs) = owner_of r ++ owners rs

pub finish_kind-keeps :
    (k : Kind) (env : Environment) (r : Resource)
    → let (t, ended) = finish_kind k env r in (t.id ≡ r.id) × (t.owned ≡ true → r.owned ≡ true)
unfolding finish_kind
finish_kind-keeps tcp_connection env r = ground arith
finish_kind-keeps _ env r = ground arith

-- A record whose file was released has no owner; every record of the scope is so.
abbrev pub IsSound : Option Resource → Type 0
IsSound none = Unit
IsSound (some r) = r.released ≡ not r.owned

pub finish_kind-returned :
    (k : Kind) (env : Environment) (r : Resource)
    → IsSound (some r)
    → (finish_kind k env r).1 ≡ returned tt
    → (finish_kind k env r).0.owned ≡ false
unfolding finish_kind
finish_kind-returned tcp_connection env r v h = ground arith
finish_kind-returned _ env r v h = ground arith

-- The records of one phase taken out, and the owners that they hold.
abbrev pub without : CleanupPhase → List (Option Resource) → List (Option Resource)
without phase [] = []
without phase (none ∷ rs) = none ∷ without phase rs
without phase (some r ∷ rs) =
    (if same_phase (phase_of r.kind) phase then none else some r) ∷ without phase rs

abbrev pub owners_in : CleanupPhase → List (Option Resource) → List ℕ
owners_in phase [] = []
owners_in phase (none ∷ rs) = owners_in phase rs
owners_in phase (some r ∷ rs) =
    (if same_phase (phase_of r.kind) phase then owner_of r else []) ++ owners_in phase rs

pub finish_phase-returned :
    (phase : CleanupPhase) (env : Environment) (rs : List (Option Resource))
    → All IsSound rs
    → (finish_phase phase env rs).ended ≡ returned tt
    → ((finish_phase phase env rs).left ≡ without phase rs)
      × ((finish_phase phase env rs).log ≡ owners_in phase rs)
unfolding finish_phase
finish_phase-returned phase env [] v h = (refl, refl)
finish_phase-returned phase env (none ∷ rs) v h =
    let (l, o) = finish_phase-returned phase env rs v.1 h in (ap (λ x. none ∷ x) l, o)
finish_phase-returned phase env (some r ∷ rs) v h =
    ground (arith, finish_phase-returned phase env rs v.1, finish_kind-returned r.kind env r v.0)

finish_kind-IsSound :
    (k : Kind) (env : Environment) (r : Resource)
    → IsSound (some r)
    → ((finish_kind k env r).1 ≡ returned tt) ⊎ IsSound (some (finish_kind k env r).0)
unfolding finish_kind
finish_kind-IsSound tcp_connection env r v = ground arith
finish_kind-IsSound _ env r v = ground arith

pub finish_phase-IsSound :
    (phase : CleanupPhase) (env : Environment) (rs : List (Option Resource))
    → All IsSound rs
    → All IsSound (finish_phase phase env rs).left
unfolding finish_phase
finish_phase-IsSound phase env [] v = v
finish_phase-IsSound phase env (none ∷ rs) v = (tt, finish_phase-IsSound phase env rs v.1)
finish_phase-IsSound phase env (some r ∷ rs) v =
    ground (arith, finish_phase-IsSound phase env rs v.1, finish_kind-IsSound r.kind env r v.0)

owners-without :
    (rs : List (Option Resource))
    → (owners (without close_resources (without stop_admission rs)) ≡ [])
      × (owners_in close_resources (without stop_admission rs) ≡ owners_in close_resources rs)
      × (All IsSound rs → All IsSound (without stop_admission rs))
owners-without [] = (refl, refl, λ v. v)
owners-without (none ∷ rs) = let (a, b, c) = owners-without rs in (a, b, λ v. (tt, c v.1))
owners-without (some r ∷ rs) =
    let (a, b, c) = owners-without rs in (ground arith, ground arith, λ v. ground (arith, c v.1))

-- The owners that accept connections.
abbrev pub is_listener : Kind → Bool
is_listener tcp_connection = false
is_listener tcp_listener = true
is_listener udp_socket = false
is_listener pipe_connection = false
is_listener pipe_listener = true
is_listener file = false

abbrev pub listeners : List (Option Resource) → List ℕ
listeners [] = []
listeners (none ∷ rs) = listeners rs
listeners (some r ∷ rs) = (if is_listener r.kind then owner_of r else []) ++ listeners rs

abbrev pub other_owners : List (Option Resource) → List ℕ
other_owners [] = []
other_owners (none ∷ rs) = other_owners rs
other_owners (some r ∷ rs) = (if is_listener r.kind then [] else owner_of r) ++ other_owners rs

phase_of_lem :
    (k : Kind)
    → (same_phase (phase_of k) stop_admission ≡ is_listener k)
      × (same_phase (phase_of k) close_resources ≡ not (is_listener k))
unfolding phase_of
phase_of_lem tcp_connection = (refl, refl)
phase_of_lem tcp_listener = (refl, refl)
phase_of_lem udp_socket = (refl, refl)
phase_of_lem pipe_connection = (refl, refl)
phase_of_lem pipe_listener = (refl, refl)
phase_of_lem file = (refl, refl)

owners_in-listeners :
    (rs : List (Option Resource))
    → (owners_in stop_admission rs ≡ listeners rs)
      × (owners_in close_resources rs ≡ other_owners rs)
owners_in-listeners [] = (refl, refl)
owners_in-listeners (none ∷ rs) = owners_in-listeners rs
owners_in-listeners (some r ∷ rs) =
    let (a, b) = owners_in-listeners rs in let (p, q) = phase_of_lem r.kind in ground arith

-- An attempt that returns has released, in the order of adoption within each phase, first the
-- owners of TCP and pipe listeners and then all others, and no record holds an owner any more. The records are
-- sound, as `own` makes them.
pub finish_all-returned :
    (env : Environment) (rs : List (Option Resource))
    → All IsSound rs
    → (finish_all env rs).ended ≡ returned tt
    → ((finish_all env rs).log ≡ listeners rs ++ other_owners rs)
      × (owners (finish_all env rs).left ≡ [])
unfolding finish_all
finish_all-returned env rs v h =
    let first = finish_phase stop_admission env rs in
    ground (
      arith,
      finish_phase-returned stop_admission env rs v,
      finish_phase-returned close_resources env first.left
          (finish_phase-IsSound stop_admission env rs v),
      owners-without rs,
      owners_in-listeners rs,
    )
