-- ===== src/Co/ResourceScope/Once.antt =====
-- Every adopted owner is released once, over any number of attempts.
use uvpp.Base.{
  ℕ, suc, ◌+◌, ◌≡◌, refl, ap, Bool, true, false, Option, none, some, List, [], ◌∷◌, ◌++◌, arith,
  ◌==◌, if◌then◌else◌, All,
}
use uvpp.Co.ResourceScope.{
  CleanupPhase, Environment, Resource, finish_phase, finish_all, Scope, close_resources, finish,
  stop_admission, CleanupState, finished, Owner, own,
}
use uvpp.Co.ResourceScope.Ordered.{
  IsSound, finish_all-returned, owners, finish_kind-keeps, finish_kind-returned,
  finish_phase-IsSound,
}
use uvpp.Core.Error.{returned}

abbrev pub count : ℕ → List ℕ → ℕ
count i [] = 0
count i (x ∷ xs) = if i == x then suc (count i xs) else count i xs

pub count-append : (i : ℕ) (xs ys : List ℕ) → count i (xs ++ ys) ≡ count i xs + count i ys
count-append i [] ys = omega arith
count-append i (x ∷ xs) ys = ground (arith, count-append i xs ys)

finish_phase-count :
    (phase : CleanupPhase) (env : Environment) (rs : List (Option Resource)) (i : ℕ)
    → All IsSound rs
    → count i (finish_phase phase env rs).log + count i (owners (finish_phase phase env rs).left)
      ≡ count i (owners rs)
unfolding finish_phase
finish_phase-count phase env [] i v = refl
finish_phase-count phase env (none ∷ rs) i v = finish_phase-count phase env rs i v.1
finish_phase-count phase env (some r ∷ rs) i v = ground (
  arith,
  finish_phase-count phase env rs i v.1,
  finish_kind-keeps r.kind env r,
  finish_kind-returned r.kind env r v.0,
)

pub finish_all-IsSound :
    (env : Environment) (rs : List (Option Resource))
    → All IsSound rs
    → All IsSound (finish_all env rs).left
unfolding finish_all
finish_all-IsSound env rs v =
    let first = finish_phase-IsSound stop_admission env rs v in
    ground (
      arith,
      first,
      finish_phase-IsSound close_resources env (finish_phase stop_admission env rs).left first,
    )

pub finish_all-count :
    (env : Environment) (rs : List (Option Resource)) (i : ℕ)
    → All IsSound rs
    → count i (finish_all env rs).log + count i (owners (finish_all env rs).left)
      ≡ count i (owners rs)
unfolding finish_all
finish_all-count env rs i v =
    let first = finish_phase stop_admission env rs in
    let second = finish_phase close_resources env first.left in
    ground (
      arith,
      finish_phase-count stop_admission env rs i v,
      finish_phase-count close_resources env first.left i
          (finish_phase-IsSound stop_admission env rs v),
      count-append i first.log second.log,
    )

-- One attempt after another, each with its own environment: the scope and all owners released.
unfoldable pub attempts : Scope → ℕ → List Environment → Scope × List ℕ
attempts s current [] = (s, [])
attempts s current (env ∷ envs) =
    let (t, log, ended) = finish s current env in
    let (u, logs) = attempts t current envs in (u, log ++ logs)

finish-count :
    (s : Scope) (current i : ℕ) (env : Environment)
    → All IsSound s.resources
    → let (t, log, ended) = finish s current env in
      (count i log + count i (owners t.resources) ≡ count i (owners s.resources))
      × All IsSound t.resources
unfolding finish
finish-count s current i env v = ground (
  arith,
  finish_all-count env s.resources i v,
  finish_all-IsSound env s.resources v,
  finish_all-returned env s.resources v,
)

-- Over any number of attempts of `finish()`, whatever the environment of each, every owner that
-- the scope held is either released once or still held: nothing is released twice or forgotten.
-- The records are sound, as `own` makes them.
pub attempts-released :
    (envs : List Environment) (s : Scope) (current i : ℕ)
    → All IsSound s.resources
    → let (t, log) = attempts s current envs in
      count i log + count i (owners t.resources) ≡ count i (owners s.resources)
unfolding attempts
attempts-released [] s current i v = omega arith
attempts-released (env ∷ envs) s current i v =
    let (c, w) = finish-count s current i env v in
    omega (
      arith,
      c,
      attempts-released envs (finish s current env).0 current i w,
      count-append i (finish s current env).1 (attempts (finish s current env).0 current envs).1,
    )

abbrev pub is_finished : CleanupState → Bool
is_finished finished = true
is_finished _ = false

finish-empty :
    (s : Scope) (current : ℕ) (env : Environment)
    → (is_finished s.state ≡ true → s.resources ≡ [])
    → is_finished (finish s current env).0.state ≡ true
    → (finish s current env).0.resources ≡ []
unfolding finish
finish-empty s current env e h = ground arith

attempts_empty :
    (envs : List Environment) (s : Scope) (current : ℕ)
    → (is_finished s.state ≡ true → s.resources ≡ [])
    → is_finished (attempts s current envs).0.state ≡ true
    → (attempts s current envs).0.resources ≡ []
unfolding attempts
attempts_empty [] s current e h = e h
attempts_empty (env ∷ envs) s current e h =
    attempts_empty envs (finish s current env).0 current (finish-empty s current env e) h

All-snoc :
    (rs : List (Option Resource)) (r : Option Resource)
    → All IsSound rs
    → IsSound r
    → All IsSound (rs ++ r ∷ [])
All-snoc [] r v w = (w, tt)
All-snoc (q ∷ rs) r v w = (v.0, All-snoc rs r v.1 w)

-- The records that `own` makes are sound.
own-IsSound :
    (s t : Scope) (o : Owner)
    → own s o ≡ returned t
    → All IsSound s.resources
    → All IsSound t.resources
unfolding own
own-IsSound s t o h v =
    let new : Resource = record {
      kind = o.kind;
      id = o.id;
      owned = true;
      accessible = true;
      released = false;
    } in
    let w = All-snoc s.resources (some new) v refl in ground arith

-- A scope that was not finished and that some number of attempts of `finish()` leave finished holds
-- nothing, and each of its owners was released exactly as often as it was adopted, whatever failed
-- in the attempts before. The records are sound, as `own` makes them.
pub attempts-finished :
    (envs : List Environment) (s : Scope) (current i : ℕ)
    → All IsSound s.resources
    → is_finished s.state ≡ false
    → is_finished (attempts s current envs).0.state ≡ true
    → ((attempts s current envs).0.resources ≡ [])
      × (count i (attempts s current envs).1 ≡ count i (owners s.resources))
attempts-finished envs s current i v f h =
    let left = attempts_empty envs s current (λ y. cc) h in
    (left, omega (arith, attempts-released envs s current i v, ap (λ rs. count i (owners rs)) left))
