-- ===== src/Process/Raw/Abandoned.antt =====
-- A raw process under one spawn, its exit and its close, and the storage of a spawn that failed.
use uvpp.Base.{
  ◌+◌, ◌≡◌, ap, not, is_neg, inl, inr, Bool, true, false, Option, none, some, arith, Bool-cases,
  if◌then◌else◌, ℤ,
}
use uvpp.Core.Error.{
  Errnos, operational, status_from_native, status_ok, status_throw_if_error, thrown, from_native,
  has_error,
}
use uvpp.Process.Options.{Options, too_many}
use uvpp.Process.Raw.{
  Storage, close_abandoned, exit_abandoned, new_raw_process, submit_spawn, throw_on_spawn_failure,
}

-- What libuv does to storage that has no owner.
pub data Step (s : Storage) : Storage → Type 0 where
  exits : s.active ≡ true → Step s (exit_abandoned s)
  closes : s.close_owed ≡ true → Step s (close_abandoned s)

pub data Reach (s : Storage) : Storage → Type 0 where
  start : Reach s s
  next : {m n : Storage} → Reach s m → Step m n → Reach s n

-- The child runs, or the close callback is to come, or the storage is deleted.
abbrev pub HasOneEnd : Storage → Type 0
HasOneEnd s = (if s.active then 1 else 0) + (if s.close_owed then 1 else 0) + s.deleted ≡ 1

Step-HasOneEnd : {s t : Storage} → Step s t → HasOneEnd s → HasOneEnd t
unfolding exit_abandoned close_abandoned
Step-HasOneEnd {s} (exits a) v = ground arith
Step-HasOneEnd {s} (closes o) v = ground arith

Reach-HasOneEnd : {s t : Storage} → Reach s t → HasOneEnd s → HasOneEnd t
Reach-HasOneEnd start v = v
Reach-HasOneEnd (next r s) v = Step-HasOneEnd s (Reach-HasOneEnd r v)

module _ {C : Type 0} (e : Errnos) (o : Options) (cb : Option C) (native : ℤ) (active : Bool) where
  -- What is left of a constructor whose spawn was the first of its process.
  abbrev pub left_behind : Option Storage
  left_behind =
      let spawned = submit_spawn e new_raw_process o cb none native active in
      (throw_on_spawn_failure spawned.0 spawned.1).1

  left_failed :
      (s : Storage)
      → left_behind ≡ some s
      → (is_neg native ≡ true)
        × (too_many o ≡ false)
        × (s ≡ record { active = active; close_owed = not active; deleted = 0 })
  unfolding submit_spawn throw_on_spawn_failure status_ok status_from_native from_native has_error
  left_failed s h = elim (Bool-cases (too_many o)) [
    | inl many ↦ ground arith
    | inr few ↦ elim (Bool-cases (is_neg native)) [ inl bad ↦ ground arith | inr ok ↦ ground arith ]
  ]

  -- A constructor leaves storage behind only if its spawn reached libuv and failed, and then throws
  -- the native error. Whatever libuv does to this storage afterwards, it is used by a child that
  -- runs, or owed its close callback, or deleted, exactly one of these, and deleted once; no close
  -- is begun while the child runs.
  pub abandoned_deleted_once :
      (s t : Storage)
      → left_behind ≡ some s
      → Reach s t
      → ((throw_on_spawn_failure
            (submit_spawn e new_raw_process o cb none native active).0
            (submit_spawn e new_raw_process o cb none native active).1).0
          ≡ thrown (operational native))
        × (s.active ≡ active)
        × ((if t.active then 1 else 0) + (if t.close_owed then 1 else 0) + t.deleted ≡ 1)
  unfolding submit_spawn throw_on_spawn_failure status_ok status_from_native status_throw_if_error
      from_native has_error
  abandoned_deleted_once s t h r =
      let (bad, few, same) = left_failed s h in
      (ground arith, ap (λ (q : Storage). q.active) same, Reach-HasOneEnd r (ground arith))
