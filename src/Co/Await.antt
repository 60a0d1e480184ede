-- ===== src/Co/Await.antt =====
-- What an awaiter of a high-level source keeps while its task is suspended, and the promise of that
-- task: `next_awaiter` of the sources and of the listeners follow this pattern.
use uvpp.Base.{ℕ, Bool, true, false, Option, none, some, if◌then◌else◌, ℤ}
use uvpp.Co.Cancellation.Spec.{Registry, enrol, withdraw}

-- The task that awaits: its loop, and the addresses of the awaiter, its registration and its
-- coroutine frame.
pub record Caller : Type 0 where
  pub loop : ℕ
  pub self : ℕ
  pub registration : ℕ
  pub continuation : ℕ

-- `linked` says that `cancellation_` is not null.
pub record Awaiter (E : Type 0) : Type 0 where
  pub resume_to : Option ℕ
  pub linked : Bool
  pub event : E
  pub status : ℤ

-- A source, the awaiter on it and the cancellation state of the awaiting task, which may be null.
pub record World (S E : Type 0) : Type 0 where
  pub source : S
  pub awaiter : Awaiter E
  pub cancel : Option Registry

module _ {S E : Type 0} where
  -- promise().stop_requested()
  abbrev pub stop_requested : World S E → Bool
  stop_requested w = elim w.cancel [ none ↦ false | some g ↦ g.halted ]

  -- `await_suspend` returns false: the task goes on with the status.
  abbrev pub refuse : World S E → ℤ → World S E × Bool
  refuse w status = (record w { awaiter = record (w.awaiter) { status = status } }, false)

  -- `cancellation_->register_callback`; a null cancellation state accepts.
  unfoldable pub link : World S E → Caller → World S E × Bool
  unfolding enrol
  link w c = elim w.cancel [
    | none ↦ (
      record w { awaiter = record (w.awaiter) { resume_to = some c.continuation; linked = false } },
      true,
    )
    | some g ↦ (
      let (enrolled, accepted) = enrol g c.registration in
          record w {
            awaiter = record (w.awaiter) { resume_to = some c.continuation; linked = true };
            cancel = some enrolled;
          },
      (enrol g c.registration).1,
    )
  ]

  -- `cancellation_->unregister` and `cancellation_ = nullptr`, where it is not null.
  unfoldable pub unlink : World S E → Caller → World S E
  unfolding withdraw
  unlink w c =
      if w.awaiter.linked
      then record w {
        awaiter = record (w.awaiter) { linked = false };
        cancel = elim w.cancel [ none ↦ none | some g ↦ some (withdraw g c.registration) ];
      }
      else w
