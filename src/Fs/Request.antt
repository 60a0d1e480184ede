-- ===== src/Fs/Request.antt =====
-- What the open, read and write awaiters of include/uvpp/fs/coroutines.hpp have in common: one
-- native request, which a stop request asks libuv to cancel, and which ends with its callback in
-- any case. What differs is what the status does to the file.
pub mod Once
use uvpp.Base.{ℕ, ◌+◌, Bool, true, false, Option, none, if◌then◌else◌, ℤ, is_neg}
use uvpp.Co.Await.{World, Caller, link, unlink}

-- `submitted_`, and how often `uv_cancel` was called for the request.
pub record Op : Type 0 where
  pub submitted : Bool
  pub cancels : ℕ

abbrev pub unsubmitted : Op
unsubmitted = record { submitted = false; cancels = 0 }

module _ {S : Type 0} where
  -- request_native_cancellation
  unfoldable pub request_native_cancellation : World S Op → World S Op
  request_native_cancellation w =
      if w.awaiter.event.submitted
      then record w {
        awaiter = record (w.awaiter) {
          event = record (w.awaiter.event) { cancels = w.awaiter.event.cancels + 1 };
        };
      }
      else w

  -- The end of an `await_suspend` whose native call returned `native`: `taken` is the state while the
  -- request is with libuv, which a failed call does not reach.
  unfoldable pub submit : World S Op → S → Caller → ℤ → World S Op × Bool
  unfolding link request_native_cancellation
  submit w taken c native =
      let u = record w { awaiter = record (w.awaiter) { status = native } } in
      if is_neg native
      then (record u { awaiter = record (u.awaiter) { resume_to = none } }, false)
      else (let (linked, accepted) =
            link
              (record u {
                source = taken;
                awaiter = record (u.awaiter) {
                  event = record (u.awaiter.event) { submitted = true };
                };
              })
              c in
          (if accepted then linked else request_native_cancellation linked, true))

  -- `complete` with a status, for what it does to the state; and what is resumed last.
  unfoldable pub complete : (S → ℤ → S) → World S Op → Caller → ℤ → World S Op × Option ℕ
  unfolding unlink
  complete settle w c status =
      let u = unlink w c in
      (
        record u {
          source = settle u.source status;
          awaiter = record (u.awaiter) {
            resume_to = none;
            event = record (u.awaiter.event) { submitted = false };
            status = status;
          };
        },
        u.awaiter.resume_to,
      )
