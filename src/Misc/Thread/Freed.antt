-- ===== src/Misc/Thread/Freed.antt =====
-- The callables of a thread object that is started again and again, and the threads that run them.
use uvpp.Base.{Bool, is_neg, ◌==◌, ℕ, ◌+◌, ◌-◌, ◌≡◌, ◌≢◌, ◌≤◌, none, some, arith, if◌then◌else◌, ℤ}
use uvpp.Core.Error.{Errnos, Outcome, returned, thrown, throw_if_error}
use uvpp.Misc.Thread.{Thread, destroy, detach, join, leave_scope, new_thread, release, start}

-- A thread object, the callables that were allocated and freed, and the threads that still have
-- theirs; `unjoined` counts the threads that were started and neither joined nor detached.
pub record Run : Type 0 where
  pub thread : Thread
  pub allocated : ℕ
  pub released : ℕ
  pub running : ℕ
  pub unjoined : ℕ

abbrev pub unstarted : Run
unstarted = record { thread = new_thread; allocated = 0; released = 0; running = 0; unjoined = 0 }

abbrev pub one_if : Bool → ℕ
one_if b = if b then 1 else 0

-- The threads that libuv makes for a start: one, when the start gets to `uv_thread_create` and that
-- succeeds. It has the pointer to the callable from then on, and frees it at its end.
abbrev pub created_by : Thread → ℤ → ℕ
created_by t created = if t.joinable then 0 else if is_neg created then 0 else 1

abbrev pub succeeds : Outcome (Unit {0}) → ℕ
succeeds (returned x) = 1
succeeds (thrown x) = 0

module _ (e : Errnos) where
  pub data Step (r : Run) : Run → Type 0 where
    starts :
        (created : ℤ)
        → Step r (record {
          thread = (start e r.thread created).0.0;
          allocated = r.allocated + one_if (start e r.thread created).0.1.allocated;
          released = r.released + one_if (start e r.thread created).0.1.freed;
          running = r.running + created_by r.thread created;
          unjoined = r.unjoined + succeeds (start e r.thread created).1;
        })
    -- thread_trampoline ends: its callable is freed.
    ends : r.running ≢ 0 → Step r (record r { running = r.running - 1; released = r.released + 1 })
    joins :
        (joined : ℤ)
        → Step r (record r {
          thread = (join e r.thread joined).0;
          unjoined = r.unjoined - succeeds (join e r.thread joined).1;
        })
    detaches :
        (detached : ℤ)
        → Step r (record r {
          thread = (detach e r.thread detached).0;
          unjoined = r.unjoined - succeeds (detach e r.thread detached).1;
        })

  pub data Reach (r : Run) : Run → Type 0 where
    begin : Reach r r
    next : {m n : Run} → Reach r m → Step m n → Reach r n

  record Inv (r : Run) : Type 0 where
    balanced : r.released + r.running ≡ r.allocated
    joinable : (if r.thread.joinable then 1 else 0) ≡ r.unjoined

  Step-Inv : {r q : Run} → Step r q → Inv r → Inv q
  unfolding start join detach throw_if_error release leave_scope
  Step-Inv {r} (starts created) v = ground arith
  Step-Inv {r} (ends n) v = ground arith
  Step-Inv {r} (joins joined) v = ground arith
  Step-Inv {r} (detaches detached) v = ground arith

  Reach-Inv : {r q : Run} → Reach r q → Inv r → Inv q
  Reach-Inv begin v = v
  Reach-Inv (next p s) v = Step-Inv s (Reach-Inv p v)

  -- A thread object from its construction on, started, joined and detached any number of times,
  -- whatever libuv answers, with its threads ending at any time: every callable that was allocated is
  -- freed once or belongs to one thread that still runs. At most one thread was started and neither
  -- joined nor detached, and the destructor terminates the program exactly when there is one.
  pub callable_freed_once :
      (r : Run)
      → Reach unstarted r
      → (r.released + r.running ≡ r.allocated)
        × (r.unjoined ≤ 1)
        × (destroy r.thread ≡ (if r.unjoined == 0 then some tt else none))
  unfolding destroy
  callable_freed_once r p = let v = Reach-Inv p (ground arith) in ground arith
