-- ===== src/Misc/Thread.antt =====
-- include/uvpp/threading/primitives.hpp: a thread and the callable that it was given, and the attempts
-- to lock that do not wait. The statuses of libuv are arguments. A callable is on the heap, from the
-- start of the thread on.
pub mod Freed
use uvpp.Base.{
  ℕ, ◌+◌, Bool, true, false, not, Option, none, some, List, [], ◌∷◌, ◌++◌, if◌then◌else◌, ℤ, pos,
  negsuc, is_neg, eqb,
}
use uvpp.Core.Error.{Errnos, Outcome, operational, returned, throw_if_error, thrown}

-- thread, for its `joinable_`.
pub record Thread : Type 0 where
  pub joinable : Bool

abbrev pub new_thread : Thread
new_thread = record { joinable = false }

-- The callable of thread::start and the unique_ptr to it: whether it was allocated, whether the
-- pointer holds it, and whether the pointer has freed it.
pub record Callable : Type 0 where
  pub allocated : Bool
  pub held : Bool
  pub freed : Bool

abbrev pub no_callable : Callable
no_callable = record { allocated = false; held = false; freed = false }

-- The unique_ptr's construction by make_unique, its release, and its end.
abbrev pub make_unique : Callable
make_unique = record { allocated = true; held = true; freed = false }

unfoldable pub release : Callable → Callable
release c = record c { held = false }

unfoldable pub leave_scope : Callable → Callable
leave_scope c = if c.held then record c { held = false; freed = true } else c

-- thread::start, with the status of `uv_thread_create`.

unfoldable pub start : Errnos → Thread → ℤ → (Thread × Callable) × Outcome (Unit {0})
unfolding throw_if_error release leave_scope
start e t created =
    if t.joinable
    then ((t, no_callable), thrown (operational (negsuc e.ebusy)))
    else (elim (throw_if_error created) [
      | thrown x ↦ ((t, leave_scope make_unique), thrown x)
      | returned n ↦
          ((record t { joinable = true }, leave_scope (release make_unique)), returned tt)
    ])

-- thread::join and thread::detach, with the status of libuv's function.
unfoldable pub join : Errnos → Thread → ℤ → Thread × Outcome (Unit {0})
unfolding throw_if_error
join e t joined =
    if not t.joinable
    then (t, thrown (operational (negsuc e.einval)))
    else (elim (throw_if_error joined) [
      | thrown x ↦ (t, thrown x)
      | returned n ↦ (record t { joinable = false }, returned tt)
    ])

unfoldable pub detach : Errnos → Thread → ℤ → Thread × Outcome (Unit {0})
unfolding throw_if_error
detach e t detached =
    if not t.joinable
    then (t, thrown (operational (negsuc e.einval)))
    else (elim (throw_if_error detached) [
      | thrown x ↦ (t, thrown x)
      | returned n ↦ (record t { joinable = false }, returned tt)
    ])

-- thread::~thread; `none` is `std::terminate`.
unfoldable pub destroy : Thread → Option (Unit {0})
destroy t = if t.joinable then none else some tt

-- try_lock of both mutexes, and try_lock_read and try_lock_write.
unfoldable pub try_lock : Errnos → ℤ → Outcome Bool
try_lock e status =
    if eqb status (pos 0)
    then returned true
    else if eqb status (negsuc e.ebusy)
    then returned false
    else thrown (operational status)

-- semaphore::try_wait
unfoldable pub try_wait : Errnos → ℤ → Outcome Bool
try_wait e status =
    if eqb status (pos 0)
    then returned true
    else if eqb status (negsuc e.eagain)
    then returned false
    else thrown (operational status)
