-- ===== src/Scenarios/Systems.antt =====
-- A string that needs a larger buffer, and a thread that was started twice.
use uvpp.Base.{
  ℕ, suc, ◌+◌, ◌≡◌, ◌≢◌, ◌<◌, ◌≤◌, ◌==◌, true, none, some, [], ◌∷◌, arith, length, ltb,
  if◌then◌else◌, pos, negsuc,
}
use uvpp.Core.Error.{returned, throw_if_error}
use uvpp.Misc.System.{Bytes, Reply, environment_variable, os_string}
use uvpp.Misc.System.Growth.{Counts, IsText, os_string_lem, Counts, success}
use uvpp.Misc.Thread.{leave_scope, release, destroy, join, start}
use uvpp.Misc.Thread.Freed
use uvpp.Scenarios.Basics.{linux}

abbrev home : Bytes
home = 47 ∷ 114 ∷ []

-- A lookup that reports one byte less than it needs, on success the terminator too, and for a buffer
-- that the string fills more than there is.
abbrev home_size : ℕ → ℕ
home_size capacity = if capacity == 3 then 9 else 3

abbrev home_lookup : ℕ → Reply
home_lookup capacity =
    if ltb 2 capacity
    then success home (home_size capacity)
    else record { status = negsuc linux.enobufs; size = 2; written = [] }

home-IsText : IsText home
home-IsText = (λ h. ground arith, (λ h. ground arith, tt))

home_lookup-fits :
    (capacity : ℕ)
    → length home < capacity
    → home_lookup capacity ≡ success home (home_size capacity)
home_lookup-fits capacity h = ground arith

home_size-Counts :
    (capacity : ℕ) → length home < capacity → Counts home capacity (home_size capacity)
home_size-Counts capacity h = ground arith

home_lookup-small :
    (capacity : ℕ) → capacity ≤ length home → (home_lookup capacity).status ≡ negsuc linux.enobufs
home_lookup-small capacity h = ground arith

enobufs-known : linux.enobufs ≢ 1
enobufs-known h = ground arith

os_string_lem_example :
    (os_string linux home_lookup (suc (length home)) 1 ≡ some (returned home))
    × (environment_variable linux 1 home_lookup (suc (length home)) 1 ≡ some (returned (some home)))
os_string_lem_example =
    os_string_lem linux 1 home home_lookup home-IsText home_size home_lookup-fits home_size-Counts
      home_lookup-small enobufs-known 1 (omega arith)

-- The second start fails, the first thread has ended and was joined, and a third one runs.
abbrev restarted : Freed.Run
restarted = record {
  thread = record { joinable = true };
  allocated = 3;
  released = 2;
  running = 1;
  unjoined = 1;
}

restarted-Reach : Freed.Reach linux Freed.unstarted restarted
unfolding start join throw_if_error release leave_scope
restarted-Reach =
    Freed.next
      (Freed.next
        (Freed.next
          (Freed.next (Freed.next Freed.begin (Freed.starts (pos 0))) (Freed.joins (pos 0)))
          (Freed.ends (λ h. ground arith)))
        (Freed.starts (negsuc 10)))
      (Freed.starts (pos 0))

callable_freed_once_example :
    (restarted.released + restarted.running ≡ restarted.allocated)
    × (restarted.unjoined ≤ 1)
    × (destroy restarted.thread ≡ (if restarted.unjoined == 0 then some tt else none))
callable_freed_once_example = Freed.callable_freed_once linux restarted restarted-Reach
