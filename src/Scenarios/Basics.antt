-- ===== src/Scenarios/Basics.antt =====
-- Test data that the scenarios share, and runs of include/uvpp/core and of the callback slots.
use uvpp.Core.Callback.Persistent
use uvpp.Base.{ℕ, suc, true, false, none, some, List, [], ◌∷◌, pos}
use uvpp.Co.Await.{Awaiter, Caller}
use uvpp.Co.Cancellation.Spec.{Registry}
use uvpp.Core.Error.{Errnos}

-- The error constants on Linux.
abbrev pub linux : Errnos
linux = record {
  ebadf = 8;
  ebusy = 15;
  ecanceled = 124;
  einval = 21;
  eagain = 10;
  eof = 4094;
  eproto = 70;
  enomem = 11;
  enobufs = 104;
  ealready = 113;
  e2big = 6;
}

abbrev held : Persistent.Slot ℕ
held = record { callback = some 3; generation = 5 }

abbrev replacing : ℕ → List (Persistent.Change ℕ)
replacing cb = Persistent.replaces (some (suc cb)) ∷ []

-- A cancellation state without entries, an awaiter of a first use, and a task on the loop 1.
abbrev pub calm_registry : Registry
calm_registry = record { halted = false; entries = [] }

abbrev pub new_awaiter : {E : Type 0} → E → Awaiter E
new_awaiter x = record { resume_to = none; linked = false; event = x; status = pos 0 }

abbrev pub waiting_awaiter : {E : Type 0} → E → Awaiter E
waiting_awaiter x = record { resume_to = some 70; linked = true; event = x; status = pos 0 }

abbrev pub task : Caller
task = record { loop = 1; self = 50; registration = 60; continuation = 70 }

-- The task's registration is in effect.
abbrev pub one_registered : Registry
one_registered = record { halted = false; entries = 60 ∷ [] }
