-- ===== src/Posting/System.antt =====
-- The facility with its threads: producers, the loop thread inside or outside a drain, and the
-- libuv async handle, whose wake-up is one bit (several sends may be delivered once).
use uvpp.Base.{
  ℕ, ◌≡◌, Bool, true, false, ◌||◌, not, Option, none, some, List, [], ◌∷◌, ◌++◌, if◌then◌else◌, ℤ,
  is_neg,
}
use uvpp.Core.Error.{Errnos}
use uvpp.Core.Callback.Persistent.{Slot}
use uvpp.Posting.State.{
  State, closing, is_empty, post, request_close, on_close, add_close_waiter, set_failure_handler,
}
use uvpp.Posting.Drain.{drain_take, run_job, clear_batch, drain_finish}

-- Where the loop thread is: outside a drain, before the job at the head of the list, or between
-- the destruction of the batch and the second locked section. The flag is `had_work`.
pub data Pc : Type 0 where
  idle : Pc
  running : List ℕ → Bool → Pc
  cleared : Bool → Pc

-- `wake` is the pending wake-up of the async handle. `accepted` and `executed` record the jobs
-- that `post` took and that have been invoked, in order; the program keeps no such lists.
pub record System : Type 0 where
  pub state : State
  pub pc : Pc
  pub wake : Bool
  pub accepted : List ℕ
  pub executed : List ℕ

abbrev pub after_post : System → ℕ → State × ℤ → System
after_post s job (t, status) =
    if is_neg status
    then record s { state = t }
    else record s { state = t; wake = true; accepted = s.accepted ++ job ∷ [] }

module _ (e : Errnos) where
  -- One atomic step. A post, a close request or a change of the handler may happen at any time,
  -- from a job too; the drain's own steps are the loop thread's.
  pub data Step (s : System) : System → Type 0 where
    posts : (job : ℕ) (send : ℤ) → Step s (after_post s job (post e s.state job send))
    requests_close : Step s (record s { state = (request_close s.state).0 })
    waits_close : (h : ℕ) → Step s (record s { state = (add_close_waiter s.state h).0 })
    sets_handler : (h : Option ℕ) → Step s (record s { state = set_failure_handler s.state h })
    wakes :
        (t : State)
        → s.pc ≡ idle
        → s.wake ≡ true
        → drain_take s.state ≡ some t
        → Step s
            (record s { state = t; pc = running t.batch (not (is_empty t.batch)); wake = false })
    wakes_late :
        s.pc ≡ idle → s.wake ≡ true → drain_take s.state ≡ none → Step s (record s { wake = false })
    runs :
        (job : ℕ) (rest : List ℕ) (had_work throws : Bool) (body : ℕ → Slot ℕ → Slot ℕ) (t : State)
        → s.pc ≡ running (job ∷ rest) had_work
        → run_job s.state throws body ≡ some t
        → Step s
            (record s { state = t; pc = running rest had_work; executed = s.executed ++ job ∷ [] })
    clears :
        (had_work : Bool)
        → s.pc ≡ running [] had_work
        → Step s (record s { state = clear_batch s.state; pc = cleared had_work })
    finishes :
        (had_work native : Bool) (send : ℤ) (t : State)
        → s.pc ≡ cleared had_work
        → drain_finish s.state had_work send ≡ some (t, native)
        → Step s (record s { state = t; pc = idle; wake = s.wake || not (is_empty s.state.queue) })
    closes :
        s.pc ≡ idle → s.state.phase ≡ closing → Step s (record s { state = (on_close s.state).0 })

  pub data Reach (s : System) : System → Type 0 where
    here : Reach s s
    next : {t u : System} → Reach s t → Step t u → Reach s u

-- A facility just constructed and initialised.
unfoldable pub start : State → System
start s = record { state = s; pc = idle; wake = false; accepted = []; executed = [] }

-- The jobs of the current batch that are still to be invoked.
abbrev pub to_run : Pc → List ℕ
to_run idle = []
to_run (running rest had_work) = rest
to_run (cleared had_work) = []

abbrev pub is_idle : Pc → Bool
is_idle idle = true
is_idle _ = false

-- The number of batches that the loop thread has counted as active.
abbrev pub batches : Pc → ℕ
batches idle = 0
batches (running rest had_work) = if had_work then 1 else 0
batches (cleared had_work) = if had_work then 1 else 0
