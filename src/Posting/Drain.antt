-- ===== src/Posting/Drain.antt =====
-- loop_posting_state::drain: its two locked sections, the run of the batch between them, and the
-- whole drain when neither another thread nor a job touches the facility meanwhile. `none` stands
-- for `std::terminate`.
use uvpp.Base.{
  ℕ, zero, suc, ◌+◌, ◌-◌, min, ◌≡◌, Bool, false, ◌&&◌, not, Option, none, some, List, [], ◌∷◌, ◌++◌,
  append-nil, append_assoc, if◌then◌else◌, length, take, drop, ℤ, is_neg,
}
use uvpp.Core.Callback.Persistent.{Slot, invoke}
use uvpp.Posting.State.{State, is_terminal, is_empty, begin_close_if_drained}

-- The loop of the first section: so many jobs move from the queue's front to the batch's back.
unfoldable pub move_jobs : ℕ → List ℕ → List ℕ → List ℕ × List ℕ
move_jobs zero queue batch = (queue, batch)
move_jobs (suc count) [] batch = ([], batch)
move_jobs (suc count) (job ∷ queue) batch = move_jobs count queue (batch ++ job ∷ [])

pub move_jobs-take :
    (n : ℕ) (queue batch : List ℕ) → move_jobs n queue batch ≡ (drop n queue, batch ++ take n queue)
unfolding move_jobs
move_jobs-take zero queue batch = rw append-nil
move_jobs-take (suc n) [] batch = rw append-nil
move_jobs-take (suc n) (job ∷ queue) batch =
    rw (move_jobs-take n queue (batch ++ job ∷ []), append_assoc)

-- The first locked section. `none` is the early return of a closing or closed facility.
unfoldable pub drain_take : State → Option State
unfolding move_jobs
drain_take s =
    if is_terminal s.phase
    then none
    else let (queue, batch) = move_jobs (min s.drain_budget (length s.queue)) s.queue s.batch in
      some (record s {
        queue = queue;
        batch = batch;
        active_batches = if is_empty batch then s.active_batches else s.active_batches + 1;
      })

-- `report_failure`; the second argument is what the handler does to its slot while it runs.
unfoldable pub report_failure : State → (ℕ → Slot ℕ → Slot ℕ) → Option State
report_failure s body =
    let (slot, handled) = invoke s.failure_handler body in
    if handled then some (record s { failure_handler = slot }) else none

-- One job: it returns, or throws and the failure goes to the handler.
unfoldable pub run_job : State → Bool → (ℕ → Slot ℕ → Slot ℕ) → Option State
unfolding report_failure
run_job s throws body = if throws then report_failure s body else some s

-- `batch_.clear()`
unfoldable pub clear_batch : State → State
clear_batch s = record s { batch = [] }

-- The second locked section, with the status of its `uv_async_send`.
unfoldable pub drain_finish : State → Bool → ℤ → Option (State × Bool)
unfolding begin_close_if_drained
drain_finish s had_work send =
    let t = record s {
      active_batches = if had_work then s.active_batches - 1 else s.active_batches;
    } in
    if not (is_empty t.queue) && is_neg send then none else some (begin_close_if_drained t)

module _ (throws : ℕ → Bool) (body : ℕ → Slot ℕ → Slot ℕ) where
  -- The loop over the batch.
  unfoldable pub run_batch : List ℕ → State → Option State
  run_batch [] s = some s
  run_batch (job ∷ rest) s = elim (run_job s (throws job) body) [
    | none ↦ none
    | some t ↦ run_batch rest t
  ]

  -- The rest of a drain after its first section.
  unfoldable pub drain_rest : State → ℤ → Option (State × Bool)
  unfolding run_batch clear_batch drain_finish
  drain_rest s send =
      let had_work = not (is_empty s.batch) in
      elim (run_batch s.batch s) [
        | none ↦ none
        | some t ↦ drain_finish (clear_batch t) had_work send
      ]

  unfoldable pub drain : State → ℤ → Option (State × Bool)
  unfolding drain_take drain_rest
  drain s send = elim (drain_take s) [ none ↦ some (s, false) | some t ↦ drain_rest t send ]
