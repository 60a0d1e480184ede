-- ===== src/Posting/Close.antt =====
-- A close of the posting facility ends: undisturbed drains run what is queued and close the handle.
use uvpp.Base.{
  ℕ, zero, suc, ◌*◌, ◌≤◌, ◌<◌, min, ◌≡◌, refl, ◌∙◌, ◌≢◌, inl, inr, Bool, true, false, Option, none,
  some, List, [], ◌∷◌, arith, if◌then◌else◌, Bool-cases, length, take, drop, length-drop, pos,
}
use uvpp.Core.Callback.Persistent.{Slot, invoke}
use uvpp.Posting.Drain.{drain, run_batch, run_job, drain_take, move_jobs-take, drain_rest}
use uvpp.Posting.State.{State, closing, draining, is_empty}
use uvpp.Posting.Wakeup.{take_some}

-- A handler that leaves its own slot alone.
abbrev keep_handler : ℕ → Slot ℕ → Slot ℕ
keep_handler h slot = slot

-- What one undisturbed drain leaves of a facility that is asked to close.
abbrev drained : State → State
drained s =
    let left = drop (min s.drain_budget (length s.queue)) s.queue in
    record s {
      queue = left;
      batch = [];
      active_batches = 0;
      phase = if is_empty left then closing else draining;
    }

-- The state after the first section of such a drain.
abbrev taken : State → State
taken s =
    let n : ℕ = min s.drain_budget (length s.queue) in
    record s { queue = drop n s.queue; batch = take n s.queue; active_batches = 1 }

drain_take-taken :
    (s : State)
    → s.phase ≡ draining
    → s.batch ≡ []
    → s.active_batches ≡ 0
    → 0 < s.drain_budget
    → s.queue ≢ []
    → drain_take s ≡ some (taken s)
unfolding drain_take
drain_take-taken s p b a d q =
    let n : ℕ = min s.drain_budget (length s.queue) in
    ground (arith, move_jobs-take n s.queue s.batch, take_some s.queue s.drain_budget)

drain_take-closing : (s : State) → s.phase ≡ closing → drain_take s ≡ none
unfolding drain_take
drain_take-closing s p = ground arith

length_nil : (xs : List ℕ) → length xs ≡ 0 → xs ≡ []
length_nil [] h = refl
length_nil (x ∷ xs) h = absurd (omega arith)

is_empty_nil : (xs : List ℕ) → is_empty xs ≡ true → xs ≡ []
is_empty_nil [] h = refl
is_empty_nil (x ∷ xs) h = cc

is_empty_ne : (xs : List ℕ) → is_empty xs ≡ false → xs ≢ []
is_empty_ne [] h = cc
is_empty_ne (x ∷ xs) h = λ e. cc

module _ (throws : ℕ → Bool) where
  -- So many undisturbed drains, each with an accepted wake-up.
  unfoldable pub drains : ℕ → State → Option State
  drains zero s = some s
  drains (suc rounds) s = elim (drain throws keep_handler s (pos 0)) [
    | none ↦ none
    | some (t, native) ↦ drains rounds t
  ]

  run_job-handled :
      (s : State) (h job : ℕ)
      → s.failure_handler.callback ≡ some h
      → run_job s (throws job) keep_handler ≡ some s
  unfolding run_job invoke
  run_job-handled s h job e = ground arith

  run_batch-handled :
      (jobs : List ℕ) (s : State) (h : ℕ)
      → s.failure_handler.callback ≡ some h
      → run_batch throws keep_handler jobs s ≡ some s
  unfolding run_batch
  run_batch-handled [] s h e = refl
  run_batch-handled (job ∷ rest) s h e =
      rw (run_job-handled s h job e, run_batch) (run_batch-handled rest s h e)

  drain_rest-taken :
      (s : State) (h : ℕ)
      → s.failure_handler.callback ≡ some h
      → s.phase ≡ draining
      → 0 < s.drain_budget
      → s.queue ≢ []
      → drain_rest throws keep_handler (taken s) (pos 0)
        ≡ some (drained s, is_empty (drained s).queue)
  unfolding drain_rest
  drain_rest-taken s h e p d q =
      let n : ℕ = min s.drain_budget (length s.queue) in
      ground
        (arith, run_batch-handled (take n s.queue) (taken s) h e, take_some s.queue s.drain_budget)

  drain-drained :
      (s : State) (h : ℕ)
      → s.failure_handler.callback ≡ some h
      → s.phase ≡ draining
      → s.batch ≡ []
      → s.active_batches ≡ 0
      → 0 < s.drain_budget
      → s.queue ≢ []
      → drain throws keep_handler s (pos 0) ≡ some (drained s, is_empty (drained s).queue)
  unfolding drain
  drain-drained s h e p b a d q =
      rw (drain_take-taken s p b a d q, drain) (drain_rest-taken s h e p d q)

  drain-closing :
      (s : State) → s.phase ≡ closing → drain throws keep_handler s (pos 0) ≡ some (s, false)
  unfolding drain
  drain-closing s p = rw (drain_take-closing s p, drain)

  drains_closing : (rounds : ℕ) (s : State) → s.phase ≡ closing → drains rounds s ≡ some s
  unfolding drains
  drains_closing zero s p = refl
  drains_closing (suc rounds) s p = rw (drain-closing s p, drains) (drains_closing rounds s p)

  -- A facility with jobs queued that was asked to close, with a positive drain budget and its loop
  -- thread outside a drain, has its native close begun, with the queue empty, after any number of
  -- undisturbed drains that covers the queue at the drain budget, whichever of the jobs throw. Its
  -- failure handler is set and leaves itself alone, and its wake-ups are sent.
  pub drains_close :
      (rounds : ℕ) (s : State) (h : ℕ)
      → s.failure_handler.callback ≡ some h
      → s.phase ≡ draining
      → s.batch ≡ []
      → s.active_batches ≡ 0
      → 0 < s.drain_budget
      → s.queue ≢ []
      → length s.queue ≤ rounds * s.drain_budget
      → drains rounds s
        ≡ some (record s { queue = []; batch = []; active_batches = 0; phase = closing })
  unfolding drains
  drains_close zero s h e p b a d q l = absurd (q (length_nil s.queue (ground arith)))
  drains_close (suc rounds) s h e p b a d q l =
      let n : ℕ = min s.drain_budget (length s.queue) in
      rw (drain-drained s h e p b a d q, drains)
        (elim (Bool-cases (is_empty (drop n s.queue))) [
          | inl all ↦
              drains_closing rounds (drained s) (rw all)
              ∙ rw (all, is_empty_nil (drop n s.queue) all)
          | inr more ↦
              drains_close rounds (drained s) h e (rw more) refl refl d
                (is_empty_ne (drop n s.queue) more) (grind (arith, length-drop n s.queue))
        ])
