-- ===== src/Posting/Order.antt =====
-- Bounds and order of the posting facility, over every interleaving of its threads.
use uvpp.Base.{
  ℕ, ◌+◌, ◌-◌, ◌≤◌, ◌<◌, min, ◌≡◌, refl, ◌∙◌, ◌≢◌, ◌⊎◌, inl, inr, Bool, true, false, not, some,
  List, [], ◌∷◌, ◌++◌, append-nil, append_assoc, arith, if◌then◌else◌, Bool-cases, length,
  length-append, take, drop, take-append-drop, length-take, length-drop, ℤ, is_neg,
}
use uvpp.Core.Error.{Errnos, returned}
use uvpp.Core.Callback.Persistent.{Slot}
use uvpp.Posting.State.{
  State, opened, is_terminal, post, pop_back-append, is_empty, request_close, add_close_waiter,
  on_close, set_failure_handler, construct, init,
}
use uvpp.Posting.System.{
  System, running, start, to_run, batches, after_post, idle, Pc, cleared, Reach, Step, clears,
  closes, finishes, here, next, posts, requests_close, runs, sets_handler, waits_close, wakes,
  wakes_late,
}
use uvpp.Posting.Drain.{drain_finish, drain_take, move_jobs-take, run_job, clear_batch}

-- Jobs of a batch that was not counted as active.
abbrev pub uncounted : Pc → List ℕ
uncounted idle = []
uncounted (running rest had_work) = if had_work then [] else rest
uncounted (cleared had_work) = []

abbrev pub is_running : Pc → Bool
is_running (running rest had_work) = true
is_running _ = false

-- What every reachable state satisfies.
pub record Inv (s : System) : Type 0 where
  pub bounded : length s.state.queue ≤ s.state.capacity
  pub batch_bounded : length s.state.batch ≤ s.state.drain_budget
  pub counted : s.state.active_batches ≡ batches s.pc
  pub ordered : s.accepted ≡ s.executed ++ (to_run s.pc ++ s.state.queue)
  pub emptied : is_terminal s.state.phase ≡ true → s.state.queue ≡ []
  pub ran : is_terminal s.state.phase ≡ true → to_run s.pc ≡ []
  pub idle_batch : is_running s.pc ≡ false → s.state.batch ≡ []
  pub worked : uncounted s.pc ≡ []

start-Inv : (s : State) → s.queue ≡ [] → s.batch ≡ [] → s.active_batches ≡ 0 → Inv (start s)
unfolding start
start-Inv s q b a = ground arith

post-queue :
    (e : Errnos) (s : State) (job : ℕ) (send : ℤ)
    → let (t, status) = post e s job send in
      (is_neg status ≡ true → t ≡ s)
      × (is_neg status ≡ false
          → (t ≡ record s { queue = s.queue ++ job ∷ [] })
            × (s.phase ≡ opened)
            × (length s.queue ≢ s.capacity))
unfolding post
post-queue e s job send = ground (arith, pop_back-append s.queue job)

request_close-same :
    (s : State)
    → let t = (request_close s).0 in
      (t.queue ≡ s.queue)
      × (t.batch ≡ s.batch)
      × (t.active_batches ≡ s.active_batches)
      × (t.capacity ≡ s.capacity)
      × (t.drain_budget ≡ s.drain_budget)
      × (is_terminal t.phase ≡ true
          → (is_terminal s.phase ≡ true) ⊎ ((s.queue ≡ []) × (s.active_batches ≡ 0)))
unfolding request_close
request_close-same s = ground arith

pub run_job-same :
    (s : State) (throws : Bool) (body : ℕ → Slot ℕ → Slot ℕ) (t : State)
    → run_job s throws body ≡ some t
    → t ≡ record s { failure_handler = t.failure_handler }
unfolding run_job
run_job-same s throws body t h = ground arith

pub drain_take-some :
    (s t : State)
    → drain_take s ≡ some t
    → (is_terminal s.phase ≡ false)
      × (t.batch ≡ s.batch ++ take (min s.drain_budget (length s.queue)) s.queue)
      × (t.queue ≡ drop (min s.drain_budget (length s.queue)) s.queue)
      × (t.active_batches ≡ (if is_empty t.batch then s.active_batches else s.active_batches + 1))
      × (t.capacity ≡ s.capacity)
      × (t.drain_budget ≡ s.drain_budget)
      × (t.phase ≡ s.phase)
unfolding drain_take
drain_take-some s t h =
    ground (arith, move_jobs-take (min s.drain_budget (length s.queue)) s.queue s.batch)

drain_finish-some :
    (s : State) (had_work : Bool) (send : ℤ) (t : State) (native : Bool)
    → drain_finish s had_work send ≡ some (t, native)
    → (t.queue ≡ s.queue)
      × (t.batch ≡ s.batch)
      × (t.active_batches ≡ (if had_work then s.active_batches - 1 else s.active_batches))
      × (t.capacity ≡ s.capacity)
      × (t.drain_budget ≡ s.drain_budget)
      × (is_terminal t.phase ≡ true → (is_terminal s.phase ≡ true) ⊎ (s.queue ≡ []))
unfolding drain_finish
drain_finish-some s had_work send t native h = ground arith

pub idle_facts : (p : Pc) (xs : List ℕ) → p ≡ idle → (to_run p ++ xs ≡ xs) × (batches p ≡ 0)
idle_facts idle xs h = (refl, refl)
idle_facts (running rest had_work) xs h = cc
idle_facts (cleared had_work) xs h = cc

quiet : (p : Pc) → batches p ≡ 0 → uncounted p ≡ [] → to_run p ≡ []
quiet idle b u = refl
quiet (running rest true) b u = ground arith
quiet (running rest false) b u = u
quiet (cleared had_work) b u = refl

post-Inv :
    (e : Errnos) (s : System) (job : ℕ) (send : ℤ)
    → Inv s
    → Inv (after_post s job (post e s.state job send))
post-Inv e s job send v = elim (Bool-cases (is_neg (post e s.state job send).1)) [
  | inl refused ↦ rw (refused, (post-queue e s.state job send).0 refused) v
  | inr taken ↦
      let (q, p, n) = (post-queue e s.state job send).1 taken in
      rw (taken, q)
        (record {
          bounded = omega (arith, v, length-append s.state.queue (job ∷ []));
          batch_bounded = v.batch_bounded;
          counted = v.counted;
          ordered = simp (v.ordered, append_assoc);
          emptied = λ t. ground arith;
          ran = v.ran;
          idle_batch = v.idle_batch;
          worked = v.worked;
        })
]

take-Inv :
    (s : System) (t : State)
    → s.pc ≡ idle
    → drain_take s.state ≡ some t
    → Inv s
    → Inv (record s { state = t; pc = running t.batch (not (is_empty t.batch)); wake = false })
take-Inv s t p h v =
    let n : ℕ = min s.state.drain_budget (length s.state.queue) in
    ground (
      arith,
      drain_take-some s.state t h,
      idle_facts s.pc s.state.queue p,
      take-append-drop n s.state.queue,
      length-take n s.state.queue,
      length-drop n s.state.queue,
    )

close-Inv : (s : System) → Inv s → Inv (record s { state = (request_close s.state).0 })
close-Inv s v = ground (arith, request_close-same s.state, quiet s.pc)

run-Inv :
    (s : System) (job : ℕ) (rest : List ℕ) (had_work throws : Bool) (body : ℕ → Slot ℕ → Slot ℕ)
    (t : State)
    → s.pc ≡ running (job ∷ rest) had_work
    → run_job s.state throws body ≡ some t
    → Inv s
    → Inv (record s { state = t; pc = running rest had_work; executed = s.executed ++ job ∷ [] })
run-Inv s job rest had_work throws body t p h v = ground (
  arith,
  run_job-same s.state throws body t h,
  append_assoc s.executed (job ∷ []) (rest ++ s.state.queue),
)

finish-Inv :
    (s : System) (had_work native : Bool) (send : ℤ) (t : State) (wake : Bool)
    → s.pc ≡ cleared had_work
    → drain_finish s.state had_work send ≡ some (t, native)
    → Inv s
    → Inv (record s { state = t; pc = idle; wake = wake })
finish-Inv s had_work native send t wake p h v =
    ground (arith, drain_finish-some s.state had_work send t native h)

-- Every step of the program keeps the invariant.
pub Step-Inv : (e : Errnos) {s t : System} → Step e s t → Inv s → Inv t
unfolding clear_batch on_close add_close_waiter set_failure_handler
Step-Inv e {s} (posts job send) v = post-Inv e s job send v
Step-Inv e {s} requests_close v = close-Inv s v
Step-Inv e {s} (waits_close h) v = ground arith
Step-Inv e {s} (sets_handler h) v = ground arith
Step-Inv e {s} (wakes t p w h) v = take-Inv s t p h v
Step-Inv e {s} (wakes_late p w h) v = ground arith
Step-Inv e {s} (runs job rest had_work throws body t p h) v =
    run-Inv s job rest had_work throws body t p h v
Step-Inv e {s} (clears had_work p) v = ground arith
Step-Inv e {s} (finishes had_work native send t p h) v = finish-Inv s had_work native send t _ p h v
Step-Inv e {s} (closes p c) v = ground arith

pub Reach-Inv : (e : Errnos) {s t : System} → Reach e s t → Inv s → Inv t
Reach-Inv e here v = v
Reach-Inv e (next r st) v = Step-Inv e st (Reach-Inv e r v)

-- A facility that `construct` made and `init` initialised, before anything happened.
pub construct-start :
    (loop capacity drain_budget : ℕ) (status : ℤ) (s t : State)
    → construct loop capacity drain_budget ≡ returned s
    → init s status ≡ returned t
    → Inv (start t)
      × (t.capacity ≡ capacity)
      × (t.drain_budget ≡ drain_budget)
      × (0 < drain_budget)
      × (t.phase ≡ opened)
unfolding construct init start
construct-start loop capacity drain_budget status s t c i = ground arith

-- In every reachable state of a constructed and initialised facility, with any threads posting and
-- closing in any interleaving: the accepted jobs are, in the order of their acceptance, the jobs
-- invoked so far, then those left of the current batch, then the queue, so that each accepted job
-- runs once and in order; the queue keeps within the capacity, the batch within the drain budget;
-- and once the native handle is being closed or is closed, all accepted jobs have run.
pub accepted-executed :
    (e : Errnos) (loop capacity drain_budget : ℕ) (status : ℤ) (s t : State) (u : System)
    → construct loop capacity drain_budget ≡ returned s
    → init s status ≡ returned t
    → Reach e (start t) u
    → (u.accepted ≡ u.executed ++ (to_run u.pc ++ u.state.queue))
      × (length u.state.queue ≤ u.state.capacity)
      × (length u.state.batch ≤ u.state.drain_budget)
      × ((is_terminal u.state.phase ≡ false) ⊎ (u.accepted ≡ u.executed))
accepted-executed e loop capacity drain_budget status s t u c i r =
    let v = Reach-Inv e r (construct-start loop capacity drain_budget status s t c i).0 in
    (
      v.ordered,
      v.bounded,
      v.batch_bounded,
      elim (Bool-cases (is_terminal u.state.phase)) [
        | inl h ↦ inr (v.ordered ∙ rw (v.ran h, v.emptied h) (append-nil u.executed))
        | inr h ↦ inl h
      ],
    )

-- In every reachable state of a constructed and initialised facility whose native handle is being
-- closed or is closed, every accepted job has run: a close drops none, whatever the producers do.
pub closed-executed :
    (e : Errnos) (loop capacity drain_budget : ℕ) (status : ℤ) (s t : State) (u : System)
    → construct loop capacity drain_budget ≡ returned s
    → init s status ≡ returned t
    → Reach e (start t) u
    → is_terminal u.state.phase ≡ true
    → u.accepted ≡ u.executed
closed-executed e loop capacity drain_budget status s t u c i r h =
    let v = Reach-Inv e r (construct-start loop capacity drain_budget status s t c i).0 in
    v.ordered ∙ rw (v.ran h, v.emptied h) (append-nil u.executed)
