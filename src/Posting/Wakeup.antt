-- ===== src/Posting/Wakeup.antt =====
-- No wake-up of the posting facility is lost, and its close cannot be stuck.
use uvpp.Base.{
  ℕ, zero, suc, ◌<◌, min, ◌≡◌, refl, ◌≢◌, ◌⊎◌, inl, inr, Bool, true, false, ◌||◌, not, none, some,
  List, [], ◌∷◌, arith, length, take, length-take, ℤ,
}
use uvpp.Core.Error.{Errnos, returned}
use uvpp.Posting.Order.{Inv, run_job-same, Step-Inv, construct-start, drain_take-some, idle_facts}
use uvpp.Posting.State.{
  State, add_close_waiter, draining, is_empty, on_close, pop_back-append, post, request_close,
  set_failure_handler, construct, init, opened,
}
use uvpp.Posting.System.{
  Step, System, after_post, batches, cleared, clears, closes, finishes, idle, is_idle, posts,
  requests_close, running, runs, sets_handler, waits_close, wakes, wakes_late, Reach, here, next,
  start,
}
use uvpp.Posting.Drain.{clear_batch, drain_finish, drain_take}

-- What every reachable state satisfies, beside the order of its jobs.
pub record IsAwake (s : System) : Type 0 where
  pub budgeted : 0 < s.state.drain_budget
  pub signalled : is_idle s.pc ≡ true → s.state.queue ≢ [] → s.wake ≡ true
  pub pending : s.state.phase ≡ draining → s.state.queue ≡ [] → s.state.active_batches ≢ 0
  pub counted : s.state.active_batches ≡ batches s.pc

post-IsAwake :
    (e : Errnos) (s : System) (job : ℕ) (send : ℤ)
    → IsAwake s
    → IsAwake (after_post s job (post e s.state job send))
unfolding post
post-IsAwake e s job send v = ground (arith, pop_back-append s.state.queue job)

request_close-IsAwake :
    (s : System) → IsAwake s → IsAwake (record s { state = (request_close s.state).0 })
unfolding request_close
request_close-IsAwake s v = ground arith

pub take_some :
    (xs : List ℕ) (budget : ℕ)
    → 0 < budget
    → xs ≢ []
    → is_empty (take (min budget (length xs)) xs) ≡ false
take_some [] budget h n = absurd (n refl)
take_some (x ∷ xs) zero h n = elim h [ ]
take_some (x ∷ xs) (suc budget) h n =
    let e : min (suc budget) (suc (length xs)) ≡ suc (min budget (length xs)) = omega arith in
    rw e refl

take-IsAwake :
    (s : System) (t : State)
    → s.pc ≡ idle
    → drain_take s.state ≡ some t
    → s.state.batch ≡ []
    → IsAwake s
    → IsAwake (record s { state = t; pc = running t.batch (not (is_empty t.batch)); wake = false })
take-IsAwake s t p h b v =
    let n : ℕ = min s.state.drain_budget (length s.state.queue) in
    ground (
      arith,
      drain_take-some s.state t h,
      idle_facts s.pc s.state.queue p,
      length-take n s.state.queue,
      take_some s.state.queue s.state.drain_budget,
    )

late-IsAwake :
    (s : System)
    → Inv s
    → drain_take s.state ≡ none
    → IsAwake s
    → IsAwake (record s { wake = false })
unfolding drain_take
late-IsAwake s i h v = ground arith

finish-IsAwake :
    (s : System) (had_work native : Bool) (send : ℤ) (t : State)
    → s.pc ≡ cleared had_work
    → drain_finish s.state had_work send ≡ some (t, native)
    → IsAwake s
    → IsAwake (record s { state = t; pc = idle; wake = s.wake || not (is_empty s.state.queue) })
unfolding drain_finish
finish-IsAwake s had_work native send t p h v = ground arith

pub Step-IsAwake : (e : Errnos) {s t : System} → Step e s t → Inv s → IsAwake s → IsAwake t
unfolding clear_batch on_close add_close_waiter set_failure_handler
Step-IsAwake e {s} (posts job send) i v = post-IsAwake e s job send v
Step-IsAwake e {s} requests_close i v = request_close-IsAwake s v
Step-IsAwake e {s} (waits_close h) i v = ground arith
Step-IsAwake e {s} (sets_handler h) i v = ground arith
Step-IsAwake e {s} (wakes t p w h) i v = take-IsAwake s t p h (i.idle_batch (ground arith)) v
Step-IsAwake e {s} (wakes_late p w h) i v = late-IsAwake s i h v
Step-IsAwake e {s} (runs job rest had_work throws body t p h) i v =
    ground (arith, run_job-same s.state throws body t h)
Step-IsAwake e {s} (clears had_work p) i v = ground arith
Step-IsAwake e {s} (finishes had_work native send t p h) i v =
    finish-IsAwake s had_work native send t p h v
Step-IsAwake e {s} (closes p c) i v = ground arith

pub Reach-IsAwake :
    (e : Errnos) {s t : System} → Reach e s t → Inv s → IsAwake s → Inv t × IsAwake t
Reach-IsAwake e here i v = (i, v)
Reach-IsAwake e (next r st) i v =
    let (j, w) = Reach-IsAwake e r i v in (Step-Inv e st j, Step-IsAwake e st j w)

start-IsAwake :
    (s : State)
    → 0 < s.drain_budget
    → s.queue ≡ []
    → s.active_batches ≡ 0
    → s.phase ≡ opened
    → IsAwake (start s)
unfolding start
start-IsAwake s b q a p = ground arith

-- No wake-up is lost and no close is stuck: in every reachable state in which the loop thread is
-- outside a drain, a queue that holds a job has a wake-up pending on the async handle, and so has
-- a facility that was asked to close and whose native close has not begun.
pub no_lost_wakeup :
    (e : Errnos) (loop capacity drain_budget : ℕ) (status : ℤ) (s t : State) (u : System)
    → construct loop capacity drain_budget ≡ returned s
    → init s status ≡ returned t
    → Reach e (start t) u
    → u.pc ≡ idle
    → (u.state.queue ≢ [] ⊎ u.state.phase ≡ draining)
    → u.wake ≡ true
unfolding construct init
no_lost_wakeup e loop capacity drain_budget status s t u c i r p q =
    let (v, awake) =
      Reach-IsAwake e r (construct-start loop capacity drain_budget status s t c i).0
        (start-IsAwake t (ground arith) (ground arith) (ground arith) (ground arith)) in
    elim q [ inl n ↦ ground arith | inr d ↦ ground arith ]
