-- ===== src/Posting/State.antt =====
-- loop_posting_state: its fields and its locked operations. A job is known by its identity. The
-- status that `uv_async_send` returns is the argument `send`; a `uv_close` that an operation makes
-- is the `true` in its result.
use uvpp.Core.Callback.Persistent
use uvpp.Base.{
  ℕ, ◌≡◌, refl, Bool, true, false, ◌&&◌, ◌||◌, not, Option, none, List, [], ◌∷◌, ◌++◌, ◌==◌,
  if◌then◌else◌, length, ℤ, pos, negsuc, is_neg,
}
use uvpp.Core.Error.{Errnos, Outcome, returned, thrown, logic_error, invalid_argument, operational}
use uvpp.Core.Callback.Persistent.{Slot}

pub data Phase : Type 0 where
  opened draining closing closed : Phase

abbrev pub is_opened : Phase → Bool
is_opened opened = true
is_opened _ = false

abbrev pub is_draining : Phase → Bool
is_draining draining = true
is_draining _ = false

-- `phase_ == phase::closing || phase_ == phase::closed`
abbrev pub is_terminal : Phase → Bool
is_terminal closing = true
is_terminal closed = true
is_terminal _ = false

abbrev pub is_closed : Phase → Bool
is_closed closed = true
is_closed _ = false

pub record State : Type 0 where
  pub loop : ℕ
  pub queue : List ℕ
  pub batch : List ℕ
  pub close_waiters : List ℕ
  pub failure_handler : Slot ℕ
  pub capacity : ℕ
  pub drain_budget : ℕ
  pub active_batches : ℕ
  pub phase : Phase
  pub initialized : Bool

abbrev pub is_empty : List ℕ → Bool
is_empty [] = true
is_empty (x ∷ xs) = false

-- std::deque::pop_back
abbrev pub pop_back : List ℕ → List ℕ
pop_back [] = []
pop_back (x ∷ []) = []
pop_back (x ∷ (y ∷ ys)) = x ∷ pop_back (y ∷ ys)

unfoldable pub construct : ℕ → ℕ → ℕ → Outcome State
unfolding Persistent.empty
construct loop capacity drain_budget =
    if capacity == 0 || drain_budget == 0
    then thrown invalid_argument
    else returned (record {
      loop = loop;
      queue = [];
      batch = [];
      close_waiters = [];
      failure_handler = Persistent.empty;
      capacity = capacity;
      drain_budget = drain_budget;
      active_batches = 0;
      phase = opened;
      initialized = false;
    })

-- `init`; the argument is the status of `uv_async_init`.
unfoldable pub init : State → ℤ → Outcome State
init s (negsuc n) = thrown (operational (negsuc n))
init s (pos n) = returned (record s { initialized = true })

module _ (e : Errnos) where
  -- `post`: the new state and the native status that it reports. A rejected job leaves the queue.
  unfoldable pub post : State → ℕ → ℤ → State × ℤ
  post s job send =
      if not (is_opened s.phase)
      then (s, negsuc e.ecanceled)
      else if length s.queue == s.capacity
      then (s, negsuc e.eagain)
      else let pushed = record s { queue = s.queue ++ job ∷ [] } in
        if is_neg send
        then (record pushed { queue = pop_back pushed.queue }, send)
        else (pushed, send)

-- `begin_close_if_drained_locked`
unfoldable pub begin_close_if_drained : State → State × Bool
begin_close_if_drained s =
    if not (is_draining s.phase) || (not (is_empty s.queue) || not (s.active_batches == 0))
    then (s, false)
    else (record s { phase = closing }, true)

unfoldable pub request_close : State → State × Bool
unfolding begin_close_if_drained
request_close s =
    begin_close_if_drained (if is_opened s.phase then record s { phase = draining } else s)

unfoldable pub is_finished : State → Bool
is_finished s = is_closed s.phase

unfoldable pub belongs_to : State → ℕ → Bool
belongs_to s execution_loop = s.loop == execution_loop

unfoldable pub add_close_waiter : State → ℕ → State × Bool
add_close_waiter s continuation =
    if is_closed s.phase
    then (s, false)
    else (record s { close_waiters = s.close_waiters ++ continuation ∷ [] }, true)

unfoldable pub set_failure_handler : State → Option ℕ → State
unfolding Persistent.replace
set_failure_handler s handler = record s {
  failure_handler = Persistent.replace s.failure_handler handler;
}

-- `on_close`: the new state, and the continuations that are resumed in order.
unfoldable pub on_close : State → State × List ℕ
unfolding Persistent.replace
on_close s = (
  record s {
    phase = closed;
    close_waiters = [];
    failure_handler = Persistent.replace s.failure_handler none;
  },
  s.close_waiters,
)

-- close_awaiter::await_suspend on the loop `current`: the new state, whether the task suspends,
-- and whether `uv_close` was called.
unfoldable pub await_close : State → ℕ → ℕ → Outcome (State × Bool × Bool)
unfolding belongs_to add_close_waiter request_close
await_close s current continuation =
    if not (belongs_to s current)
    then thrown logic_error
    else let (waiting, added) = add_close_waiter s continuation in
      if added
      then (let (requested, native) = request_close waiting in returned (requested, true, native))
      else returned (waiting, false, false)

-- ~loop_posting_state and ~loop_posting: whether the destructor terminates the process.
unfoldable pub destroy_terminates : State → Bool
unfolding is_finished
destroy_terminates s = s.initialized && not (is_finished s)

pub pop_back-append : (xs : List ℕ) (x : ℕ) → pop_back (xs ++ x ∷ []) ≡ xs
pop_back-append [] x = refl
pop_back-append (y ∷ []) x = refl
pop_back-append (y ∷ (z ∷ zs)) x = rw (pop_back-append (z ∷ zs) x)
