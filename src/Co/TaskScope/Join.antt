-- ===== src/Co/TaskScope/Join.antt =====
-- What happens to a task scope until its join finishes, in any order of spawns, completions and
-- stop requests, completions inside the stop callbacks of another one included.
use uvpp.Base.{
  ℕ, zero, suc, ◌+◌, ◌≤◌, ◌≡◌, refl, ap, ◌≢◌, Bool, true, false, ◌&&◌, not, Option, none, some,
  List, [], ◌∷◌, ◌++◌, arith, ◌==◌, if◌then◌else◌, is_some, length,
}
use uvpp.Core.Error.{Exn, returned}
use uvpp.Co.TaskScope.{
  Child, TaskScope, construct, spawn, await_join, mark, request_stop, complete_begin, complete_end,
  all_completed, handles, finish_join,
}

-- The child at a position is there and has not completed.
abbrev pub is_pending : ℕ → List Child → Bool
is_pending i [] = false
is_pending zero (c ∷ cs) = not c.completed
is_pending (suc i) (c ∷ cs) = is_pending i cs

-- A scope with the handles spawned into it, the exceptions of its children in the order of their
-- completions, and how often its join was resumed.
pub record Run : Type 0 where
  pub scope : TaskScope
  pub spawned : List ℕ
  pub failures : List Exn
  pub resumed : List ℕ

abbrev pub with_failure : List Exn → Option Exn → List Exn
with_failure xs none = xs
with_failure xs (some x) = xs ++ x ∷ []

abbrev pub with_resumed : List ℕ → Option ℕ → List ℕ
with_resumed hs none = hs
with_resumed hs (some h) = h ∷ hs

pub data Step (r : Run) : Run → Type 0 where
  spawns :
      (h : ℕ) (t : TaskScope)
      → spawn r.scope (some h) false ≡ returned t
      → Step r (record r { scope = t; spawned = r.spawned ++ h ∷ [] })
  joins :
      (h : ℕ) (t : TaskScope) (b : Bool)
      → await_join r.scope r.scope.loop h ≡ returned (t, b)
      → Step r (record r { scope = t })
  stops : Step r (record r { scope = request_stop r.scope })
  completes :
      (i : ℕ) (failure : Option Exn)
      → is_pending i r.scope.children ≡ true
      → Step r (record r {
        scope = complete_begin r.scope i failure;
        failures = with_failure r.failures failure;
      })
  unwinds :
      r.scope.completion_depth ≢ 0
      → Step r (record r {
        scope = (complete_end r.scope).0;
        resumed = with_resumed r.resumed (complete_end r.scope).1;
      })

pub data Reach (r : Run) : Run → Type 0 where
  start : Reach r r
  next : {m n : Run} → Reach r m → Step m n → Reach r n

unfoldable pub born : ℕ → Run
unfolding construct
born loop = record { scope = construct loop; spawned = []; failures = []; resumed = [] }

pending : List Child → ℕ
pending [] = 0
pending (c ∷ cs) = if c.completed then pending cs else suc (pending cs)

pending-mark :
    (i : ℕ) (cs : List Child) → is_pending i cs ≡ true → pending cs ≡ suc (pending (mark i cs))
unfolding mark pending
pending-mark zero (c ∷ cs) p = ground arith
pending-mark (suc i) (c ∷ cs) p = let h = pending-mark i cs p in ground arith
pending-mark zero [] p = ground arith
pending-mark (suc i) [] p = ground arith

pending-snoc :
    (cs : List Child) (h : ℕ)
    → pending (cs ++ record { handle = h; completed = false } ∷ []) ≡ suc (pending cs)
unfolding pending
pending-snoc [] h = refl
pending-snoc (c ∷ cs) h = let p = pending-snoc cs h in ground arith

handles-mark : (i : ℕ) (cs : List Child) → handles (mark i cs) ≡ handles cs
unfolding mark
handles-mark zero [] = refl
handles-mark (suc i) [] = refl
handles-mark zero (c ∷ cs) = refl
handles-mark (suc i) (c ∷ cs) = ap (λ (hs : List ℕ). c.handle ∷ hs) (handles-mark i cs)

handles-snoc : (cs : List Child) (c : Child) → handles (cs ++ c ∷ []) ≡ handles cs ++ c.handle ∷ []
handles-snoc [] c = refl
handles-snoc (d ∷ cs) c = rw (handles-snoc cs c)

pending-all_completed : (cs : List Child) → pending cs ≡ 0 → all_completed cs ≡ true
unfolding pending
pending-all_completed [] z = refl
pending-all_completed (c ∷ cs) z = let f = pending-all_completed cs in ground arith

abbrev pub first_of : List Exn → Option Exn
first_of [] = none
first_of (x ∷ xs) = some x

first_of-with_failure :
    (xs : List Exn) (x : Exn)
    → first_of (xs ++ x ∷ []) ≡ (if is_some (first_of xs) then first_of xs else some x)
first_of-with_failure [] x = refl
first_of-with_failure (y ∷ xs) x = refl

abbrev pub one_if : Bool → ℕ
one_if b = if b then 1 else 0

record Inv (r : Run) : Type 0 where
  counted : r.scope.active_children ≡ pending r.scope.children
  kept : handles r.scope.children ≡ r.spawned
  failed : r.scope.first_failure ≡ first_of r.failures
  stopped : is_some r.scope.first_failure ≡ true → r.scope.halted ≡ true
  waiting :
      is_some r.scope.join_continuation ≡ true
      → (r.scope.active_children == 0 && r.scope.completion_depth == 0) ≡ false
  once : length r.resumed + one_if (is_some r.scope.join_continuation) ≤ one_if r.scope.join_started
  over : length r.resumed ≢ 0 → (r.scope.active_children ≡ 0) × (r.scope.completion_depth ≡ 0)

Step-Inv : {r q : Run} → Step r q → Inv r → Inv q
unfolding spawn await_join request_stop complete_begin complete_end
Step-Inv {r} (spawns h t e) v =
    let p = pending-snoc r.scope.children h in
    let k = handles-snoc r.scope.children (record { handle = h; completed = false }) in ground arith
Step-Inv {r} (joins h t b e) v = ground arith
Step-Inv {r} stops v = ground arith
Step-Inv {r} (completes i none p) v =
    let m = pending-mark i r.scope.children p in
    let k = handles-mark i r.scope.children in ground arith
Step-Inv {r} (completes i (some x) p) v =
    let m = pending-mark i r.scope.children p in
    let k = handles-mark i r.scope.children in
    let f = first_of-with_failure r.failures x in ground arith
Step-Inv {r} (unwinds d) v = ground arith

Reach-Inv : {r q : Run} → Reach r q → Inv r → Inv q
Reach-Inv start v = v
Reach-Inv (next p s) v = Step-Inv s (Reach-Inv p v)

born-Inv : (loop : ℕ) → Inv (born loop)
unfolding born pending
born-Inv loop = ground arith

-- The end of a join that finds every child completed and no completion under way.
finished :
    (r : Run)
    → Inv r
    → r.scope.active_children ≡ 0
    → r.scope.completion_depth ≡ 0
    → finish_join r.scope
      ≡ some (record {
        scope = record (r.scope) { children = []; first_failure = none };
        destroyed = r.spawned;
        rethrown = first_of r.failures;
      })
unfolding finish_join
finished r v a d = let c = pending-all_completed r.scope.children in let k = v.kept in ground arith

-- From the resumption of a scope's join on, in any order of steps before it, `finish_join` holds
-- its assertions, destroys the frames of exactly the tasks that were spawned, in order, and
-- rethrows the failure of the first child that failed, if one did.
pub join_finishes :
    (loop : ℕ) (r : Run)
    → Reach (born loop) r
    → r.resumed ≢ []
    → finish_join r.scope
      ≡ some (record {
        scope = record (r.scope) { children = []; first_failure = none };
        destroyed = r.spawned;
        rethrown = first_of r.failures;
      })
join_finishes loop r p n =
    let v = Reach-Inv p (born-Inv loop) in finished r v (ground arith) (ground arith)

-- As soon as a child has failed, in any order of steps, the scope's stop is requested, whichever
-- child failed and whatever the others do; the failure kept is the first one in the order of
-- completions.
pub failure_stops :
    (loop : ℕ) (r : Run) (x : Exn) (xs : List Exn)
    → Reach (born loop) r
    → r.failures ≡ x ∷ xs
    → (r.scope.halted ≡ true) × (r.scope.first_failure ≡ some x)
failure_stops loop r x xs p f = let v = Reach-Inv p (born-Inv loop) in (ground arith, ground arith)

-- A join that does not suspend, outside of any completion, finishes at once: `finish_join` holds
-- its assertions, destroys the frames of exactly the spawned tasks and rethrows the first failure.
pub join_at_once :
    (loop h : ℕ) (r : Run) (t : TaskScope)
    → Reach (born loop) r
    → r.scope.completion_depth ≡ 0
    → await_join r.scope r.scope.loop h ≡ returned (t, false)
    → finish_join t
      ≡ some (record {
        scope = record t { children = []; first_failure = none };
        destroyed = r.spawned;
        rethrown = first_of r.failures;
      })
unfolding await_join
join_at_once loop h r t p d e =
    let s = joins h t false e in
    finished (record r { scope = t }) (Reach-Inv (next p s) (born-Inv loop)) (ground arith)
      (ground arith)
