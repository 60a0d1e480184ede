-- ===== src/Co/Spawn/Destiny.antt =====
-- What happens to a spawned root: its body may end, its handle be used, moved on and released, and
-- joins be awaited and dropped, in any order that the handle allows; the stop callbacks of a
-- release run between its two parts.
use uvpp.Base.{
  ℕ, ◌≡◌, ◌≢◌, Bool, true, false, ◌&&◌, ◌||◌, not, Option, none, some, List, [], ◌∷◌, ◌++◌,
  append-nil, append_assoc, arith, if◌then◌else◌, is_some,
}
use uvpp.Core.Error.{Exn, Outcome, returned, thrown}
use uvpp.Co.Task.{Frame}
use uvpp.Co.Spawn.{
  Root, await_join, deliver_begin, deliver_end, drop_join, end_root, is_shared, join, release_begin,
  release_end, request_stop, rethrow, spawn, take,
}

-- Where the root is: in its body, in the delivery of its completion with the joiners that are still
-- to be resumed, or past it.
pub data Pc : Type 0 where
  body over : Pc
  delivering : List ℕ → Pc

-- Where the public handle is: with the user, inside its release, or released.
pub data Public : Type 0 where
  holding releasing gone : Public

abbrev pub is_holding : Public → Bool
is_holding holding = true
is_holding _ = false

abbrev pub is_gone : Public → Bool
is_gone gone = true
is_gone _ = false

abbrev pub is_over : Pc → Bool
is_over over = true
is_over _ = false

abbrev pub is_body : Pc → Bool
is_body body = true
is_body _ = false

abbrev pub to_wake : Pc → List ℕ
to_wake (delivering hs) = hs
to_wake _ = []

-- A root with the joiners that suspended and those that were resumed, in order.
pub record Run (A : Type 0) : Type 0 where
  pub root : Root A
  pub pc : Pc
  pub handle : Public
  pub joined : List ℕ
  pub woken : List ℕ

abbrev pub exceptions : Option Exn → List Exn
exceptions none = []
exceptions (some x) = x ∷ []

module _ {A : Type 0} where
  pub data Step (r : Run A) : Run A → Type 0 where
    joins : r.handle ≡ holding → Step r (record r { root = join r.root })
    awaits :
        (h : ℕ) (t : Root A) (suspended : Bool)
        → r.root.awaiters ≢ 0
        → await_join r.root r.root.loop h ≡ returned (t, suspended)
        → Step r
            (record r { root = t; joined = if suspended then r.joined ++ h ∷ [] else r.joined })
    drops_join :
        (t : Root A)
        → r.root.awaiters ≢ 0
        → drop_join r.root ≡ some t
        → Step r (record r { root = t })
    observes : r.handle ≡ holding → Step r (record r { root = (rethrow r.root).0 })
    takes : r.handle ≡ holding → Step r (record r { root = (take r.root).0 })
    stops : r.handle ≡ holding → Step r (record r { root = request_stop r.root })
    ends :
        (out : Outcome A)
        → r.pc ≡ body
        → Step r (record r {
          root = (deliver_begin (end_root r.root out)).0;
          pc = delivering (deliver_begin (end_root r.root out)).1;
        })
    wakes :
        (h : ℕ) (rest : List ℕ)
        → r.pc ≡ delivering (h ∷ rest)
        → Step r (record r { pc = delivering rest; woken = r.woken ++ h ∷ [] })
    delivers :
        (t : Root A)
        → r.pc ≡ delivering []
        → deliver_end r.root ≡ some t
        → Step r (record r { root = t; pc = over })
    releases :
        r.handle ≡ holding → Step r (record r { root = release_begin r.root; handle = releasing })
    lets_go :
        (t : Root A)
        → r.handle ≡ releasing
        → release_end r.root ≡ some t
        → Step r (record r { root = t; handle = gone })

  pub data Reach (r : Run A) : Run A → Type 0 where
    start : Reach r r
    next : {m n : Run A} → Reach r m → Step m n → Reach r n

  abbrev pub spawned : Root A → Run A
  spawned s = record { root = s; pc = body; handle = holding; joined = []; woken = [] }

  record Inv (r : Run A) : Type 0 where
    running : r.root.running ≡ not (is_over r.pc)
    completed : r.root.completed ≡ not (is_body r.pc)
    done : r.root.frame.done ≡ not (is_body r.pc)
    held : r.root.held ≡ not (is_gone r.handle)
    fresh :
        is_body r.pc ≡ true → (r.root.failure_observed ≡ false) × (r.root.failure_reported ≡ false)
    reported :
        r.root.reports ≡ (if r.root.failure_reported then exceptions r.root.frame.failure else [])
    apart : (r.root.failure_observed && r.root.failure_reported) ≡ false
    kept :
        is_holding r.handle ≡ true → (r.root.failure_reported ≡ false) × (r.root.abandoned ≡ false)
    settled :
        is_holding r.handle ≡ false
        → (r.root.abandoned && not (is_over r.pc)) ≡ false
        → is_some r.root.frame.failure ≡ true
        → (r.root.failure_observed || r.root.failure_reported) ≡ true
    early : (is_holding r.handle || r.root.abandoned) ≡ false → is_body r.pc ≡ false
    order : r.joined ≡ r.woken ++ (to_wake r.pc ++ r.root.joiners)
    left : is_body r.pc ≡ false → r.root.joiners ≡ []
    counted : r.root.destroyed ≡ (if is_shared r.root then 0 else 1)

  spawned-Inv :
      (loop at : ℕ) (f : Frame A) (s : Root A)
      → f.failure ≡ none
      → f.done ≡ false
      → spawn loop (some f) at ≡ returned s
      → Inv (spawned s)
  unfolding spawn
  spawned-Inv loop at f s n d e = ground arith

  awaits-Inv :
      (r : Run A) (h : ℕ) (t : Root A) (suspended : Bool)
      → await_join r.root r.root.loop h ≡ returned (t, suspended)
      → Inv r
      → Inv (record r { root = t; joined = if suspended then r.joined ++ h ∷ [] else r.joined })
  unfolding await_join
  awaits-Inv r h t true e v = ground (arith, append_assoc r.woken r.root.joiners (h ∷ []))
  awaits-Inv r h t false e v = ground arith

  ends-Inv :
      (r : Run A) (out : Outcome A)
      → r.pc ≡ body
      → Inv r
      → Inv (record r {
        root = (deliver_begin (end_root r.root out)).0;
        pc = delivering (deliver_begin (end_root r.root out)).1;
      })
  unfolding end_root deliver_begin
  ends-Inv r (returned a) p v = ground (arith, append-nil r.root.joiners)
  ends-Inv r (thrown x) p v = ground (arith, append-nil r.root.joiners)

  wakes-Inv :
      (r : Run A) (h : ℕ) (rest : List ℕ)
      → r.pc ≡ delivering (h ∷ rest)
      → Inv r
      → Inv (record r { pc = delivering rest; woken = r.woken ++ h ∷ [] })
  wakes-Inv r h rest p v = ground (arith, append_assoc r.woken (h ∷ []) (rest ++ r.root.joiners))

  releases-Inv :
      (r : Run A)
      → r.handle ≡ holding
      → Inv r
      → Inv (record r { root = release_begin r.root; handle = releasing })
  unfolding release_begin
  releases-Inv r p v = ground arith

  delivers-Inv :
      (r : Run A) (t : Root A)
      → r.pc ≡ delivering []
      → deliver_end r.root ≡ some t
      → Inv r
      → Inv (record r { root = t; pc = over })
  unfolding deliver_end
  delivers-Inv r t p e v = ground arith

  Step-Inv : (r : Run A) {n : Run A} → Inv r → Step r n → Inv n
  unfolding join drop_join rethrow take request_stop release_end
  Step-Inv r v (joins p) = ground arith
  Step-Inv r v (awaits h t b p e) = awaits-Inv r h t b e v
  Step-Inv r v (drops_join t p e) = ground arith
  Step-Inv r v (observes p) = ground arith
  Step-Inv r v (takes p) = ground arith
  Step-Inv r v (stops p) = ground arith
  Step-Inv r v (ends out p) = ends-Inv r out p v
  Step-Inv r v (wakes h rest p) = wakes-Inv r h rest p v
  Step-Inv r v (delivers t p e) = delivers-Inv r t p e v
  Step-Inv r v (releases p) = releases-Inv r p v
  Step-Inv r v (lets_go t p e) = ground arith

  Reach-Inv : {r q : Run A} → Reach r q → Inv r → Inv q
  Reach-Inv start v = v
  Reach-Inv (next {m = m} p s) v = Step-Inv m (Reach-Inv p v) s

  module _ (loop at : ℕ) (f : Frame A) (s : Root A) (r : Run A) (unfailed : f.failure ≡ none)
      (unfinished : f.done ≡ false) (e : spawn loop (some f) at ≡ returned s)
      (p : Reach (spawned s) r) where
    invariant : Inv r
    invariant = Reach-Inv p (spawned-Inv loop at f s unfailed unfinished e)

    -- A task that has not failed and not ended is spawned, and then anything happens that its
    -- handle allows. At every moment, the joiners that suspended are, in order, those that were
    -- resumed followed by those that are still to be: none is resumed twice, lost or overtaken.
    -- The handler of unobserved failures was given at most one exception, and only when the
    -- failure was marked as reported, which excludes that the handle has observed it.
    pub joined_once :
        (r.joined ≡ r.woken ++ (to_wake r.pc ++ r.root.joiners))
        × (r.root.reports
            ≡ (if r.root.failure_reported then exceptions r.root.frame.failure else []))
        × ((r.root.failure_observed && r.root.failure_reported) ≡ false)
    joined_once = (invariant.order, invariant.reported, invariant.apart)

    -- A task that has not failed and not ended is spawned, and then anything happens that its
    -- handle allows, up to a moment at which its handle has been given up and its completion has
    -- been delivered. Then every joiner that suspended was resumed, once and in order, and the
    -- failure of the root has gone to exactly one place: when the handle observed it, nothing was
    -- reported, and when it did not, the handler of unobserved failures was given it once, if there
    -- is one.
    pub failure_settled :
        is_holding r.handle ≡ false
        → is_over r.pc ≡ true
        → (r.joined ≡ r.woken)
          × (r.root.reports
              ≡ (if r.root.failure_observed then [] else exceptions r.root.frame.failure))
    failure_settled g o =
        let v = invariant in
        (
          ground (arith, append-nil r.woken, v.order, v.left),
          ground (arith, v.reported, v.apart, v.settled g (ground arith)),
        )

    -- A task that has not failed and not ended is spawned, and then anything happens that its
    -- handle allows. The frame is destroyed exactly once, when no handle, completion and join
    -- refers to it any more, and it has ended then. No end of a reference terminates the program:
    -- not the completion's once the body has ended, not the handle's and not a join's.
    pub frame_destroyed_once :
        (r.root.destroyed ≡ (if is_shared r.root then 0 else 1))
        × ((is_shared r.root || r.root.frame.done) ≡ true)
        × ((is_body r.pc || is_some (deliver_end r.root)) ≡ true)
        × (is_some (release_end r.root) ≡ true)
        × (is_some (drop_join r.root) ≡ true)
    unfolding deliver_end release_end drop_join
    frame_destroyed_once =
        let v = invariant in
        (
          v.counted,
          ground (arith, v.running, v.done),
          ground (arith, v.running, v.done),
          ground (arith, v.running, v.done),
          ground (arith, v.running, v.done),
        )
