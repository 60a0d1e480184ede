-- ===== src/Co/Cancellation.antt =====
-- include/uvpp/co/cancellation.hpp: an intrusive singly linked list of registrations. Registration
-- nodes live in a store from addresses to nodes; a null pointer is `none`.
pub mod View
pub mod Unlink
pub mod Stop
pub mod Spec
use uvpp.Base.{
  ℕ, zero, suc, Bool, true, false, not, Option, none, some, List, [], ◌∷◌, ◌==◌, if◌then◌else◌,
}

pub record Registration : Type 0 where
  pub attached : Bool  -- state_ != nullptr
  pub next : Option ℕ
  pub callback : Option ℕ
  pub context : Option ℕ

pub record Cancellation : Type 0 where
  pub head : Option ℕ
  pub stopped : Bool
  pub node : ℕ → Registration

abbrev pub update : (ℕ → Registration) → ℕ → Registration → ℕ → Registration
update node i r j = if i == j then r else node j

abbrev pub detached : Registration
detached = record { attached = false; next = none; callback = none; context = none }

unfoldable pub stop_requested : Cancellation → Bool
stop_requested s = s.stopped

-- `register_callback`: the new state, and whether the registration was made.
unfoldable pub register_callback : Cancellation → ℕ → ℕ → ℕ → Cancellation × Bool
register_callback s r callback context = if s.stopped then (s, false) else (
  record s {
    head = some r;
    node = update s.node r (record {
      attached = true;
      next = s.head;
      callback = some callback;
      context = some context;
    });
  },
  true,
)

-- `clear`
unfoldable pub clear : Cancellation → ℕ → Cancellation
clear s r = record s { node = update s.node r detached }

-- The pointer that `current` points to: `head_`, or the `next_` of a node.
unfoldable pub read : Cancellation → Option ℕ → Option ℕ
read s none = s.head
read s (some j) = (s.node j).next

unfoldable pub write : Cancellation → Option ℕ → Option ℕ → Cancellation
write s none p = record s { head = p }
write s (some j) p = record s { node = update s.node j (record (s.node j) { next = p }) }

-- The search loop of `unregister` and the assignment after it, with fuel for the rounds; `none` is
-- a null dereference or spent fuel.
unfoldable pub unlink : ℕ → Cancellation → ℕ → Option ℕ → Option Cancellation
unfolding read write
unlink zero s r current = none
unlink (suc fuel) s r current = elim (read s current) [
  | none ↦ none
  | some j ↦ if j == r then some (write s current (s.node r).next) else unlink fuel s r (some j)
]

unfoldable pub unregister : ℕ → Cancellation → ℕ → Option Cancellation
unfolding unlink clear
unregister fuel s r =
    if not (s.node r).attached
    then some s
    else elim (unlink fuel s r none) [ none ↦ none | some t ↦ some (clear t r) ]

-- The first part of `request_stop`: whether this call is the one that stops.
unfoldable pub begin_stop : Cancellation → Cancellation × Bool
begin_stop s = (record s { stopped = true }, not s.stopped)

-- One round of its loop: the node at the head is taken out, and its callback and context called.
unfoldable pub pop_stop : Cancellation → Option (Cancellation × ℕ × Option ℕ × Option ℕ)
unfolding clear
pop_stop s = elim s.head [
  | none ↦ none
  | some r ↦
      some
        (clear (record s { head = (s.node r).next }) r, r, (s.node r).callback, (s.node r).context)
]

-- A callback that the loop calls runs user code, which may unregister registrations (one made now
-- is refused): the argument `drops` gives those that the callback of each node unregisters.
unfoldable pub unregister_all : ℕ → Cancellation → List ℕ → Option Cancellation
unregister_all fuel s [] = some s
unregister_all fuel s (r ∷ rs) = elim (unregister fuel s r) [
  | none ↦ none
  | some t ↦ unregister_all fuel t rs
]

-- The loop, with fuel for its rounds; the list holds the nodes whose callbacks it called.
unfoldable pub stop_loop : ℕ → ℕ → (ℕ → List ℕ) → Cancellation → Option (Cancellation × List ℕ)
unfolding pop_stop unregister_all
stop_loop zero size drops s = none
stop_loop (suc fuel) size drops s = elim (pop_stop s) [
  | none ↦ some (s, [])
  | some (t, r, callback, context) ↦ elim (unregister_all size t (drops r)) [
    | none ↦ none
    | some u ↦ elim (stop_loop fuel size drops u) [
      | none ↦ none
      | some (v, called) ↦ some (v, r ∷ called)
    ]
  ]
]

unfoldable pub request_stop : ℕ → ℕ → (ℕ → List ℕ) → Cancellation → Option (Cancellation × List ℕ)
unfolding begin_stop stop_loop
request_stop fuel size drops s =
    let (t, first) = begin_stop s in
    elim first [ true ↦ stop_loop fuel size drops t | false ↦ some (t, []) ]
