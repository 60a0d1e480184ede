-- ===== src/Co/ResourceScope.antt =====
-- include/uvpp/co/resource_scope.hpp: the owners adopted by a scope and their ordered cleanup.
pub mod Once
pub mod Ordered
use uvpp.Base.{
  ℕ, Bool, true, false, not, Option, none, some, List, [], ◌∷◌, ◌++◌, ◌==◌, if◌then◌else◌, ℤ,
  is_neg,
}
use uvpp.Core.Error.{Outcome, logic_error, operational, returned, thrown}

pub data Kind : Type 0 where
  tcp_connection tcp_listener udp_socket pipe_connection pipe_listener file : Kind

pub data CleanupPhase : Type 0 where
  stop_admission close_resources : CleanupPhase

-- phase() of the record classes
unfoldable pub phase_of : Kind → CleanupPhase
phase_of tcp_connection = close_resources
phase_of tcp_listener = stop_admission
phase_of udp_socket = close_resources
phase_of pipe_connection = close_resources
phase_of pipe_listener = stop_admission
phase_of file = close_resources

abbrev pub same_phase : CleanupPhase → CleanupPhase → Bool
same_phase stop_admission stop_admission = true
same_phase stop_admission close_resources = false
same_phase close_resources stop_admission = false
same_phase close_resources close_resources = true

-- An owner before its adoption.
pub record Owner : Type 0 where
  pub kind : Kind
  pub id : ℕ
  pub loop : ℕ

-- A record of the scope: `owned` says that its owner pointer is not null, `accessible` that its
-- access token points to the owner, `released` is the flag of a file record.
pub record Resource : Type 0 where
  pub kind : Kind
  pub id : ℕ
  pub owned : Bool
  pub accessible : Bool
  pub released : Bool

pub data CleanupState : Type 0 where
  opened active interrupted finished : CleanupState

abbrev pub is_opened : CleanupState → Bool
is_opened opened = true
is_opened _ = false

-- A retired record leaves an empty slot.
pub record Scope : Type 0 where
  pub loop : ℕ
  pub resources : List (Option Resource)
  pub state : CleanupState

unfoldable pub construct : ℕ → Scope
construct loop = record { loop = loop; resources = []; state = opened }

-- The six `own` functions.
unfoldable pub own : Scope → Owner → Outcome Scope
own s o =
    if not (is_opened s.state)
    then thrown logic_error
    else if not (o.loop == s.loop)
    then thrown logic_error
    else returned (record s {
      resources =
          s.resources
          ++ some (record {
            kind = o.kind;
            id = o.id;
            owned = true;
            accessible = true;
            released = false;
          })
            ∷ [];
    })

-- A registration's use of its owner (a view's operation, or `accept`).
unfoldable pub use_registration : Resource → Outcome ℕ
use_registration r = if not r.accessible then thrown logic_error else returned r.id

-- What the environment decides about the owners while one attempt of `finish()` runs: whether an
-- operation is active when its record's turn comes, and the status its close ends with.
pub record Environment : Type 0 where
  pub busy : ℕ → Bool
  pub closing : ℕ → ℤ

-- The two pointers are cleared.
abbrev pub retire : Resource → Resource
retire r = record r { owned = false; accessible = false }

-- finish() of a listener record, which never looks for active operations.
unfoldable pub finish_listener : Environment → Resource → Resource × Outcome (Unit {0})
finish_listener env r =
    if is_neg (env.closing r.id)
    then (r, thrown (operational (env.closing r.id)))
    else (retire r, returned tt)

-- finish() of a TCP, pipe or UDP record.
unfoldable pub finish_connection : Environment → Resource → Resource × Outcome (Unit {0})
unfolding finish_listener
finish_connection env r = if env.busy r.id then (r, thrown logic_error) else finish_listener env r

-- finish() of a file record: the owner is released also where its close reports an error.
unfoldable pub finish_file : Environment → Resource → Resource × Outcome (Unit {0})
finish_file env r =
    if r.released then (r, returned tt) else if env.busy r.id then (r, thrown logic_error) else (
      record (retire r) { released = true },
      if is_neg (env.closing r.id) then thrown (operational (env.closing r.id)) else returned tt,
    )

unfoldable pub finish_kind : Kind → Environment → Resource → Resource × Outcome (Unit {0})
unfolding finish_listener finish_connection finish_file
finish_kind tcp_connection env r = finish_connection env r
finish_kind tcp_listener env r = finish_listener env r
finish_kind udp_socket env r = finish_connection env r
finish_kind pipe_connection env r = finish_connection env r
finish_kind pipe_listener env r = finish_listener env r
finish_kind file env r = finish_file env r

-- The end of a pass over the records: the records, the owners that it released, in order (the
-- program keeps no such list), and how it ended.
pub record Pass : Type 0 where
  pub left : List (Option Resource)
  pub log : List ℕ
  pub ended : Outcome (Unit {0})

-- The owner of a record, as long as the record has it.
abbrev pub owner_of : Resource → List ℕ
owner_of r = if r.owned then r.id ∷ [] else []

-- The owner that a step released.
abbrev pub lost : Resource → Resource → List ℕ
lost r t = if t.owned then [] else owner_of r

abbrev pub keep_going : Option Resource → List ℕ → Pass → Pass
keep_going slot log p = record p { left = slot ∷ p.left; log = log ++ p.log }

-- The inner loop of `finish_impl`.
unfoldable pub finish_phase : CleanupPhase → Environment → List (Option Resource) → Pass
finish_phase phase env [] = record { left = []; log = []; ended = returned tt }
finish_phase phase env (none ∷ rs) = keep_going none [] (finish_phase phase env rs)
finish_phase phase env (some r ∷ rs) =
    let rest = finish_phase phase env rs in
    if same_phase (phase_of r.kind) phase
    then (let (t, ended) = finish_kind r.kind env r in
        elim ended [
          | returned u ↦ keep_going none (lost r t) rest
          | thrown x ↦ record { left = some t ∷ rs; log = lost r t; ended = thrown x }
        ])
    else keep_going (some r) [] rest

-- Both phases of the loop, in the order of `cleanup_order`.
unfoldable pub finish_all : Environment → List (Option Resource) → Pass
finish_all env rs =
    let first = finish_phase stop_admission env rs in
    elim first.ended [
      | thrown x ↦ first
      | returned u ↦
          (let second = finish_phase close_resources env first.left in
            record second { log = first.log ++ second.log })
    ]

-- `finish_impl` on the loop `current`: the scope, the owners released, and how it ended.
unfoldable pub finish : Scope → ℕ → Environment → Scope × List ℕ × Outcome (Unit {0})
finish s current env =
    if not (current == s.loop) then (s, [], thrown logic_error) else elim s.state [
      | active ↦ (s, [], thrown logic_error)
      | finished ↦ (s, [], returned tt)
      | _ ↦
          (let p = finish_all env s.resources in
            elim p.ended [
              | returned u ↦ (record s { resources = []; state = finished }, p.log, returned tt)
              | thrown x ↦ (record s { resources = p.left; state = interrupted }, p.log, thrown x)
            ])
    ]

-- ~resource_scope: whether the destructor terminates the process.
unfoldable pub destroy_terminates : Scope → Bool
destroy_terminates s = elim s.resources [ [] ↦ false | _ ↦ true ]
