-- ===== src/Sources/FsEvent.antt =====
-- include/uvpp/fs_event_source.hpp: a persistent watch with one consumer and one bounded pending
-- outcome, which coalesces events and keeps failures. File names are lists of character codes.
pub mod Cancelled
pub mod Coalesce
pub mod Terminal
use uvpp.Core.Callback.OneShot
use uvpp.Base.{
  ℕ, Bool, true, false, ◌&&◌, ◌||◌, not, Option, none, some, List, [], ◌∷◌, ◌==◌, if◌then◌else◌,
  is_some, ℤ, pos, negsuc, is_neg,
}
use Prim.Native.Nat.{bit_or}
use uvpp.Co.Await.{World, Caller, stop_requested, refuse, link, unlink, Awaiter}
use uvpp.Detail.AsyncClose.{CloseState, is_closing, begin, fresh}
use uvpp.Core.Error.{
  Errnos, Outcome, logic_error, returned, thrown, Result, error_of, from_native, operational, user,
  value_of,
}

pub record Event : Type 0 where
  pub filename : Option (List ℕ)
  pub events : ℕ

abbrev pub no_event : Event
no_event = record { filename = none; events = 0 }

-- What `next()` ends with beside its status: the event, and a C++ exception that arose while the
-- event was made.
pub record Delivered : Type 0 where
  pub event : Event
  pub failure : Option ℕ

pub record Source : Type 0 where
  pub loop : ℕ
  pub close : CloseState
  pub waiter : OneShot.Slot (Unit {0})
  pub pending_event : Event
  pub pending_exception : Option ℕ
  pub pending_status : ℤ
  pub pending : Bool
  pub started : Bool
  pub native_closing : Bool

abbrev pub FsEvents : Type 0
FsEvents = World (Option Source) Delivered

-- The constructor, given whether the path holds a null character and the statuses of
-- `uv_fs_event_init` and `uv_fs_event_start`. A source whose start failed is closed at once and
-- thrown away.
unfoldable pub construct : Errnos → ℕ → Bool → ℤ → ℤ → Outcome Source
unfolding fresh OneShot.empty
construct e loop has_null init start =
    if has_null
    then thrown (operational (negsuc e.einval))
    else if is_neg init
    then thrown (operational init)
    else if is_neg start
    then thrown (operational start)
    else returned (record {
      loop = loop;
      close = fresh;
      waiter = OneShot.empty;
      pending_event = no_event;
      pending_exception = none;
      pending_status = pos 0;
      pending = false;
      started = true;
      native_closing = false;
    })

-- next_awaiter::on_delivery
unfoldable pub on_delivery : FsEvents → Caller → ℤ → Event → Option ℕ → FsEvents × Option ℕ
unfolding unlink
on_delivery w c status event failure =
    let u = unlink w c in
    (
      record u {
        awaiter = record (u.awaiter) {
          resume_to = none;
          status = status;
          event = record { event = event; failure = failure };
        };
      },
      u.awaiter.resume_to,
    )

-- waiter.deliver
unfoldable pub deliver : FsEvents → Source → Caller → ℤ → Event → Option ℕ → FsEvents × Option ℕ
unfolding OneShot.deliver on_delivery
deliver w s c status event failure =
    let (slot, call) = OneShot.deliver s.waiter in
    let freed = record w { source = some (record s { waiter = slot }) } in
    elim call [ none ↦ (freed, none) | some cb ↦ on_delivery freed c status event failure ]

-- Two file names, each possibly absent, compared.
abbrev pub same_codes : List ℕ → List ℕ → Bool
same_codes [] [] = true
same_codes [] (y ∷ ys) = false
same_codes (x ∷ xs) [] = false
same_codes (x ∷ xs) (y ∷ ys) = x == y && same_codes xs ys

abbrev pub same_name : Option (List ℕ) → Option (List ℕ) → Bool
same_name none none = true
same_name none (some ys) = false
same_name (some xs) none = false
same_name (some xs) (some ys) = same_codes xs ys

-- The event that a notification makes; `fails` is the exception that copying its name throws.
unfoldable pub materialize : Option (List ℕ) → ℕ → ℤ → Option ℕ → Event × Option ℕ
materialize filename events status fails =
    if is_neg status then (record { filename = none; events = events }, none) else elim filename [
      | none ↦ (record { filename = none; events = events }, none)
      | some name ↦ elim fails [
        | none ↦ (record { filename = some name; events = events }, none)
        | some x ↦ (record { filename = none; events = events }, some x)
      ]
    ]

-- The last part of `deliver_event`: what is pending after a notification that nobody takes.
unfoldable pub coalesce : Source → ℤ → Event → Option ℕ → Source
coalesce s status event failure =
    if not s.pending || (is_neg status || is_some failure)
    then record s {
      pending_event = event;
      pending_status = status;
      pending_exception = failure;
      pending = true;
    }
    else record s {
      pending_event = record {
        filename =
            if same_name s.pending_event.filename event.filename
            then s.pending_event.filename
            else none;
        events = bit_or s.pending_event.events event.events;
      };
    }

-- deliver_event
unfoldable pub deliver_event :
    FsEvents → Source → Caller → Option (List ℕ) → ℕ → ℤ → Option ℕ → FsEvents × Option ℕ
unfolding materialize deliver coalesce OneShot.claimed
deliver_event w s c filename events status fails =
    if is_closing s.close
    then (w, none)
    else if s.pending && (is_neg s.pending_status || is_some s.pending_exception)
    then (w, none)
    else (let (event, failure) = materialize filename events status fails in
        if OneShot.claimed s.waiter
        then deliver w s c status event failure
        else (record w { source = some (coalesce s status event failure) }, none))

-- fs_event_source_state::request_close
unfoldable pub request_close : Errnos → FsEvents → Source → Caller → FsEvents × Option ℕ × Bool
unfolding begin deliver
request_close e w s c =
    let (close, begun) = begin s.close in
    if not begun
    then (w, none, false)
    else (let (v, resumed) =
          deliver w (record s { close = close; started = false }) c (negsuc e.ecanceled) no_event
            none in
        (
          record v {
            source = elim v.source [
              | none ↦ none
              | some t ↦ some (record t {
                pending = false;
                pending_event = no_event;
                pending_exception = none;
                pending_status = pos 0;
                native_closing = true;
              })
            ];
          },
          resumed,
          true,
        ))

-- The part of `await_suspend` after the check for a pending outcome.
unfoldable pub wait : Errnos → FsEvents → Source → Caller → FsEvents × Bool
unfolding OneShot.claim OneShot.release link
wait e w s c =
    let (slot, granted) = OneShot.claim s.waiter (some c.self) (some tt) in
    if not granted
    then refuse w (negsuc e.ebusy)
    else (let (linked, accepted) =
          link (record w { source = some (record s { waiter = slot }) }) c in
        if not accepted
        then refuse
            (record linked {
              source = some (record s { waiter = (OneShot.release slot c.self).0 });
              awaiter = record (linked.awaiter) { resume_to = none; linked = false };
            })
            (negsuc e.ecanceled)
        else (linked, true))

-- next_awaiter::await_suspend
unfoldable pub await_suspend : Errnos → FsEvents → Caller → Outcome (FsEvents × Bool)
unfolding wait
await_suspend e w c = elim w.source [
  | none ↦ returned (refuse w (negsuc e.ebadf))
  | some s ↦
      if is_closing s.close
      then returned (refuse w (negsuc e.ebadf))
      else if not (c.loop == s.loop)
      then thrown logic_error
      else if stop_requested w
      then returned (refuse w (negsuc e.ecanceled))
      else if s.pending
      then returned (
        record w {
          source = some (record s {
            pending_event = no_event;
            pending_exception = none;
            pending_status = pos 0;
            pending = false;
          });
          awaiter = record (w.awaiter) {
            status = s.pending_status;
            event = record { event = s.pending_event; failure = s.pending_exception };
          };
        },
        false,
      )
      else returned (wait e w s c)
]

-- next_awaiter::on_stop_requested, which cancels the wait of its source.
unfoldable pub on_stop_requested : Errnos → FsEvents → Caller → FsEvents × Option ℕ
unfolding deliver
on_stop_requested e w c = elim w.source [
  | none ↦ (w, none)
  | some s ↦ deliver w s c (negsuc e.ecanceled) no_event none
]

-- next_awaiter::await_resume of the throwing form; the exception of the event comes first.
unfoldable pub await_resume : Awaiter Delivered → Outcome Event
await_resume a = elim a.event.failure [
  | some x ↦ thrown (user x)
  | none ↦ if is_neg a.status then thrown (operational a.status) else returned a.event.event
]

-- next_awaiter::await_resume of the result form, which throws that exception too.
unfoldable pub await_resume_result : Awaiter Delivered → Outcome (Result Event)
unfolding from_native
await_resume_result a = elim a.event.failure [
  | some x ↦ thrown (user x)
  | none ↦
      returned (if is_neg a.status then error_of (from_native a.status) else value_of a.event.event)
]
