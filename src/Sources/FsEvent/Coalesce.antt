-- ===== src/Sources/FsEvent/Coalesce.antt =====
-- What a filesystem watch keeps while nobody waits.
use uvpp.Core.Callback.OneShot
use uvpp.Base.{
  ℕ, ◌≡◌, refl, ap, ◌∙◌, true, false, ◌||◌, Option, none, some, List, [], ◌∷◌, arith, if◌then◌else◌,
  is_some, ℤ, pos, is_neg,
}
use Prim.Native.Nat.{bit_or}
use uvpp.Co.Await.{Caller, stop_requested}
use uvpp.Core.Error.{Errnos, returned}
use uvpp.Sources.FsEvent.{FsEvents, Source, await_suspend, deliver_event, no_event, same_name}
use uvpp.Detail.AsyncClose.{is_closing}

-- A notification without its native origin: name, flags, status, and the exception of its copy.
pub record Notice : Type 0 where
  pub filename : Option (List ℕ)
  pub events : ℕ
  pub status : ℤ
  pub fails : Option ℕ

-- on_event of the native handle, one notification after another.
unfoldable pub notify : FsEvents → Caller → List Notice → FsEvents
notify w c [] = w
notify w c (n ∷ ns) =
    notify
      (elim w.source [
        | none ↦ w
        | some s ↦ (deliver_event w s c n.filename n.events n.status n.fails).0
      ])
      c ns

-- The source holds a failure that no `next()` has taken.
abbrev pub HoldsFailure : Source → Type 0
HoldsFailure s =
    (s.pending ≡ true) × ((is_neg s.pending_status || is_some s.pending_exception) ≡ true)

deliver_failed :
    (w : FsEvents) (s : Source) (c : Caller) (n : Notice)
    → HoldsFailure s
    → (deliver_event w s c n.filename n.events n.status n.fails).0 ≡ w
unfolding deliver_event
deliver_failed w s c n h = ground arith

notify-cons :
    (w : FsEvents) (s : Source) (c : Caller) (n : Notice) (ns : List Notice)
    → w.source ≡ some s
    → notify w c (n ∷ ns) ≡ notify (deliver_event w s c n.filename n.events n.status n.fails).0 c ns
unfolding notify
notify-cons w s c n ns i = simp i

notify_failed :
    (ns : List Notice) (w : FsEvents) (s : Source) (c : Caller)
    → w.source ≡ some s
    → HoldsFailure s
    → notify w c ns ≡ w
unfolding notify
notify_failed [] w s c i h = refl
notify_failed (n ∷ ns) w s c i h =
    notify-cons w s c n ns i
    ∙ ap (λ v. notify v c ns) (deliver_failed w s c n h)
    ∙ notify_failed ns w s c i h

-- A pending failure of an open source is kept, whatever notifications follow, until a `next()`
-- takes it: the next `next()` of a task on the loop that is not stopped ends at once with exactly that status and
-- exception, and the source has nothing pending after it.
pub failure_first :
    (e : Errnos) (w : FsEvents) (s : Source) (c : Caller) (ns : List Notice)
    → w.source ≡ some s
    → HoldsFailure s
    → is_closing s.close ≡ false
    → c.loop ≡ s.loop
    → stop_requested w ≡ false
    → await_suspend e (notify w c ns) c
      ≡ returned (
        record w {
          source = some (record s {
            pending_event = no_event;
            pending_exception = none;
            pending_status = pos 0;
            pending = false;
          });
          awaiter = record (w.awaiter) {
            status = s.pending_status;
            event = record { event = s.pending_event; failure = s.pending_exception };
          };
        },
        false,
      )
unfolding await_suspend
failure_first e w s c ns i h o l r = rw (notify_failed ns w s c i h) (ground arith)

-- A notification without an error.
abbrev pub plain : Option (List ℕ) → ℕ → ℕ → Notice
plain name flags status = record {
  filename = name;
  events = flags;
  status = pos status;
  fails = none;
}

-- Two events without an error that come to an open source while nobody waits and nothing is
-- pending are kept as one pending outcome with the first one's status: the flags are joined, and
-- the name is kept only if both have the same.
pub two_events :
    (w : FsEvents) (s : Source) (c : Caller) (a b : Option (List ℕ)) (f g m n : ℕ)
    → w.source ≡ some s
    → s.pending ≡ false
    → is_closing s.close ≡ false
    → OneShot.claimed s.waiter ≡ false
    → (notify w c (plain a f m ∷ plain b g n ∷ [])).source
      ≡ some (record s {
        pending = true;
        pending_event = record {
          filename = if same_name a b then a else none;
          events = bit_or f g;
        };
        pending_status = pos m;
        pending_exception = none;
      })
unfolding notify deliver_event
two_events w s c a b f g m n i p o u = ground arith
