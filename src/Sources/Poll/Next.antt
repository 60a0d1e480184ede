-- ===== src/Sources/Poll/Next.antt =====
-- One `next()` of a poll source: refusals leave nothing behind, and a wait is delivered once.
use uvpp.Core.Callback.OneShot
use uvpp.Base.{ℕ, ◌≡◌, ◌≢◌, true, false, none, some, arith, is_some, ℤ, is_neg}
use uvpp.Co.Await.{Awaiter, Caller, link, stop_requested}
use uvpp.Core.Error.{Errnos, returned}
use uvpp.Sources.Poll.{Poll, Source, and_not, arm, await_suspend, deliver_event}
use uvpp.Detail.AsyncClose.{is_closing}

-- An awaiter that has not been awaited.
pub record IsFresh (a : Awaiter ℕ) : Type 0 where
  pub idle : a.resume_to ≡ none
  pub unlinked : a.linked ≡ false

-- A source with a wait in progress, and after its delivery.
abbrev pub waiting : Source → Caller → Source
waiting s c = record s {
  waiter = record { context = some c.self; callback = some tt };
  armed = true;
}

abbrev pub served : Source → Source
served s = record s { waiter = OneShot.empty; armed = false }

arm-refused :
    (e : Errnos) (allowed : ℕ) (w v : Poll) (s : Source) (c : Caller) (requested : ℕ) (start : ℤ)
    → IsFresh w.awaiter
    → OneShot.claimed_by s.waiter c.self ≡ true
    → arm e allowed w s c requested start ≡ (v, false)
    → (v.source ≡ some (record s { waiter = OneShot.empty }))
      × (v.cancel ≡ w.cancel)
      × IsFresh v.awaiter
      × (is_neg v.awaiter.status ≡ true)
unfolding arm
arm-refused e allowed w v s c requested start f o h = ground arith

arm-waiting :
    (e : Errnos) (allowed : ℕ) (w v : Poll) (s : Source) (c : Caller) (requested : ℕ) (start : ℤ)
    → arm e allowed w s c requested start ≡ (v, true)
    → (v.source ≡ some (record s { armed = true }))
      × (v.cancel ≡ (link w c).0.cancel)
      × (v.awaiter.linked ≡ is_some w.cancel)
      × (v.awaiter.resume_to ≡ some c.continuation)
      × (requested ≢ 0)
      × (and_not requested allowed ≡ 0)
      × (is_neg start ≡ false)
unfolding arm
arm-waiting e allowed w v s c requested start h = ground arith

-- A `next()` that does not suspend, for whatever reason, reports a negative status and leaves no
-- trace: the source with its slot and its native polling, the cancellation state and the awaiter's
-- links are as before. The slot's two pointers are set together, as in every reachable slot.
pub await_suspend_refused :
    (e : Errnos) (allowed : ℕ) (w v : Poll) (s : Source) (c : Caller) (requested : ℕ) (start : ℤ)
    → w.source ≡ some s
    → OneShot.IsCoherent s.waiter
    → IsFresh w.awaiter
    → await_suspend e allowed w c requested start ≡ returned (v, false)
    → (v.source ≡ w.source)
      × (v.cancel ≡ w.cancel)
      × IsFresh v.awaiter
      × (is_neg v.awaiter.status ≡ true)
unfolding await_suspend
await_suspend_refused e allowed w v s c requested start i o f h = ground arith

-- A `next()` that suspends found an open source with a free slot on the task's own loop, no stop
-- request and a valid mask; it holds the slot, polling is started, and the task is registered with
-- its cancellation state, if it has one.
pub await_suspend_waiting :
    (e : Errnos) (allowed : ℕ) (w v : Poll) (s : Source) (c : Caller) (requested : ℕ) (start : ℤ)
    → w.source ≡ some s
    → await_suspend e allowed w c requested start ≡ returned (v, true)
    → (is_closing s.close ≡ false)
      × (c.loop ≡ s.loop)
      × (stop_requested w ≡ false)
      × (OneShot.claimed s.waiter ≡ false)
      × (requested ≢ 0)
      × (and_not requested allowed ≡ 0)
      × (is_neg start ≡ false)
      × (v.source ≡ some (waiting s c))
      × (v.cancel ≡ (link w c).0.cancel)
      × (v.awaiter.resume_to ≡ some c.continuation)
      × (v.awaiter.linked ≡ is_some w.cancel)
unfolding await_suspend
await_suspend_waiting e allowed w v s c requested start i h = ground arith

-- From a `next()` that suspended, the next native event resumes
-- that task and no other, with the event's status and mask, after polling was stopped, the slot
-- released and the registration withdrawn; and an event after that resumes nothing.
pub deliver_once :
    (e : Errnos) (allowed : ℕ) (w v : Poll) (s : Source) (c : Caller) (requested : ℕ) (start : ℤ)
    (status : ℤ) (events : ℕ)
    → w.source ≡ some s
    → await_suspend e allowed w c requested start ≡ returned (v, true)
    → let (u, resumed) = deliver_event v (waiting s c) c status events in
      (v.source ≡ some (waiting s c))
      × (resumed ≡ some c.continuation)
      × (u ≡ record w {
        source = some (served s);
        awaiter = record { resume_to = none; linked = false; event = events; status = status };
      })
      × ((deliver_event u (served s) c status events).1 ≡ none)
unfolding deliver_event link
deliver_once e allowed w v s c requested start status events i h =
    let p = await_suspend_waiting e allowed w v s c requested start i h in ground arith
