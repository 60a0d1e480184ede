-- ===== src/Sources/FsEvent/Terminal.antt =====
-- A wait on a filesystem watch ends once: by an event, or by the close, which is terminal.
use uvpp.Core.Callback.OneShot
use uvpp.Base.{◌≡◌, true, false, none, some, arith, pos, negsuc}
use uvpp.Co.Await.{Caller, refuse}
use uvpp.Core.Error.{Errnos, returned}
use uvpp.Sources.FsEvent.{FsEvents, Source, await_suspend, deliver_event, request_close, no_event}
use uvpp.Sources.FsEvent.Coalesce.{Notice}
use uvpp.Detail.AsyncClose.{closing, is_closing}

-- A source with a wait in progress, and one that a close request leaves.
abbrev pub waiting : Source → Caller → Source
waiting s c = record s { waiter = record { context = some c.self; callback = some tt } }

abbrev pub finished : Source → Source
finished s = record s {
  close = record (s.close) { phase = closing };
  waiter = OneShot.empty;
  pending_event = no_event;
  pending_exception = none;
  pending_status = pos 0;
  pending = false;
  started = false;
  native_closing = true;
}

first_close :
    (e : Errnos) (w : FsEvents) (s : Source) (c : Caller)
    → is_closing s.close ≡ false
    → w.awaiter.resume_to ≡ some c.continuation
    → let (v, resumed, begun) = request_close e w (waiting s c) c in
      (begun ≡ true)
      × (resumed ≡ some c.continuation)
      × (v.awaiter.status ≡ negsuc e.ecanceled)
      × (v.awaiter.linked ≡ false)
      × (v.source ≡ some (finished s))
unfolding request_close
first_close e w s c o r = ground arith

after_close :
    (e : Errnos) (w : FsEvents) (s : Source) (c : Caller) (n : Notice)
    → w.source ≡ some (finished s)
    → (deliver_event w (finished s) c n.filename n.events n.status n.fails ≡ (w, none))
      × (request_close e w (finished s) c ≡ (w, none, false))
      × (await_suspend e w c ≡ returned (refuse w (negsuc e.ebadf)))
unfolding deliver_event request_close await_suspend
after_close e w s c n i = ground arith

-- The first close request of an open source with a wait in progress stops the watch, resumes the
-- waiting task with UV_ECANCELED, withdraws its registration and begins the native close. After it
-- an event is dropped, a further request changes nothing and resumes nobody, and every `next()` is
-- refused with UV_EBADF, even if an event was pending.
pub watch_close_terminal :
    (e : Errnos) (w : FsEvents) (s : Source) (c d : Caller) (n : Notice)
    → is_closing s.close ≡ false
    → w.awaiter.resume_to ≡ some c.continuation
    → let (v, resumed, begun) = request_close e w (waiting s c) c in
      (begun ≡ true)
      × (resumed ≡ some c.continuation)
      × (v.awaiter.status ≡ negsuc e.ecanceled)
      × (v.awaiter.linked ≡ false)
      × (v.source ≡ some (finished s))
      × (deliver_event v (finished s) d n.filename n.events n.status n.fails ≡ (v, none))
      × (request_close e v (finished s) d ≡ (v, none, false))
      × (await_suspend e v d ≡ returned (refuse v (negsuc e.ebadf)))
watch_close_terminal e w s c d n o r =
    let (b, q, x, y, z) = first_close e w s c o r in
    let (f, g, h) = after_close e (request_close e w (waiting s c) c).0 s d n z in
    (b, q, x, y, z, f, g, h)
