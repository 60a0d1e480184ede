-- ===== src/Sources/Signal/Cancelled.antt =====
-- A wait that a stop request of its task ends.
use uvpp.Core.Callback.OneShot
use uvpp.Base.{◌≡◌, false, none, some, arith, negsuc, eqb_refl}
use uvpp.Co.Await.{Caller}
use uvpp.Core.Error.{Errnos, thrown, operational, error_of}
use uvpp.Sources.Signal.{Signal, Source, await_resume, await_resume_result, on_stop_requested}
use uvpp.Sources.Signal.Terminal.{waiting}

-- A stop request during a wait resumes exactly the waiting task, with the slot free and the
-- registration withdrawn; the task's throwing form throws UV_ECANCELED, its result form returns
-- it, and a second stop callback resumes nobody.
pub signal_stop_cancels :
    (e : Errnos) (w : Signal) (s : Source) (c : Caller)
    → w.source ≡ some (waiting s c)
    → w.awaiter.resume_to ≡ some c.continuation
    → let (v, resumed) = on_stop_requested e w c in
      (resumed ≡ some c.continuation)
      × (v.source ≡ some (record s { waiter = OneShot.empty }))
      × (v.awaiter.linked ≡ false)
      × (await_resume v.awaiter ≡ thrown (operational (negsuc e.ecanceled)))
      × (await_resume_result v.awaiter ≡ error_of (record { status = negsuc e.ecanceled }))
      × ((on_stop_requested e v c).1 ≡ none)
unfolding on_stop_requested await_resume await_resume_result
signal_stop_cancels e w s c i r = ground (arith, eqb_refl (negsuc e.ecanceled))
