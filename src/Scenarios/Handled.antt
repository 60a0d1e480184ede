-- ===== src/Scenarios/Handled.antt =====
-- A scan of two entries; a request that is submitted again; a buffer that is lent; a long duration.
use uvpp.Base.{ℕ, ◌≡◌, refl, ◌⊎◌, true, false, none, some, [], ◌∷◌, ◌++◌, pos, negsuc}
use uvpp.Fs.Scandir.{Scandir}
use uvpp.Handles.Request.{submit, submit_static, trampoline}
use uvpp.Handles.Request.Delivery.{
  Reach, Run, called_once, completes, next, start, submits, submits_empty, submits_static, unused,
}
use uvpp.Handles.Stream.{RawStream, no_delivery}
use uvpp.Handles.Stream.Lending
use uvpp.Scenarios.Basics.{linux}

abbrev scan : Scandir ℕ
scan = record { result = pos 2; left = 3 ∷ 4 ∷ [] }

-- A request with the callback 5, refused for 6, completed, refused by libuv, and pending with 8.
abbrev resubmitted : Run ℕ
resubmitted = record {
  request = record {
    callback = none;
    static_callback = some 8;
    is_pending = true;
    in_flight = true;
  };
  accepted = 5 ∷ 8 ∷ [];
  called = 5 ∷ [];
}

resubmitted-Reach : Reach linux (unused linux) resubmitted
unfolding submit submit_static trampoline
resubmitted-Reach =
    next
      (next
        (next
          (next (next (next start (submits_empty (pos 0))) (submits 5 (pos 0))) (submits 6 (pos 0)))
          (completes refl))
        (submits 7 (negsuc 21)))
      (submits_static 8 (pos 0))

called_once_example :
    (resubmitted.request.is_pending ≡ resubmitted.request.in_flight)
    × (((resubmitted.request.is_pending ≡ false)
          × (resubmitted.accepted ≡ resubmitted.called)
          × (resubmitted.request.callback ≡ none)
          × (resubmitted.request.static_callback ≡ none))
        ⊎ ((c : ℕ) × (resubmitted.request.is_pending ≡ true)
            × ((trampoline resubmitted.request).1 ≡ some c)
            × (resubmitted.accepted ≡ resubmitted.called ++ c ∷ [])))
called_once_example = called_once linux resubmitted resubmitted-Reach

-- A stream that lent the buffer of subscription 5, which was replaced by 6 before the data came; 6 has
-- stopped reading when it got the next buffer's.
abbrev idle_stream : RawStream ℕ
idle_stream = record {
  ready = true;
  active = true;
  can_listen = true;
  reading = false;
  listening = false;
  subscription = record { callback = none; generation = 0 };
  pending = no_delivery;
  connection = record { callback = none; generation = 0 };
  static_connection = none;
}

abbrev relayed : Lending.Run ℕ
relayed = record {
  stream = record idle_stream { subscription = record { callback = none; generation = 4 } };
  current = none;
  lender = none;
  called = some 5 ∷ some 5 ∷ some 6 ∷ some 6 ∷ [];
  expected = some 5 ∷ some 5 ∷ some 6 ∷ some 6 ∷ [];
  changes = 11;
}
