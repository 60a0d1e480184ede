-- ===== src/Scenarios/Connected.antt =====
-- A TCP connect that is refused by its peer: the task goes on after the close of the connection.
use uvpp.Base.{ℕ, ◌≡◌, refl, ◌⊎◌, Bool, true, false, Option, none, some, [], ◌∷◌, ℤ, pos, negsuc}
use uvpp.Core.Error.{operational, returned, thrown}
use uvpp.Detail.AsyncClose.{Phase, closed, fresh, is_closed, is_closing, opened}
use uvpp.Detail.AsyncClose.Life.{born, quiet, release_owner, request_close}
use uvpp.Net.TcpConnection.{
  Connecting, Connection, await_resume, await_suspend, fail, new_connection, on_close, on_connect,
  request_close_from_callback,
}
use uvpp.Net.TcpConnection.Connect.{
  Reach, Run, asleep, closes, connect_resumed_once, connects, next, start,
}
use uvpp.Scenarios.Basics.{linux}

-- A connection in the making, or after its failure.
abbrev attempt : ℤ → Option ℕ → Phase → Bool → ℕ → Connection
attempt status continuation phase released deleted = record {
  loop = some 1;
  connect_continuation = continuation;
  provisional = true;
  connect_status = status;
  initialized = true;
  life = record {
    close = record {
      phase = phase;
      waiters = [];
      callback_waiter = none;
      released = released;
      completion_active = false;
    };
    native = false;
    pc = quiet;
    deleted = deleted;
  };
  write_active = false;
  active_read = none;
  handle_export_active = false;
}

abbrev connecting : Connecting
connecting = record {
  state = some (attempt (pos 0) (some 70) opened false 0);
  owned = true;
  status = pos 0;
  pending = true;
}

await_suspend-connecting : await_suspend linux false 1 70 (pos 0) (pos 0) ≡ (connecting, true)
unfolding await_suspend new_connection born fresh
await_suspend-connecting = refl

abbrev refused : Run
refused = record {
  connect = record {
    state = some (attempt (negsuc 110) none closed true 1);
    owned = false;
    status = negsuc 110;
    pending = false;
  };
  resumed = 70 ∷ [];
}

refused-Reach : Reach (asleep connecting) refused
unfolding on_connect fail request_close_from_callback release_owner request_close on_close
refused-Reach = next (next start (connects _ (negsuc 110) refl refl)) (closes _ refl refl)

connect_resumed_once_example :
    (s : Connection) × (refused.connect.state ≡ some s)
    × (((refused.connect.pending ≡ true) × (refused.resumed ≡ []) × (s.life.deleted ≡ 0))
        ⊎ (((await_resume refused.connect ≡ returned (some (record s { provisional = false })))
              × (refused.resumed ≡ 70 ∷ [])
              × (is_closing s.life.close ≡ false)
              × (s.life.deleted ≡ 0))
            ⊎ (((s.life.native ≡ true) × (refused.resumed ≡ []) × (s.life.deleted ≡ 0))
                ⊎ ((await_resume refused.connect ≡ thrown (operational refused.connect.status))
                    × (refused.resumed ≡ 70 ∷ [])
                    × (refused.connect.owned ≡ false)
                    × (is_closed s.life.close.phase ≡ true)
                    × (s.life.deleted ≡ 1)))))
connect_resumed_once_example =
    connect_resumed_once linux false 1 70 (pos 0) (pos 0) connecting refused
      await_suspend-connecting refused-Reach
