-- ===== src/Net/PipeListener/Owner.antt =====
-- The owner of a pipe listener, include/uvpp/net/pipe_listener.hpp: its construction, and what is left
-- of it after a failure and after its end.
use uvpp.Base.{
  ℕ, ◌≡◌, refl, ◌⊎◌, inl, inr, Bool, true, false, Option, none, some, arith, if◌then◌else◌, ℤ,
  is_neg, is_some, Bool-cases,
}
use uvpp.Core.Error.{
  Outcome, Result, error_of, from_native, operational, returned, thrown, value_of,
}
use uvpp.Detail.AsyncClose.{
  begin, can_destroy_now, complete_begin, complete_end, fresh, is_opened, owner_released,
}
use uvpp.Net.PipeListener.{Listener}

-- pipe_listener_state::release_owner, of a listener without an accept: whether it calls `uv_close`, and
-- whether it deletes the state.
unfoldable pub release_owner : Listener → Listener × Bool × Bool
unfolding owner_released begin can_destroy_now
release_owner l =
    let m = record l { close = owner_released l.close } in
    if is_opened m.close.phase
    then (record m { close = (begin m.close).0; native_closing = true }, true, false)
    else (m, false, can_destroy_now m.close)

-- reset; `std::terminate` is `none`, and so is an owner that is left without a state.
unfoldable pub reset : Listener → Option (Listener × Bool × Bool)
unfolding release_owner
reset l = if is_some l.active then none else some (release_owner l)

-- make_state, with the statuses of `uv_pipe_init`, the bind and `uv_listen`: the result, and after a
-- failure of the last two the state that is left to the close callback.
unfoldable pub make_state : ℕ → Bool → ℤ → ℤ → ℤ → Result Listener × Option Listener
unfolding release_owner from_native fresh
make_state loop ipc init bind listen =
    let state : Listener = record {
      loop = loop;
      active = none;
      ipc = ipc;
      close = fresh;
      native_closing = false;
    } in
    let status = if is_neg bind then bind else listen in
    if is_neg init
    then (error_of (from_native init), none)
    else if is_neg status
    then (error_of (from_native status), some (release_owner state).0)
    else (value_of state, none)

-- The constructor of the owner, which throws, for a result of `make_state`.
unfoldable pub construct : Result Listener → Outcome Listener
construct (value_of l) = returned l
construct (error_of x) = thrown (operational x.status)

-- The first of two statuses that is an error, or the second.
abbrev pub first_error : ℤ → ℤ → ℤ
first_error a b = if is_neg a then a else b

-- The state that `uv_pipe_init` was given.
abbrev pub initial : ℕ → Bool → Listener
initial loop ipc = record {
  loop = loop;
  active = none;
  ipc = ipc;
  close = fresh;
  native_closing = false;
}

-- What is left is closing, and its close callback deletes it.
pub IsAbandoned : Option Listener → Type 0
IsAbandoned left =
    (l : Listener) × (left ≡ some l)
    × (l.native_closing ≡ true)
    × ((complete_end (complete_begin l.close).0).1 ≡ true)

-- The construction of a pipe listener, for any statuses of libuv. When the pipe cannot be initialised
-- the constructor throws that error and nothing is left. When it cannot be bound, or cannot listen, it
-- throws the first of these errors, and the state is left closing, for its close callback to delete.
-- Otherwise it gives an open listener of that loop and mode without an accept, which an owner that is
-- destroyed leaves closing in the same way.
pub make_state_lem :
    (loop : ℕ) (ipc : Bool) (init bind listen : ℤ)
    → ((is_neg init ≡ true)
        × (construct (make_state loop ipc init bind listen).0 ≡ thrown (operational init))
        × ((make_state loop ipc init bind listen).1 ≡ none))
      ⊎ (((is_neg init ≡ false)
            × (is_neg (first_error bind listen) ≡ true)
            × (construct (make_state loop ipc init bind listen).0
                ≡ thrown (operational (first_error bind listen)))
            × IsAbandoned (make_state loop ipc init bind listen).1)
          ⊎ ((is_neg init ≡ false)
              × (is_neg (first_error bind listen) ≡ false)
              × ((make_state loop ipc init bind listen).1 ≡ none)
              × ((l : Listener) × (construct (make_state loop ipc init bind listen).0 ≡ returned l)
                  × (l.loop ≡ loop)
                  × (l.ipc ≡ ipc)
                  × (l.active ≡ none)
                  × (l.native_closing ≡ false)
                  × ((m : Listener) × (reset l ≡ some (m, true, false)) × IsAbandoned (some m)))))
unfolding construct make_state release_owner from_native IsAbandoned begin complete_begin
    complete_end fresh owner_released reset
make_state_lem loop ipc init bind listen = elim (Bool-cases (is_neg init)) [
  | inl bad ↦ inl (bad, ground arith, ground arith)
  | inr good ↦ elim (Bool-cases (is_neg (first_error bind listen))) [
    | inl bad ↦ inr (
        inl (
          good,
          bad,
          ground arith,
          ((release_owner (initial loop ipc)).0, ground arith, refl, refl),
        ))
    | inr fine ↦ inr (
        inr (
          good,
          fine,
          ground arith,
          (
            initial loop ipc,
            ground arith,
            refl,
            refl,
            refl,
            refl,
            (
              (release_owner (initial loop ipc)).0,
              refl,
              ((release_owner (initial loop ipc)).0, refl, refl, refl),
            ),
          ),
        ))
  ]
]
