-- ===== src/Core/Loop.antt =====
-- include/uvpp/core/loop.hpp: what the loop adds to libuv's. A callable is a value of `H`; a
-- `std::function` without a target is `none`.
use uvpp.Base.{
  ℕ, ◌<◌, ◌≡◌, refl, sym, ap, ◌∙◌, Bool, not, Option, none, some, List, [], ◌∷◌, ◌++◌, append-nil,
  append_assoc, arith, ◌==◌, if◌then◌else◌, length, ℤ, pos, negsuc, eqb,
}
use uvpp.Core.Error.{ErrorCode, Outcome, from_native, returned, thrown, throw_if_error}
use uvpp.Core.Callback.Persistent.{Slot, Change, apply, invoke, replace, size_mod, invoke-apply}

pub record Loop (H : Type 0) : Type 0 where
  pub handler : Slot H  -- unobserved_failure_handler_

-- loop_view::backend_timeout, for what libuv returns.
unfoldable pub backend_timeout : ℤ → Option ℕ
backend_timeout (negsuc n) = none
backend_timeout (pos n) = some n

-- loop_view::run, for the status of `uv_run`.
unfoldable pub run : ℤ → Outcome Bool
unfolding throw_if_error
run status = elim (throw_if_error status) [
  | thrown x ↦ thrown x
  | returned n ↦ returned (not (eqb n (pos 0)))
]

-- loop::close and loop::try_close, for the status of `uv_loop_close`.
unfoldable pub close : ℤ → Outcome (Unit {0})
unfolding throw_if_error
close status = elim (throw_if_error status) [ thrown x ↦ thrown x | returned n ↦ returned tt ]

unfoldable pub try_close : ℤ → ErrorCode
unfolding from_native
try_close = from_native

-- loop_view::handles, for the handles that `uv_walk` visits.
unfoldable pub collect : {E : Type 0} → List E → List E → List E
collect result [] = result
collect result (h ∷ hs) = collect (result ++ h ∷ []) hs

unfoldable pub handles : {E : Type 0} → List E → List E
unfolding collect
handles = collect []

module _ {H : Type 0} where
  unfoldable pub set_unobserved_failure_handler : Loop H → Option H → Loop H
  unfolding replace
  set_unobserved_failure_handler l handler = record { handler = replace l.handler handler }

  -- report_unobserved_failure, with what the handler does to its slot; `none` is `std::terminate`.
  unfoldable pub report_unobserved_failure : Loop H → (H → Slot H → Slot H) → Option (Loop H)
  unfolding invoke
  report_unobserved_failure l body =
      let (slot, handled) = invoke l.handler body in
      if not handled then none else some (record { handler = slot })

  -- A loop without a handler terminates the program at an unobserved failure. One with a handler
  -- goes on, and a handler that replaces or clears the handler, fewer than 2 ^ 64 times, has its
  -- last change kept, while one that does not is there for the next failure.
  pub report-set :
      (l : Loop H) (h : H) (changes : H → List (Change H)) (body : H → Slot H → Slot H)
      → l.handler.generation < size_mod
      → length (changes h) < size_mod
      → let set = set_unobserved_failure_handler l (some h) in
        (report_unobserved_failure (set_unobserved_failure_handler l none) body ≡ none)
        × (report_unobserved_failure set (λ g s. apply s (changes g))
            ≡ some (record {
              handler =
                  if length (changes h) == 0
                  then set.handler
                  else apply (record (set.handler) { callback = none }) (changes h);
            }))
  unfolding set_unobserved_failure_handler report_unobserved_failure replace invoke
  report-set l h changes body g k =
      let v = invoke-apply (replace l.handler (some h)) h changes refl (omega arith) k in
      (refl, ap {B = Option (Loop H)} (λ s. some (record { handler = s })) v.1)

collect-append : {E : Type 0} (hs result : List E) → collect result hs ≡ result ++ hs
unfolding collect
collect-append [] result = sym (append-nil result)
collect-append (h ∷ hs) result =
    collect-append hs (result ++ h ∷ []) ∙ append_assoc result (h ∷ []) hs
