-- ===== src/Posting/Endpoint.antt =====
-- loop_posting_endpoint: the producers' capability, which throws what the facility reports.
use uvpp.Base.{
  ℕ, ◌≡◌, ◌≢◌, ◌⊎◌, inl, inr, true, false, not, [], ◌∷◌, ◌++◌, arith, ◌==◌, if◌then◌else◌, length,
  ℤ, negsuc, is_neg,
}
use uvpp.Core.Error.{
  Errnos, Outcome, operational, returned, status_from_native, status_throw_if_error, thrown,
}
use uvpp.Posting.State.{State, is_opened, pop_back-append, post}

-- `post` of an endpoint; `post` of the state is its `post_result`.
unfoldable pub endpoint_post : Errnos → State → ℕ → ℤ → State × Outcome (Unit {0})
unfolding post status_from_native status_throw_if_error
endpoint_post e s job send =
    let (t, status) = post e s job send in (t, status_throw_if_error (status_from_native status))

-- Whether a post is accepted, and otherwise why not.
post_reason :
    (e : Errnos) (s : State) (send : ℤ)
    → ((is_opened s.phase ≡ true) × (length s.queue ≢ s.capacity) × (is_neg send ≡ false))
      ⊎ ((is_opened s.phase ≡ false)
          ⊎ ((length s.queue ≡ s.capacity)
              ⊎ ((is_neg send ≡ true) × (length s.queue ≢ s.capacity))))
post_reason e s send = ground arith

-- Posting a job through an endpoint either enqueues it at the back of an open facility that has
-- room and whose wake-up was sent, and throws nothing; or leaves the facility as it was and throws
-- UV_ECANCELED where it is not open, UV_EAGAIN where it is open and full, and the wake-up's own
-- error where that failed.
pub endpoint_post_cases :
    (e : Errnos) (s : State) (job : ℕ) (send : ℤ)
    → let (t, out) = endpoint_post e s job send in
      ((is_opened s.phase ≡ true)
        × (length s.queue ≢ s.capacity)
        × (is_neg send ≡ false)
        × (t ≡ record s { queue = s.queue ++ job ∷ [] })
        × (out ≡ returned tt))
      ⊎ ((t ≡ s)
          × (out
              ≡ thrown (
                  operational (
                    if not (is_opened s.phase)
                    then negsuc e.ecanceled
                    else if length s.queue == s.capacity
                    then negsuc e.eagain
                    else send))))
unfolding endpoint_post post status_from_native status_throw_if_error
endpoint_post_cases e s job send =
    let p = pop_back-append s.queue job in
    elim (post_reason e s send) [ inl (o, r, k) ↦ inl (ground arith) | inr x ↦ inr (ground arith) ]
