-- ===== src/Requests/Work/Order.antt =====
-- The life of a work request that is submitted again and again: a worker may run it at any time from
-- its submission on, unless it is cancelled before, and the completion follows on the loop.
use uvpp.Base.{
  refl, ap, ◌≡◌, ◌⊎◌, inl, inr, Bool, true, false, not, Option, none, some, List, [], ◌∷◌, ◌++◌,
  arith, Bool-cases, Option-cases, if◌then◌else◌, is_some, ℤ, is_neg,
}
use uvpp.Core.Error.{Errnos}
use uvpp.Requests.Work.{WorkRequest, complete, new_work, run, submit}

-- What the thread pool has of the request.
pub data Stage : Type 0 where
  idle queued worked cancelled : Stage

abbrev pub is_idle : Stage → Bool
is_idle idle = true
is_idle _ = false

abbrev pub is_queued : Stage → Bool
is_queued queued = true
is_queued _ = false

abbrev pub is_over : Stage → Bool
is_over worked = true
is_over cancelled = true
is_over _ = false

-- What became of the work of a submission.
pub data Settled (C : Type 0) : Type 0 where
  was_run was_cancelled : C → Settled C

-- The work and the follow-up of the accepted submissions, the works that were run or cancelled, and
-- the follow-ups called, each in order.
pub record Run (C : Type 0) : Type 0 where
  pub request : WorkRequest C
  pub stage : Stage
  pub works : List C
  pub afters : List (Option C)
  pub settled : List (Settled C)
  pub followed : List (Option C)

module _ {C : Type 0} where
  abbrev pub subjects : List (Settled C) → List C
  subjects [] = []
  subjects (was_run c ∷ ss) = c ∷ subjects ss
  subjects (was_cancelled c ∷ ss) = c ∷ subjects ss

  abbrev pub settle : (C → Settled C) → List (Settled C) → Option C → List (Settled C)
  settle outcome ss none = ss
  settle outcome ss (some c) = ss ++ outcome c ∷ []

  subjects-append : (ss ts : List (Settled C)) → subjects (ss ++ ts) ≡ subjects ss ++ subjects ts
  subjects-append [] ts = refl
  subjects-append (was_run c ∷ ss) ts = ap (λ cs. c ∷ cs) (subjects-append ss ts)
  subjects-append (was_cancelled c ∷ ss) ts = ap (λ cs. c ∷ cs) (subjects-append ss ts)

  abbrev pub unused : Run C
  unused = record {
    request = new_work;
    stage = idle;
    works = [];
    afters = [];
    settled = [];
    followed = [];
  }

  -- A submission is accepted.
  abbrev pub accepted : WorkRequest C → ℤ → Bool
  accepted r native = if r.is_pending then false else not (is_neg native)

module _ {C : Type 0} (e : Errnos) where
  pub data Step (r : Run C) : Run C → Type 0 where
    submits :
        (c : C) (after : Option C) (native : ℤ)
        → accepted r.request native ≡ true
        → Step r (record r {
          request = (submit e r.request (some c) after native).0;
          stage = queued;
          works = r.works ++ c ∷ [];
          afters = r.afters ++ after ∷ [];
        })
    refused :
        (c : C) (after : Option C) (native : ℤ)
        → accepted r.request native ≡ false
        → Step r (record r { request = (submit e r.request (some c) after native).0 })
    submits_empty :
        (after : Option C) (native : ℤ)
        → Step r (record r { request = (submit e r.request none after native).0 })
    runs :
        r.stage ≡ queued
        → Step r (record r {
          request = (run r.request).0;
          stage = worked;
          settled = settle was_run r.settled (run r.request).1;
        })
    cancels :
        r.stage ≡ queued
        → Step r (record r {
          stage = cancelled;
          settled = settle was_cancelled r.settled r.request.work;
        })
    completes :
        is_over r.stage ≡ true
        → Step r (record r {
          request = (complete r.request).0;
          stage = idle;
          followed = r.followed ++ (complete r.request).1 ∷ [];
        })

  pub data Reach (r : Run C) : Run C → Type 0 where
    start : Reach r r
    next : {m n : Run C} → Reach r m → Step m n → Reach r n

  record Inv (r : Run C) : Type 0 where
    busy : r.request.is_pending ≡ not (is_idle r.stage)
    waiting :
        (c : C)
        → is_queued r.stage ≡ true
        → r.request.work ≡ some c
        → r.works ≡ subjects r.settled ++ c ∷ []
    over : is_queued r.stage ≡ false → r.works ≡ subjects r.settled
    held : is_some r.request.work ≡ true → is_idle r.stage ≡ false
    work : is_queued r.stage ≡ true → is_some r.request.work ≡ true
    after : is_idle r.stage ≡ true → r.request.after ≡ none
    owed : is_idle r.stage ≡ false → r.afters ≡ r.followed ++ r.request.after ∷ []
    paid : is_idle r.stage ≡ true → r.afters ≡ r.followed

  runs-Inv :
      (r : Run C)
      → r.stage ≡ queued
      → Inv r
      → Inv (record r {
        request = (run r.request).0;
        stage = worked;
        settled = settle was_run r.settled (run r.request).1;
      })
  unfolding run
  runs-Inv r q v = elim (Option-cases r.request.work) [
    | inl i ↦ ground arith
    | inr (c, i) ↦ ground (arith, v.waiting c, subjects-append r.settled (was_run c ∷ []))
  ]

  cancels-Inv :
      (r : Run C)
      → r.stage ≡ queued
      → Inv r
      → Inv
          (record r { stage = cancelled; settled = settle was_cancelled r.settled r.request.work })
  cancels-Inv r q v = elim (Option-cases r.request.work) [
    | inl i ↦ ground arith
    | inr (c, i) ↦ ground (arith, v.waiting c, subjects-append r.settled (was_cancelled c ∷ []))
  ]

  last_work :
      (r : Run C)
      → Inv r
      → is_queued r.stage ≡ true
      → ((c : C) × (r.request.work ≡ some c) × (r.works ≡ subjects r.settled ++ c ∷ []))
  last_work r v on = elim (Option-cases r.request.work) [
    | inl i ↦ ground (arith, v.work on)
    | inr (c, i) ↦ (c, i, v.waiting c on i)
  ]

  Step-Inv : {r q : Run C} → Step r q → Inv r → Inv q
  unfolding submit run complete
  Step-Inv {r} (submits c after native p) v = ground arith
  Step-Inv {r} (refused c after native p) v = ground arith
  Step-Inv {r} (submits_empty after native) v = ground arith
  Step-Inv {r} (runs q) v = runs-Inv r q v
  Step-Inv {r} (cancels q) v = cancels-Inv r q v
  Step-Inv {r} (completes o) v = ground arith

  Reach-Inv : {r q : Run C} → Reach r q → Inv r → Inv q
  Reach-Inv start v = v
  Reach-Inv (next p s) v = Step-Inv s (Reach-Inv p v)

  -- A work request from its construction on, submitted any number of times, with and without a
  -- follow-up, whatever libuv answers, run by a worker at any time after its submission, or
  -- cancelled before, and completed after either. It is pending exactly while the pool has it. The
  -- works of the accepted submissions were, in order, run once or cancelled each, but for the last
  -- one while it is queued, which is the work that the request has; and the follow-ups of the accepted submissions are called once each, in order, but for the one
  -- of a request that is still pending. A request that is not pending keeps no callable.
  pub followed_once :
      (r : Run C)
      → Reach unused r
      → (r.request.is_pending ≡ not (is_idle r.stage))
        × (((is_queued r.stage ≡ false) × (r.works ≡ subjects r.settled))
            ⊎ ((is_queued r.stage ≡ true)
                × ((c : C) × (r.request.work ≡ some c) × (r.works ≡ subjects r.settled ++ c ∷ []))))
        × (((is_idle r.stage ≡ false) × (r.afters ≡ r.followed ++ r.request.after ∷ []))
            ⊎ ((is_idle r.stage ≡ true)
                × (r.afters ≡ r.followed)
                × (r.request.work ≡ none)
                × (r.request.after ≡ none)))
  followed_once r p =
      let v = Reach-Inv p (ground arith) in
      (
        v.busy,
        elim (Bool-cases (is_queued r.stage)) [
          | inl on ↦ inr (on, last_work r v on)
          | inr off ↦ inl (off, v.over off)
        ],
        elim (Bool-cases (is_idle r.stage)) [
          | inr on ↦ inl (on, v.owed on)
          | inl off ↦ inr (off, v.paid off, ground arith, v.after off)
        ],
      )
