-- ===== src/Co/Cancellation/Spec.antt =====
-- What cancellation promises to the awaiters: a stop flag and the registrations in effect, newest
-- first, and that the linked list implements this.
use uvpp.Base.{
  ℕ, ◌≤◌, ◌≡◌, ◌∙◌, inl, inr, Bool, true, false, some, List, ◌∷◌, arith, if◌then◌else◌, Bool-cases,
  length,
}
use uvpp.Co.Cancellation.{Cancellation, register_callback, unregister}
use uvpp.Co.Cancellation.View.{Represents, erase, register-Represents}
use uvpp.Co.Cancellation.Unlink.{unregister-Represents}
use uvpp.Co.Task.{running}

pub record Registry : Type 0 where
  pub halted : Bool
  pub entries : List ℕ

unfoldable pub enrol : Registry → ℕ → Registry × Bool
enrol g r = if g.halted then (g, false) else (record g { entries = r ∷ g.entries }, true)

unfoldable pub withdraw : Registry → ℕ → Registry
withdraw g r = record g { entries = erase r g.entries }

-- The linked list of a cancellation state stands for a registry.
pub record Implements (s : Cancellation) (g : Registry) : Type 0 where
  pub represents : Represents s g.entries
  pub flag : s.stopped ≡ g.halted

enrolled :
    (s : Cancellation) (g : Registry) (r callback context : ℕ)
    → Implements s g
    → (s.node r).attached ≡ false
    → Implements (register_callback s r callback context).0 (enrol g r).0
unfolding register_callback enrol
enrolled s g r callback context v a = elim (Bool-cases g.halted) [
  | inl halted ↦ simp (v.flag, halted) v
  | inr running ↦ rw running (record {
    represents =
        register-Represents s r callback context g.entries v.represents (v.flag ∙ running) a;
    flag = ground arith;
  })
]

-- `register_callback` of a registration that is not attached, and `unregister` of any with fuel for
-- each entry, do to the linked list what `enrol` and `withdraw` do to the registry that it stands
-- for; registering reports the same success, and unregistering ends.
pub register_callback-enrol :
    (s : Cancellation) (g : Registry) (r callback context size q : ℕ)
    → Implements s g
    → (s.node r).attached ≡ false
    → length g.entries ≤ size
    → ((register_callback s r callback context).1 ≡ (enrol g r).1)
      × Implements (register_callback s r callback context).0 (enrol g r).0
      × ((t : Cancellation) × (unregister size s q ≡ some t) × Implements t (withdraw g q))
unfolding register_callback enrol withdraw
register_callback-enrol s g r callback context size q v a l =
    let (t, e, w, k, x) = unregister-Represents size s q g.entries v.represents l in
    (
      ground arith,
      enrolled s g r callback context v a,
      (t, e, record { represents = w; flag = k ∙ v.flag }),
    )
