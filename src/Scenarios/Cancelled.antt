-- ===== src/Scenarios/Cancelled.antt =====
-- Runs of a cancellation state with two registrations.
use uvpp.Base.{
  ℕ, ◌≡◌, refl, ◌⊎◌, true, false, none, some, List, [], ◌∷◌, arith, ◌==◌, if◌then◌else◌,
}
use uvpp.Co.Cancellation.{Cancellation, detached, register_callback, request_stop, unregister}
use uvpp.Co.Cancellation.View.{Represents, erase}
use uvpp.Co.Cancellation.Unlink.{unregister-Represents}
use uvpp.Co.Cancellation.Stop.{Stopped, request_stop-Stopped}
use uvpp.Co.Cancellation.Spec.{Implements, Registry, enrol, register_callback-enrol, withdraw}

-- The registrations 1 and 2, of which 2 came later.
abbrev pair : Cancellation
pair = record {
  head = some 2;
  stopped = false;
  node = λ i.
      (if i == 1
        then record { attached = true; next = none; callback = some 11; context = some 1 }
        else if i == 2
        then record { attached = true; next = some 1; callback = some 12; context = some 2 }
        else detached);
}

pair-Represents : Represents pair (2 ∷ 1 ∷ [])
pair-Represents = record {
  chain = (refl, (refl, refl));
  distinct = (refl, (refl, tt));
  exact = λ i. ground arith;
}

request_stop-Stopped_example :
    (t : Cancellation) × (called : List ℕ) × (request_stop 3 2 (λ j. 1 ∷ []) pair
      ≡ some (t, called))
    × Represents t []
    × (t.stopped ≡ true)
    × Stopped (λ j. 1 ∷ []) (2 ∷ 1 ∷ []) called
request_stop-Stopped_example =
    request_stop-Stopped 3 2 (λ j. 1 ∷ []) pair (2 ∷ 1 ∷ []) pair-Represents refl (omega arith)
      (omega arith)

unregister-Represents_example :
    (t : Cancellation) × (unregister 2 pair 1 ≡ some t)
    × Represents t (erase 1 (2 ∷ 1 ∷ []))
    × (t.stopped ≡ false)
    × ((((pair.node 1).attached ≡ true) × (t.node 1 ≡ detached))
        ⊎ (((pair.node 1).attached ≡ false) × (t ≡ pair)))
unregister-Represents_example =
    unregister-Represents 2 pair 1 (2 ∷ 1 ∷ []) pair-Represents (omega arith)

abbrev enrolled_pair : Registry
enrolled_pair = record { halted = false; entries = 2 ∷ 1 ∷ [] }

register_callback-enrol_example :
    ((register_callback pair 3 13 3).1 ≡ (enrol enrolled_pair 3).1)
    × Implements (register_callback pair 3 13 3).0 (enrol enrolled_pair 3).0
    × ((t : Cancellation) × (unregister 2 pair 1 ≡ some t)
        × Implements t (withdraw enrolled_pair 1))
register_callback-enrol_example =
    register_callback-enrol pair enrolled_pair 3 13 3 2 1
      (record { represents = pair-Represents; flag = refl }) refl (omega arith)
