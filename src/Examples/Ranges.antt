-- ===== src/Examples/Ranges.antt =====
-- Concrete runs of the theorems on src/scheduler/prerequisite_range.rs.
use solworker.Prelude.{◌≡◌, refl, true, false, some, List, [], ◌∷◌}
use solworker.Range.{Range, new_range}
use solworker.Range.History.{
  Step, subscribes, installs, delivers, takes, detaches, interleave, IsSound, interleave-IsSound,
}

abbrev pair : Range
pair = record {
  members = some 8 ∷ some 9 ∷ [];
  active = 2;
  delivered = false;
  installing = true;
  subscription = false;
  tokens = 0 ∷ 1 ∷ [];
  in_hand = false;
  enqueued = 0;
  made = 0;
  released = 0;
  activated = [];
}

pair_made : new_range (8 ∷ 9 ∷ []) ≡ some pair
unfolding new_range
pair_made = refl

-- The prerequisite delivers before its handle is installed.
abbrev early_delivery : List Step
early_delivery =
    subscribes ∷ delivers true ∷ detaches 0 ∷ installs ∷ takes ∷ detaches 1 ∷ delivers true ∷ []

interleave-IsSound_example :
    (t : Range) × (interleave pair early_delivery ≡ some t) × IsSound (8 ∷ 9 ∷ []) t
interleave-IsSound_example = interleave-IsSound (8 ∷ 9 ∷ []) pair early_delivery pair_made
