-- ===== src/Examples/Externals.antt =====
-- Concrete runs of the theorems on the external records of src/scheduler.rs.
use solworker.Prelude.{◌+◌, ◌≤◌, ◌≡◌, refl, true, false, none, some, List, [], ◌∷◌, length}
use solworker.Scheduler.Class.{abandoned}
use solworker.Scheduler.External.{
  suppressed, External, new_external, admit_external, close_entry, end_attaching, start_abandon,
  restart, claim_external, won, claim_abandon, publish_outcome, publish_winner, retire_external,
  cut_external,
}
use solworker.Scheduler.External.History.{
  Turn, admitting, cutting, abandoning, closing, restarting, claiming_abandon, publishing, retiring,
  turn, run_turns, external_once, abandonment_settles,
}

-- The abandonment comes while the attachment is open.
abbrev early_cut : List Turn
early_cut =
    admitting ∷ cutting ∷ abandoning ∷ closing ∷ restarting ∷ claiming_abandon ∷ publishing
    ∷ retiring ∷ []

abbrev settled_external : External
settled_external = record {
  entry = none;
  is_admitted = true;
  is_open = false;
  is_cut = true;
  starts = 0;
  cancels = 0;
  abandons = 0;
  winners = [];
  retiring = 0;
  published = suppressed abandoned ∷ [];
  asked = true;
}

early_cut_runs : run_turns new_external early_cut ≡ some settled_external
unfolding run_turns turn new_external admit_external cut_external start_abandon end_attaching
    close_entry restart claim_abandon claim_external won publish_winner publish_outcome
    retire_external
early_cut_runs = refl

external_once_example :
    (e : External) × (run_turns new_external early_cut ≡ some e)
    × (length e.published + length e.winners ≤ 1)
external_once_example = external_once early_cut

abandonment_settles_example :
    (settled_external.entry ≡ none) × (length settled_external.published ≡ 1)
abandonment_settles_example =
    abandonment_settles early_cut settled_external early_cut_runs refl refl
