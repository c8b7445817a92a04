-- ===== src/Scheduler/External.antt =====
-- src/scheduler.rs and src/external/producer.rs: the settlement of one external record, with every
-- critical section that touches it. Sections of other identities touch other entries of the table.
pub mod Inv
pub mod Claims
pub mod Finish
pub mod History
use solworker.Prelude.{
  ℕ, ◌+◌, ◌-◌, Bool, true, false, ◌&&◌, ◌||◌, not, Option, none, some, List, [], ◌∷◌, ◌==◌,
  if◌then◌else◌,
}
use solworker.Scheduler.Class.{TaskStatus, cancelled, abandoned}

-- The fields of `ExternalRecord` that its settlement reads.
pub record ExternalRecord : Type 0 where
  pub attaching : Bool
  pub settling : Bool
  pub deferred_status : Option TaskStatus

pub data Outcome : Type 0 where
  completed : Outcome
  suppressed : TaskStatus → Outcome

-- The entry of one identity, with what its callers have in hand: `starts`, `cancels` and `abandons`
-- count the calls of `settle_external` before its first section, and between that and its claim;
-- `winners` are the claims before their publication, and `retiring` those between it and the removal.
-- `asked` notes that a suppression by abandonment found the record.
pub record External : Type 0 where
  pub entry : Option ExternalRecord
  pub is_admitted : Bool
  pub is_open : Bool
  pub is_cut : Bool
  pub starts : ℕ
  pub cancels : ℕ
  pub abandons : ℕ
  pub winners : List Outcome
  pub retiring : ℕ
  pub published : List Outcome
  pub asked : Bool

unfoldable pub new_external : External
new_external = record {
  entry = none;
  is_admitted = false;
  is_open = false;
  is_cut = false;
  starts = 0;
  cancels = 0;
  abandons = 0;
  winners = [];
  retiring = 0;
  published = [];
  asked = false;
}

-- The section of `admit_external` that inserts the record; the other rejections come before it.
unfoldable pub admit_external : External → External
admit_external e = if e.is_cut || e.is_admitted then e else record e {
  entry = some (record { attaching = true; settling = false; deferred_status = none });
  is_admitted = true;
  is_open = true;
}

-- The calls of `settle_external` that a deferred status owes.
abbrev pub owed : Option TaskStatus → ℕ
owed none = 0
owed (some status) = 1

unfoldable pub close_entry : External → ExternalRecord → External
close_entry e r = record e {
  entry = some (record r { attaching = false; deferred_status = none });
  is_open = false;
  starts = e.starts + owed r.deferred_status;
}

-- The end of the attachment in `admit_external`; `none` is the panic of its expectation.
unfoldable pub end_attaching : External → Option External
end_attaching e =
    if e.is_open then elim e.entry [ none ↦ none | some r ↦ some (close_entry e r) ] else some e

-- The first section of `settle_external`.
unfoldable pub start_abandon : External → External
start_abandon e = elim e.entry [
  | none ↦ e
  | some r ↦
      if r.attaching
      then record e { entry = some (record r { deferred_status = some abandoned }); asked = true }
      else record e { abandons = e.abandons + 1; asked = true }
]

-- The same with `Cancelled`, whose callers are given out after the attachment.
unfoldable pub start_cancel : External → External
start_cancel e = elim e.entry [
  | none ↦ e
  | some r ↦ if r.attaching then e else record e { cancels = e.cancels + 1 }
]

unfoldable pub restart : External → External
restart e = if e.starts == 0 then e else start_abandon (record e { starts = e.starts - 1 })

-- `claim_external`: the entry after it, if the claim wins.
unfoldable pub claim_external : External → Bool → Option ExternalRecord
claim_external e abandonment = if e.is_cut && not abandonment then none else elim e.entry [
  | none ↦ none
  | some r ↦ if r.settling then none else some (record r { settling = true })
]

unfoldable pub won : External → Option ExternalRecord → Outcome → External
won e none outcome = e
won e (some r) outcome = record e { entry = some r; winners = outcome ∷ e.winners }

unfoldable pub claim_cancel : External → External
claim_cancel e =
    if e.cancels == 0
    then e
    else won (record e { cancels = e.cancels - 1 }) (claim_external e false) (suppressed cancelled)

unfoldable pub claim_abandon : External → External
claim_abandon e =
    if e.abandons == 0
    then e
    else won (record e { abandons = e.abandons - 1 }) (claim_external e true) (suppressed abandoned)

-- `SWProducer::complete_with`, whose producer is given out after the attachment.
unfoldable pub complete : External → External
complete e = if e.is_admitted && not e.is_open then won e (claim_external e false) completed else e

-- A suppression looks its settlement up in the table, and does nothing where the entry is gone.
unfoldable pub publish_outcome : External → Outcome → External
publish_outcome e completed = record e {
  published = completed ∷ e.published;
  retiring = e.retiring + 1;
}
publish_outcome e (suppressed status) = elim e.entry [
  | none ↦ e
  | some r ↦ record e { published = suppressed status ∷ e.published; retiring = e.retiring + 1 }
]

-- `finish_external` up to the publication.
unfoldable pub publish_winner : External → External
publish_winner e = elim e.winners [
  | [] ↦ e
  | w ∷ ws ↦ publish_outcome (record e { winners = ws }) w
]

-- The removal in `finish_external`.
unfoldable pub retire_external : External → External
retire_external e =
    if e.retiring == 0 then e else record e { entry = none; retiring = e.retiring - 1 }

-- The cut of `abandon`.
unfoldable pub cut_external : External → External
cut_external e = record e { is_cut = true }
