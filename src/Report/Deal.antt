-- ===== src/Report/Deal.antt =====
-- The loop of `build_report_model`, src/report/model.cpp, that counts each finding and deals it to
-- the list of its group.
use mediadiff.Base.{
  List, [], if◌then◌else◌, length, map, none, some, suc, zero, ℕ, ◌++◌, ◌-◌, ◌^◌, ◌∷◌,
}
use mediadiff.Core.Model.{Finding}
use mediadiff.Core.Registry.{CheckRegistry, find}
use mediadiff.Report.{
  Group, SortKey, Summary, accumulate, empty_summary, group_eq, group_for, group_order,
}

pub record Entry (Json : Type 0) : Type 0 where
  pub key : SortKey
  pub finding : Finding Json

pub record GroupBlock (Json : Type 0) : Type 0 where
  pub group : Group
  pub counts : Summary
  pub findings : List (Finding Json)

-- The state of the loop: `model.summary`, `model.groups` and `per_group`.
pub record Dealt (Json : Type 0) : Type 0 where
  pub summary : Summary
  pub groups : List (GroupBlock Json)
  pub per_group : List (List (Entry Json))

-- The last slot where no group of the list from this slot on is the one sought.
unfoldable pub slot_from : Group → ℕ → List Group → ℕ
slot_from group i [] = length group_order - 1
slot_from group i (other ∷ others) =
    let later = slot_from group (suc i) others in if group_eq other group then i else later

unfoldable pub group_slot : Group → ℕ
unfolding slot_from
group_slot group = slot_from group 0 group_order

-- A write to one slot of a vector; the list stays as it is where it has no such slot.
unfoldable pub update_at : {A : Type 0} → ℕ → (A → A) → List A → List A
update_at i f [] = []
update_at zero f (x ∷ xs) = f x ∷ xs
update_at (suc i) f (x ∷ xs) = x ∷ update_at i f xs

module _ {Json : Type 0} where
  -- An id that is not registered sorts last.
  unfoldable pub sort_key : CheckRegistry → ℕ → Finding Json → SortKey
  unfolding find
  sort_key registry i finding = record {
    registry_index = elim (find registry finding.id) [ none ↦ 2 ^ 32 - 1 | some index ↦ index ];
    scope_kind = finding.scope.kind;
    scope_index = finding.scope.index;
    encounter_index = i;
  }

  abbrev pub empty_block : Group → GroupBlock Json
  empty_block group = record { group = group; counts = empty_summary; findings = [] }

  -- The state before the first finding: one empty block and one empty list for each group.
  abbrev pub nothing_dealt : Dealt Json
  nothing_dealt = record {
    summary = empty_summary;
    groups = map empty_block group_order;
    per_group = map (λ group. []) group_order;
  }

  unfoldable pub count_finding : Finding Json → GroupBlock Json → GroupBlock Json
  unfolding accumulate
  count_finding finding block = record block { counts = accumulate block.counts finding }

  unfoldable pub deal_finding : CheckRegistry → ℕ → Dealt Json → Finding Json → Dealt Json
  unfolding count_finding accumulate group_slot group_for update_at sort_key
  deal_finding registry i dealt finding =
      let slot = group_slot (group_for finding.id) in
      let entry : Entry Json = record { key = sort_key registry i finding; finding = finding } in
      record {
        summary = accumulate dealt.summary finding;
        groups = update_at slot (count_finding finding) dealt.groups;
        per_group = update_at slot (λ entries. entries ++ entry ∷ []) dealt.per_group;
      }

  unfoldable pub deal_findings : CheckRegistry → ℕ → Dealt Json → List (Finding Json) → Dealt Json
  unfolding deal_finding
  deal_findings registry i dealt [] = dealt
  deal_findings registry i dealt (finding ∷ findings) =
      deal_findings registry (suc i) (deal_finding registry i dealt finding) findings
