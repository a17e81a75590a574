-- ===== src/Report/Groups.antt =====
-- The groups of a report, src/report/model.cpp.
use mediadiff.Base.{
  All, List, [], ap, false, get_elem?, inl, inr, refl, some, subst, suc, sym, true, zero, ℕ, ◌++◌,
  ◌↔◌, ◌∙◌, ◌∷◌, ◌≡◌,
}
use mediadiff.Core.Model.{Envelope, Finding, Vendor}
use mediadiff.Core.Registry.{CheckRegistry}
use mediadiff.Report.{
  Group, RenderOptions, audio_group, container_group, content_group, group_for, group_order,
  meta_group, size_group, timeline_group, video_group,
}
use mediadiff.Report.Build.{build_report_model, fill_groups, shown, sort_entries}
use mediadiff.Report.Deal.{
  Dealt, Entry, GroupBlock, count_finding, deal_finding, deal_findings, group_slot, nothing_dealt,
  update_at,
}
use mediadiff.Report.Dealing.{IsSlot, Slots, deal_findings-Slots}
use mediadiff.Report.Named.{Hidden, InGroup, group_for_iff, is_hidden_iff}
use mediadiff.Report.Shown.{shown-holds, sort_entries-holds}
use mathlib.Core.Bool.{false≢true}
use mathlib.Core.List.{Memᴰ, map}
use mathlib.Core.Option.{some-injective}

get_elem?-group_slot : (g : Group) → get_elem? group_order (group_slot g) ≡ some g
unfolding group_slot
get_elem?-group_slot container_group = refl
get_elem?-group_slot video_group = refl
get_elem?-group_slot timeline_group = refl
get_elem?-group_slot audio_group = refl
get_elem?-group_slot content_group = refl
get_elem?-group_slot size_group = refl
get_elem?-group_slot meta_group = refl

group_slot_injective : (g h : Group) → group_slot g ≡ group_slot h → g ≡ h
group_slot_injective g h p =
    some-injective g h
      (sym (get_elem?-group_slot g) ∙ ap (get_elem? group_order) p ∙ get_elem?-group_slot h)

module _ {Json : Type 0} where
  abbrev pub groups_of : List (GroupBlock Json) → List Group
  groups_of = map (λ block. block.group)

  update_at-groups_of :
      (f : Finding Json) (slot : ℕ) (bs : List (GroupBlock Json))
      → groups_of (update_at slot (count_finding f) bs) ≡ groups_of bs
  unfolding update_at count_finding
  update_at-groups_of f slot [] = refl
  update_at-groups_of f zero (b ∷ bs) = refl
  update_at-groups_of f (suc slot) (b ∷ bs) =
      ap (λ gs. b.group ∷ gs) (update_at-groups_of f slot bs)

  deal_findings-groups_of :
      (fs : List (Finding Json)) (registry : CheckRegistry) (i : ℕ) (dealt : Dealt Json)
      → groups_of (deal_findings registry i dealt fs).groups ≡ groups_of dealt.groups
  unfolding deal_findings deal_finding
  deal_findings-groups_of [] registry i dealt = refl
  deal_findings-groups_of (f ∷ fs) registry i dealt =
      deal_findings-groups_of fs registry (suc i) (deal_finding registry i dealt f)
      ∙ update_at-groups_of f (group_slot (group_for f.id)) dealt.groups

  fill_groups-groups_of :
      (options : RenderOptions) (bs : List (GroupBlock Json)) (lists : List (List (Entry Json)))
      → groups_of (fill_groups options bs lists) ≡ groups_of bs
  unfolding fill_groups
  fill_groups-groups_of options [] lists = refl
  fill_groups-groups_of options (b ∷ bs) [] = refl
  fill_groups-groups_of options (b ∷ bs) (es ∷ lists) =
      ap (λ gs. b.group ∷ gs) (fill_groups-groups_of options bs lists)

  -- A block shows these findings of the run: those of its group which the options do not hide.
  abbrev pub ShowsItsOwn : RenderOptions → List (Finding Json) → GroupBlock Json → Type 0
  ShowsItsOwn options fs block =
      (x : Finding Json)
      → Memᴰ x block.findings ↔ (Memᴰ x fs × InGroup block.group x.id × (¬ Hidden options x))

  slot-ShowsItsOwn :
      (options : RenderOptions) (fs : List (Finding Json)) (n : ℕ) (b : GroupBlock Json)
      (es : List (Entry Json))
      → IsSlot (λ x. Memᴰ x fs) n b es
      → ShowsItsOwn options fs
          (record b { findings = b.findings ++ shown options (sort_entries es) })
  slot-ShowsItsOwn options fs n b es (g, nothing, m) x =
      let here : b.findings ++ shown options (sort_entries es) ≡ shown options (sort_entries es) =
        ap (λ front. front ++ shown options (sort_entries es)) nothing in
      let s = shown-holds options x (sort_entries es) in
      let o = sort_entries-holds x es in
      (
        λ k.
            let y = s.0 (subst (λ l. Memᴰ x l) here k) in
            let seen = (m x).0 (o.0 y.0) in
            (
              seen.0,
              (group_for_iff x.id b.group).0
                  (group_slot_injective (group_for x.id) b.group (seen.1 ∙ sym g)),
              (is_hidden_iff x options).0 y.1,
            ),
        λ (k, i, h).
            subst (λ l. Memᴰ x l) (sym here)
              (s.1 (
                o.1 ((m x).1 (k, ap group_slot ((group_for_iff x.id b.group).1 i) ∙ g)),
                (is_hidden_iff x options).1 h,
              )),
      )

  fill_groups-ShowsItsOwn :
      (options : RenderOptions) (fs : List (Finding Json)) (n : ℕ) (bs : List (GroupBlock Json))
      (lists : List (List (Entry Json)))
      → Slots (IsSlot (λ x. Memᴰ x fs)) n bs lists
      → All (ShowsItsOwn options fs) (fill_groups options bs lists)
  unfolding fill_groups
  fill_groups-ShowsItsOwn options fs n [] lists h = tt
  fill_groups-ShowsItsOwn options fs n (b ∷ bs) [] h = absurd (false≢true h)
  fill_groups-ShowsItsOwn options fs n (b ∷ bs) (es ∷ lists) (p, h) =
      (slot-ShowsItsOwn options fs n b es p, fill_groups-ShowsItsOwn options fs (suc n) bs lists h)

abbrev NoneSeen : {Json : Type 0} → Finding Json → Type 0
NoneSeen x = false ≡ true

nothing_dealt-Slots :
    {Json : Type 0}
    → Slots {Json = Json} (IsSlot NoneSeen) 0 nothing_dealt.groups nothing_dealt.per_group
unfolding group_slot
nothing_dealt-Slots {Json} =
    let empty : (n : ℕ) (x : Finding Json)
        → Memᴰ x [] ↔ ((false ≡ true) × (group_slot (group_for x.id) ≡ n)) =
      λ n x. (λ m. elim m [ ], λ (e, g). absurd (false≢true e)) in
    (
      (refl, refl, empty 0),
      (
        (refl, refl, empty 1),
        (
          (refl, refl, empty 2),
          (
            (refl, refl, empty 3),
            ((refl, refl, empty 4), ((refl, refl, empty 5), ((refl, refl, empty 6), tt))),
          ),
        ),
      ),
    )

-- A report has one block for each of the seven groups, in the report's order. Each block shows
-- exactly the findings of the run whose id belongs to its group, by the name the group is printed
-- with, and which the options do not hide: a finding that passed is hidden unless passes are shown,
-- one of severity `ignore` unless ignored ones are.
pub build_report_model-ShowsItsOwn :
    (V : Vendor) (envelope : Envelope V.Json) (fs : List (Finding V.Json))
    (registry : CheckRegistry) (options : RenderOptions)
    → (groups_of (build_report_model V envelope fs registry options).groups ≡ group_order)
      × All (ShowsItsOwn options fs) (build_report_model V envelope fs registry options).groups
unfolding build_report_model
build_report_model-ShowsItsOwn V envelope fs registry options =
    let dealt = deal_findings registry 0 nothing_dealt fs in
    (
      fill_groups-groups_of options dealt.groups dealt.per_group
          ∙ deal_findings-groups_of fs registry 0 nothing_dealt,
      fill_groups-ShowsItsOwn options fs 0 dealt.groups dealt.per_group (
          deal_findings-Slots fs NoneSeen (λ x. Memᴰ x fs) registry 0 nothing_dealt
            (λ x. (λ m. inr m, λ c. elim c [ inl e ↦ absurd (false≢true e) | inr m ↦ m ]))
            nothing_dealt-Slots),
    )
