-- ===== src/Report/Named.antt =====
-- The group an id belongs to, src/report/model.cpp, by the name the group is printed with; and the
-- findings that the options hide.
use mediadiff.Base.{
  All, Bool-cases, List, Text, [], ap, arith, false, inl, inr, refl, sym, text, text_eq,
  text_eq_iff, true, ◌↔◌, ◌∙◌, ◌∷◌, ◌≡◌, ◌≢◌, ◌⊎◌,
}
use mediadiff.Core.Model.{Finding, Status, errored, failed, informed, passed, skipped, warned}
use mediadiff.Core.Registry.{Severity, fail, ignore, info, severity_eq, warn}
use mediadiff.Report.{
  Group, RenderOptions, audio_group, container_group, content_group, first_segment, group_for,
  group_order, group_to_string, is_hidden, is_passed, meta_group, size_group, timeline_group,
  video_group,
}
use mathlib.Core.Bool.{false≢true}

-- The id's first segment is the group's name, or the group is `meta` and the segment is no group's
-- name.
abbrev pub InGroup : Group → Text → Type 0
InGroup g id =
    (first_segment id ≡ group_to_string g)
    ⊎ ((g ≡ meta_group) × All (λ other. first_segment id ≢ group_to_string other) group_order)

same_segment : (a b : Text) → first_segment a ≡ first_segment b → group_for a ≡ group_for b
unfolding group_for
same_segment a b p = rw p refl

first_segment-group_to_string : (g : Group) → first_segment (group_to_string g) ≡ group_to_string g
unfolding first_segment group_to_string text
first_segment-group_to_string container_group = refl
first_segment-group_to_string video_group = refl
first_segment-group_to_string timeline_group = refl
first_segment-group_to_string audio_group = refl
first_segment-group_to_string content_group = refl
first_segment-group_to_string size_group = refl
first_segment-group_to_string meta_group = refl

group_for-group_to_string : (g : Group) → group_for (group_to_string g) ≡ g
unfolding first_segment group_for group_to_string text text_eq
group_for-group_to_string container_group = refl
group_for-group_to_string video_group = refl
group_for-group_to_string timeline_group = refl
group_for-group_to_string audio_group = refl
group_for-group_to_string content_group = refl
group_for-group_to_string size_group = refl
group_for-group_to_string meta_group = refl

group_for-named : (id : Text) (g : Group) → first_segment id ≡ group_to_string g → group_for id ≡ g
group_for-named id g p =
    same_segment id (group_to_string g) (p ∙ sym (first_segment-group_to_string g))
    ∙ group_for-group_to_string g

text_eq-differs : (s t : Text) → s ≢ t → text_eq s t ≡ false
text_eq-differs s t d = elim (Bool-cases (text_eq s t)) [
  | inl e ↦ absurd (d ((text_eq_iff s t).0 e))
  | inr n ↦ n
]

group_for-unnamed :
    (id : Text)
    → All (λ other. first_segment id ≢ group_to_string other) group_order
    → group_for id ≡ meta_group
unfolding group_for group_to_string
group_for-unnamed id (c, (v, (t, (a, (n, (s, m)))))) =
    rw
      (
        text_eq-differs (first_segment id) (text "container") c,
        text_eq-differs (first_segment id) (text "video") v,
        text_eq-differs (first_segment id) (text "timeline") t,
        text_eq-differs (first_segment id) (text "audio") a,
        text_eq-differs (first_segment id) (text "content") n,
        text_eq-differs (first_segment id) (text "size") s,
      )
      refl

-- The name of one of the groups, or of none of them.
named_or_not :
    (s : Text) (gs : List Group)
    → ((g : Group) × (s ≡ group_to_string g)) ⊎ All (λ other. s ≢ group_to_string other) gs
named_or_not s [] = inr tt
named_or_not s (g ∷ gs) = elim (Bool-cases (text_eq s (group_to_string g))) [
  | inl e ↦ inl (g, (text_eq_iff s (group_to_string g)).0 e)
  | inr n ↦ elim (named_or_not s gs) [
    | inl h ↦ inl h
    | inr h ↦ inr (λ p. false≢true (sym n ∙ (text_eq_iff s (group_to_string g)).1 p), h)
  ]
]

pub group_for_iff : (id : Text) (g : Group) → (group_for id ≡ g) ↔ InGroup g id
group_for_iff id g = (
  λ e. elim (named_or_not (first_segment id) group_order) [
    | inl (h, p) ↦ inl (p ∙ ap group_to_string (sym (group_for-named id h p) ∙ e))
    | inr all ↦ inr (sym e ∙ group_for-unnamed id all, all)
  ],
  λ i. elim i [ inl p ↦ group_for-named id g p | inr (e, all) ↦ group_for-unnamed id all ∙ sym e ],
)

is_passed_iff : (s : Status) → (is_passed s ≡ true) ↔ (s ≡ passed)
is_passed_iff passed = (λ e. refl, λ p. refl)
is_passed_iff informed = ground arith
is_passed_iff warned = ground arith
is_passed_iff failed = ground arith
is_passed_iff skipped = ground arith
is_passed_iff errored = ground arith

is_ignored_iff : (s : Severity) → (severity_eq s ignore ≡ true) ↔ (s ≡ ignore)
is_ignored_iff ignore = (λ e. refl, λ p. refl)
is_ignored_iff info = ground arith
is_ignored_iff warn = ground arith
is_ignored_iff fail = ground arith

module _ {Json : Type 0} where
  abbrev pub Hidden : RenderOptions → Finding Json → Type 0
  Hidden options x =
      ((x.status ≡ passed) × (options.show_pass ≡ false))
      ⊎ ((x.severity ≡ ignore) × (options.show_ignored ≡ false))

  pub is_hidden_iff :
      (x : Finding Json) (options : RenderOptions)
      → (is_hidden x options ≡ false) ↔ (¬ Hidden options x)
  unfolding is_hidden
  is_hidden_iff x options = ground (
    arith,
    is_passed_iff x.status,
    is_ignored_iff x.severity,
    Bool-cases options.show_pass,
    Bool-cases options.show_ignored,
    Bool-cases (is_passed x.status),
    Bool-cases (severity_eq x.severity ignore),
  )
