-- ===== src/Core/Glob/Decides.antt =====
-- `validate_glob`, `glob_matches` and `glob_select` of src/core/glob.cpp against the grammar.
use mediadiff.Base.{
  Bool-cases, Expected, List, Text, [], err, false, if◌then◌else◌, inl, inr, is_empty, not, ok,
  refl, sym, text, true, usage, ◌++◌, ◌↔◌, ◌∙◌, ◌∷◌, ◌≡◌, ◌≢◌,
}
use mediadiff.Core.Glob.{
  GlobWords, any_empty, diagnose, diagnose_path, diagnose_with, glob_matches, glob_matches_path,
  id_words, inner_globstar, path_words, segments_match, split_path_segments, split_segments,
  usage_unless_empty, validate_glob, validate_path_glob,
}
use mediadiff.Core.Glob.Matches.{
  IsWellFormed, Matches, any_empty_iff, inner_globstar_iff, is_empty_iff, segments_match_iff,
}
use mediadiff.Core.Glob.Split.{split_loop_nonempty}
use mathlib.Core.Bool.{false≢true}

append_nonempty : (s t : Text) → s ≢ [] → s ++ t ≢ []
append_nonempty [] t h = absurd (h refl)
append_nonempty (c ∷ s) t h = λ e. cc

record AreWords (words : GlobWords) : Type 0 where
  says_empty : words.empty_pattern ≢ []
  says_subject : words.subject ≢ []

id_words_lem : AreWords id_words
unfolding id_words text
id_words_lem = record { says_empty = λ e. cc; says_subject = λ e. cc }

path_words_lem : AreWords path_words
unfolding path_words text
path_words_lem = record { says_empty = λ e. cc; says_subject = λ e. cc }

diagnose_with_iff :
    (words : GlobWords) (pattern : Text) (segments : List Text)
    → AreWords words
    → (is_empty (diagnose_with words pattern segments) ≡ true)
      ↔ ((pattern ≢ []) × IsWellFormed segments)
unfolding diagnose_with
diagnose_with_iff words [] segments w = (
  λ h. absurd (false≢true (sym ((is_empty_iff words.empty_pattern).1 w.says_empty) ∙ h)),
  λ h. absurd (h.0 refl),
)
diagnose_with_iff words (c ∷ pattern) segments w = elim (Bool-cases (any_empty segments)) [
  | inl bad ↦ rw bad (
    λ h. absurd (says words.empty_segment h),
    λ h. absurd (false≢true (sym ((any_empty_iff segments).1 h.1.0) ∙ bad)),
  )
  | inr good ↦ rw good (elim (Bool-cases (inner_globstar segments)) [
    | inl bad ↦ rw bad (
      λ h. absurd (says words.misplaced h),
      λ h. absurd (false≢true (sym ((inner_globstar_iff segments).1 h.1.1) ∙ bad)),
    )
    | inr last ↦ rw last (
      λ h. (λ e. cc, ((any_empty_iff segments).0 good, (inner_globstar_iff segments).0 last)),
      λ h. refl,
    )
  ])
]
  where
    says : (t : Text) → is_empty (words.subject ++ (c ∷ pattern) ++ t) ≡ true → ⊥
    says t h = false≢true (
        sym (
          (is_empty_iff (words.subject ++ (c ∷ pattern) ++ t)).1 (
            append_nonempty (words.subject ++ (c ∷ pattern)) t
              (append_nonempty words.subject (c ∷ pattern) w.says_subject)))
        ∙ h)

-- A usage error with a message, the reason.
abbrev pub Refused : Text → Expected (Unit {0}) → Type 0
Refused reason m = (reason ≢ []) × (m ≡ err (record { kind = usage; message = reason }))

-- Accepted exactly where the property holds, and refused for the reason where it does not.
abbrev pub AcceptsExactly : Type 0 → Text → Expected (Unit {0}) → Type 0
AcceptsExactly P reason m = ((m ≡ ok tt) ↔ P) × (Refused reason m ↔ ¬ P)

usage_unless_empty-AcceptsExactly :
    (P : Type 0) (reason : Text)
    → ((is_empty reason ≡ true) ↔ P)
    → AcceptsExactly P reason (usage_unless_empty reason)
usage_unless_empty-AcceptsExactly P [] h =
    ((λ _. h.0 refl, λ _. refl), (λ r. absurd (r.0 refl), λ n. absurd (n (h.0 refl))))
usage_unless_empty-AcceptsExactly P (c ∷ reason) h = (
  (λ e. cc, λ p. absurd (false≢true (h.1 p))),
  (λ r p. false≢true (h.1 p), λ n. ((λ e. cc), refl)),
)

-- `validate_glob` accepts exactly the patterns that are not empty, whose segments are not empty
-- and which use `**` at most as the last segment; every other pattern is a usage error whose
-- message is the diagnosis, which is not empty. `validate_path_glob` does the same for '/'.
pub validate_glob_iff :
    (pattern : Text)
    → AcceptsExactly
        ((pattern ≢ []) × IsWellFormed (split_segments pattern))
        (diagnose pattern)
        (validate_glob pattern)
      × AcceptsExactly
          ((pattern ≢ []) × IsWellFormed (split_path_segments pattern))
          (diagnose_path pattern)
          (validate_path_glob pattern)
unfolding validate_glob validate_path_glob diagnose diagnose_path
validate_glob_iff pattern = (
  usage_unless_empty-AcceptsExactly _ (diagnose_with id_words pattern (split_segments pattern))
      (diagnose_with_iff id_words pattern (split_segments pattern) id_words_lem),
  usage_unless_empty-AcceptsExactly _
      (diagnose_with path_words pattern (split_path_segments pattern))
      (diagnose_with_iff path_words pattern (split_path_segments pattern) path_words_lem),
)

guarded_iff :
    (words : GlobWords) (pattern : Text) (ps is : List Text)
    → AreWords words
    → ps ≢ []
    → ((if not (is_empty (diagnose_with words pattern ps)) then false else segments_match ps is)
        ≡ true)
      ↔ ((pattern ≢ []) × IsWellFormed ps × Matches ps is)
guarded_iff words pattern ps is w ne =
    let d = diagnose_with_iff words pattern ps w in
    let m = segments_match_iff ps is ne in
    elim (Bool-cases (is_empty (diagnose_with words pattern ps))) [
      | inl fine ↦ rw fine (λ h. ((d.0 fine).0, (d.0 fine).1, m.0 h), λ h. m.1 h.2)
      | inr bad ↦ rw bad (λ h. cc, λ h. absurd (false≢true (sym bad ∙ d.1 (h.0, h.1))))
    ]

-- `glob_matches` is true exactly for a well-formed pattern whose segments match those of the check
-- id by the grammar; a malformed pattern matches nothing.
pub glob_matches_iff :
    (pattern check_id : Text)
    → (glob_matches pattern check_id ≡ true) ↔ (
        (pattern ≢ [])
        × IsWellFormed (split_segments pattern)
        × Matches (split_segments pattern) (split_segments check_id))
unfolding glob_matches diagnose split_segments
glob_matches_iff pattern check_id =
    guarded_iff id_words pattern (split_segments pattern) (split_segments check_id) id_words_lem
      (split_loop_nonempty b'.' [] pattern)

-- `glob_matches_path` is true exactly for a well-formed pattern whose '/'-separated segments match
-- those of the relative path by the grammar.
pub glob_matches_path_iff :
    (pattern relative_path : Text)
    → (glob_matches_path pattern relative_path ≡ true) ↔ (
        (pattern ≢ [])
        × IsWellFormed (split_path_segments pattern)
        × Matches (split_path_segments pattern) (split_path_segments relative_path))
unfolding glob_matches_path diagnose_path split_path_segments
glob_matches_path_iff pattern path =
    guarded_iff path_words pattern (split_path_segments pattern) (split_path_segments path)
      path_words_lem (split_loop_nonempty b'/' [] pattern)
