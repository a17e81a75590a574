-- ===== src/Compare/Family.antt =====
-- src/core/container_family.cpp, and the family tests of src/compare/engine.cpp.
use mediadiff.Base.{
  Bool, List, Option, Text, [], eqb_ℤ, false, if◌then◌else◌, is_empty, none, not, pos, some, text,
  text_eq, ℕ, ◌==◌, ◌||◌, ◌∷◌,
}
use mediadiff.Core.Model.{Fingerprint, Measurement, Value, scope_rank, string_value}
use mediadiff.Core.Registry.{CheckRegistry, find}

-- What stands before and after the first byte `d`.
unfoldable pub split_at_first : ℕ → Text → Option (Text × Text)
split_at_first d [] = none
split_at_first d (c ∷ s) =
    let later = split_at_first d s in
    if c == d
    then some ([], s)
    else elim later [ none ↦ none | some (first, rest) ↦ some (c ∷ first, rest) ]

unfoldable pub container_family_token : Text → Text
unfolding split_at_first
container_family_token format_name =
    let first_token : Text = elim (split_at_first b',' format_name) [
      | none ↦ format_name
      | some (first, rest) ↦ first
    ] in
    if text_eq first_token (text "mov")
    then text "mp4"
    else if text_eq first_token (text "matroska")
    then text "mkv"
    else if text_eq first_token (text "mpegts")
    then text "ts"
    else []

unfoldable pub family_of_value : Value → Text
unfolding container_family_token
family_of_value (string_value s) = container_family_token s
family_of_value _ = []

module _ {Json : Type 0} where
  unfoldable pub family_from : ℕ → List (Measurement Json) → Text
  unfolding family_of_value
  family_from format_index [] = []
  family_from format_index (m ∷ rest) =
      if not (m.check_index == format_index)
        || not (scope_rank m.scope.kind == 0)
        || not (eqb_ℤ m.scope.index (pos 0))
      then family_from format_index rest
      else family_of_value m.value

  unfoldable pub resolve_family : Fingerprint Json → CheckRegistry → Text
  unfolding family_from find
  resolve_family fp registry = elim (find registry (text "container.format")) [
    | none ↦ []
    | some format_index ↦ family_from format_index fp.measurements
  ]

-- `container.<family_token>.<something>`.
unfoldable pub check_id_matches_family : Text → Text → Bool
unfolding split_at_first
check_id_matches_family id family_token =
    if is_empty family_token then false else elim (split_at_first b'.' id) [
      | none ↦ false
      | some (first, rest) ↦
          if not (text_eq first (text "container"))
          then false
          else elim (split_at_first b'.' rest) [
            | none ↦ false
            | some (second, tail) ↦ if is_empty tail then false else text_eq second family_token
          ]
    ]
