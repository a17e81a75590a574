-- ===== src/Tests/Runs.antt =====
-- Runs of the comparison of src/compare.
use mediadiff.Base.{
  Accepts-if, List, Text, [], false, is_empty, is_some, none, not, ok, pos, refl, some, text, true,
  ℕ, ◌&&◌, ◌↔◌, ◌∷◌, ◌≡◌, ◌⊎◌,
}
use mediadiff.Compare.{IsComparator, start_finding}
use mediadiff.Compare.Engine.{PairKey, all_keys, find_key, index_from, key_for}
use mediadiff.Compare.Findings.{is_program}
use mediadiff.Compare.Keys.{HasKey, IsAscending, all_keys-IsAscending}
use mediadiff.Compare.Outcomes.{compare_key-drops}
use mediadiff.Compare.Pairs.{compare_key, is_demoted}
use mediadiff.Compare.Sets.{IsSubset, IsVerdict, compare_set-IsVerdict}
use mediadiff.Compare.Simple.{compare_set, set_difference, set_elements}
use mediadiff.Core.Model.{
  Finding, Fingerprint, Measurement, Value, Vendor, global, not_skipped, passed, set_value,
}
use mediadiff.Core.Policy.Resolve.{resolve_severity}
use mediadiff.Core.Registry.{at}
use mediadiff.Tests.Policies.{a_check, base_policy, two_checks}
use mathlib.Core.List.{Memᴰ}

-- A JSON library with objects, texts and integers only.
abbrev pub plain : Vendor
plain = record {
  Json = List (Text × Text);
  null_json = [];
  is_object = λ j. not (is_empty j);
  member = λ j name. none;
  as_string = λ j. none;
  value_string = λ j name. some [];
  as_int64 = λ j. none;
  json_eq = λ i j. is_empty i && is_empty j;
  dump = λ j. [];
  entries = λ j. [];
  make_object = λ members. [];
  make_array = λ members. [];
  from_int64 = λ i. [];
  from_double = λ d. [];
  format_tenths = λ d. [];
  sample_time_ms = λ s r. 0;
}

abbrev pub measured : ℕ → Value → Measurement (List (Text × Text))
measured index value = record {
  check_index = index;
  scope = record { kind = global; index = pos 0 };
  value = value;
  estimated = false;
  skip_reason = not_skipped;
  evidence = [];
}

abbrev pub fingerprint : List (Measurement (List (Text × Text))) → Fingerprint (List (Text × Text))
fingerprint measurements = record {
  envelope = record {
    schema_version = text "1";
    tool_version = text "1";
    decode_path = [];
    sampling = [];
    input_identity = none;
    diagnostics = [];
  };
  measurements = measurements;
  is_partial = false;
}

abbrev tags : Value
tags = set_value (text "a" ∷ text "b" ∷ [])

abbrev fewer_tags : Value
fewer_tags = set_value (text "a" ∷ [])

compare_set-IsComparator : IsComparator (compare_set plain)
unfolding compare_set start_finding
compare_set-IsComparator check b c policy =
    Accepts-if (λ f. (f.id ≡ check.id) × (f.scope ≡ c.scope))
      (is_empty (set_difference (set_elements c.value) (set_elements b.value))
        && is_empty (set_difference (set_elements b.value) (set_elements c.value)))
      _ _ (λ _. (refl, refl)) (λ _. (refl, refl))

all_keys-IsAscending_example :
    IsAscending (
      all_keys
        (index_from [] (measured 1 tags ∷ measured 0 tags ∷ []))
        (index_from [] (measured 0 fewer_tags ∷ [])))
    × ((x : PairKey)
        → Memᴰ x (
            all_keys
              (index_from [] (measured 1 tags ∷ measured 0 tags ∷ []))
              (index_from [] (measured 0 fewer_tags ∷ [])))
          ↔ (HasKey x (measured 1 tags ∷ measured 0 tags ∷ [])
              ⊎ HasKey x (measured 0 fewer_tags ∷ [])))
all_keys-IsAscending_example =
    all_keys-IsAscending (measured 1 tags ∷ measured 0 tags ∷ []) (measured 0 fewer_tags ∷ [])

compare_key-drops_example :
    (compare_key plain
        (λ s. compare_set plain)
        two_checks
        base_policy
        []
        []
        []
        []
        (key_for (measured 1 tags))
      ≡ ok none)
    ↔ ((is_demoted [] [] (a_check (text "video.b") true) ≡ false)
        × (is_program global ≡ false)
        × (is_some (find_key {Json = List (Text × Text)} (key_for (measured 1 tags)) [])
              && is_some (find_key {Json = List (Text × Text)} (key_for (measured 1 tags)) [])
            ≡ false))
unfolding at
compare_key-drops_example =
    compare_key-drops plain (λ s. compare_set plain) two_checks base_policy [] [] [] []
      (key_for (measured 1 tags)) (a_check (text "video.b") true) refl

compare_set-IsVerdict_example :
    (f : Finding (List (Text × Text))) × (compare_set plain
        (a_check (text "video.a") false)
        (measured 0 tags)
        (measured 0 fewer_tags)
        base_policy
      ≡ ok f)
    × IsVerdict passed
        (resolve_severity (a_check (text "video.a") false) base_policy)
        (IsSubset (set_elements fewer_tags) (set_elements tags)
          × IsSubset (set_elements tags) (set_elements fewer_tags))
        f.status
compare_set-IsVerdict_example =
    compare_set-IsVerdict plain (a_check (text "video.a") false) (measured 0 tags)
      (measured 0 fewer_tags) base_policy
