-- ===== src/Core/Profiles/Parse.antt =====
-- The names of the profiles, src/core/profiles.cpp.
use mediadiff.Base.{refl, some, text, text_eq, ◌≡◌}
use mediadiff.Core.Profiles.{profile_from_string, profile_to_string}
use mediadiff.Core.Registry.{ProfileId, hw_encoder, remux, strict_bitexact, sw_encoder, transform}

-- A profile is read back from its text.
pub profile_from_string-to_string :
    (p : ProfileId) → profile_from_string (profile_to_string p) ≡ some p
unfolding profile_from_string profile_to_string text_eq text
profile_from_string-to_string strict_bitexact = refl
profile_from_string-to_string sw_encoder = refl
profile_from_string-to_string hw_encoder = refl
profile_from_string-to_string remux = refl
profile_from_string-to_string transform = refl
