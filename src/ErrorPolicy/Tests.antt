-- ===== src/ErrorPolicy/Tests.antt =====
-- The theorems on src/error_policy.rs at concrete policies and names.
use beave_rs.Base.{false, ◌≡◌, ◌≢◌, ◌↔◌, ◌⊎◌, some}
use beave_rs.ErrorPolicy.{
  decode, encode, as_str, from_str, dead_letter, dead_letter_all, action, validate,
}
use beave_rs.ErrorPolicy.Laws.{from_str_iff, validate_iff}

from_str_iff_example : (from_str "encode" ≡ some encode) ↔ (as_str encode ≡ "encode")
from_str_iff_example = from_str_iff "encode" encode

validate_iff_example : (validate dead_letter_all false ≡ some decode) ↔ (
    (false ≡ false)
    × (((decode ≡ decode) × (action dead_letter_all decode ≡ dead_letter))
        ⊎ ((decode ≡ encode)
            × (action dead_letter_all encode ≡ dead_letter)
            × (action dead_letter_all decode ≢ dead_letter))))
validate_iff_example = validate_iff dead_letter_all false decode
