-- ===== src/ErrorPolicy.antt =====
-- src/error_policy.rs: routable failures, their names, and what the runtime does after each.
pub mod Laws
mod Tests
use text.Mathlib.Text.{◌==◌ as str_eq}
use beave_rs.Base.{Bool, true, false, String, Option, none, some, List, [], ◌∷◌, if◌then◌else◌}

pub data FailureKind : Type 0 where
  decode rejected retry_exhausted encode publish_rejected : FailureKind

unfoldable pub as_str : FailureKind → String
as_str decode = "decode"
as_str rejected = "rejected"
as_str retry_exhausted = "retry_exhausted"
as_str encode = "encode"
as_str publish_rejected = "publish_rejected"

abbrev kinds : List FailureKind
kinds = decode ∷ rejected ∷ retry_exhausted ∷ encode ∷ publish_rejected ∷ []

-- `Iterator::find` by name; `none` is the error "unknown failure kind".
find_kind : String → List FailureKind → Option FailureKind
unfolding as_str
find_kind name [] = none
find_kind name (kind ∷ rest) = if str_eq (as_str kind) name then some kind else find_kind name rest

unfoldable pub from_str : String → Option FailureKind
unfolding find_kind
from_str name = find_kind name kinds

-- The `Display` text.
unfoldable pub display : FailureKind → String
display decode = "decode failed"
display rejected = "handler rejected input"
display retry_exhausted = "handler retry exhausted"
display encode = "prepare output failed"
display publish_rejected = "sink rejected output"

pub data FailureAction : Type 0 where
  stop dead_letter discard : FailureAction

pub record ErrorPolicy : Type 0 where
  pub on_decode : FailureAction
  pub on_rejected : FailureAction
  pub on_retry_exhausted : FailureAction
  pub on_encode : FailureAction
  pub on_publish_rejected : FailureAction

abbrev pub default_policy : ErrorPolicy
default_policy = record {
  on_decode = stop;
  on_rejected = dead_letter;
  on_retry_exhausted = dead_letter;
  on_encode = stop;
  on_publish_rejected = dead_letter;
}

abbrev pub dead_letter_all : ErrorPolicy
dead_letter_all = record {
  on_decode = dead_letter;
  on_rejected = dead_letter;
  on_retry_exhausted = dead_letter;
  on_encode = dead_letter;
  on_publish_rejected = dead_letter;
}

-- The five setters, by the kind that each is named for.
unfoldable pub set_action : FailureKind → FailureAction → ErrorPolicy → ErrorPolicy
set_action decode a p = record p { on_decode = a }
set_action rejected a p = record p { on_rejected = a }
set_action retry_exhausted a p = record p { on_retry_exhausted = a }
set_action encode a p = record p { on_encode = a }
set_action publish_rejected a p = record p { on_publish_rejected = a }

unfoldable pub action : ErrorPolicy → FailureKind → FailureAction
action p decode = p.on_decode
action p rejected = p.on_rejected
action p retry_exhausted = p.on_retry_exhausted
action p encode = p.on_encode
action p publish_rejected = p.on_publish_rejected

is_dead_letter : FailureAction → Bool
is_dead_letter dead_letter = true
is_dead_letter _ = false

-- The first kind of the list that the policy dead-letters: the error of `validate`.
first_dead_letter : ErrorPolicy → List FailureKind → Option FailureKind
unfolding action is_dead_letter
first_dead_letter p [] = none
first_dead_letter p (kind ∷ rest) =
    if is_dead_letter (action p kind) then some kind else first_dead_letter p rest

-- `none` is `Ok(())`; `some kind` is the configuration error that names the kind.
unfoldable pub validate : ErrorPolicy → Bool → Option FailureKind
unfolding first_dead_letter
validate p true = none
validate p false = first_dead_letter p (decode ∷ encode ∷ [])
