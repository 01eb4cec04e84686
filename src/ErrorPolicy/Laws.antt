-- ===== src/ErrorPolicy/Laws.antt =====
-- The names of src/error_policy.rs round-trip, the setters set one action, and `validate` refuses
-- exactly the policies that need a dead-letter sink.
use text.Mathlib.TextEquality.{eq_iff}
use beave_rs.Base.{
  Bool, true, false, String, ◌≡◌, ◌≢◌, ◌↔◌, ◌⊎◌, some, arith, refl, subst, sym, inl, inr,
}
use beave_rs.ErrorPolicy.{
  FailureKind, decode, rejected, retry_exhausted, encode, publish_rejected, as_str, from_str,
  FailureAction, dead_letter, ErrorPolicy, set_action, action, validate,
}

from_str_sound :
    (name : String) (kind : FailureKind) → from_str name ≡ some kind → as_str kind ≡ name
unfolding from_str as_str
from_str_sound name kind h = ground (
  arith,
  eq_iff "decode" name,
  eq_iff "rejected" name,
  eq_iff "retry_exhausted" name,
  eq_iff "encode" name,
  eq_iff "publish_rejected" name,
)

from_str-as_str : (kind : FailureKind) → from_str (as_str kind) ≡ some kind
unfolding from_str as_str
from_str-as_str decode = refl
from_str-as_str rejected = refl
from_str-as_str retry_exhausted = refl
from_str-as_str encode = refl
from_str-as_str publish_rejected = refl

-- A name parses to a kind exactly when it is the name of that kind.
pub from_str_iff :
    (name : String) (kind : FailureKind) → (from_str name ≡ some kind) ↔ (as_str kind ≡ name)
from_str_iff name kind =
    (from_str_sound name kind, λ e. subst (λ n. from_str n ≡ some kind) e (from_str-as_str kind))

set_same :
    (p : ErrorPolicy) (kind : FailureKind) (a : FailureAction)
    → action (set_action kind a p) kind ≡ a
unfolding action set_action
set_same p kind a = ground arith

set_other :
    (p : ErrorPolicy) (kind : FailureKind) (a : FailureAction) (other : FailureKind)
    → other ≢ kind
    → action (set_action kind a p) other ≡ action p other
unfolding action set_action
set_other p kind a other differ = ground arith

kind_cases : (j k : FailureKind) → (j ≡ k) ⊎ (j ≢ k)
kind_cases j k = ground arith

-- After setting the action of a kind, every kind has that action if it is the kind set, and else
-- the action it had.
action-set_action :
    (p : ErrorPolicy) (kind : FailureKind) (a : FailureAction) (other : FailureKind)
    → ((other ≡ kind) × (action (set_action kind a p) other ≡ a))
      ⊎ ((other ≢ kind) × (action (set_action kind a p) other ≡ action p other))
unfolding action set_action
action-set_action p kind a other = elim (kind_cases other kind) [
  | inl same ↦
      inl (same, subst (λ k. action (set_action kind a p) k ≡ a) (sym same) (set_same p kind a))
  | inr differ ↦ inr (differ, set_other p kind a other differ)
]

-- Validation fails exactly when no dead-letter sink is configured and decode or encode failures are
-- dead-lettered, and the error names the first such kind.
pub validate_iff :
    (p : ErrorPolicy) (has_sink : Bool) (kind : FailureKind)
    → (validate p has_sink ≡ some kind) ↔ (
        (has_sink ≡ false)
        × (((kind ≡ decode) × (action p decode ≡ dead_letter))
            ⊎ ((kind ≡ encode)
                × (action p encode ≡ dead_letter)
                × (action p decode ≢ dead_letter))))
unfolding validate
validate_iff p true kind = (λ e. cc, λ e. cc e.0)
validate_iff p false kind = (λ e. ground arith, λ e. ground arith)
