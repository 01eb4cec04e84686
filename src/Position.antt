-- ===== src/Position.antt =====
-- The ordering keys and positions of src/message.rs.
use text.Mathlib.Text.{◌==◌ as str_eq}
use text.Mathlib.TextEquality.{eq_iff as str_eq_iff}
use beave_rs.Base.{ℕ, ◌≡◌, arith, Bool, true, ◌&&◌, String, Option, none, some, List}
use beave_rs.Base.Integers.{ℤ, int_beq, int_beq_iff, int_leb, int_leb_refl, int_leb_trans}

-- A key is its bytes.
pub record OrderingKey : Type 0 where
  pub scope : String
  pub index : ℤ
  pub key : Option (List ℕ)

unfoldable pub new_ordering_key : String → ℤ → OrderingKey
new_ordering_key scope index = record { scope = scope; index = index; key = none }

unfoldable pub with_key : List ℕ → OrderingKey → OrderingKey
with_key key o = record o { key = some key }

pub record Position : Type 0 where
  pub scope : String
  pub index : ℤ
  pub offset : ℤ

-- The same partition, and at or before the other position.
unfoldable pub is_covered_by : Position → Position → Bool
is_covered_by p q = str_eq p.scope q.scope && int_beq p.index q.index && int_leb p.offset q.offset

pub covered_by_itself : (p : Position) → is_covered_by p p ≡ true
unfolding is_covered_by
covered_by_itself p =
    ground (arith, str_eq_iff p.scope p.scope, int_beq_iff p.index p.index, int_leb_refl p.offset)

pub covered_trans :
    (p q r : Position)
    → is_covered_by p q ≡ true
    → is_covered_by q r ≡ true
    → is_covered_by p r ≡ true
unfolding is_covered_by
covered_trans p q r h g = ground (
  arith,
  h,
  g,
  str_eq_iff p.scope q.scope,
  str_eq_iff q.scope r.scope,
  str_eq_iff p.scope r.scope,
  int_beq_iff p.index q.index,
  int_beq_iff q.index r.index,
  int_beq_iff p.index r.index,
  int_leb_trans p.offset q.offset r.offset,
)
