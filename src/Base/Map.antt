-- ===== src/Base/Map.antt =====
-- `HashMap` and `HashSet` as association lists. Iteration over one goes in the list's order; no
-- statement depends on that order.
use Prim.Native.Nat.{ℕ, ◌+◌}
use mathlib.Core.Path.{◌≡◌, refl}
use mathlib.Core.Bool.{Bool, true, false}
use mathlib.Core.Option.{Option, none, some}
use mathlib.Core.List.{List, [], ◌∷◌}
use native.Mathlib.Omega.{arith}
use beave_rs.Base.Tests.{if◌then◌else◌}
use beave_rs.Base.Keys.{Eq, ◌==◌}

abbrev pub Map {ℓ κ} : Type ℓ → Type κ → Type (ℓ ⊔ κ)
Map K V = List (K × V)

abbrev pub of_option {κ} : {V : Type κ} → (V → ℕ) → Option V → ℕ
of_option f none = 0
of_option f (some v) = f v

abbrev pub is_some {κ} : {V : Type κ} → Option V → Bool
is_some none = false
is_some (some v) = true

abbrev pub unwrap_or {κ} : {V : Type κ} → Option V → V → V
unwrap_or none d = d
unwrap_or (some v) d = v

-- `HashSet`.
abbrev pub Set {ℓ} : Type ℓ → Type ℓ
Set K = Map K (Unit {0})

module _ {ℓ κ} {K : Type ℓ} ⦃e : Eq K⦄ {V : Type κ} where
  -- `HashMap::get`.
  unfoldable pub lookup : K → Map K V → Option V
  lookup key [] = none
  lookup key ((k, v) ∷ rest) = if k == key then some v else lookup key rest

  unfoldable pub remove : K → Map K V → Map K V
  remove k [] = []
  remove k ((j, w) ∷ m) = let rest = remove k m in if j == k then rest else (j, w) ∷ rest

  -- `HashMap::insert`.
  unfoldable pub insert : K → V → Map K V → Map K V
  insert key value [] = (key, value) ∷ []
  insert key value ((k, v) ∷ rest) =
      if k == key then (key, value) ∷ rest else (k, v) ∷ insert key value rest

  -- No key stands twice.
  abbrev pub IsMap : Map K V → Type κ
  IsMap [] = Unit
  IsMap ((k, v) ∷ m) = (lookup k m ≡ none) × IsMap m

  -- `contains_key`, and `contains` of a set.
  abbrev pub contains : K → Map K V → Bool
  contains k m = is_some (lookup k m)

  pub lookup-insert :
      (key other : K) (value : V) (m : Map K V)
      → lookup other (insert key value m) ≡ (if key == other then some value else lookup other m)
  unfolding insert lookup
  lookup-insert key other value [] = refl
  lookup-insert key other value ((k, v) ∷ rest) =
      let later = lookup-insert key other value rest in
      ground (arith, later, e.eq_iff key other, e.eq_iff k key, e.eq_iff k other)

  pub lookup-remove :
      (k j : K) (m : Map K V) → lookup j (remove k m) ≡ (if k == j then none else lookup j m)
  unfolding lookup remove
  lookup-remove k j [] = ground arith
  lookup-remove k j ((i, w) ∷ m) =
      ground (arith, e.eq_iff k j, e.eq_iff i k, e.eq_iff i j, lookup-remove k j m)

  pub insert-IsMap : (k : K) (v : V) (m : Map K V) → IsMap m → IsMap (insert k v m)
  unfolding lookup insert
  insert-IsMap k v [] h = (refl, tt)
  insert-IsMap k v ((i, w) ∷ m) h =
      ground (arith, e.eq_iff i k, e.eq_iff k i, lookup-insert k i v m, insert-IsMap k v m h.1)

  pub remove-IsMap : (k : K) (m : Map K V) → IsMap m → IsMap (remove k m)
  unfolding lookup remove
  remove-IsMap k [] h = tt
  remove-IsMap k ((i, w) ∷ m) h =
      ground (arith, e.eq_iff i k, e.eq_iff k i, lookup-remove k i m, remove-IsMap k m h.1)

  -- The sum of a number over all values.
  abbrev pub total : (V → ℕ) → Map K V → ℕ
  total f [] = 0
  total f ((k, v) ∷ m) = f v + total f m

  pub total-insert :
      (f : V → ℕ) (k : K) (v : V) (m : Map K V)
      → total f (insert k v m) + of_option f (lookup k m) ≡ total f m + f v
  unfolding lookup insert
  total-insert f k v [] = omega arith
  total-insert f k v ((i, w) ∷ m) = ground (arith, total-insert f k v m)

  pub remove_absent : (k : K) (m : Map K V) → lookup k m ≡ none → remove k m ≡ m
  unfolding lookup remove
  remove_absent k [] h = refl
  remove_absent k ((i, w) ∷ m) h = ground (arith, remove_absent k m)

  pub total-remove :
      (f : V → ℕ) (k : K) (m : Map K V)
      → IsMap m
      → total f (remove k m) + of_option f (lookup k m) ≡ total f m
  unfolding lookup remove
  total-remove f k [] h = omega arith
  total-remove f k ((i, w) ∷ m) h =
      ground (arith, e.eq_iff i k, total-remove f k m h.1, remove_absent k m)
