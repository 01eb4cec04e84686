-- ===== src/Scheduler/Flow.antt =====
-- src/subscription/scheduler.rs: `FlowControl`, the unfinished deliveries per ordering key and the
-- keys paused at the limit.
pub mod Hysteresis
pub mod Requests
use beave_rs.Base.{
  ℕ, ◌+◌, ◌-◌, ◌/◌, leb, nat_beq, if◌then◌else◌, Bool, not, ◌&&◌, Option, none, some, List, [], ◌∷◌,
  ◌++◌, Eq,
}
use beave_rs.Base.Map.{Map, Set, lookup, insert, remove, contains, unwrap_or}

pub data FlowChange {ℓ} (K : Type ℓ) : Type ℓ where
  pause : K → FlowChange K
  resume : K → FlowChange K

pub record FlowControl {ℓ} (K : Type ℓ) : Type ℓ where
  pub limit : ℕ
  pub unfinished : Map K ℕ
  pub paused : Set K
  pub changes : List (FlowChange K)

module _ {ℓ} {K : Type ℓ} ⦃e : Eq K⦄ where
  unfoldable pub add : K → FlowControl K → FlowControl K
  add key f =
      let count = unwrap_or (lookup key f.unfinished) 0 + 1 in
      let counted = record f { unfinished = insert key count f.unfinished } in
      if leb f.limit count && not (contains key f.paused)
      then record counted { paused = insert key tt f.paused; changes = f.changes ++ pause key ∷ [] }
      else counted

  -- The part of `remove` after the lookup, with the count that is left.
  unfoldable pub settle : K → ℕ → FlowControl K → FlowControl K
  settle key count f =
      let counted = record f {
        unfinished =
            if nat_beq count 0 then remove key f.unfinished else insert key count f.unfinished;
      } in
      if leb count (f.limit / 2) && contains key f.paused
      then record counted { paused = remove key f.paused; changes = f.changes ++ resume key ∷ [] }
      else counted

  unfoldable pub release : K → FlowControl K → FlowControl K
  release key f = elim (lookup key f.unfinished) [
    | none ↦ f
    | some count ↦ settle key (count - 1) f
  ]
