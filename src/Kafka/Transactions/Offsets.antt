-- ===== src/Kafka/Transactions/Offsets.antt =====
-- SourceOffsets of src/adapters/kafka/transaction.rs: the positions that a transaction commits for a
-- batch of deliveries.
use beave_rs.Base.{
  ℕ, ◌+◌, Bool, Option, none, some, List, [], ◌∷◌, ◌++◌, ltb, nat_beq, Eq, if◌then◌else◌, all,
}
use beave_rs.Base.Map.{Map, lookup, insert}
use beave_rs.Kafka.Progress.{Progress, is_current}

-- A delivery of a batch: its consumer, the generation of its assignment, its partition and offset.
pub record Delivery {ℓ} (P : Type ℓ) : Type ℓ where
  pub consumer : ℕ
  pub generation : ℕ
  pub partition : P
  pub offset : ℕ

pub record SourceOffsets {ℓ} (P : Type ℓ) : Type ℓ where
  pub consumer : ℕ
  pub deliveries : List (ℕ × P)
  pub next : Map P (ℕ × ℕ)

-- `max` of pairs in lexicographic order.
unfoldable pub later : ℕ × ℕ → ℕ × ℕ → ℕ × ℕ
later (g, n) (h, m) =
    if ltb g h then (h, m) else if ltb h g then (g, n) else if ltb n m then (h, m) else (g, n)

unfoldable pub add_next : Option (ℕ × ℕ) → ℕ × ℕ → ℕ × ℕ
add_next none next = next
add_next (some current) next = later current next

module _ {ℓ} {P : Type ℓ} ⦃e : Eq P⦄ where
  -- An iteration of `SourceOffsets::new` that found offsets of the same consumer.
  unfoldable pub add_delivery : Delivery P → SourceOffsets P → SourceOffsets P
  unfolding add_next later
  add_delivery d s = record s {
    deliveries = s.deliveries ++ (d.generation, d.partition) ∷ [];
    next =
        insert d.partition (add_next (lookup d.partition s.next) (d.generation, d.offset + 1))
          s.next;
  }

  -- The rest of the loop; `none` is the error about different consumers.
  unfoldable pub add_all : List (Delivery P) → SourceOffsets P → Option (SourceOffsets P)
  unfolding add_delivery
  add_all [] s = some s
  add_all (d ∷ ds) s =
      let rest = add_all ds (add_delivery d s) in
      if nat_beq s.consumer d.consumer then rest else none

  -- `SourceOffsets::new`; no offsets for an empty batch.
  unfoldable pub offsets_of : List (Delivery P) → Option (Option (SourceOffsets P))
  unfolding add_all
  offsets_of [] = some none
  offsets_of (d ∷ ds) =
      elim (add_all (d ∷ ds) (record { consumer = d.consumer; deliveries = []; next = [] })) [
        | none ↦ none
        | some s ↦ some (some s)
      ]

  -- The check of `ensure_assigned` on every delivery.
  unfoldable pub all_current : List (ℕ × P) → Progress P → Bool
  all_current deliveries p = all (λ (generation, key). is_current generation key p) deliveries
