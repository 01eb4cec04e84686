-- ===== src/Kafka/Transactions/Reaching.antt =====
-- The positions that src/adapters/kafka/transaction.rs collects for a batch reach its deliveries.
use beave_rs.Base.{
  ℕ, ◌+◌, ◌≤◌, ◌<◌, ◌≡◌, ◌⊎◌, inl, inr, refl, subst, sym, arith, Option, none, some, List, [], ◌∷◌,
  All, ltb, Eq, ◌==◌, Bool-cases,
}
use beave_rs.Base.Map.{Map, lookup, insert, lookup-insert}
use beave_rs.Kafka.Transactions.Offsets.{
  Delivery, SourceOffsets, later, add_next, add_delivery, add_all,
}

-- The order of pairs that `max` uses.
abbrev pub UpTo : ℕ × ℕ → ℕ × ℕ → Type 0
UpTo (g, n) (h, m) = (g < h) ⊎ ((g ≡ h) × (n ≤ m))

UpTo-trans : (u v w : ℕ × ℕ) → UpTo u v → UpTo v w → UpTo u w
UpTo-trans (a, b) (c, d) (f, g) h k = ground (arith, h, k)

later-UpTo : (u v : ℕ × ℕ) → UpTo u (later u v) × UpTo v (later u v)
unfolding later
later-UpTo (a, b) (c, d) = (ground arith, ground arith)

add_next-UpTo : (o : Option (ℕ × ℕ)) (v : ℕ × ℕ) → UpTo v (add_next o v)
unfolding add_next
add_next-UpTo none v = inr (refl, omega arith)
add_next-UpTo (some u) v = (later-UpTo u v).1

-- Where the generation of a position comes from.
pub from_either :
    (o : Option (ℕ × ℕ)) (a b g n : ℕ)
    → add_next o (a, b) ≡ (g, n)
    → (g ≡ a) ⊎ ((m : ℕ) × (o ≡ some (g, m)))
unfolding add_next later
from_either none a b g n h = inl (ground (arith, h))
from_either (some (c, d)) a b g n h = elim (Bool-cases (ltb c a)) [
  | inl below ↦ inl (ground (arith, below, h))
  | inr above ↦ elim (Bool-cases (ltb a c)) [
    | inl over ↦ inr (d, ground (arith, above, over, h))
    | inr same ↦ inl (ground (arith, above, same, h))
  ]
]

UpTo-add_next : (o : Option (ℕ × ℕ)) (u v w : ℕ × ℕ) → o ≡ some w → UpTo u w → UpTo u (add_next o v)
unfolding add_next
UpTo-add_next o u v w h up =
    subst (λ x. UpTo u (add_next x v)) (sym h) (UpTo-trans u w (later w v) up (later-UpTo w v).0)

module _ {ℓ} {P : Type ℓ} ⦃e : Eq P⦄ where
  -- The position of a partition reaches a pair.
  unfoldable pub Reaches : P → ℕ × ℕ → Map P (ℕ × ℕ) → Type 0
  Reaches key v m = (w : ℕ × ℕ) × (lookup key m ≡ some w) × UpTo v w

  Reaches-insert :
      (key k : P) (v w x : ℕ × ℕ) (m : Map P (ℕ × ℕ))
      → (key ≡ k → UpTo v x)
      → (lookup k m ≡ some w)
      → UpTo v w
      → Reaches k v (insert key x m)
  unfolding Reaches
  Reaches-insert key k v w x m same found h = elim (Bool-cases (key == k)) [
    | inl s ↦ (x, ground (arith, s, lookup-insert key k x m), same ((e.eq_iff key k).0 s))
    | inr d ↦ (w, ground (arith, d, found, lookup-insert key k x m), h)
  ]

  Reaches-added :
      (d : Delivery P) (s : SourceOffsets P)
      → Reaches d.partition (d.generation, d.offset + 1) (add_delivery d s).next
  unfolding Reaches add_delivery add_next
  Reaches-added d s =
      let v : ℕ × ℕ = (d.generation, d.offset + 1) in
      let next = add_next (lookup d.partition s.next) v in
      (
        next,
        ground (
          arith,
          lookup-insert d.partition d.partition next s.next,
          e.eq_iff d.partition d.partition,
        ),
        add_next-UpTo (lookup d.partition s.next) v,
      )

  Reaches-kept :
      (d : Delivery P) (s : SourceOffsets P) (k : P) (v : ℕ × ℕ)
      → Reaches k v s.next
      → Reaches k v (add_delivery d s).next
  unfolding Reaches add_delivery add_next
  Reaches-kept d s k v (w, found, h) =
      let pair : ℕ × ℕ = (d.generation, d.offset + 1) in
      Reaches-insert d.partition k v w (add_next (lookup d.partition s.next) pair) s.next
        (λ same.
          UpTo-add_next (lookup d.partition s.next) v pair w
            (subst (λ j. lookup j s.next ≡ some w) (sym same) found) h)
        found h

  Reaches-all :
      (ds : List (Delivery P)) (s r : SourceOffsets P) (k : P) (v : ℕ × ℕ)
      → add_all ds s ≡ some r
      → Reaches k v s.next
      → Reaches k v r.next
  unfolding add_all Reaches
  Reaches-all [] s r k v h (w, found, up) = (w, ground (arith, h, found), up)
  Reaches-all (d ∷ ds) s r k v h reached =
      Reaches-all ds (add_delivery d s) r k v (ground (arith, h)) (Reaches-kept d s k v reached)

  pub All-Reaches :
      (ds : List (Delivery P)) (s r : SourceOffsets P)
      → add_all ds s ≡ some r
      → All (λ d. Reaches d.partition (d.generation, d.offset + 1) r.next) ds
  unfolding add_all
  All-Reaches [] s r h = tt
  All-Reaches (d ∷ ds) s r h =
      let rest : add_all ds (add_delivery d s) ≡ some r = ground (arith, h) in
      (
        Reaches-all ds (add_delivery d s) r d.partition (d.generation, d.offset + 1) rest
            (Reaches-added d s),
        All-Reaches ds (add_delivery d s) r rest,
      )
