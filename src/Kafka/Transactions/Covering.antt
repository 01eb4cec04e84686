-- ===== src/Kafka/Transactions/Covering.antt =====
-- The positions that src/adapters/kafka/transaction.rs commits for a batch cover its deliveries.
use beave_rs.Base.{
  ℕ, ◌+◌, ◌<◌, ◌≡◌, inl, inr, subst, ap, arith, true, ◌&&◌, Option, none, some, List, [], ◌∷◌, ◌++◌,
  All, Eq, ◌==◌, Bool-cases, Option-cases,
}
use beave_rs.Base.Map.{lookup, lookup-insert, unwrap_or}
use beave_rs.Kafka.Progress.{Progress, is_current}
use beave_rs.Kafka.Transactions.Offsets.{
  Delivery, SourceOffsets, add_next, add_delivery, add_all, offsets_of, all_current,
}
use beave_rs.Kafka.Transactions.Reaching.{from_either, Reaches, All-Reaches}

module _ {ℓ} {P : Type ℓ} ⦃e : Eq P⦄ where
  -- A delivery of the batch is of an assignment that is current.
  all_current-append :
      (xs : List (ℕ × P)) (g : ℕ) (k : P) (p : Progress P)
      → all_current (xs ++ (g, k) ∷ []) p ≡ (all_current xs p && is_current g k p)
  unfolding all_current
  all_current-append [] g k p = ground arith
  all_current-append (x ∷ xs) g k p = ground (arith, all_current-append xs g k p)

  -- Positions are of current assignments, if all deliveries are.
  IsCurrent : Progress P → SourceOffsets P → Type ℓ
  IsCurrent p s =
      all_current s.deliveries p ≡ true
      → (k : P) (g n : ℕ) → lookup k s.next ≡ some (g, n)
      → is_current g k p ≡ true

  IsCurrent-added :
      (d : Delivery P) (s : SourceOffsets P) (p : Progress P)
      → IsCurrent p s
      → IsCurrent p (add_delivery d s)
  unfolding IsCurrent add_delivery
  IsCurrent-added d s p h current k g n found =
      let pair : ℕ × ℕ = (d.generation, d.offset + 1) in
      let next = add_next (lookup d.partition s.next) pair in
      let both = all_current-append s.deliveries d.generation d.partition p in
      let before : all_current s.deliveries p ≡ true = ground (arith, both, current) in
      let own : is_current d.generation d.partition p ≡ true = ground (arith, both, current) in
      let at = lookup-insert d.partition k next s.next in
      elim (Bool-cases (d.partition == k)) [
        | inl same ↦
            elim (from_either (lookup d.partition s.next) d.generation (d.offset + 1) g n
              (ground (arith, at, same, found))) [
                | inl a ↦ ground (arith, a, own, e.eq_iff d.partition k, same)
                | inr (m, there) ↦
                    h before k g m (ground (arith, there, e.eq_iff d.partition k, same))
              ]
        | inr differ ↦ h before k g n (ground (arith, at, differ, found))
      ]

  same_generation :
      (g h : ℕ) (k : P) (p : Progress P) → is_current g k p ≡ true → is_current h k p ≡ true → g ≡ h
  unfolding is_current
  same_generation g h k p a b = elim (Option-cases (lookup k p.active)) [
    | inl absent ↦ ground (arith, absent, a, b)
    | inr (part, there) ↦ ground (arith, there, a, b)
  ]

  IsCurrent-all :
      (ds : List (Delivery P)) (s r : SourceOffsets P) (p : Progress P)
      → add_all ds s ≡ some r
      → IsCurrent p s
      → IsCurrent p r
  unfolding add_all
  IsCurrent-all [] s r p h current = subst (IsCurrent p) (ap (λ o. unwrap_or o s) h) current
  IsCurrent-all (d ∷ ds) s r p h current =
      IsCurrent-all ds (add_delivery d s) r p (ground (arith, h)) (IsCurrent-added d s p current)

  was_current :
      (ds : List (Delivery P)) (s r : SourceOffsets P) (p : Progress P)
      → add_all ds s ≡ some r
      → all_current r.deliveries p ≡ true
      → all_current s.deliveries p ≡ true
  unfolding add_all add_delivery
  was_current [] s r p h current = ground (arith, h, current)
  was_current (d ∷ ds) s r p h current = ground (
    arith,
    all_current-append s.deliveries d.generation d.partition p,
    was_current ds (add_delivery d s) r p (ground (arith, h)) current,
  )

  All-current :
      (ds : List (Delivery P)) (s r : SourceOffsets P) (p : Progress P)
      → add_all ds s ≡ some r
      → all_current r.deliveries p ≡ true
      → All (λ d. is_current d.generation d.partition p ≡ true) ds
  unfolding add_all add_delivery
  All-current [] s r p h current = tt
  All-current (d ∷ ds) s r p h current =
      let rest : add_all ds (add_delivery d s) ≡ some r = ground (arith, h) in
      (
        ground (
          arith,
          all_current-append s.deliveries d.generation d.partition p,
          was_current ds (add_delivery d s) r p rest current,
        ),
        All-current ds (add_delivery d s) r p rest current,
      )

  -- The position of the delivery's assignment is after the delivery.
  abbrev pub IsCovered : SourceOffsets P → Delivery P → Type 0
  IsCovered s d = (n : ℕ) × (lookup d.partition s.next ≡ some (d.generation, n)) × (d.offset < n)

  IsCovered-All :
      (ds : List (Delivery P)) (s : SourceOffsets P) (p : Progress P)
      → IsCurrent p s
      → all_current s.deliveries p ≡ true
      → All (λ d. Reaches d.partition (d.generation, d.offset + 1) s.next) ds
      → All (λ d. is_current d.generation d.partition p ≡ true) ds
      → All (IsCovered s) ds
  unfolding Reaches IsCurrent
  IsCovered-All [] s p current all_are reach each = tt
  IsCovered-All (d ∷ ds) s p current all_are (((g, n), found, up), reach) (own, each) =
      let same =
        same_generation g d.generation d.partition p (current all_are d.partition g n found) own in
      (
        (n, ground (arith, found, same), ground (arith, up, same)),
        IsCovered-All ds s p current all_are reach each,
      )

  found_offsets :
      (o : Option (SourceOffsets P)) (s : SourceOffsets P)
      → elim o [ none ↦ none | some r ↦ some (some r) ] ≡ some (some s)
      → o ≡ some s
  found_offsets none s h = ground arith
  found_offsets (some r) s h = ground (arith, h)

  -- While the assignment of every delivery of a batch is current, as it is checked when the
  -- transaction commits, the transaction commits for the partition and assignment of each delivery of
  -- the batch a position after that delivery.
  pub offsets_cover :
      (ds : List (Delivery P)) (s : SourceOffsets P) (p : Progress P)
      → offsets_of ds ≡ some (some s)
      → all_current s.deliveries p ≡ true
      → All (IsCovered s) ds
  unfolding offsets_of IsCurrent lookup
  offsets_cover [] s p h current = ground (arith, h)
  offsets_cover (d ∷ ds) s p h current =
      let empty : SourceOffsets P = record { consumer = d.consumer; deliveries = []; next = [] } in
      let found : add_all (d ∷ ds) empty ≡ some s = found_offsets (add_all (d ∷ ds) empty) s h in
      IsCovered-All (d ∷ ds) s p
        (IsCurrent-all (d ∷ ds) empty s p found (λ all_are k g n none_yet. ground arith)) current
        (All-Reaches (d ∷ ds) empty s found) (All-current (d ∷ ds) empty s p found current)
