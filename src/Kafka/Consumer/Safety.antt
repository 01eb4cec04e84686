-- ===== src/Kafka/Consumer/Safety.antt =====
-- src/adapters/kafka/progress.rs never offers a commit position above a delivery that was not
-- acknowledged.
use beave_rs.Base.{
  ℕ, ◌<◌, ◌≡◌, arith, nat_beq, if◌then◌else◌, true, ◌&&◌, some, [], Eq, ◌==◌, Bool-cases, inl, inr,
  subst,
}
use beave_rs.Base.Map.{lookup}
use beave_rs.Kafka.Progress.Received.{PartitionProgress}
use beave_rs.Kafka.Progress.History.{History, Untouched, FollowsPartition}
use beave_rs.Kafka.Progress.Settling.{Follows-covered}
use beave_rs.Kafka.Progress.{generation_of}
use beave_rs.Kafka.Consumer.{Consumer}

-- Every position offered in an assignment covers acknowledged deliveries only.
abbrev pub Covered : History → Type 0
Covered h = (c o : ℕ) → h.offered c ≡ true → h.delivered o ≡ true → o < c → h.acked o ≡ true

module _ {ℓ} {P : Type ℓ} ⦃e : Eq P⦄ where
  pub record Inv (s : Consumer P) : Type ℓ where
    pub current :
        (k : P) (part : PartitionProgress)
        → lookup k s.progress.active ≡ some part
        → part.generation ≡ generation_of k s.progress
    pub follows :
        (k : P) (part : PartitionProgress)
        → lookup k s.progress.active ≡ some part
        → FollowsPartition part (s.histories k part.generation)
    pub blank : (k : P) (g : ℕ) → generation_of k s.progress < g → Untouched [] (s.histories k g)
    pub safe : (k : P) (g : ℕ) → Covered (s.histories k g)

  -- A step that changes the progress and the history of one assigned partition.
  pub update-Inv :
      (s t : Consumer P) (key : P) (part part' : PartitionProgress) (h : History)
      → lookup key s.progress.active ≡ some part
      → part'.generation ≡ part.generation
      → ((k : P)
          → lookup k t.progress.active
            ≡ (if key == k then some part' else lookup k s.progress.active))
      → ((k : P) → generation_of k t.progress ≡ generation_of k s.progress)
      → ((k : P) (m : ℕ)
          → t.histories k m
            ≡ (if key == k && nat_beq part.generation m then h else s.histories k m))
      → FollowsPartition part' h
      → Inv s
      → Inv t
  update-Inv s t key part part' h found same_g active gens hist f v = record {
    current = λ k q at. ground (
      arith,
      at,
      found,
      same_g,
      active k,
      gens k,
      e.eq_iff key k,
      v.current key part found,
      v.current k q,
    );
    follows = λ k q at. elim (Bool-cases (key == k)) [
      | inl same ↦
          let this : part' ≡ q = ground (arith, same, at, active k) in
          let now : t.histories k q.generation ≡ h =
            ground (arith, same, same_g, this, hist k q.generation) in
          rw now (subst (λ r. FollowsPartition r h) this f)
      | inr differ ↦
          let now : t.histories k q.generation ≡ s.histories k q.generation =
            ground (arith, differ, hist k q.generation) in
          rw now (v.follows k q (ground (arith, differ, at, active k)))
    ];
    blank = λ k g lt.
        let now : t.histories k g ≡ s.histories k g =
          ground (arith, lt, gens k, hist k g, found, e.eq_iff key k, v.current key part found) in
        rw now (v.blank k g (omega (arith, gens k)));
    safe = λ k g. elim (Bool-cases (key == k && nat_beq part.generation g)) [
      | inl this ↦
          let now : t.histories k g ≡ h = ground (arith, this, hist k g) in
          λ c o. ground (arith, now, Follows-covered part'.next part'.received h c o f)
      | inr other ↦
          let now : t.histories k g ≡ s.histories k g = ground (arith, other, hist k g) in
          rw now (v.safe k g)
    ];
  }

  -- A step that leaves the assignments and the histories alone.
  pub same-Inv :
      (s t : Consumer P)
      → ((k : P) → lookup k t.progress.active ≡ lookup k s.progress.active)
      → ((k : P) → generation_of k t.progress ≡ generation_of k s.progress)
      → ((k : P) (m : ℕ) → t.histories k m ≡ s.histories k m)
      → Inv s
      → Inv t
  same-Inv s t active gens hist v = record {
    current = λ k q at. ground (arith, at, active k, gens k, v.current k q);
    follows = λ k q at. rw (hist k q.generation) (v.follows k q (ground (arith, at, active k)));
    blank = λ k g lt. rw (hist k g) (v.blank k g (omega (arith, gens k)));
    safe = λ k g. rw (hist k g) (v.safe k g);
  }
