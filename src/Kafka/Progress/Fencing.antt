-- ===== src/Kafka/Progress/Fencing.antt =====
-- src/adapters/kafka/progress.rs: what a revocation and a handoff refuse afterwards.
use beave_rs.Base.{
  ℕ, ◌+◌, ◌≡◌, refl, arith, nat_beq, nat_beq_iff, if◌then◌else◌, false, ◌||◌, none, some, List, [],
  ◌∷◌, Eq, ◌==◌, Option-cases, any, map,
}
use beave_rs.Base.Map.{Map, lookup, contains, lookup-insert, lookup-remove}
use beave_rs.Token.{Token, is_cancelled, cancel, is_cancelled-cancel}
use beave_rs.Token
use beave_rs.Kafka.Progress.Received.{
  PartitionProgress, err, revoked_assignment, expired_assignment,
}
use beave_rs.Kafka.Progress.{
  Progress, generation_of, next_generation, new_partition, activate, revoke, revoke_keys,
  revoke_all, register, complete, release, committed, is_current, position,
}

module _ {ℓ} {P : Type ℓ} ⦃e : Eq P⦄ where
  revoke-active :
      (key k : P) (p : Progress P)
      → lookup k (revoke key p).active ≡ (if key == k then none else lookup k p.active)
  unfolding revoke
  revoke-active key k p = ground (arith, e.eq_iff key k, lookup-remove key k p.active)

  revoke-generations :
      (key k : P) (p : Progress P)
      → generation_of k (revoke key p)
        ≡ (if key == k then next_generation (generation_of key p) else generation_of k p)
  unfolding revoke
  revoke-generations key k p = ground (
    arith,
    lookup-insert key k (next_generation (generation_of key p)) p.generations,
    Option-cases (lookup key p.active),
  )

  -- Revoking an assigned partition cancels exactly that partition's two tokens, drops its progress
  -- and no other, gives it the next generation and changes no other generation and no pause.
  pub revoke_lem :
      (key k : P) (j : Token) (part : PartitionProgress) (p : Progress P)
      → lookup key p.active ≡ some part
      → (is_cancelled j (revoke key p).tokens
          ≡ (nat_beq part.revoked j || nat_beq part.handoff j || is_cancelled j p.tokens))
        × (lookup k (revoke key p).active ≡ (if key == k then none else lookup k p.active))
        × (generation_of k (revoke key p)
            ≡ (if key == k then next_generation (generation_of key p) else generation_of k p))
        × ((revoke key p).paused ≡ p.paused)
  unfolding revoke
  revoke_lem key k j part p h = (
    ground (
      arith,
      h,
      is_cancelled-cancel part.revoked j (cancel part.handoff p.tokens),
      is_cancelled-cancel part.handoff j p.tokens,
    ),
    revoke-active key k p,
    revoke-generations key k p,
    ground (arith, h),
  )

  -- While a partition is revoked, whatever generation a delivery has, its completion fails with the
  -- error for a revoked assignment, nothing is registered for it or committed, and no position is
  -- offered.
  pub revoked_is_refused :
      (key : P) (g o : ℕ) (p : Progress P)
      → (complete g key o (revoke key p) ≡ (revoke key p, err revoked_assignment))
        × (register key g o (revoke key p) ≡ (revoke key p, none))
        × (release g key o (revoke key p) ≡ revoke key p)
        × (committed g key o (revoke key p) ≡ revoke key p)
        × (position key (revoke key p) ≡ none)
        × (is_current g key (revoke key p) ≡ false)
  unfolding complete register release committed position is_current
  revoked_is_refused key g o p =
      let gone : lookup key (revoke key p).active ≡ none =
        ground (arith, revoke-active key key p, e.eq_iff key key) in
      (
        ground (arith, gone),
        ground (arith, gone),
        ground (arith, gone),
        ground (arith, gone),
        ground (arith, gone),
        ground (arith, gone),
      )

  reassigned :
      (key : P) (p : Progress P)
      → (part : PartitionProgress) × (lookup key (activate key (revoke key p)).active ≡ some part)
        × (part.generation ≡ next_generation (next_generation (generation_of key p)))
  unfolding activate new_partition Token.new
  reassigned key p =
      let q = revoke key p in
      let g = next_generation (generation_of key q) in
      let gone : lookup key q.active ≡ none =
        ground (arith, revoke-active key key p, e.eq_iff key key) in
      let part : PartitionProgress = record {
        generation = g;
        revoked = q.tokens.next;
        handoff = q.tokens.next + 1;
        next = none;
        received = [];
      } in
      (
        part,
        ground (arith, gone, e.eq_iff key key, lookup-insert key key part q.active),
        ground (arith, revoke-generations key key p, e.eq_iff key key),
      )

  -- After a partition was revoked and assigned again, a delivery of the assignment before is fenced:
  -- its completion fails with the error for an expired assignment and changes nothing, and so it is
  -- with its registration, its release and its commit.
  pub old_assignment_is_fenced :
      (key : P) (g o : ℕ) (p : Progress P)
      → generation_of key p ≡ g
      → (complete g key o (activate key (revoke key p))
          ≡ (activate key (revoke key p), err expired_assignment))
        × (register key g o (activate key (revoke key p)) ≡ (activate key (revoke key p), none))
        × (release g key o (activate key (revoke key p)) ≡ activate key (revoke key p))
        × (committed g key o (activate key (revoke key p)) ≡ activate key (revoke key p))
        × (is_current g key (activate key (revoke key p)) ≡ false)
  unfolding complete register release committed is_current
  old_assignment_is_fenced key g o p h =
      let (part, at, now) = reassigned key p in
      let stale : nat_beq part.generation g ≡ false =
        ground (arith, h, now, nat_beq_iff part.generation g) in
      (
        ground (arith, at, stale),
        ground (arith, at, stale),
        ground (arith, at, stale),
        ground (arith, at, stale),
        ground (arith, at, stale),
      )

  revoke_keys-active :
      (keys : List P) (k : P) (p : Progress P)
      → lookup k (revoke_keys keys p).active
        ≡ (if any (λ key. key == k) keys then none else lookup k p.active)
  unfolding revoke_keys
  revoke_keys-active [] k p = refl
  revoke_keys-active (key ∷ keys) k p =
      ground (arith, revoke_keys-active keys k (revoke key p), revoke-active key k p)

  key_is_listed :
      {V : Type 0} (k : P) (m : Map P V)
      → any (λ key. key == k) (map (λ entry. entry.0) m) ≡ contains k m
  unfolding lookup
  key_is_listed k [] = refl
  key_is_listed k ((j, v) ∷ m) = ground (arith, key_is_listed k m)

  -- `revoke_all` leaves no partition assigned.
  revoke_all_lem : (k : P) (p : Progress P) → lookup k (revoke_all p).active ≡ none
  unfolding revoke_all
  revoke_all_lem k p = ground (
    arith,
    revoke_keys-active (map (λ entry. entry.0) p.active) k p,
    key_is_listed k p.active,
    Option-cases (lookup k p.active),
  )
