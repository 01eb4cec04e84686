-- ===== src/Kafka/Progress/Handoff.antt =====
-- src/adapters/kafka/progress.rs: `begin_handoff` stops deliveries and keeps the outcomes.
use beave_rs.Base.{
  ℕ, ◌≡◌, refl, arith, true, none, some, List, [], ◌∷◌, Eq, ◌==◌, Option-cases, Bool-cases, any,
  retain, inl, inr,
}
use beave_rs.Base.Map.{lookup, contains}
use beave_rs.Token.{Token, is_cancelled, cancel, is_cancelled-cancel}
use beave_rs.Kafka.Progress.Received.{PartitionProgress}
use beave_rs.Kafka.Progress.{Progress, register, complete, handoff_in, begin_handoff}

module _ {ℓ} {P : Type ℓ} ⦃e : Eq P⦄ where
  begin_handoff-active :
      (keys : List P) (p : Progress P) → (begin_handoff keys p).0.active ≡ p.active
  unfolding begin_handoff handoff_in
  begin_handoff-active [] p = refl
  begin_handoff-active (key ∷ keys) p = ground (
    arith,
    begin_handoff-active keys (handoff_in (lookup key p.active) key p).0,
    Option-cases (lookup key p.active),
  )

  keeps_cancelled :
      (keys : List P) (j : Token) (p : Progress P)
      → is_cancelled j p.tokens ≡ true
      → is_cancelled j (begin_handoff keys p).0.tokens ≡ true
  unfolding begin_handoff handoff_in
  keeps_cancelled [] j p h = h
  keeps_cancelled (key ∷ keys) j p h = elim (Option-cases (lookup key p.active)) [
    | inl absent ↦ rw (absent, begin_handoff) (keeps_cancelled keys j p h)
    | inr (part, found) ↦
        rw (found, begin_handoff)
          (keeps_cancelled keys j (record p { tokens = cancel part.handoff p.tokens })
            (ground (arith, is_cancelled-cancel part.handoff j p.tokens)))
  ]

  handed_off :
      (keys : List P) (key : P) (part : PartitionProgress) (p : Progress P)
      → any (λ k. k == key) keys ≡ true
      → lookup key p.active ≡ some part
      → is_cancelled part.handoff (begin_handoff keys p).0.tokens ≡ true
  unfolding begin_handoff handoff_in
  handed_off [] key part p listed found = ground arith
  handed_off (k ∷ keys) key part p listed found =
      let q = (handoff_in (lookup k p.active) k p).0 in
      elim (Bool-cases (k == key)) [
        | inl same ↦ keeps_cancelled keys part.handoff q (
            ground (
              arith,
              (e.eq_iff k key).0 same,
              is_cancelled-cancel part.handoff part.handoff p.tokens,
            ))
        | inr differ ↦
            handed_off keys key part q (ground arith)
              (ground (arith, Option-cases (lookup k p.active)))
      ]

  -- After a handoff of a listed and assigned partition its progress is unchanged, no delivery of it
  -- is registered, and the outcomes of the deliveries before it are recorded as they would be
  -- without the handoff.
  pub begin_handoff_lem :
      (keys : List P) (key : P) (g o : ℕ) (part : PartitionProgress) (p : Progress P)
      → any (λ k. k == key) keys ≡ true
      → lookup key p.active ≡ some part
      → (lookup key (begin_handoff keys p).0.active ≡ some part)
        × (register key g o (begin_handoff keys p).0 ≡ ((begin_handoff keys p).0, none))
        × ((complete g key o (begin_handoff keys p).0).1 ≡ (complete g key o p).1)
        × ((complete g key o (begin_handoff keys p).0).0.active ≡ (complete g key o p).0.active)
  unfolding register complete
  begin_handoff_lem keys key g o part p listed found =
      let same_active = begin_handoff-active keys p in
      let still : lookup key (begin_handoff keys p).0.active ≡ some part =
        ground (arith, found, same_active) in
      let over = handed_off keys key part p listed found in
      (
        still,
        ground (arith, still, over),
        ground (arith, still, found),
        ground (arith, still, found, same_active),
      )

  -- `begin_handoff` keeps exactly the keys that are assigned.
  begin_handoff_keys :
      (keys : List P) (p : Progress P)
      → (begin_handoff keys p).1 ≡ retain (λ key. contains key p.active) keys
  unfolding begin_handoff handoff_in
  begin_handoff_keys [] p = refl
  begin_handoff_keys (key ∷ keys) p = elim (Option-cases (lookup key p.active)) [
    | inl absent ↦ ground (arith, absent, begin_handoff_keys keys p)
    | inr (part, found) ↦
        ground (
          arith,
          found,
          begin_handoff_keys keys (record p { tokens = cancel part.handoff p.tokens }),
        )
  ]
