-- ===== src/Kafka/Consumer/Steps.antt =====
-- Every step of a consumer over src/adapters/kafka/progress.rs keeps the safety invariant.
use beave_rs.Base.{
  ℕ, suc, ◌+◌, ◌<◌, ◌^◌, ◌≡◌, refl, ap, ◌∙◌, arith, nat_beq, if◌then◌else◌, true, not, ◌||◌, Option,
  none, some, List, [], ◌∷◌, Eq, ◌==◌, Option-cases, Bool-cases, ◌⊎◌, inl, inr, subst,
}
use beave_rs.Base.Map.{lookup, lookup-insert, lookup-remove, unwrap_or}
use beave_rs.Kafka.Progress.Received.{
  PartitionProgress, Completed, CompleteError, ok, err, register_offset, complete_offset,
  release_offset, commit_offset, commit_position,
}
use beave_rs.Kafka.Progress.History.{
  deliver, offer, acknowledge, InOrder, Untouched, FollowsPartition, register_offset-Follows,
  commit_position-Follows,
}
use beave_rs.Kafka.Progress.Settling.{
  complete_offset-Follows, release_offset-Follows, commit_offset-Follows,
}
use beave_rs.Kafka.Progress.{
  Progress, generation_of, next_generation, new_partition, activate, revoke, register, complete,
  release, committed, position, begin_handoff, handoff_in, pause, resume,
}
use beave_rs.Kafka.Consumer.{
  Consumer, started, on_history, after_receive, after_complete, Step, assigns, revokes, receives,
  completes, releases, commits, reads, hands_off, pauses, resumes, Reach, here, next,
}
use beave_rs.Token
use beave_rs.Token.{is_cancelled}
use beave_rs.Kafka.Consumer.Safety.{Inv, update-Inv, same-Inv}

register_offset_generation :
    (o : ℕ) (p : PartitionProgress) → (register_offset o p).generation ≡ p.generation
unfolding register_offset
register_offset_generation o p = ground arith

complete_offset_generation :
    (o : ℕ) (p q : PartitionProgress) (position : Option ℕ)
    → complete_offset o p ≡ ok (q, position)
    → q.generation ≡ p.generation
unfolding complete_offset
complete_offset_generation o p q position h = ground arith

commit_offset_generation :
    (c : ℕ) (p : PartitionProgress) → (commit_offset c p).generation ≡ p.generation
unfolding commit_offset
commit_offset_generation c p = ground arith

abbrev Outcome : Type 0
Outcome = Completed (PartitionProgress × Option ℕ)

Completed-cases :
    (r : Outcome)
    → ((x : PartitionProgress × Option ℕ) × (r ≡ ok x)) ⊎ ((x : CompleteError) × (r ≡ err x))
Completed-cases (ok x) = inl (x, refl)
Completed-cases (err x) = inr (x, refl)

module _ {ℓ} {P : Type ℓ} ⦃e : Eq P⦄ where
  assign_new-Inv :
      (s : Consumer P) (key : P)
      → lookup key s.progress.active ≡ none
      → generation_of key s.progress + 1 < 2 ^ 64
      → Inv s
      → Inv (record s { progress = new_partition key s.progress })
  unfolding new_partition Token.new
  assign_new-Inv s key absent room v =
      let g = next_generation (generation_of key s.progress) in
      let g_eq : g ≡ generation_of key s.progress + 1 = omega arith in
      let t = record s { progress = new_partition key s.progress } in
      let fresh : PartitionProgress = record {
        generation = g;
        revoked = s.progress.tokens.next;
        handoff = suc s.progress.tokens.next;
        next = none;
        received = [];
      } in
      let active : (k : P)
          → lookup k t.progress.active
            ≡ (if key == k then some fresh else lookup k s.progress.active) =
        λ k. lookup-insert key k fresh s.progress.active in
      let gens : (k : P)
          → generation_of k t.progress ≡ (if key == k then g else generation_of k s.progress) =
        λ k. ground (arith, lookup-insert key k g s.progress.generations) in
      record {
        current = λ k q at. ground (arith, at, active k, gens k, v.current k q);
        follows = λ k q at. elim (Bool-cases (key == k)) [
          | inl same ↦
              let this : fresh ≡ q = ground (arith, same, at, active k) in
              let this_k : key ≡ k = (e.eq_iff key k).0 same in
              subst (λ r. FollowsPartition r (s.histories k r.generation)) this
                (subst (λ j. Untouched [] (s.histories j g)) this_k
                  (v.blank key g (omega (arith, g_eq))))
          | inr differ ↦ v.follows k q (ground (arith, differ, at, active k))
        ];
        blank = λ k m lt. v.blank k m (ground (arith, lt, gens k, g_eq, e.eq_iff key k));
        safe = v.safe;
      }

  activate-Inv :
      (s : Consumer P) (key : P)
      → generation_of key s.progress + 1 < 2 ^ 64
      → Inv s
      → Inv (record s { progress = activate key s.progress })
  unfolding activate
  activate-Inv s key room v = elim (Option-cases (lookup key s.progress.active)) [
    | inl absent ↦ rw (absent, activate) (assign_new-Inv s key absent room v)
    | inr (part, found) ↦ rw (found, activate) v
  ]

  revoke-Inv :
      (s : Consumer P) (key : P)
      → generation_of key s.progress + 1 < 2 ^ 64
      → Inv s
      → Inv (record s { progress = revoke key s.progress })
  unfolding revoke
  revoke-Inv s key room v =
      let g = next_generation (generation_of key s.progress) in
      let g_eq : g ≡ generation_of key s.progress + 1 = omega arith in
      let t = record s { progress = revoke key s.progress } in
      let active : (k : P)
          → lookup k t.progress.active ≡ (if key == k then none else lookup k s.progress.active) =
        λ k. ground (arith, e.eq_iff key k, lookup-remove key k s.progress.active) in
      let gens : (k : P)
          → generation_of k t.progress ≡ (if key == k then g else generation_of k s.progress) =
        λ k. ground (arith, lookup-insert key k g s.progress.generations) in
      record {
        current = λ k q at. ground (arith, at, active k, gens k, v.current k q);
        follows = λ k q at. v.follows k q (ground (arith, at, active k));
        blank = λ k m lt. v.blank k m (ground (arith, lt, gens k, g_eq, e.eq_iff key k));
        safe = v.safe;
      }

  receive-Inv :
      (s : Consumer P) (key : P) (g o : ℕ)
      → InOrder o (s.histories key g)
      → Inv s
      → Inv (after_receive key g o s)
  unfolding after_receive register
  receive-Inv s key g o order v = elim (Option-cases (lookup key s.progress.active)) [
    | inl absent ↦ rw (absent, after_receive, register) v
    | inr (part, found) ↦
        elim (Bool-cases
          (not (nat_beq part.generation g) || is_cancelled part.handoff s.progress.tokens)) [
            | inl stale ↦
                same-Inv s _ (λ k. ground arith) (λ k. ground arith) (λ k m. ground arith) v
            | inr taken ↦
                update-Inv s _ key part (register_offset o part)
                  (deliver o (s.histories key part.generation)) found
                  (register_offset_generation o part)
                  (λ k. ground (
                    arith,
                    found,
                    taken,
                    lookup-insert key k (register_offset o part) s.progress.active,
                  ))
                  (λ k. ground (arith, found, taken))
                  (λ k m. ground (arith, found, taken, e.eq_iff key k))
                  (register_offset-Follows o part (s.histories key part.generation)
                    (ground (arith, order, taken)) (v.follows key part found))
                  v
          ]
  ]

  complete-Inv : (s : Consumer P) (g : ℕ) (key : P) (o : ℕ) → Inv s → Inv (after_complete g key o s)
  unfolding after_complete complete
  complete-Inv s g key o v = elim (Option-cases (lookup key s.progress.active)) [
    | inl absent ↦ rw (absent, after_complete, complete) v
    | inr (part, found) ↦ elim (Bool-cases (nat_beq part.generation g)) [
      | inr stale ↦ same-Inv s _ (λ k. ground arith) (λ k. ground arith) (λ k m. ground arith) v
      | inl ours ↦ elim (Completed-cases (complete_offset o part)) [
        | inr (x, failed) ↦
            same-Inv s _ (λ k. ground arith) (λ k. ground arith) (λ k m. ground arith) v
        | inl ((q, position), done_) ↦
            update-Inv s _ key part q (acknowledge o position (s.histories key part.generation))
              found (complete_offset_generation o part q position done_)
              (λ k. ground (arith, lookup-insert key k q s.progress.active)) (λ k. ground arith)
              (λ k m. ground (arith, e.eq_iff key k))
              (complete_offset-Follows o part q position (s.histories key part.generation) done_
                (v.follows key part found))
              v
      ]
    ]
  ]

  release-Inv :
      (s : Consumer P) (g : ℕ) (key : P) (o : ℕ)
      → Inv s
      → Inv (record s { progress = release g key o s.progress })
  unfolding release
  release-Inv s g key o v = elim (Option-cases (lookup key s.progress.active)) [
    | inl absent ↦ rw (absent, release) v
    | inr (part, found) ↦ elim (Bool-cases (nat_beq part.generation g)) [
      | inr stale ↦ same-Inv s _ (λ k. ground arith) (λ k. ground arith) (λ k m. ground arith) v
      | inl ours ↦
          update-Inv s _ key part (release_offset o part) (s.histories key part.generation) found
            (unfold release_offset in refl)
            (λ k. ground (arith, lookup-insert key k (release_offset o part) s.progress.active))
            (λ k. ground arith) (λ k m. ground (arith, e.eq_iff key k))
            (release_offset-Follows o part (s.histories key part.generation)
              (v.follows key part found))
            v
    ]
  ]

  commit-Inv :
      (s : Consumer P) (g : ℕ) (key : P) (c : ℕ)
      → (s.histories key g).offered c ≡ true
      → Inv s
      → Inv (record s { progress = committed g key c s.progress })
  unfolding committed
  commit-Inv s g key c given v = elim (Option-cases (lookup key s.progress.active)) [
    | inl absent ↦ rw (absent, committed) v
    | inr (part, found) ↦ elim (Bool-cases (nat_beq part.generation g)) [
      | inr stale ↦ same-Inv s _ (λ k. ground arith) (λ k. ground arith) (λ k m. ground arith) v
      | inl ours ↦
          update-Inv s _ key part (commit_offset c part) (s.histories key part.generation) found
            (commit_offset_generation c part)
            (λ k. ground (arith, lookup-insert key k (commit_offset c part) s.progress.active))
            (λ k. ground arith) (λ k m. ground (arith, e.eq_iff key k))
            (commit_offset-Follows c part (s.histories key part.generation)
              (ground (arith, given, ours)) (v.follows key part found))
            v
    ]
  ]

  read-Inv :
      (s : Consumer P) (key : P) (g c : ℕ)
      → position key s.progress ≡ some (g, c)
      → Inv s
      → Inv (record s { histories = on_history key g (offer (some c)) s.histories })
  unfolding position
  read-Inv s key g c h v = elim (Option-cases (lookup key s.progress.active)) [
    | inl absent ↦ ground arith
    | inr (part, found) ↦
        let at : (part.generation ≡ g) × (commit_position part ≡ some c) = ground arith in
        update-Inv s _ key part part (offer (some c) (s.histories key part.generation)) found refl
          (λ k. ground (arith, e.eq_iff key k)) (λ k. refl)
          (λ k m. ground (arith, at.0, e.eq_iff key k))
          (subst (λ x. FollowsPartition part (offer x (s.histories key part.generation))) at.1
            (commit_position-Follows part (s.histories key part.generation)
              (v.follows key part found)))
          v
  ]

  handoff_in_keeps :
      (part : Option PartitionProgress) (key : P) (p : Progress P)
      → ((handoff_in part key p).0.active ≡ p.active)
        × ((handoff_in part key p).0.generations ≡ p.generations)
  unfolding handoff_in
  handoff_in_keeps none key p = (refl, refl)
  handoff_in_keeps (some part) key p = (refl, refl)

  begin_handoff_keeps :
      (keys : List P) (p : Progress P)
      → ((begin_handoff keys p).0.active ≡ p.active)
        × ((begin_handoff keys p).0.generations ≡ p.generations)
  unfolding begin_handoff
  begin_handoff_keeps [] p = (refl, refl)
  begin_handoff_keeps (key ∷ keys) p =
      let (a, g) = handoff_in_keeps (lookup key p.active) key p in
      let (b, h) = begin_handoff_keeps keys (handoff_in (lookup key p.active) key p).0 in
      (b ∙ a, h ∙ g)

  pub step-Inv : {s t : Consumer P} → Step s t → Inv s → Inv t
  unfolding pause resume
  step-Inv {s = s} (assigns key room) v = activate-Inv s key room v
  step-Inv {s = s} (revokes key room) v = revoke-Inv s key room v
  step-Inv {s = s} (receives key g o order) v = receive-Inv s key g o order v
  step-Inv {s = s} (completes g key o) v = complete-Inv s g key o v
  step-Inv {s = s} (releases g key o) v = release-Inv s g key o v
  step-Inv {s = s} (commits g key c given) v = commit-Inv s g key c given v
  step-Inv {s = s} (reads key g c at) v = read-Inv s key g c at v
  step-Inv {s = s} (hands_off keys) v =
      let (active, gens) = begin_handoff_keeps keys s.progress in
      same-Inv s _ (λ k. ap (lookup k) active) (λ k. ap (λ m. unwrap_or (lookup k m) 0) gens)
        (λ k m. refl) v
  step-Inv {s = s} (pauses key) v = same-Inv s _ (λ k. refl) (λ k. refl) (λ k m. refl) v
  step-Inv {s = s} (resumes key) v = same-Inv s _ (λ k. refl) (λ k. refl) (λ k m. refl) v

  started-Inv : Inv (started {P = P})
  unfolding lookup
  started-Inv = record {
    current = λ k q at. cc;
    follows = λ k q at. cc;
    blank = λ k g lt. record {
      empty = refl;
      undelivered = λ o. refl;
      unoffered = λ c. refl;
      bound_zero = refl;
    };
    safe = λ k g c o f d l. cc;
  }

  consumer-Inv : {s : Consumer P} → Reach s → Inv s
  consumer-Inv here = started-Inv
  consumer-Inv (next r st) = step-Inv st (consumer-Inv r)

  -- Whatever the order of rebalances, deliveries, outcomes, handoffs and commits, as long as each
  -- partition's records come in offset order, no generation wraps round and only positions that were
  -- offered are recorded as committed: every delivery of an assignment below a commit position
  -- offered for that assignment was acknowledged in it.
  pub commits_cover_acknowledged :
      {s : Consumer P} (key : P) (g c o : ℕ)
      → Reach s
      → (s.histories key g).offered c ≡ true
      → (s.histories key g).delivered o ≡ true
      → o < c
      → (s.histories key g).acked o ≡ true
  commits_cover_acknowledged key g c o r = (consumer-Inv r).safe key g c o
