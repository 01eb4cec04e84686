-- ===== src/Kafka/Tests.antt =====
-- Runs of the consumer of src/adapters/kafka/progress.rs, and its theorems on one of them.
use beave_rs.Base.{
  ℕ, ◌≡◌, refl, true, false, none, some, [], ◌∷◌, nat_eq, nat_beq, inr, ◌||◌, if◌then◌else◌, arith,
  String, string_eq, pair_eq,
}
use beave_rs.Base.Map.{lookup, insert}
use beave_rs.Token.{Token, is_cancelled, cancel}
use beave_rs.Token
use beave_rs.Kafka.Progress.Received.{
  PartitionProgress, pending, err, revoked_assignment, expired_assignment, register_offset,
  complete_offset, status_of, set_status, insert_pending, first_open, last_offset, candidate,
  commit_position,
}
use beave_rs.Kafka.Progress.{
  Progress, default_progress, generation_of, next_generation, new_partition, activate, revoke,
  register, complete, release, committed, is_current, begin_handoff, position,
}
use beave_rs.Kafka.Progress.Fencing.{revoke_lem, revoked_is_refused, old_assignment_is_fenced}
use beave_rs.Kafka.Progress.Handoff.{begin_handoff_lem}
use beave_rs.Kafka.Consumer.{
  Consumer, started, Reach, here, next, assigns, receives, completes, after_receive, after_complete,
}
use beave_rs.Kafka.Consumer.Steps.{commits_cover_acknowledged}

abbrev orders : String × ℕ
orders = ("orders", 0)

abbrev assigned : Consumer (String × ℕ)
assigned = record started { progress = activate orders default_progress }

abbrev received : Consumer (String × ℕ)
received = after_receive orders 1 9 (after_receive orders 1 7 assigned)

-- Offset 9 is acknowledged before offset 7.
abbrev completed : Consumer (String × ℕ)
completed = after_complete 1 orders 7 (after_complete 1 orders 9 received)

completed-Reach : Reach completed
unfolding activate new_partition Token.new after_receive register register_offset lookup insert
    is_cancelled
completed-Reach =
    next
      (next
        (next
          (next (next here (assigns orders (omega arith)))
            (receives orders 1 7 (inr (omega arith))))
          (receives orders 1 9 (inr (omega arith))))
        (completes 1 orders 9))
      (completes 1 orders 7)

-- The completion of offset 7 offers the position after offset 9.
completed_offers_10 : (completed.histories orders 1).offered 10 ≡ true
unfolding activate new_partition Token.new after_receive after_complete register register_offset
    complete complete_offset lookup insert insert_pending status_of set_status is_cancelled
    commit_position candidate first_open last_offset
completed_offers_10 = refl

completed_delivered_9 : (completed.histories orders 1).delivered 9 ≡ true
unfolding activate new_partition Token.new after_receive after_complete register register_offset
    complete complete_offset lookup insert insert_pending status_of set_status is_cancelled
    commit_position candidate first_open last_offset
completed_delivered_9 = refl

commits_cover_acknowledged_example : (completed.histories orders 1).acked 9 ≡ true
commits_cover_acknowledged_example =
    commits_cover_acknowledged orders 1 10 9 completed-Reach completed_offers_10
      completed_delivered_9 (omega arith)

-- A partition of an assignment with one registered delivery.
abbrev serving : Progress ℕ
serving = (register 5 1 7 (activate 5 default_progress)).0

abbrev part_5 : PartitionProgress
part_5 = record {
  generation = 1;
  revoked = 0;
  handoff = 1;
  next = some 7;
  received = (7, pending) ∷ [];
}

serving_5 : lookup 5 serving.active ≡ some part_5
unfolding activate new_partition Token.new register register_offset lookup insert insert_pending
    is_cancelled
serving_5 = refl

serving_generation : generation_of 5 serving ≡ 1
unfolding activate new_partition Token.new register register_offset lookup insert insert_pending
    is_cancelled
serving_generation = refl

revoke_lem_example :
    (is_cancelled 1 (revoke 5 serving).tokens
      ≡ (nat_beq 0 1 || nat_beq 1 1 || is_cancelled 1 serving.tokens))
    × (lookup 6 (revoke 5 serving).active ≡ (if nat_beq 5 6 then none else lookup 6 serving.active))
    × (generation_of 6 (revoke 5 serving) ≡ (
        if nat_beq 5 6 then next_generation (generation_of 5 serving) else generation_of 6 serving))
    × ((revoke 5 serving).paused ≡ serving.paused)
revoke_lem_example = revoke_lem 5 6 1 part_5 serving serving_5

revoked_is_refused_example :
    (complete 1 5 7 (revoke 5 serving) ≡ (revoke 5 serving, err revoked_assignment))
    × (register 5 1 7 (revoke 5 serving) ≡ (revoke 5 serving, none))
    × (release 1 5 7 (revoke 5 serving) ≡ revoke 5 serving)
    × (committed 1 5 7 (revoke 5 serving) ≡ revoke 5 serving)
    × (position 5 (revoke 5 serving) ≡ none)
    × (is_current 1 5 (revoke 5 serving) ≡ false)
revoked_is_refused_example = revoked_is_refused 5 1 7 serving

old_assignment_is_fenced_example :
    (complete 1 5 7 (activate 5 (revoke 5 serving))
      ≡ (activate 5 (revoke 5 serving), err expired_assignment))
    × (register 5 1 7 (activate 5 (revoke 5 serving)) ≡ (activate 5 (revoke 5 serving), none))
    × (release 1 5 7 (activate 5 (revoke 5 serving)) ≡ activate 5 (revoke 5 serving))
    × (committed 1 5 7 (activate 5 (revoke 5 serving)) ≡ activate 5 (revoke 5 serving))
    × (is_current 1 5 (activate 5 (revoke 5 serving)) ≡ false)
old_assignment_is_fenced_example = old_assignment_is_fenced 5 1 7 serving serving_generation

begin_handoff_lem_example :
    (lookup 5 (begin_handoff (4 ∷ 5 ∷ []) serving).0.active ≡ some part_5)
    × (register 5 1 8 (begin_handoff (4 ∷ 5 ∷ []) serving).0
        ≡ ((begin_handoff (4 ∷ 5 ∷ []) serving).0, none))
    × ((complete 1 5 8 (begin_handoff (4 ∷ 5 ∷ []) serving).0).1 ≡ (complete 1 5 8 serving).1)
    × ((complete 1 5 8 (begin_handoff (4 ∷ 5 ∷ []) serving).0).0.active
        ≡ (complete 1 5 8 serving).0.active)
begin_handoff_lem_example = begin_handoff_lem (4 ∷ 5 ∷ []) 5 1 8 part_5 serving refl serving_5
