-- ===== src/Kafka/Source/Tests.antt =====
-- A source of src/adapters/kafka/source.rs with one partition, and the theorems on it.
use beave_rs.Base.{
  ℕ, ◌+◌, ◌≡◌, refl, sym, arith, append_none, true, false, [], ◌∷◌, map, String, string_eq, nat_eq,
  pair_eq, inr,
}
use beave_rs.Base.Map.{lookup, insert, remove}
use beave_rs.Token.{is_cancelled, cancel}
use beave_rs.Token
use beave_rs.Kafka.Progress.Received.{
  register_offset, insert_pending, status_of, set_status, complete_offset, commit_position,
  candidate, first_open, last_offset,
}
use beave_rs.Kafka.Progress.History.{InOrder}
use beave_rs.Kafka.Progress.{
  default_progress, new_partition, activate, register, revoke, complete, position, begin_handoff,
  handoff_in,
}
use beave_rs.Kafka.Consumer.{Consumer, started, Reach, here, next, assigns, receives, after_receive}
use beave_rs.Kafka.Source.{
  Shared, Client, ack, ack_waited, ack_completed, commit_then, send, offsets, receive_raw,
  drop_message, pause_source, resume_source, hand_off, hand_off_kept, commit_positions,
  positions_of, pre_rebalance, post_rebalance,
}
use beave_rs.Kafka.Source.Account.{Account, IsSound}
use beave_rs.Kafka.Source.Calls.{Interleaves, Fits, deliveries-IsSound}
use beave_rs.Kafka.Source.Rebalances.{FitsAssigned, rebalances-IsSound}

abbrev orders : String × ℕ
orders = ("orders", 0)

-- Offset 7 was delivered.
abbrev received : Consumer (String × ℕ)
received = after_receive orders 1 7 (record started { progress = activate orders default_progress })

received-Reach : Reach received
unfolding lookup
received-Reach =
    next (next here (assigns orders (omega arith))) (receives orders 1 7 (inr (omega arith)))

abbrev shared : Shared (String × ℕ) ℕ
shared = record {
  progress = received.progress;
  world = 0;
  sent = [];
  histories = received.histories;
}

abbrev account : Account shared
account = record { reached = received-Reach; offered = tt }

-- The world counts calls of the library, and other tasks do nothing.
abbrev client : Client (String × ℕ) ℕ
client = record {
  assignment_lost = λ w. false;
  in_runtime = λ w. false;
  others = λ s. s;
  can_list = λ o w. true;
  commit = λ os w. (true, w + 1);
  pause_partitions = λ keys w. w + 1;
  resume_partitions = λ keys w. w + 1;
}

alone : Interleaves client
alone = record { accounts = λ s a. a; appends = λ s. ([], sym (append_none s.sent)) }

fits : Fits (map (λ entry. entry.0) shared.progress.active) shared.progress
unfolding activate new_partition Token.new after_receive register register_offset lookup insert
    is_cancelled revoke remove cancel
fits = (omega arith, tt)

Fits-orders : Fits (orders ∷ []) (hand_off client (orders ∷ []) shared).progress
unfolding activate new_partition Token.new after_receive register register_offset lookup insert
    is_cancelled hand_off hand_off_kept commit_positions positions_of position begin_handoff
    handoff_in cancel commit_position candidate first_open last_offset insert_pending
Fits-orders = (omega arith, tt)

fits_assigned : FitsAssigned (orders ∷ []) shared.progress
unfolding activate new_partition Token.new after_receive register register_offset lookup insert
    is_cancelled
fits_assigned = (omega arith, tt)

order : InOrder 8 (shared.histories orders 1)
unfolding activate new_partition Token.new after_receive register register_offset lookup insert
    is_cancelled
order = inr (omega arith)

-- The acknowledgement of offset 7 commits 8.
acked_7 : (ack client orders 1 7 shared).0.sent ≡ (orders, 1, 8) ∷ []
unfolding activate new_partition Token.new after_receive register register_offset lookup insert
    is_cancelled ack ack_waited ack_completed commit_then send offsets complete complete_offset
    insert_pending status_of set_status commit_position candidate first_open last_offset
acked_7 = refl

deliveries-IsSound_example :
    IsSound (ack client orders 1 8 shared).0
    × IsSound (receive_raw orders 1 8 shared).0
    × IsSound (drop_message orders 1 8 shared)
    × IsSound (pause_source client orders shared)
    × IsSound (resume_source client orders shared)
deliveries-IsSound_example = deliveries-IsSound client alone shared account orders 1 8 fits order

rebalances-IsSound_example :
    IsSound (hand_off client (orders ∷ []) shared)
    × IsSound (pre_rebalance client true (orders ∷ []) shared)
    × IsSound (post_rebalance client (orders ∷ []) shared)
rebalances-IsSound_example =
    rebalances-IsSound client alone shared true (orders ∷ []) account Fits-orders fits_assigned
