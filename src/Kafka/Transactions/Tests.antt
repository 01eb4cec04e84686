-- ===== src/Kafka/Transactions/Tests.antt =====
-- Transactions of src/adapters/kafka/transaction.rs for two deliveries of one partition, and the
-- theorems on them.
use beave_rs.Base.{
  ℕ, ◌+◌, ◌≡◌, ◌⊎◌, refl, true, false, nat_beq, if◌then◌else◌, none, some, List, [], ◌∷◌, String,
  string_eq, nat_eq, pair_eq, All,
}
use beave_rs.Base.Map.{lookup, insert}
use beave_rs.Token
use beave_rs.Kafka.Progress.{Progress, default_progress, new_partition, activate, is_current}
use beave_rs.Kafka.Transactions.Offsets.{
  Delivery, SourceOffsets, later, add_next, add_delivery, add_all, offsets_of, all_current,
}
use beave_rs.Kafka.Transactions.{Library, Sink, transact}
use beave_rs.Kafka.Transactions.Protocol.{Contents, confirmed, possible, idle, Plays}
use beave_rs.Kafka.Transactions.Stepping.{offsets_in}
use beave_rs.Kafka.Transactions.Transacting.{transact_lem}
use beave_rs.Kafka.Transactions.Covering.{IsCovered, offsets_cover}

abbrev orders : String × ℕ
orders = ("orders", 0)

abbrev delivery : ℕ → Delivery (String × ℕ)
delivery n = record { consumer = 1; generation = 1; partition = orders; offset = n }

abbrev batch : List (Delivery (String × ℕ))
batch = delivery 7 ∷ delivery 9 ∷ []

abbrev offsets : SourceOffsets (String × ℕ)
offsets = record {
  consumer = 1;
  deliveries = (1, orders) ∷ (1, orders) ∷ [];
  next = (orders, (1, 10)) ∷ [];
}

abbrev assigned : Progress (String × ℕ)
assigned = activate orders default_progress

-- The world counts calls of the library; the fifth, the first commit, can be retried.
abbrev library : Library (String × ℕ) ℕ ℕ ℕ
library = record {
  connect = λ w. (none, w + 1);
  begin_transaction = λ w. (none, w + 1);
  send = λ o w. (none, w + 1);
  group_metadata = λ w. none;
  add_offsets = λ qs. none;
  send_offsets = λ qs w. (none, w + 1);
  commit_transaction = λ w. (if nat_beq w 4 then some 5 else none, w + 1);
  abort_transaction = λ w. (none, w + 1);
  is_retriable = λ x. nat_beq x 5;
  is_fatal = λ x. false;
  assignment_lost = λ w. false;
  others = λ s. s;
  closed_error = 1;
  lost_error = 2;
  revoked_error = 3;
  consumers_error = 4;
}

abbrev sink : Sink (String × ℕ) ℕ
sink = record { has_producer = false; closed = false; progress = assigned; world = 0 }

batch_offsets : offsets_of batch ≡ some (some offsets)
unfolding offsets_of add_all add_delivery add_next later lookup insert
batch_offsets = refl

batch_current : all_current offsets.deliveries assigned ≡ true
unfolding all_current is_current activate new_partition lookup insert Token.new
batch_current = refl

transact_lem_example :
    (((transact library (3 ∷ []) (some offsets) sink).failure ≡ none)
      × Plays idle
          (transact library (3 ∷ []) (some offsets) sink).trace
          idle
          (confirmed (3 ∷ []) (offsets_in library (some offsets)) ∷ []))
    ⊎ ((x : ℕ) × ((transact library (3 ∷ []) (some offsets) sink).failure ≡ some x)
        × (ds : List (Contents (String × ℕ) ℕ)) × ((ds ≡ [])
            ⊎ (ds ≡ possible (3 ∷ []) (offsets_in library (some offsets)) ∷ []))
        × Plays idle (transact library (3 ∷ []) (some offsets) sink).trace idle ds)
transact_lem_example = transact_lem library (3 ∷ []) (some offsets) sink

offsets_cover_example : All (IsCovered offsets) batch
offsets_cover_example = offsets_cover batch offsets assigned batch_offsets batch_current
