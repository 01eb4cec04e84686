-- ===== src/Kafka/Transactions.antt =====
-- src/adapters/kafka/transaction.rs: producer transactions that publish a batch's outputs and commit
-- its consumer offsets. The producer, the client library and what revokes partitions meanwhile are
-- parameters, on a world. `trace` lists what a call asked of the producer and got done. A commit that
-- fails is `unconfirmed`: it may have taken effect.
-- A panic of a task is not modelled.
pub mod Offsets
pub mod Reaching
pub mod Covering
pub mod Protocol
pub mod Stepping
pub mod Transacting
mod Tests
use beave_rs.Base.{
  ℕ, zero, suc, ◌+◌, Bool, true, false, ◌&&◌, Option, none, some, List, [], ◌∷◌, ◌++◌, map, all,
  ltb, nat_beq, Eq, ◌==◌, if◌then◌else◌,
}
use beave_rs.Base.Map.{Map}
use Offsets.{Delivery, SourceOffsets, offsets_of, all_current}
use beave_rs.Kafka.Progress.{Progress, revoke_all, is_current, committed}

flatten : {A : Type 0} → List (List A) → List A
flatten [] = []
flatten (xs ∷ rest) = xs ++ flatten rest

-- What a sink calls: the producer and the consumer of the client library, in the world `W`, with the
-- errors `X`. An error is fatal if it or one of its causes is a fatal error of the transaction.
pub record Library {ℓ} (P : Type ℓ) (W O X : Type 0) : Type ℓ where
  pub connect : W → Option X × W
  pub begin_transaction : W → Option X × W
  pub send : O → W → Option X × W
  pub group_metadata : W → Option X
  pub add_offsets : List (P × ℕ) → Option X
  pub send_offsets : List (P × ℕ) → W → Option X × W
  pub commit_transaction : W → Option X × W
  pub abort_transaction : W → Option X × W
  pub is_retriable : X → Bool
  pub is_fatal : X → Bool
  pub assignment_lost : W → Bool
  pub others : Progress P × W → Progress P × W
  pub closed_error : X
  pub lost_error : X
  pub revoked_error : X
  pub consumers_error : X

pub data Event {ℓ} (P : Type ℓ) (O : Type 0) : Type ℓ where
  connected began aborted replaced committed_transaction unconfirmed : Event P O
  published : O → Event P O
  offered : List (P × ℕ) → Event P O

pub record Sink {ℓ} (P : Type ℓ) (W : Type 0) : Type ℓ where
  pub has_producer : Bool
  pub closed : Bool
  pub progress : Progress P
  pub world : W

pub record Done {ℓ} (P : Type ℓ) (W O X : Type 0) : Type ℓ where
  pub sink : Sink P W
  pub trace : List (Event P O)
  pub failure : Option X

module _ {ℓ} {P : Type ℓ} ⦃e : Eq P⦄ {W O X : Type 0} (l : Library P W O X) where
  abbrev pub Action : Type ℓ
  Action = Sink P W → Done P W O X

  unfoldable pub stop : X → Action
  stop x s = record { sink = s; trace = []; failure = some x }

  unfoldable pub return : Action
  return s = record { sink = s; trace = []; failure = none }

  -- What follows a step that left the sink, unless it failed.
  unfoldable pub continue : Sink P W → List (Event P O) → Option X → Action → Done P W O X
  continue s t (some x) next = record { sink = s; trace = t; failure = some x }
  continue s t none next = let r = next s in record r { trace = t ++ r.trace }

  infixr 30 ◌>>◌
  unfoldable pub ◌>>◌ : Action → Action → Action
  unfolding continue
  (f >> g) s = let r = f s in continue r.sink r.trace r.failure g

  -- A call of the producer that does the event if it succeeds.
  unfoldable pub did : Event P O → Option X → List (Event P O)
  did event none = event ∷ []
  did event (some x) = []

  unfoldable pub ask : Event P O → (W → Option X × W) → Action
  unfolding did
  ask event call s =
      let (x, w) = call s.world in
      record { sink = record s { world = w }; trace = did event x; failure = x }

  unfoldable pub send_all : List O → Action
  unfolding return ◌>>◌ ask
  send_all [] = return
  send_all (o ∷ os) = ask (published o) (l.send o) >> send_all os

  -- The loop of the function `commit`, with so many attempts left after this one.
  unfoldable pub commit_from : ℕ → W → Option X × W
  commit_from zero w = l.commit_transaction w
  commit_from (suc attempts) w =
      let (x, after) = l.commit_transaction w in
      let again = commit_from attempts after in
      elim x [
        | none ↦ (none, after)
        | some error ↦ if l.is_retriable error then again else (some error, after)
      ]

  unfoldable pub commit_event : Option X → Event P O
  commit_event none = committed_transaction
  commit_event (some x) = unconfirmed

  -- Three attempts.
  unfoldable pub commit : Action
  unfolding commit_from commit_event
  commit s =
      let (x, w) = commit_from 2 s.world in
      record { sink = record s { world = w }; trace = commit_event x ∷ []; failure = x }

  unfoldable pub ensure_assigned : SourceOffsets P → Action
  unfolding stop return all_current
  ensure_assigned offsets s =
      if l.assignment_lost s.world
      then stop l.lost_error (record s { progress = revoke_all s.progress })
      else if all_current offsets.deliveries s.progress
      then return s
      else stop l.revoked_error s

  -- A call of the client library that asks nothing of the producer.
  unfoldable pub check : (W → Option X) → Action
  check call s = record { sink = s; trace = []; failure = call s.world }

  -- The offsets that are added to the transaction.
  unfoldable pub listed : Map P (ℕ × ℕ) → List (P × ℕ)
  listed next = map (λ (key, (generation, n)). (key, n)) next

  unfoldable pub record_committed : Map P (ℕ × ℕ) → Progress P → Progress P
  record_committed [] p = p
  record_committed ((key, (generation, n)) ∷ rest) p =
      record_committed rest (committed generation key n p)

  unfoldable pub note_committed : SourceOffsets P → Action
  unfolding return record_committed
  note_committed offsets s =
      return (record s { progress = record_committed offsets.next s.progress })

  -- `SourceOffsets::commit`, which holds the transaction gate throughout.
  unfoldable pub commit_offsets : SourceOffsets P → Action
  unfolding ◌>>◌ ensure_assigned check ask listed commit note_committed
  commit_offsets offsets =
      ensure_assigned offsets
      >> check l.group_metadata
      >> check (λ w. l.add_offsets (listed offsets.next))
      >> ask (offered (listed offsets.next)) (l.send_offsets (listed offsets.next))
      >> commit
      >> note_committed offsets

  unfoldable pub commit_with : Option (SourceOffsets P) → Action
  unfolding commit commit_offsets
  commit_with none = commit
  commit_with (some offsets) = commit_offsets offsets

  -- Other tasks run while a call waits.
  unfoldable pub waits : Action
  unfolding return
  waits s =
      let (p, w) = l.others (s.progress, s.world) in return (record s { progress = p; world = w })

  unfoldable pub run : List O → Option (SourceOffsets P) → Action
  unfolding ◌>>◌ ask send_all waits commit_with
  run outputs offsets =
      ask began l.begin_transaction >> send_all outputs >> waits >> commit_with offsets

  -- What becomes of the producer after a failed transaction.
  unfoldable pub after_abort : List (Event P O) → X → Sink P W → Option X → Done P W O X
  after_abort t x s none = record { sink = s; trace = t ++ aborted ∷ []; failure = some x }
  after_abort t x s (some y) = record {
    sink = record s { has_producer = false };
    trace = t ++ replaced ∷ [];
    failure = some x;
  }

  unfoldable pub recover : List (Event P O) → X → Sink P W → Done P W O X
  unfolding after_abort
  recover t x s =
      let (y, w) = l.abort_transaction s.world in
      if l.is_fatal x
      then after_abort t x s (some x)
      else after_abort t x (record s { world = w }) y

  unfoldable pub after_run : Sink P W → List (Event P O) → Option X → Done P W O X
  unfolding recover
  after_run s t none = record { sink = s; trace = t; failure = none }
  after_run s t (some x) = recover t x s

  unfoldable pub run_recovering : List O → Option (SourceOffsets P) → Action
  unfolding after_run run
  run_recovering outputs offsets s =
      let r = run outputs offsets s in after_run r.sink r.trace r.failure

  unfoldable pub keep_producer : Action
  unfolding return
  keep_producer s = return (record s { has_producer = true })

  unfoldable pub connect_if_needed : Action
  unfolding return ask ◌>>◌ keep_producer
  connect_if_needed s =
      if s.has_producer then return s else (ask connected l.connect >> keep_producer) s

  unfoldable pub ensure_open : Action
  unfolding stop return
  ensure_open s = if s.closed then stop l.closed_error s else return s

  unfoldable pub ensure_offsets : Option (SourceOffsets P) → Action
  unfolding return ensure_assigned
  ensure_offsets none = return
  ensure_offsets (some offsets) = ensure_assigned offsets

  -- From when the call holds the lock of the producer's slot.
  unfoldable pub transact : List O → Option (SourceOffsets P) → Action
  unfolding waits ◌>>◌ ensure_open connect_if_needed ensure_offsets run_recovering
  transact outputs offsets =
      ensure_open
      >> connect_if_needed
      >> waits
      >> ensure_offsets offsets
      >> run_recovering outputs offsets

  -- `publish`, and the sink's `commit` of a batch with its outputs.
  unfoldable pub publish : O → Action
  unfolding transact
  publish output = transact (output ∷ []) none

  unfoldable pub commit_found : List O → Option (Option (SourceOffsets P)) → Action
  unfolding transact stop
  commit_found outputs none = stop l.consumers_error
  commit_found outputs (some offsets) = transact outputs offsets

  unfoldable pub commit_batch : List (Delivery P × List O) → Action
  unfolding commit_found offsets_of flatten
  commit_batch batch =
      commit_found (flatten (map (λ (delivery, outputs). outputs) batch))
        (offsets_of (map (λ (delivery, outputs). delivery) batch))

  unfoldable pub close : Sink P W → Sink P W
  close s = record s { closed = true; has_producer = false }
