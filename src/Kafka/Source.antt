-- ===== src/Kafka/Source.antt =====
-- src/adapters/kafka/source.rs, and Context of src/adapters/kafka/progress.rs: the calls that a
-- source, its deliveries and the client's rebalances make of the progress. The client library is a
-- parameter, and so is what other tasks do while a call waits: for a lock, for started deliveries or
-- for the broker. Two fields of `Shared` only record what happened: `sent` lists the positions that
-- were passed to the broker, each with the generation it was read in, and `histories` what was
-- delivered, acknowledged and offered for a commit in each assignment.
pub mod Account
pub mod Calls
pub mod Rebalances
mod Tests
use beave_rs.Base.{
  ℕ, ◌^◌, Bool, true, false, ◌&&◌, ◌||◌, String, Option, none, some, List, [], ◌∷◌, ◌++◌, map, all,
  ltb, Eq, ◌==◌, if◌then◌else◌,
}
use beave_rs.Base.Map.{contains}
use beave_rs.Base.Integers.{ℤ, pos, negsuc}
use beave_rs.Position.{OrderingKey, new_ordering_key, Position}
use beave_rs.Kafka.Progress.Received.{Completed, CompleteError, ok, err}
use beave_rs.Kafka.Progress.History.{History, offer}
use beave_rs.Kafka.Consumer.{on_history, note_receive, note_complete}
use beave_rs.Kafka.Progress.{
  Progress, Registered, activate, revoke, revoke_keys, revoke_all, register, complete, release,
  committed, position, begin_handoff, pause, resume,
}

pub record Shared {ℓ} (P : Type ℓ) (W : Type 0) : Type ℓ where
  pub progress : Progress P
  pub world : W
  pub sent : List (P × ℕ × ℕ)
  pub histories : P → ℕ → History

pub record Client {ℓ} (P : Type ℓ) (W : Type 0) : Type ℓ where
  pub assignment_lost : W → Bool
  pub in_runtime : W → Bool
  pub others : Shared P W → Shared P W
  pub can_list : P × ℕ → W → Bool
  pub commit : List (P × ℕ) → W → Bool × W
  pub pause_partitions : List P → W → W
  pub resume_partitions : List P → W → W

pub data AckError : Type 0 where
  assignment_was_lost commit_failed : AckError
  refused : CompleteError → AckError

pub data Acked : Type 0 where
  acked : Acked
  failed : AckError → Acked

-- An ordering key's index as `i32`.
fits_i32 : ℤ → Bool
fits_i32 (pos n) = ltb n (2 ^ 31)
fits_i32 (negsuc n) = ltb n (2 ^ 31)

unfoldable pub partition : OrderingKey → Option (String × ℤ)
unfolding fits_i32
partition key = if fits_i32 key.index then some (key.scope, key.index) else none

-- `ordering_key` and `position` of a delivery.
unfoldable pub ordering_key : String × ℤ → OrderingKey
ordering_key (topic, index) = new_ordering_key topic index

unfoldable pub position_of : String × ℤ → ℤ → Position
position_of (topic, index) offset = record { scope = topic; index = index; offset = offset }

module _ {ℓ} {P : Type ℓ} {W : Type 0} where
  unfoldable pub send : List (P × ℕ × ℕ) → Shared P W → Shared P W
  send positions s = record s { sent = s.sent ++ positions }

-- What is committed of a read position.
unfoldable pub offsets {ℓ} : {P : Type ℓ} → List (P × ℕ × ℕ) → List (P × ℕ)
offsets positions = map (λ (key, generation, next). (key, next)) positions

module _ {ℓ} {P : Type ℓ} ⦃e : Eq P⦄ where
  unfoldable pub committed_all : List (P × ℕ × ℕ) → Progress P → Progress P
  committed_all [] p = p
  committed_all ((key, generation, next) ∷ rest) p =
      committed_all rest (committed generation key next p)

  -- `filter_map` of the handed-off keys with a position.
  unfoldable pub positions_of : List P → Progress P → List (P × ℕ × ℕ)
  positions_of [] p = []
  positions_of (key ∷ rest) p =
      let later = positions_of rest p in
      elim (position key p) [
        | none ↦ later
        | some (generation, next) ↦ (key, generation, next) ∷ later
      ]

  -- Positions that are read to be committed are offered.
  unfoldable pub note_positions : List (P × ℕ × ℕ) → (P → ℕ → History) → P → ℕ → History
  note_positions [] hs = hs
  note_positions ((key, generation, next) ∷ rest) hs =
      note_positions rest (on_history key generation (offer (some next)) hs)

  unfoldable pub activate_all : List P → Progress P → Progress P × List P
  activate_all [] p = (p, [])
  activate_all (key ∷ rest) p =
      let (q, paused) = activate_all rest (activate key p) in
      (q, if contains key p.paused then key ∷ paused else paused)

module _ {ℓ} {P : Type ℓ} ⦃e : Eq P⦄ {W : Type 0} where
  -- `Drop`.
  unfoldable pub drop_message : P → ℕ → ℕ → Shared P W → Shared P W
  drop_message key g o s = record s { progress = release g key o s.progress }

  -- `receive` with a record from the poller; `none` is skipped.
  unfoldable pub receive_raw : P → ℕ → ℕ → Shared P W → Shared P W × Option Registered
  receive_raw key g o s =
      let (p, registered) = register key g o s.progress in
      (
        record s { progress = p; histories = note_receive key g o registered s.histories },
        registered,
      )

module _ {ℓ} {P : Type ℓ} ⦃e : Eq P⦄ {W : Type 0} (c : Client P W) where
  -- A commit of positions and what follows if it succeeds, both while other tasks run.
  unfoldable pub commit_then :
      {A : Type 0}
      → List (P × ℕ × ℕ)
      → (Shared P W → Shared P W × A)
      → (Shared P W → Shared P W × A)
      → Shared P W
      → Shared P W × A
  unfolding send offsets
  commit_then positions succeed fail s =
      let (success, w) = c.commit (offsets positions) s.world in
      let after = c.others (send positions (record s { world = w })) in
      if success then succeed after else fail after

  unfoldable pub ack_completed : P → ℕ → Shared P W → Completed (Option ℕ) → Shared P W × Acked
  unfolding commit_then
  ack_completed key g s (err e) = (s, failed (refused e))
  ack_completed key g s (ok none) = (s, acked)
  ack_completed key g s (ok (some next)) =
      commit_then ((key, g, next) ∷ [])
        (λ t. (record t { progress = committed g key next t.progress }, acked))
        (λ t. (t, failed commit_failed)) s

  unfoldable pub ack_waited : P → ℕ → ℕ → Shared P W → Shared P W × Acked
  unfolding ack_completed
  ack_waited key g o s =
      if c.assignment_lost s.world
      then (record s { progress = revoke_all s.progress }, failed assignment_was_lost)
      else (let (p, r) = complete g key o s.progress in
          ack_completed key g
            (record s { progress = p; histories = note_complete key g o r s.histories }) r)

  -- `ack`, which waits for the commit gate first.
  unfoldable pub ack : P → ℕ → ℕ → Shared P W → Shared P W × Acked
  unfolding ack_waited
  ack key g o s = ack_waited key g o (c.others s)

  -- `hand_off` after the commit gate was taken.
  unfoldable pub commit_positions : List (P × ℕ × ℕ) → Shared P W → Shared P W
  unfolding commit_then
  commit_positions [] s = s
  commit_positions (q ∷ qs) s =
      if all (λ o. c.can_list o s.world) (offsets (q ∷ qs))
      then (commit_then (q ∷ qs)
          (λ t. (record t { progress = committed_all (q ∷ qs) t.progress }, tt)) (λ t. (t, tt)) s).0
      else s

  unfoldable pub hand_off_kept : List P → Shared P W → Shared P W
  unfolding commit_positions note_positions
  hand_off_kept [] s = s
  hand_off_kept (key ∷ keys) s =
      let after = c.others s in
      let positions = positions_of (key ∷ keys) after.progress in
      commit_positions positions
        (record after { histories = note_positions positions after.histories })

  unfoldable pub hand_off : List P → Shared P W → Shared P W
  unfolding hand_off_kept
  hand_off partitions s =
      if c.assignment_lost s.world || c.in_runtime s.world
      then s
      else (let (p, kept) = begin_handoff partitions s.progress in
          hand_off_kept kept (record s { progress = p }))

  -- `pre_rebalance` of a revoke, with whether a handoff timeout is configured.
  unfoldable pub pre_rebalance : Bool → List P → Shared P W → Shared P W
  unfolding hand_off
  pre_rebalance handoff revoked s =
      let after = c.others (if handoff then hand_off revoked s else s) in
      record after { progress = revoke_keys revoked after.progress }

  unfoldable pub pause_if_any : List P → W → W
  pause_if_any [] w = w
  pause_if_any (key ∷ keys) w = c.pause_partitions (key ∷ keys) w

  -- `post_rebalance` of an assignment.
  unfoldable pub post_rebalance : List P → Shared P W → Shared P W
  unfolding activate_all pause_if_any
  post_rebalance assigned s =
      let (p, paused) = activate_all assigned s.progress in
      record s { progress = p; world = pause_if_any paused s.world }

  -- `pause` and `resume` of a connected source.
  unfoldable pub pause_source : P → Shared P W → Shared P W
  pause_source key s =
      let (p, active) = pause key s.progress in
      record s {
        progress = p;
        world = if active then c.pause_partitions (key ∷ []) s.world else s.world;
      }

  unfoldable pub resume_source : P → Shared P W → Shared P W
  resume_source key s =
      let (p, active) = resume key s.progress in
      record s {
        progress = p;
        world = if active then c.resume_partitions (key ∷ []) s.world else s.world;
      }
