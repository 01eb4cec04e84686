-- ===== src/Kafka/Progress.antt =====
-- src/adapters/kafka/progress.rs: the offset progress of every assigned partition. A partition, a
-- topic and a number, is used through its equality only and is a parameter `P`.
pub mod Received
pub mod Offsets
pub mod History
pub mod Settling
pub mod Fencing
pub mod Handoff
use beave_rs.Base.{
  ℕ, ◌+◌, ◌%◌, ◌^◌, nat_beq, if◌then◌else◌, Bool, true, false, not, ◌&&◌, ◌||◌, Option, none, some,
  List, [], ◌∷◌, ◌++◌, Eq, ◌==◌, retain, all, map,
}
use beave_rs.Base.Map.{Map, Set, lookup, insert, remove, contains, unwrap_or, is_some}
use beave_rs.Token.{Token, Tokens, no_tokens, is_cancelled, cancel}
use beave_rs.Token
use Received.{
  PartitionProgress, Completed, ok, err, revoked_assignment, expired_assignment, commit_position,
  register_offset, complete_offset, release_offset, commit_offset, any_pending,
}

pub record Progress {ℓ} (P : Type ℓ) : Type ℓ where
  pub active : Map P PartitionProgress
  pub generations : Map P ℕ
  pub paused : Set P
  pub tokens : Tokens

abbrev pub default_progress {ℓ} : {P : Type ℓ} → Progress P
default_progress = record { active = []; generations = []; paused = []; tokens = no_tokens }

pub record Registered : Type 0 where
  pub generation : ℕ
  pub revoked : Token
  pub handoff : Token

-- `u64::wrapping_add` of 1.
abbrev pub next_generation : ℕ → ℕ
next_generation g = (g + 1) % 2 ^ 64

settled_in : Option PartitionProgress → Bool
settled_in none = true
settled_in (some part) = not (any_pending part.received)

position_in : Option PartitionProgress → Option (ℕ × ℕ)
position_in none = none
position_in (some part) = elim (commit_position part) [
  | none ↦ none
  | some next ↦ some (part.generation, next)
]

module _ {ℓ} {P : Type ℓ} ⦃e : Eq P⦄ where
  abbrev pub generation_of : P → Progress P → ℕ
  generation_of key p = unwrap_or (lookup key p.generations) 0

  unfoldable pub new_partition : P → Progress P → Progress P
  new_partition key p =
      let g = next_generation (generation_of key p) in
      let (t1, revoked) = Token.new p.tokens in
      let (t2, handoff) = Token.new t1 in
      record p {
        generations = insert key g p.generations;
        active =
            insert key
              (record {
                generation = g;
                revoked = revoked;
                handoff = handoff;
                next = none;
                received = [];
              })
              p.active;
        tokens = t2;
      }

  unfoldable pub activate : P → Progress P → Progress P
  activate key p = if contains key p.active then p else new_partition key p

  cancel_partition : Option PartitionProgress → P → Progress P → Progress P
  cancel_partition none key p = p
  cancel_partition (some part) key p = record p {
    active = remove key p.active;
    tokens = cancel part.revoked (cancel part.handoff p.tokens);
  }

  unfoldable pub revoke : P → Progress P → Progress P
  unfolding cancel_partition
  revoke key p =
      let q = cancel_partition (lookup key p.active) key p in
      record q { generations = insert key (next_generation (generation_of key q)) q.generations }

  unfoldable pub revoke_keys : List P → Progress P → Progress P
  revoke_keys [] p = p
  revoke_keys (key ∷ rest) p = revoke_keys rest (revoke key p)

  unfoldable pub revoke_all : Progress P → Progress P
  unfolding revoke_keys
  revoke_all p = revoke_keys (map (λ entry. entry.0) p.active) p

  unfoldable pub generation : P → Progress P → Option ℕ
  generation key p = elim (lookup key p.active) [ none ↦ none | some part ↦ some part.generation ]

  register_in : Option PartitionProgress → P → ℕ → ℕ → Progress P → Progress P × Option Registered
  register_in none key g o p = (p, none)
  register_in (some part) key g o p =
      if not (nat_beq part.generation g) || is_cancelled part.handoff p.tokens then (p, none) else (
        record p { active = insert key (register_offset o part) p.active },
        some (record { generation = g; revoked = part.revoked; handoff = part.handoff }),
      )

  unfoldable pub register : P → ℕ → ℕ → Progress P → Progress P × Option Registered
  unfolding register_in
  register key g o p = register_in (lookup key p.active) key g o p

  store_completed :
      P → Progress P → Completed (PartitionProgress × Option ℕ) → Progress P × Completed (Option ℕ)
  store_completed key p (ok (part, position)) =
      (record p { active = insert key part p.active }, ok position)
  store_completed key p (err e) = (p, err e)

  complete_in :
      Option PartitionProgress → ℕ → P → ℕ → Progress P → Progress P × Completed (Option ℕ)
  unfolding store_completed
  complete_in none g key o p = (p, err revoked_assignment)
  complete_in (some part) g key o p =
      if nat_beq part.generation g
      then store_completed key p (complete_offset o part)
      else (p, err expired_assignment)

  unfoldable pub complete : ℕ → P → ℕ → Progress P → Progress P × Completed (Option ℕ)
  unfolding complete_in
  complete g key o p = complete_in (lookup key p.active) g key o p

  -- A change of the partition's progress, if `g` is its current assignment.
  change_current :
      (PartitionProgress → PartitionProgress)
      → Option PartitionProgress
      → ℕ
      → P
      → Progress P
      → Progress P
  change_current change none g key p = p
  change_current change (some part) g key p =
      if nat_beq part.generation g
      then record p { active = insert key (change part) p.active }
      else p

  unfoldable pub release : ℕ → P → ℕ → Progress P → Progress P
  unfolding change_current
  release g key o p = change_current (release_offset o) (lookup key p.active) g key p

  unfoldable pub committed : ℕ → P → ℕ → Progress P → Progress P
  unfolding change_current
  committed g key next p = change_current (commit_offset next) (lookup key p.active) g key p

  unfoldable pub is_current : ℕ → P → Progress P → Bool
  is_current g key p = elim (lookup key p.active) [
    | none ↦ false
    | some part ↦ nat_beq part.generation g
  ]

  -- The filter of `begin_handoff`: an assigned key stays, and its handoff token is cancelled.
  unfoldable pub handoff_in : Option PartitionProgress → P → Progress P → Progress P × List P
  handoff_in none key p = (p, [])
  handoff_in (some part) key p = (record p { tokens = cancel part.handoff p.tokens }, key ∷ [])

  unfoldable pub begin_handoff : List P → Progress P → Progress P × List P
  unfolding handoff_in
  begin_handoff [] p = (p, [])
  begin_handoff (key ∷ rest) p =
      let (p', kept) = handoff_in (lookup key p.active) key p in
      let (q, later) = begin_handoff rest p' in (q, kept ++ later)

  unfoldable pub settled : List P → Progress P → Bool
  unfolding settled_in
  settled keys p = all (λ key. settled_in (lookup key p.active)) keys

  unfoldable pub position : P → Progress P → Option (ℕ × ℕ)
  unfolding position_in
  position key p = position_in (lookup key p.active)

  unfoldable pub pause : P → Progress P → Progress P × Bool
  pause key p = (record p { paused = insert key tt p.paused }, contains key p.active)

  unfoldable pub resume : P → Progress P → Progress P × Bool
  resume key p =
      (record p { paused = remove key p.paused }, contains key p.paused && contains key p.active)
