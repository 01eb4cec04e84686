-- ===== src/Kafka/Progress/Received.antt =====
-- src/adapters/kafka/progress.rs: the registered offsets of one partition and its commit position.
-- `received` is a `BTreeMap`: an association list in the order of the offsets. Kafka numbers records
-- from 0 and far below the largest `i64`, so an offset is a natural number.
use beave_rs.Base.{
  ℕ, ◌+◌, ltb, leb, nat_beq, if◌then◌else◌, Bool, true, false, ◌||◌, Option, none, some, List, [],
  ◌∷◌, retain,
}
use beave_rs.Token.{Token}

pub data Status : Type 0 where
  pending done released : Status

abbrev pub Offsets : Type 0
Offsets = List (ℕ × Status)

unfoldable pub status_of : ℕ → Offsets → Option Status
status_of o [] = none
status_of o ((p, st) ∷ rest) = if nat_beq p o then some st else status_of o rest

-- `entry(offset).or_insert(Status::Pending)`.
unfoldable pub insert_pending : ℕ → Offsets → Offsets
insert_pending o [] = (o, pending) ∷ []
insert_pending o ((p, st) ∷ rest) =
    let later = insert_pending o rest in
    if ltb o p
    then (o, pending) ∷ (p, st) ∷ rest
    else if nat_beq o p
    then (p, st) ∷ rest
    else (p, st) ∷ later

-- A write through `get_mut(&offset)`.
unfoldable pub set_status : ℕ → Status → Offsets → Offsets
set_status o new [] = []
set_status o new ((p, st) ∷ rest) =
    let later = set_status o new rest in if nat_beq p o then (p, new) ∷ rest else (p, st) ∷ later

abbrev pub is_done : Status → Bool
is_done done = true
is_done _ = false

abbrev pub is_pending : Status → Bool
is_pending pending = true
is_pending _ = false

-- The first offset that is not acknowledged.
unfoldable pub first_open : Offsets → Option ℕ
first_open [] = none
first_open ((p, st) ∷ rest) = if is_done st then first_open rest else some p

-- `last_key_value`.
unfoldable pub last_offset : Offsets → Option ℕ
last_offset [] = none
last_offset ((p, st) ∷ []) = some p
last_offset ((p, st) ∷ (q, tu) ∷ rest) = last_offset ((q, tu) ∷ rest)

unfoldable pub any_pending : Offsets → Bool
any_pending [] = false
any_pending ((p, st) ∷ rest) = is_pending st || any_pending rest

abbrev pub from_offset : ℕ → Offsets → Offsets
from_offset next = retain λ entry. leb next entry.0

pub record PartitionProgress : Type 0 where
  pub generation : ℕ
  pub revoked : Token
  pub handoff : Token
  pub next : Option ℕ
  pub received : Offsets

-- The first offset that is not acknowledged, or else the one after the last, or else `next`.
unfoldable pub candidate : ℕ → Offsets → ℕ
candidate next received = elim (first_open received) [
  | some o ↦ o
  | none ↦ elim (last_offset received) [ some o ↦ o + 1 | none ↦ next ]
]

unfoldable pub commit_position_from : Option ℕ → Offsets → Option ℕ
commit_position_from none received = none
commit_position_from (some next) received =
    if ltb next (candidate next received) then some (candidate next received) else none

unfoldable pub commit_position : PartitionProgress → Option ℕ
unfolding commit_position_from
commit_position p = commit_position_from p.next p.received

unfoldable pub register_from : Option ℕ → ℕ → PartitionProgress → PartitionProgress
register_from none o p = record p { next = some o; received = insert_pending o p.received }
register_from (some next) o p =
    if ltb o next then p else record p { received = insert_pending o p.received }

-- The `match partition.next` of `register`.
unfoldable pub register_offset : ℕ → PartitionProgress → PartitionProgress
unfolding register_from
register_offset o p = register_from p.next o p

pub data CompleteError : Type 0 where
  revoked_assignment expired_assignment no_registered_delivery never_registered : CompleteError

pub data Completed (A : Type 0) : Type 0 where
  ok : A → Completed A
  err : CompleteError → Completed A

unfoldable pub complete_registered :
    Option Status → ℕ → PartitionProgress → Completed (PartitionProgress × Option ℕ)
complete_registered none o p = err never_registered
complete_registered (some st) o p =
    let p' = record p { received = set_status o done p.received } in ok (p', commit_position p')

unfoldable pub complete_from :
    Option ℕ → ℕ → PartitionProgress → Completed (PartitionProgress × Option ℕ)
unfolding complete_registered
complete_from none o p = err no_registered_delivery
complete_from (some next) o p =
    if ltb o next then ok (p, none) else complete_registered (status_of o p.received) o p

-- `complete` after the assignment was checked.
unfoldable pub complete_offset : ℕ → PartitionProgress → Completed (PartitionProgress × Option ℕ)
unfolding complete_from
complete_offset o p = complete_from p.next o p

abbrev pub release_from : Option Status → ℕ → Offsets → Offsets
release_from (some pending) o received = set_status o released received
release_from _ o received = received

unfoldable pub release_offset : ℕ → PartitionProgress → PartitionProgress
release_offset o p = record p { received = release_from (status_of o p.received) o p.received }

unfoldable pub commit_from : Option ℕ → ℕ → PartitionProgress → PartitionProgress
commit_from none next p = p
commit_from (some current) next p =
    if leb next current
    then p
    else record p { received = from_offset next p.received; next = some next }

-- `committed` after the assignment was checked.
unfoldable pub commit_offset : ℕ → PartitionProgress → PartitionProgress
unfolding commit_from
commit_offset next p = commit_from p.next next p
