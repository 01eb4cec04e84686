-- ===== src/Kafka/Progress/Settling.antt =====
-- Completions, releases and commits of src/adapters/kafka/progress.rs beside the history.
use beave_rs.Base.{
  ℕ, ◌<◌, ◌≡◌, inl, inr, arith, refl, true, Option, none, some, [], ltb, leb, Bool-cases,
}
use beave_rs.Kafka.Progress.Received.{
  Status, pending, done, released, Offsets, status_of, set_status, from_offset, PartitionProgress,
  commit_position, ok, complete_registered, complete_from, complete_offset, release_from,
  release_offset, commit_from, commit_offset,
}
use beave_rs.Kafka.Progress.Offsets.{
  status_of-set_status, status_of-from_offset, set_status-From, from_offset-From,
}
use beave_rs.Kafka.Progress.History.{
  History, with, acknowledge, Tracked, Follows, FollowsPartition, acknowledge-Tracked,
  commit_position-Follows,
}

acknowledge_past-Tracked :
    (n o : ℕ) (r : Offsets) (h : History)
    → Tracked n r h
    → Tracked n r (record h { acked = with o h.acked })
acknowledge_past-Tracked n o r h v = record {
  ordered = v.ordered;
  kept = v.kept;
  known = v.known;
  finished = λ q. ground (arith, v.finished q);
  passed = λ q. ground (arith, v.passed q);
  covered = λ c q. ground (arith, v.covered c q);
  offered_low = v.offered_low;
  delivered_low = v.delivered_low;
  next_low = v.next_low;
}

complete_registered-Follows :
    (st : Option Status) (n o : ℕ) (p q : PartitionProgress) (position : Option ℕ) (h : History)
    → status_of o p.received ≡ st
    → p.next ≡ some n
    → complete_registered st o p ≡ ok (q, position)
    → Tracked n p.received h
    → FollowsPartition q (acknowledge o position h)
unfolding complete_registered
complete_registered-Follows none n o p q position h s e c v = cc
complete_registered-Follows (some st) n o p q position h s e c v =
    let p' : PartitionProgress = record p { received = set_status o done p.received } in
    let h' : History = record h { acked = with o h.acked } in
    let tracked : FollowsPartition p' h' = rw e (acknowledge-Tracked n o p.received h st s v) in
    let same_part : p' ≡ q = cc in
    let same_position : commit_position p' ≡ position = cc in
    rw (← same_part, ← same_position) (commit_position-Follows p' h' tracked)

complete_from-Follows :
    (next : Option ℕ) (o : ℕ) (p q : PartitionProgress) (position : Option ℕ) (h : History)
    → p.next ≡ next
    → complete_from next o p ≡ ok (q, position)
    → Follows next p.received h
    → FollowsPartition q (acknowledge o position h)
unfolding complete_from
complete_from-Follows none o p q position h e c v = cc
complete_from-Follows (some n) o p q position h e c v = elim (Bool-cases (ltb o n)) [
  | inl past ↦
      let same : (p ≡ q) × (none ≡ position) = ground (arith, past, c) in
      rw (← same.0, ← same.1, e) (acknowledge_past-Tracked n o p.received h v)
  | inr ahead ↦
      complete_registered-Follows (status_of o p.received) n o p q position h refl e
        (ground (arith, ahead, c)) v
]

pub complete_offset-Follows :
    (o : ℕ) (p q : PartitionProgress) (position : Option ℕ) (h : History)
    → complete_offset o p ≡ ok (q, position)
    → FollowsPartition p h
    → FollowsPartition q (acknowledge o position h)
unfolding complete_offset
complete_offset-Follows o p q position h c v =
    complete_from-Follows p.next o p q position h refl c v

release_from-Tracked :
    (st : Option Status) (n o : ℕ) (r : Offsets) (h : History)
    → status_of o r ≡ st
    → Tracked n r h
    → Tracked n (release_from st o r) h
release_from-Tracked (some pending) n o r h s v = record {
  ordered = set_status-From n o released r v.ordered;
  kept = λ q. ground (arith, v.kept q, status_of-set_status o q released r);
  known = λ q. ground (arith, v.known q, status_of-set_status o q released r);
  finished = λ q. ground (arith, v.finished q, status_of-set_status o q released r);
  passed = v.passed;
  covered = v.covered;
  offered_low = v.offered_low;
  delivered_low = v.delivered_low;
  next_low = v.next_low;
}
release_from-Tracked _ n o r h s v = v

release_from_empty : (st : Option Status) (o : ℕ) → release_from st o [] ≡ []
unfolding set_status
release_from_empty (some pending) o = refl
release_from_empty _ o = refl

release_from-Follows :
    (next : Option ℕ) (o : ℕ) (r : Offsets) (h : History)
    → Follows next r h
    → Follows next (release_from (status_of o r) o r) h
release_from-Follows none o r h v = record {
  empty = rw v.empty (release_from_empty (status_of o []) o);
  undelivered = v.undelivered;
  unoffered = v.unoffered;
  bound_zero = v.bound_zero;
}
release_from-Follows (some n) o r h v = release_from-Tracked (status_of o r) n o r h refl v

pub release_offset-Follows :
    (o : ℕ) (p : PartitionProgress) (h : History)
    → FollowsPartition p h
    → FollowsPartition (release_offset o p) h
unfolding release_offset
release_offset-Follows o p h v = release_from-Follows p.next o p.received h v

commit-Tracked :
    (n c : ℕ) (r : Offsets) (h : History)
    → h.offered c ≡ true
    → n < c
    → Tracked n r h
    → Tracked c (from_offset c r) h
commit-Tracked n c r h given lt v = record {
  ordered = from_offset-From n c c r v.ordered (inr (omega arith));
  kept = λ q. ground (arith, v.kept q, status_of-from_offset c q r);
  known = λ q. ground (arith, v.known q, status_of-from_offset c q r);
  finished = λ q. ground (arith, v.finished q, status_of-from_offset c q r);
  passed = λ q d l. v.covered c q given d l;
  covered = v.covered;
  offered_low = v.offered_low;
  delivered_low = v.delivered_low;
  next_low = v.offered_low c given;
}

commit_from-Follows :
    (next : Option ℕ) (c : ℕ) (p : PartitionProgress) (h : History)
    → p.next ≡ next
    → h.offered c ≡ true
    → Follows next p.received h
    → FollowsPartition (commit_from next c p) h
unfolding commit_from
commit_from-Follows none c p h e given v = rw e v
commit_from-Follows (some n) c p h e given v = elim (Bool-cases (leb c n)) [
  | inl stale ↦ rw (stale, e) v
  | inr further ↦ rw further (commit-Tracked n c p.received h given (ground arith) v)
]

-- A commit of a position that was offered keeps the progress in step with the history.
pub commit_offset-Follows :
    (c : ℕ) (p : PartitionProgress) (h : History)
    → h.offered c ≡ true
    → FollowsPartition p h
    → FollowsPartition (commit_offset c p) h
unfolding commit_offset
commit_offset-Follows c p h given v = commit_from-Follows p.next c p h refl given v

-- What every commit position that the progress ever offered covers.
pub Follows-covered :
    (next : Option ℕ) (r : Offsets) (h : History) (c o : ℕ)
    → Follows next r h
    → h.offered c ≡ true
    → h.delivered o ≡ true
    → o < c
    → h.acked o ≡ true
Follows-covered none r h c o v f d l = ground (arith, v.unoffered c)
Follows-covered (some n) r h c o v f d l = v.covered c o f d l
