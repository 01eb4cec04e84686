-- ===== src/Kafka/Progress/History.antt =====
-- What happened to one assignment of a partition, beside its progress in
-- src/adapters/kafka/progress.rs: the offsets delivered and acknowledged, and the commit positions
-- offered.
use beave_rs.Base.{
  ℕ, suc, ◌≤◌, ◌<◌, ◌≡◌, ◌≢◌, ◌⊎◌, inl, inr, arith, refl, Bool, true, false, Option, none, some, [],
  ltb, nat_beq, if◌then◌else◌, max, Option-cases, Bool-cases, nat_beq_iff,
}
use beave_rs.Kafka.Progress.Received.{
  Status, done, Offsets, status_of, insert_pending, set_status, candidate, PartitionProgress,
  commit_position, commit_position_from, register_from, register_offset,
}
use beave_rs.Kafka.Progress.Offsets.{
  From, status_of-insert_pending, status_of-set_status, insert_pending-From, set_status-From,
  candidate_covers, candidate_bound,
}

-- `bound` is above every delivered offset.
pub record History : Type 0 where
  pub delivered : ℕ → Bool
  pub acked : ℕ → Bool
  pub offered : ℕ → Bool
  pub bound : ℕ

abbrev pub no_history : History
no_history = record { delivered = λ o. false; acked = λ o. false; offered = λ o. false; bound = 0 }

abbrev pub with : ℕ → (ℕ → Bool) → ℕ → Bool
with o set q = if nat_beq o q then true else set q

abbrev pub deliver : ℕ → History → History
deliver o h = record h { delivered = with o h.delivered; bound = max h.bound (suc o) }

abbrev pub offer : Option ℕ → History → History
offer none h = h
offer (some c) h = record h { offered = with c h.offered }

abbrev pub acknowledge : ℕ → Option ℕ → History → History
acknowledge o position h = offer position (record h { acked = with o h.acked })

pub record Tracked (n : ℕ) (r : Offsets) (h : History) : Type 0 where
  pub ordered : From n r
  pub kept : (o : ℕ) → h.delivered o ≡ true → n ≤ o → status_of o r ≢ none
  pub known : (o : ℕ) → status_of o r ≢ none → o < h.bound
  pub finished : (o : ℕ) → status_of o r ≡ some done → h.acked o ≡ true
  pub passed : (o : ℕ) → h.delivered o ≡ true → o < n → h.acked o ≡ true
  pub covered : (c o : ℕ) → h.offered c ≡ true → h.delivered o ≡ true → o < c → h.acked o ≡ true
  pub offered_low : (c : ℕ) → h.offered c ≡ true → c ≤ h.bound
  pub delivered_low : (o : ℕ) → h.delivered o ≡ true → o < h.bound
  pub next_low : n ≤ h.bound

pub record Untouched (r : Offsets) (h : History) : Type 0 where
  pub empty : r ≡ []
  pub undelivered : (o : ℕ) → h.delivered o ≡ false
  pub unoffered : (c : ℕ) → h.offered c ≡ false
  pub bound_zero : h.bound ≡ 0

-- The progress agrees with the history.
abbrev pub Follows : Option ℕ → Offsets → History → Type 0
Follows none r h = Untouched r h
Follows (some n) r h = Tracked n r h

-- Kafka delivers a partition's records in offset order, so a record that was not delivered before
-- is above all that were.
abbrev pub InOrder : ℕ → History → Type 0
InOrder o h = (h.delivered o ≡ true) ⊎ (h.bound ≤ o)

register-Tracked :
    (n o : ℕ) (r : Offsets) (h : History)
    → InOrder o h
    → n ≤ o
    → Tracked n r h
    → Tracked n (insert_pending o r) (deliver o h)
register-Tracked n o r h order le v = record {
  ordered = insert_pending-From n o r v.ordered le;
  kept = λ q. ground (arith, v.kept q, status_of-insert_pending n o q r v.ordered);
  known = λ q. ground (arith, v.known q, status_of-insert_pending n o q r v.ordered);
  finished =
      λ q. ground (arith, v.finished q, v.finished o, status_of-insert_pending n o q r v.ordered);
  passed = λ q. ground (arith, v.passed q);
  covered = λ c q. ground (arith, order, v.covered c q, v.offered_low c);
  offered_low = λ c. ground (arith, v.offered_low c);
  delivered_low = λ q. ground (arith, v.delivered_low q);
  next_low = omega (arith, v.next_low);
}

register-Untouched :
    (o : ℕ) (r : Offsets) (h : History)
    → Untouched r h
    → Tracked o (insert_pending o r) (deliver o h)
unfolding insert_pending status_of
register-Untouched o r h v =
    rw (v.empty, insert_pending)
      (record {
        ordered = omega arith;
        kept = λ q. ground (arith, v.undelivered q);
        known = λ q. ground arith;
        finished = λ q. ground arith;
        passed = λ q. ground (arith, v.undelivered q);
        covered = λ c q. ground (arith, v.unoffered c);
        offered_low = λ c. ground (arith, v.unoffered c);
        delivered_low = λ q. ground (arith, v.undelivered q);
        next_low = omega arith;
      })

-- A delivered offset that was committed past changes nothing but the history.
deliver_again-Tracked :
    (n o : ℕ) (r : Offsets) (h : History)
    → InOrder o h
    → o < n
    → Tracked n r h
    → Tracked n r (deliver o h)
deliver_again-Tracked n o r h order lt v = record {
  ordered = v.ordered;
  kept = λ q. ground (arith, v.kept q);
  known = λ q. ground (arith, v.known q);
  finished = v.finished;
  passed = λ q. ground (arith, order, v.passed q, v.next_low);
  covered = λ c q. ground (arith, order, v.covered c q, v.offered_low c, v.next_low);
  offered_low = λ c. ground (arith, v.offered_low c);
  delivered_low = λ q. ground (arith, v.delivered_low q);
  next_low = omega (arith, v.next_low);
}

register_from-Follows :
    (next : Option ℕ) (o : ℕ) (p : PartitionProgress) (h : History)
    → p.next ≡ next
    → InOrder o h
    → Follows next p.received h
    → Follows (register_from next o p).next (register_from next o p).received (deliver o h)
unfolding register_from
register_from-Follows none o p h e order v = register-Untouched o p.received h v
register_from-Follows (some n) o p h e order v = elim (Bool-cases (ltb o n)) [
  | inl below ↦ rw (below, e) (deliver_again-Tracked n o p.received h order (ground arith) v)
  | inr above ↦ rw (above, e) (register-Tracked n o p.received h order (ground arith) v)
]

abbrev pub FollowsPartition : PartitionProgress → History → Type 0
FollowsPartition p h = Follows p.next p.received h

pub register_offset-Follows :
    (o : ℕ) (p : PartitionProgress) (h : History)
    → InOrder o h
    → FollowsPartition p h
    → FollowsPartition (register_offset o p) (deliver o h)
unfolding register_offset
register_offset-Follows o p h order v = register_from-Follows p.next o p h refl order v

pub acknowledge-Tracked :
    (n o : ℕ) (r : Offsets) (h : History) (st : Status)
    → status_of o r ≡ some st
    → Tracked n r h
    → Tracked n (set_status o done r) (record h { acked = with o h.acked })
acknowledge-Tracked n o r h st found v = record {
  ordered = set_status-From n o done r v.ordered;
  kept = λ q. ground (arith, v.kept q, status_of-set_status o q done r);
  known = λ q. ground (arith, v.known q, status_of-set_status o q done r);
  finished = λ q. ground (arith, v.finished q, status_of-set_status o q done r);
  passed = λ q. ground (arith, v.passed q);
  covered = λ c q. ground (arith, v.covered c q);
  offered_low = v.offered_low;
  delivered_low = v.delivered_low;
  next_low = v.next_low;
}

-- Whatever the candidate covers was acknowledged, so it may be offered.
candidate_safe :
    (n o : ℕ) (r : Offsets) (h : History)
    → Tracked n r h
    → h.delivered o ≡ true
    → o < candidate n r
    → h.acked o ≡ true
candidate_safe n o r h v d lt = elim (Option-cases (status_of o r)) [
  | inl absent ↦ ground (arith, absent, v.kept o, v.passed o)
  | inr (st, found) ↦
      v.finished o (ground (arith, found, candidate_covers n o st r v.ordered found lt))
]

offer-Tracked :
    (n : ℕ) (r : Offsets) (h : History)
    → Tracked n r h
    → Tracked n r (offer (some (candidate n r)) h)
offer-Tracked n r h v = record {
  ordered = v.ordered;
  kept = v.kept;
  known = v.known;
  finished = v.finished;
  passed = v.passed;
  covered =
      λ c o. ground (arith, v.covered c o, candidate_safe n o r h v, nat_beq_iff (candidate n r) c);
  offered_low =
      λ c. ground (arith, v.offered_low c, candidate_bound n h.bound r v.next_low v.known);
  delivered_low = v.delivered_low;
  next_low = v.next_low;
}

pub commit_position-Follows :
    (p : PartitionProgress) (h : History)
    → FollowsPartition p h
    → FollowsPartition p (offer (commit_position p) h)
unfolding commit_position
commit_position-Follows p h v = commit_from p.next refl v
  where
    commit_from :
        (next : Option ℕ)
        → p.next ≡ next
        → Follows next p.received h
        → Follows next p.received (offer (commit_position_from next p.received) h)
    commit_from none e v = v
    commit_from (some n) e v = elim (Bool-cases (ltb n (candidate n p.received))) [
      | inl past ↦ rw past (offer-Tracked n p.received h v)
      | inr stays ↦ rw stays v
    ]
