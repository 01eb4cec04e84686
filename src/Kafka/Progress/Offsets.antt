-- ===== src/Kafka/Progress/Offsets.antt =====
-- Laws of the offset map of src/adapters/kafka/progress.rs, and what its commit position covers.
use beave_rs.Base.{
  ℕ, suc, ◌≤◌, ◌<◌, ◌≡◌, ◌≢◌, ◌⊎◌, inl, inr, arith, refl, Option, none, some, [], ◌∷◌, leb, nat_beq,
  if◌then◌else◌, Option-cases,
}
use beave_rs.Kafka.Progress.Received.{
  Status, pending, done, Offsets, status_of, insert_pending, set_status, first_open, last_offset,
  from_offset, candidate,
}

-- The offsets rise strictly from `n` on.
abbrev pub From : ℕ → Offsets → Type 0
From n [] = Unit
From n ((p, st) ∷ rest) = (n ≤ p) × From (suc p) rest

From-mono : (m n : ℕ) (r : Offsets) → m ≤ n → From n r → From m r
From-mono m n [] h f = tt
From-mono m n ((p, st) ∷ r) h f = (omega arith, f.1)

pub status_of-From : (n o : ℕ) (r : Offsets) → From n r → o < n → status_of o r ≡ none
unfolding status_of
status_of-From n o [] f h = refl
status_of-From n o ((p, st) ∷ r) f h = ground (arith, status_of-From (suc p) o r f.1)

abbrev pub or_pending : Option Status → Status
or_pending none = pending
or_pending (some st) = st

pub status_of-insert_pending :
    (n o q : ℕ) (r : Offsets)
    → From n r
    → status_of q (insert_pending o r)
      ≡ (if nat_beq o q then some (or_pending (status_of o r)) else status_of q r)
unfolding status_of insert_pending
status_of-insert_pending n o q [] f = ground arith
status_of-insert_pending n o q ((p, st) ∷ r) f =
    ground (arith, status_of-insert_pending (suc p) o q r f.1, status_of-From (suc p) o r f.1)

abbrev pub over : Status → Option Status → Option Status
over new none = none
over new (some st) = some new

pub status_of-set_status :
    (o q : ℕ) (new : Status) (r : Offsets)
    → status_of q (set_status o new r)
      ≡ (if nat_beq o q then over new (status_of o r) else status_of q r)
unfolding status_of set_status
status_of-set_status o q new [] = ground arith
status_of-set_status o q new ((p, st) ∷ r) = ground (arith, status_of-set_status o q new r)

pub status_of-from_offset :
    (c q : ℕ) (r : Offsets)
    → status_of q (from_offset c r) ≡ (if leb c q then status_of q r else none)
unfolding status_of
status_of-from_offset c q [] = ground arith
status_of-from_offset c q ((p, st) ∷ r) = ground (arith, status_of-from_offset c q r)

pub insert_pending-From : (n o : ℕ) (r : Offsets) → From n r → n ≤ o → From n (insert_pending o r)
unfolding insert_pending
insert_pending-From n o [] f h = (h, tt)
insert_pending-From n o ((p, st) ∷ r) f h =
    ground (arith, insert_pending-From (suc p) o r f.1, From-mono (suc o) p r)

pub set_status-From :
    (n o : ℕ) (new : Status) (r : Offsets) → From n r → From n (set_status o new r)
unfolding set_status
set_status-From n o new [] f = tt
set_status-From n o new ((p, st) ∷ r) f = ground (arith, set_status-From (suc p) o new r f.1)

pub from_offset-From :
    (n m c : ℕ) (r : Offsets) → From n r → (m ≤ n) ⊎ (m ≤ c) → From m (from_offset c r)
from_offset-From n m c [] f h = tt
from_offset-From n m c ((p, st) ∷ r) f h =
    ground (arith, from_offset-From (suc p) m c r f.1, from_offset-From (suc p) (suc p) c r f.1)

-- Below the first open offset everything is acknowledged, and without one everything is.
first_open_below :
    (n o c : ℕ) (st : Status) (r : Offsets)
    → From n r
    → first_open r ≡ some c
    → status_of o r ≡ some st
    → o < c
    → st ≡ done
unfolding first_open status_of
first_open_below n o c st [] f h s l = cc
first_open_below n o c st ((p, tu) ∷ r) f h s l =
    ground (arith, status_of-From (suc p) o r f.1, first_open_below (suc p) o c st r f.1)

first_open-none :
    (o : ℕ) (st : Status) (r : Offsets) → first_open r ≡ none → status_of o r ≡ some st → st ≡ done
unfolding first_open status_of
first_open-none o st [] h s = cc
first_open-none o st ((p, tu) ∷ r) h s = ground (arith, first_open-none o st r)

pub candidate_covers :
    (n o : ℕ) (st : Status) (r : Offsets)
    → From n r
    → status_of o r ≡ some st
    → o < candidate n r
    → st ≡ done
unfolding candidate
candidate_covers n o st r f s l = elim (Option-cases (first_open r)) [
  | inl all_done ↦ first_open-none o st r all_done s
  | inr (c, open_) ↦ first_open_below n o c st r f open_ s (ground arith)
]

first_open_found : (c : ℕ) (r : Offsets) → first_open r ≡ some c → status_of c r ≢ none
unfolding first_open status_of
first_open_found c [] h = cc
first_open_found c ((p, st) ∷ r) h = ground (arith, first_open_found c r)

last_offset_found : (c : ℕ) (r : Offsets) → last_offset r ≡ some c → status_of c r ≢ none
unfolding last_offset status_of
last_offset_found c [] h = cc
last_offset_found c ((p, st) ∷ []) h = ground arith
last_offset_found c ((p, st) ∷ (q, tu) ∷ r) h = ground (arith, last_offset_found c ((q, tu) ∷ r))

-- The candidate is at most any bound above the registered offsets and `n`.
pub candidate_bound :
    (n b : ℕ) (r : Offsets) → n ≤ b → ((o : ℕ) → status_of o r ≢ none → o < b) → candidate n r ≤ b
unfolding candidate
candidate_bound n b r h below = elim (Option-cases (first_open r)) [
  | inr (c, open_) ↦ ground (arith, below c (first_open_found c r open_))
  | inl all_done ↦ elim (Option-cases (last_offset r)) [
    | inr (c, last) ↦ ground (arith, below c (last_offset_found c r last))
    | inl empty ↦ ground arith
  ]
]
