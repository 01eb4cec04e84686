-- ===== src/Kafka/Source/Account.antt =====
-- What a source accounts for, in terms of the life of a consumer of src/adapters/kafka/progress.rs.
use beave_rs.Base.{
  ℕ, ◌<◌, ◌≡◌, arith, true, Option, none, some, List, [], ◌∷◌, All, Eq, ◌==◌, nat_beq,
  either_branch, ◌&&◌,
}
use beave_rs.Kafka.Progress.Received.{Completed, ok, err}
use beave_rs.Kafka.Progress.History.{History, with, deliver, offer, acknowledge}
use beave_rs.Kafka.Progress.{Progress, Registered, register, complete}
use beave_rs.Kafka.Consumer.{
  Consumer, Step, assigns, revokes, receives, completes, releases, commits, reads, hands_off,
  pauses, resumes, Reach, next, on_history, note_receive, note_complete, after_receive,
  after_complete,
}
use beave_rs.Kafka.Consumer.Steps.{commits_cover_acknowledged}
use beave_rs.Kafka.Source.{Shared}

abbrev pub Histories {ℓ} : Type ℓ → Type ℓ
Histories P = P → ℕ → History

module _ {ℓ} {P : Type ℓ} where
  abbrev pub IsOffered : Histories P → P × ℕ × ℕ → Type 0
  IsOffered hs (key, g, c) = (hs key g).offered c ≡ true

  -- A position covers the deliveries below it if each was acknowledged.
  abbrev pub IsCovering : Histories P → P × ℕ × ℕ → Type 0
  IsCovering hs (key, g, c) =
      (o : ℕ) → (hs key g).delivered o ≡ true → o < c → (hs key g).acked o ≡ true

pub offered-offer :
    (position : Option ℕ) (c : ℕ) (h : History)
    → h.offered c ≡ true
    → (offer position h).offered c ≡ true
offered-offer none c h o = o
offered-offer (some p) c h o = ground (arith, o)

module _ {ℓ} {P : Type ℓ} ⦃e : Eq P⦄ where
  pub offered-on_history :
      (key k : P) (g m c : ℕ) (change : History → History) (hs : Histories P)
      → ((h : History) → h.offered c ≡ true → (change h).offered c ≡ true)
      → (hs k m).offered c ≡ true
      → (on_history key g change hs k m).offered c ≡ true
  offered-on_history key k g m c change hs keeps h =
      either_branch (λ (x : History). x.offered c ≡ true) (key == k && nat_beq g m) _ _
        (λ same. keeps (hs k m) h) (λ differ. h)

  offered-receive :
      (key k : P) (g o m c : ℕ) (r : Option Registered) (hs : Histories P)
      → (hs k m).offered c ≡ true
      → (note_receive key g o r hs k m).offered c ≡ true
  offered-receive key k g o m c none hs h = h
  offered-receive key k g o m c (some r) hs h =
      offered-on_history key k g m c (deliver o) hs (λ x y. y) h

  offered_complete :
      (key k : P) (g o m c : ℕ) (r : Completed (Option ℕ)) (hs : Histories P)
      → (hs k m).offered c ≡ true
      → (note_complete key g o r hs k m).offered c ≡ true
  offered_complete key k g o m c (ok position) hs h =
      offered-on_history key k g m c (acknowledge o position) hs
        (λ x y. offered-offer position c (record x { acked = with o x.acked }) y) h
  offered_complete key k g o m c (err _) hs h = h

  -- What was offered stays offered.
  pub IsOffered-Step :
      {s t : Consumer P}
      → Step s t
      → (q : P × ℕ × ℕ) → IsOffered s.histories q
      → IsOffered t.histories q
  unfolding after_receive after_complete
  IsOffered-Step (assigns key small) q h = h
  IsOffered-Step (revokes key small) q h = h
  IsOffered-Step {s} (receives key g o order) (k, m, c) h =
      offered-receive key k g o m c (register key g o s.progress).1 s.histories h
  IsOffered-Step {s} (completes g key o) (k, m, c) h =
      offered_complete key k g o m c (complete g key o s.progress).1 s.histories h
  IsOffered-Step (releases g key o) q h = h
  IsOffered-Step (commits g key c offered) q h = h
  IsOffered-Step {s} (reads key g p at) (k, m, c) h =
      offered-on_history key k g m c (offer (some p)) s.histories
        (λ x y. offered-offer (some p) c x y) h
  IsOffered-Step (hands_off keys) q h = h
  IsOffered-Step (pauses key) q h = h
  IsOffered-Step (resumes key) q h = h

  pub IsOffered-All :
      {s t : Consumer P}
      → Step s t
      → (qs : List (P × ℕ × ℕ)) → All (IsOffered s.histories) qs
      → All (IsOffered t.histories) qs
  IsOffered-All st [] h = tt
  IsOffered-All st (q ∷ qs) (h, hs) = (IsOffered-Step st q h, IsOffered-All st qs hs)

  -- A source as a consumer.
  abbrev pub consumer_of : {W : Type 0} → Shared P W → Consumer P
  consumer_of s = record { progress = s.progress; histories = s.histories }

  -- What was recorded is the life of a consumer, and every position that was passed to the broker was
  -- offered in it.
  pub record Account {W : Type 0} (s : Shared P W) : Type ℓ where
    pub reached : Reach (consumer_of s)
    pub offered : All (IsOffered s.histories) s.sent

  All-IsCovering :
      (hs : Histories P) (p : Progress P) (qs : List (P × ℕ × ℕ))
      → Reach (record { progress = p; histories = hs })
      → All (IsOffered hs) qs
      → All (IsCovering hs) qs
  All-IsCovering hs p [] r h = tt
  All-IsCovering hs p ((key, g, c) ∷ qs) r (h, later) =
      (λ o. commits_cover_acknowledged key g c o r h, All-IsCovering hs p qs r later)

  module _ {W : Type 0} where
    -- A step of the consumer keeps the account.
    pub Account-step :
        (s : Shared P W) (a : Account s) (t : Consumer P) (w : W)
        → Step (consumer_of s) t
        → Account (record s { progress = t.progress; histories = t.histories; world = w })
    Account-step s a t w st = record {
      reached = next a.reached st;
      offered = IsOffered-All st s.sent a.offered;
    }

    -- Every position that was passed to the broker covers only deliveries of its assignment that were
    -- acknowledged in it.
    abbrev pub IsSound : Shared P W → Type ℓ
    IsSound s = Account s × All (IsCovering s.histories) s.sent

    pub Account-IsSound : (s : Shared P W) → Account s → IsSound s
    Account-IsSound s a = (a, All-IsCovering s.histories s.progress s.sent a.reached a.offered)
