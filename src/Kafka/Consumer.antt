-- ===== src/Kafka/Consumer.antt =====
-- The life of a consumer over src/adapters/kafka/progress.rs: rebalances, deliveries, their
-- outcomes and commits, in any order, beside the history of every assignment.
pub mod Safety
pub mod Steps
use beave_rs.Base.{
  ℕ, ◌+◌, ◌<◌, ◌^◌, ◌≡◌, nat_beq, if◌then◌else◌, Bool, true, ◌&&◌, Option, none, some, List, Eq,
  ◌==◌,
}
use beave_rs.Kafka.Progress.Received.{Completed, ok, err}
use beave_rs.Kafka.Progress.History.{History, no_history, deliver, offer, acknowledge, InOrder}
use beave_rs.Kafka.Progress.{
  Progress, Registered, default_progress, generation_of, activate, revoke, register, complete,
  release, committed, position, begin_handoff, pause, resume,
}

-- A history for each partition and assignment generation.
pub record Consumer {ℓ} (P : Type ℓ) : Type ℓ where
  pub progress : Progress P
  pub histories : P → ℕ → History

abbrev pub started {ℓ} : {P : Type ℓ} → Consumer P
started = record { progress = default_progress; histories = λ key g. no_history }

module _ {ℓ} {P : Type ℓ} ⦃e : Eq P⦄ where
  abbrev pub on_history : P → ℕ → (History → History) → (P → ℕ → History) → P → ℕ → History
  on_history key g change hs k m = if key == k && nat_beq g m then change (hs k m) else hs k m

  abbrev pub note_receive : P → ℕ → ℕ → Option Registered → (P → ℕ → History) → P → ℕ → History
  note_receive key g o none hs = hs
  note_receive key g o (some _) hs = on_history key g (deliver o) hs

  abbrev pub note_complete : P → ℕ → ℕ → Completed (Option ℕ) → (P → ℕ → History) → P → ℕ → History
  note_complete key g o (ok position) hs = on_history key g (acknowledge o position) hs
  note_complete key g o (err _) hs = hs

  unfoldable pub after_receive : P → ℕ → ℕ → Consumer P → Consumer P
  after_receive key g o s =
      let (q, r) = register key g o s.progress in
      record { progress = q; histories = note_receive key g o r s.histories }

  unfoldable pub after_complete : ℕ → P → ℕ → Consumer P → Consumer P
  after_complete g key o s =
      let (q, r) = complete g key o s.progress in
      record { progress = q; histories = note_complete key g o r s.histories }

  -- A rebalance changes a partition's generation, which is taken not to wrap round.
  pub data Step (s : Consumer P) : Consumer P → Type ℓ where
    assigns :
        (key : P)
        → generation_of key s.progress + 1 < 2 ^ 64
        → Step s (record s { progress = activate key s.progress })
    revokes :
        (key : P)
        → generation_of key s.progress + 1 < 2 ^ 64
        → Step s (record s { progress = revoke key s.progress })
    receives :
        (key : P) (g o : ℕ) → InOrder o (s.histories key g) → Step s (after_receive key g o s)
    completes : (g : ℕ) (key : P) (o : ℕ) → Step s (after_complete g key o s)
    releases :
        (g : ℕ) (key : P) (o : ℕ) → Step s (record s { progress = release g key o s.progress })
    -- A commit is recorded for a position that a completion or a handoff gave out.
    commits :
        (g : ℕ) (key : P) (c : ℕ)
        → (s.histories key g).offered c ≡ true
        → Step s (record s { progress = committed g key c s.progress })
    -- `hand_off` reads the position to commit.
    reads :
        (key : P) (g c : ℕ)
        → position key s.progress ≡ some (g, c)
        → Step s (record s { histories = on_history key g (offer (some c)) s.histories })
    hands_off : (keys : List P) → Step s (record s { progress = (begin_handoff keys s.progress).0 })
    pauses : (key : P) → Step s (record s { progress = (pause key s.progress).0 })
    resumes : (key : P) → Step s (record s { progress = (resume key s.progress).0 })

  pub data Reach : Consumer P → Type ℓ where
    here : Reach started
    next : {s t : Consumer P} → Reach s → Step s t → Reach t
