-- ===== src/Kafka/Source/Calls.antt =====
-- The calls of src/adapters/kafka/source.rs and of Context keep the account of a source.
use beave_rs.Base.{
  ℕ, ◌+◌, ◌<◌, ◌^◌, ◌≡◌, refl, arith, Option, none, some, List, [], ◌∷◌, ◌++◌, All, map, Eq,
  either_branch, subst,
}
use beave_rs.Kafka.Progress.Received.{Completed, ok, err}
use beave_rs.Kafka.Progress.History.{InOrder}
use beave_rs.Kafka.Progress.{
  Progress, generation_of, revoke, revoke_keys, revoke_all, complete, committed,
}
use beave_rs.Kafka.Consumer.{
  revokes, receives, completes, releases, commits, pauses, resumes, Reach, next, note_complete,
  after_receive, after_complete,
}
use beave_rs.Kafka.Source.{
  Shared, Client, Acked, acked, failed, commit_failed, send, offsets, committed_all, drop_message,
  receive_raw, commit_then, ack_completed, ack_waited, ack, pause_source, resume_source,
}
use beave_rs.Kafka.Source.Account.{
  Histories, IsOffered, Account, Account-step, IsSound, Account-IsSound, consumer_of,
}

All-append {ℓ κ} :
    {A : Type ℓ} (Q : A → Type κ) (xs ys : List A) → All Q xs → All Q ys → All Q (xs ++ ys)
All-append Q [] ys h g = g
All-append Q (x ∷ xs) ys (h, hs) g = (h, All-append Q xs ys hs g)

All-last {ℓ κ} : {A : Type ℓ} (Q : A → Type κ) (xs ys : List A) → All Q (xs ++ ys) → All Q ys
All-last Q [] ys h = h
All-last Q (x ∷ xs) ys (h, hs) = All-last Q xs ys hs

All-first {ℓ κ} : {A : Type ℓ} (Q : A → Type κ) (xs ys : List A) → All Q (xs ++ ys) → All Q xs
All-first Q [] ys h = tt
All-first Q (x ∷ xs) ys (h, hs) = (h, All-first Q xs ys hs)

module _ {ℓ} {P : Type ℓ} ⦃e : Eq P⦄ where
  -- Revoking the keys one after the other wraps no generation.
  abbrev pub Fits : List P → Progress P → Type 0
  Fits [] p = Unit
  Fits (key ∷ rest) p = (generation_of key p + 1 < 2 ^ 64) × Fits rest (revoke key p)

  pub revoke_keys-Reach :
      (keys : List P) (p : Progress P) (hs : Histories P)
      → Fits keys p
      → Reach (record { progress = p; histories = hs })
      → Reach (record { progress = revoke_keys keys p; histories = hs })
  unfolding revoke_keys
  revoke_keys-Reach [] p hs fits r = r
  revoke_keys-Reach (key ∷ rest) p hs (small, fits) r =
      revoke_keys-Reach rest (revoke key p) hs fits (next r (revokes key small))

  pub committed_all-Reach :
      (qs : List (P × ℕ × ℕ)) (p : Progress P) (hs : Histories P)
      → All (IsOffered hs) qs
      → Reach (record { progress = p; histories = hs })
      → Reach (record { progress = committed_all qs p; histories = hs })
  unfolding committed_all
  committed_all-Reach [] p hs h r = r
  committed_all-Reach ((key, g, c) ∷ qs) p hs (h, later) r =
      committed_all-Reach qs (committed g key c p) hs later (next r (commits g key c h))

module _ {ℓ} {P : Type ℓ} ⦃e : Eq P⦄ {W : Type 0} (c : Client P W) where
  -- Other tasks make calls that keep the account, and take back nothing that was sent.
  pub record Interleaves : Type ℓ where
    pub accounts : (s : Shared P W) → Account s → Account (c.others s)
    pub appends :
        (s : Shared P W) → (more : List (P × ℕ × ℕ)) × ((c.others s).sent ≡ s.sent ++ more)

  pub Account-commit_then :
      {A : Type 0} (i : Interleaves) (positions : List (P × ℕ × ℕ))
      (succeed fail : Shared P W → Shared P W × A) (s : Shared P W) (a : Account s)
      → All (IsOffered s.histories) positions
      → ((t : Shared P W) (b : Account t)
          → All (IsOffered t.histories) positions
          → Account (succeed t).0)
      → ((t : Shared P W) → Account t → Account (fail t).0)
      → Account (commit_then c positions succeed fail s).0
  unfolding commit_then send
  Account-commit_then {A = A} i positions succeed fail s a offered succeeds fails =
      let (success, w) = c.commit (offsets positions) s.world in
      let asked : Shared P W = send positions (record s { world = w }) in
      let sent : Account asked = record {
        reached = a.reached;
        offered = All-append (IsOffered s.histories) s.sent positions a.offered offered;
      } in
      let after : Account (c.others asked) = i.accounts asked sent in
      let (more, more_sent) = i.appends asked in
      let hs = (c.others asked).histories in
      let known = subst (λ qs. All (IsOffered hs) qs) more_sent after.offered in
      let kept =
        All-last (IsOffered hs) s.sent positions
          (All-first (IsOffered hs) (s.sent ++ positions) more known) in
      either_branch (λ (r : Shared P W × A). Account r.0) success _ _
        (λ good. succeeds (c.others asked) after kept) (λ bad. fails (c.others asked) after)

  IsOffered-now :
      (key : P) (g o : ℕ) (r : Completed (Option ℕ)) (n : ℕ) (hs : Histories P)
      → r ≡ ok (some n)
      → IsOffered (note_complete key g o r hs) (key, g, n)
  IsOffered-now key g o (ok none) n hs h = ground arith
  IsOffered-now key g o (ok (some m)) n hs h = ground (arith, h, e.eq_iff key key)
  IsOffered-now key g o (err x) n hs h = ground arith

  Account-ack_completed :
      (i : Interleaves) (key : P) (g : ℕ) (s : Shared P W) (a : Account s)
      (r : Completed (Option ℕ))
      → ((n : ℕ) → r ≡ ok (some n) → IsOffered s.histories (key, g, n))
      → Account (ack_completed c key g s r).0
  unfolding ack_completed
  Account-ack_completed i key g s a (err x) offered = a
  Account-ack_completed i key g s a (ok none) offered = a
  Account-ack_completed i key g s a (ok (some n)) offered =
      Account-commit_then i ((key, g, n) ∷ [])
        (λ t. (record t { progress = committed g key n t.progress }, acked))
        (λ t. (t, failed commit_failed)) s a (offered n refl, tt)
        (λ t b (h, rest). record {
          reached = next b.reached (commits g key n h);
          offered = b.offered;
        })
        (λ t b. b)

  Account-ack_waited :
      (i : Interleaves) (key : P) (g o : ℕ) (s : Shared P W) (a : Account s)
      → Fits (map (λ entry. entry.0) s.progress.active) s.progress
      → Account (ack_waited c key g o s).0
  unfolding ack_waited revoke_all after_complete
  Account-ack_waited i key g o s a fits =
      let done = after_complete g key o (consumer_of s) in
      let b = Account-step s a done s.world (completes g key o) in
      either_branch (λ (r : Shared P W × Acked). Account r.0) (c.assignment_lost s.world) _ _
        (λ lost. record {
          reached = revoke_keys-Reach _ s.progress s.histories fits a.reached;
          offered = a.offered;
        })
        (λ held.
          Account-ack_completed i key g
            (record s { progress = done.progress; histories = done.histories }) b
            (complete g key o s.progress).1
            (λ n given. IsOffered-now key g o (complete g key o s.progress).1 n s.histories given))

  -- Acknowledging a delivery, receiving the next record of a partition, dropping a delivery, and
  -- pausing and resuming a partition keep a source sound: by the record of what it delivered and of what
  -- was acknowledged, every position that was passed to the broker covers only deliveries of its
  -- assignment that were acknowledged in it. Other tasks are taken to keep it sound and to take back
  -- nothing that was sent, partitions to give their records in offset order, and a lost assignment to
  -- wrap no generation.
  pub deliveries-IsSound :
      (i : Interleaves) (s : Shared P W) (a : Account s) (key : P) (g o : ℕ)
      → Fits (map (λ entry. entry.0) (c.others s).progress.active) (c.others s).progress
      → InOrder o (s.histories key g)
      → IsSound (ack c key g o s).0
        × IsSound (receive_raw key g o s).0
        × IsSound (drop_message key g o s)
        × IsSound (pause_source c key s)
        × IsSound (resume_source c key s)
  unfolding ack receive_raw drop_message pause_source resume_source after_receive
  deliveries-IsSound i s a key g o fits order = (
    Account-IsSound _ (Account-ack_waited i key g o (c.others s) (i.accounts s a) fits),
    Account-IsSound _ (Account-step s a _ s.world (receives key g o order)),
    Account-IsSound _ (Account-step s a _ s.world (releases g key o)),
    Account-IsSound _ (Account-step s a _ _ (pauses key)),
    Account-IsSound _ (Account-step s a _ _ (resumes key)),
  )
