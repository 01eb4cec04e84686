-- ===== src/Kafka/Source/Rebalances.antt =====
-- Handoffs and rebalances of Context in src/adapters/kafka/progress.rs keep the account of a source.
use beave_rs.Kafka.Progress.History.{offer}
use beave_rs.Base.{
  ℕ, ◌+◌, ◌<◌, ◌^◌, ◌≡◌, refl, arith, Bool, Option, none, some, List, [], ◌∷◌, All, all, Eq,
  if◌then◌else◌, either_branch, ◌||◌,
}
use beave_rs.Kafka.Progress.{Progress, generation_of, activate, position, begin_handoff}
use beave_rs.Kafka.Consumer.{assigns, reads, hands_off, Reach, next, on_history}
use beave_rs.Kafka.Source.{
  Shared, Client, offsets, committed_all, positions_of, commit_positions, hand_off_kept, hand_off,
  pre_rebalance, activate_all, post_rebalance, note_positions,
}
use beave_rs.Kafka.Source.Account.{
  Histories, IsOffered, Account, Account-step, IsSound, Account-IsSound, offered-on_history,
  offered-offer,
}
use beave_rs.Kafka.Source.Calls.{
  Interleaves, Fits, revoke_keys-Reach, committed_all-Reach, Account-commit_then,
}

module _ {ℓ} {P : Type ℓ} ⦃e : Eq P⦄ where
  abbrev pub FitsAssigned : List P → Progress P → Type 0
  FitsAssigned [] p = Unit
  FitsAssigned (key ∷ rest) p =
      (generation_of key p + 1 < 2 ^ 64) × FitsAssigned rest (activate key p)

  activate_all-Reach :
      (keys : List P) (p : Progress P) (hs : Histories P)
      → FitsAssigned keys p
      → Reach (record { progress = p; histories = hs })
      → Reach (record { progress = (activate_all keys p).0; histories = hs })
  unfolding activate_all
  activate_all-Reach [] p hs fits r = r
  activate_all-Reach (key ∷ keys) p hs (small, fits) r =
      activate_all-Reach keys (activate key p) hs fits (next r (assigns key small))

module _ {ℓ} {P : Type ℓ} ⦃e : Eq P⦄ {W : Type 0} (c : Client P W) where
  -- A source after positions were read.
  abbrev noted : List (P × ℕ × ℕ) → Shared P W → Shared P W
  noted qs s = record s { histories = note_positions qs s.histories }

  IsOffered-noted :
      (qs : List (P × ℕ × ℕ)) (hs : Histories P) (q : P × ℕ × ℕ)
      → IsOffered hs q
      → IsOffered (note_positions qs hs) q
  unfolding note_positions
  IsOffered-noted [] hs q h = h
  IsOffered-noted ((key, g, n) ∷ qs) hs (k, m, o) h =
      IsOffered-noted qs (on_history key g (offer (some n)) hs) (k, m, o)
        (offered-on_history key k g m o (offer (some n)) hs (λ x y. offered-offer (some n) o x y) h)

  -- Reading the positions of the handed-off keys offers each of them.
  record Reads (s : Shared P W) (qs : List (P × ℕ × ℕ)) : Type ℓ where
    pub account : Account (noted qs s)
    pub offers : All (IsOffered (note_positions qs s.histories)) qs

  Reads-one :
      (key : P) (s : Shared P W) (a : Account s) (keys : List P) (r : Option (ℕ × ℕ))
      → position key s.progress ≡ r
      → ((hs : Histories P)
          → Account (record s { histories = hs })
          → Reads (record s { histories = hs }) (positions_of keys s.progress))
      → Reads s (elim r [
        | none ↦ positions_of keys s.progress
        | some (g, n) ↦ (key, g, n) ∷ positions_of keys s.progress
      ])
  unfolding note_positions
  Reads-one key s a keys none at later = later s.histories a
  Reads-one key s a keys (some (g, n)) at later =
      let hs = on_history key g (offer (some n)) s.histories in
      let rest = later hs (Account-step s a _ s.world (reads key g n at)) in
      record {
        account = rest.account;
        offers = (
          IsOffered-noted (positions_of keys s.progress) hs (key, g, n)
              (ground (arith, e.eq_iff key key)),
          rest.offers,
        );
      }

  Reads-all :
      (keys : List P) (s : Shared P W) (a : Account s) → Reads s (positions_of keys s.progress)
  unfolding positions_of note_positions
  Reads-all [] s a = record { account = a; offers = tt }
  Reads-all (key ∷ keys) s a =
      Reads-one key s a keys (position key s.progress) refl
        (λ hs b. Reads-all keys (record s { histories = hs }) b)

  Account-commit_positions :
      (i : Interleaves c) (qs : List (P × ℕ × ℕ)) (s : Shared P W) (a : Account s)
      → All (IsOffered s.histories) qs
      → Account (commit_positions c qs s)
  unfolding commit_positions
  Account-commit_positions i [] s a offered = a
  Account-commit_positions i (q ∷ qs) s a offered =
      either_branch (λ (t : Shared P W). Account t)
        (all (λ o. c.can_list o s.world) (offsets (q ∷ qs))) _ _
        (λ listed.
          Account-commit_then c i (q ∷ qs)
            (λ t. (record t { progress = committed_all (q ∷ qs) t.progress }, tt)) (λ t. (t, tt)) s
            a offered
            (λ t b known. record {
              reached = committed_all-Reach (q ∷ qs) t.progress t.histories known b.reached;
              offered = b.offered;
            })
            (λ t b. b))
        (λ unlisted. a)

  Account-hand_off_kept :
      (i : Interleaves c) (keys : List P) (s : Shared P W)
      → Account s
      → Account (hand_off_kept c keys s)
  unfolding hand_off_kept
  Account-hand_off_kept i [] s a = a
  Account-hand_off_kept i (key ∷ keys) s a =
      let after = c.others s in
      let positions = positions_of (key ∷ keys) after.progress in
      let r = Reads-all (key ∷ keys) after (i.accounts s a) in
      Account-commit_positions i positions (noted positions after) r.account r.offers

  Account-hand_off :
      (i : Interleaves c) (keys : List P) (s : Shared P W) → Account s → Account (hand_off c keys s)
  unfolding hand_off
  Account-hand_off i keys s a =
      either_branch (λ (t : Shared P W). Account t)
        (c.assignment_lost s.world || c.in_runtime s.world) _ _ (λ lost. a)
        (λ held.
          Account-hand_off_kept i (begin_handoff keys s.progress).1
            (record s { progress = (begin_handoff keys s.progress).0 })
            (Account-step s a _ s.world (hands_off keys)))

  Account-pre_rebalance :
      (i : Interleaves c) (handoff : Bool) (keys : List P) (s : Shared P W)
      → Account s
      → Fits keys (c.others (if handoff then hand_off c keys s else s)).progress
      → Account (pre_rebalance c handoff keys s)
  unfolding pre_rebalance
  Account-pre_rebalance i handoff keys s a fits =
      let before = if handoff then hand_off c keys s else s in
      let handed : Account before =
        either_branch (λ (t : Shared P W). Account t) handoff _ _
          (λ yes_handoff. Account-hand_off i keys s a) (λ no_handoff. a) in
      let b : Account (c.others before) = i.accounts before handed in
      record {
        reached =
            revoke_keys-Reach keys (c.others before).progress (c.others before).histories fits
              b.reached;
        offered = b.offered;
      }

  -- A handoff, and a rebalance that revokes or assigns partitions and wraps no generation, keep a
  -- source sound: by the record of what it delivered and of what was acknowledged, every position that
  -- was passed to the broker covers only deliveries of its assignment that were acknowledged in it.
  -- Other tasks are taken to keep it sound and to take back nothing that was sent.
  pub rebalances-IsSound :
      (i : Interleaves c) (s : Shared P W) (handoff : Bool) (keys : List P)
      → Account s
      → Fits keys (c.others (if handoff then hand_off c keys s else s)).progress
      → FitsAssigned keys s.progress
      → IsSound (hand_off c keys s)
        × IsSound (pre_rebalance c handoff keys s)
        × IsSound (post_rebalance c keys s)
  unfolding post_rebalance
  rebalances-IsSound i s handoff keys a fits assigned = (
    Account-IsSound _ (Account-hand_off i keys s a),
    Account-IsSound _ (Account-pre_rebalance i handoff keys s a fits),
    Account-IsSound _ (record {
      reached = activate_all-Reach keys s.progress s.histories assigned a.reached;
      offered = a.offered;
    }),
  )
