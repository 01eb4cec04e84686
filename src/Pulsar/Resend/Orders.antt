-- ===== src/Pulsar/Resend/Orders.antt =====
-- The order in which a `Resender` of src/adapters/pulsar/resend.rs settles and sends its messages.
use beave_rs.Base.{
  ℕ, zero, suc, ◌+◌, ◌≡◌, refl, ap, sym, subst, ◌∙◌, arith, not, ◌||◌, some, List, [], ◌∷◌, ◌++◌,
  map, leb, either_branch, append_none, append_assoc, Option-cases, inl, inr,
}
use beave_rs.Base.Map.{unwrap_or}
use beave_rs.Base.Results.{Result, ok, err}
use beave_rs.Retry.{RetryPolicy}
use beave_rs.Pulsar.Resend.{
  Client, Attempt, Event, accepted, dropped, resent, failed, Settled, resendable, settled_by,
  resend, after_error, after_receipt, settle, then_did, arrived, not_yet, iterate, await_receipts,
  await_fuel,
}
use beave_rs.Pulsar.Resend.Settling.{await_receipts_lem}

-- Whose receipt was awaited.
abbrev pub sender : {X : Type 0} → Event X → ℕ
sender (accepted k) = k
sender (dropped k) = k
sender (failed k error) = k
sender (resent k) = k

-- Whose message was sent again.
abbrev pub sent_again : {X : Type 0} → Event X → List ℕ
sent_again (resent k) = k ∷ []
sent_again event = []

unfoldable pub resends : {X : Type 0} → List (Event X) → List ℕ
resends [] = []
resends (event ∷ t) = sent_again event ++ resends t

module _ {M R : Type 0} where
  unfoldable pub senders : List (Attempt M R) → List ℕ
  senders [] = []
  senders (a ∷ rest) = a.result ∷ senders rest

  senders-append : (xs ys : List (Attempt M R)) → senders (xs ++ ys) ≡ senders xs ++ senders ys
  unfolding senders
  senders-append [] ys = refl
  senders-append (x ∷ xs) ys = ap (λ ks. x.result ∷ ks) (senders-append xs ys)

module _ {W M R X : Type 0} (c : Client W M R X) (retry : RetryPolicy) where
  -- An attempt goes back to the queue exactly if its message is sent again.
  IsQueued : Attempt M R → Settled W M R X → Type 0
  IsQueued a s = (sender s.event ≡ a.result) × (senders s.again ≡ sent_again s.event)

  IsQueued-receipt :
      (a : Attempt M R) (r : Result X (Unit {0})) (w : W) → IsQueued a (after_receipt c retry a r w)
  unfolding IsQueued after_receipt after_error settled_by resend senders
  IsQueued-receipt a (ok tt) w = (refl, refl)
  IsQueued-receipt a (err error) w =
      either_branch (IsQueued a)
        (not (resendable c retry error) || leb retry.max_attempts (a.failures + 1)) _ _
        (λ final. (refl, refl))
        (λ again.
          either_branch (IsQueued a) (c.is_closed a.result w) _ _ (λ closed. (refl, refl))
            (λ awaited. (refl, refl)))

  IsQueued-settle : (a : Attempt M R) (w : W) → IsQueued a (settle c retry a w)
  unfolding settle
  IsQueued-settle a w = let (answer, after) = c.await a.receipt w in IsQueued-receipt a answer after

  -- The receipts are awaited in the order of the queue, with the messages sent again behind it.
  abbrev pub IsInOrder : List (Attempt M R) → List (Event X) → Type 0
  IsInOrder pending t = map sender t ≡ senders pending ++ resends t

  IsInOrder-did :
      (a : Attempt M R) (pending : List (Attempt M R)) (s : Settled W M R X) (u : List (Event X))
      → IsQueued a s
      → IsInOrder (pending ++ s.again) u
      → IsInOrder (a ∷ pending) (s.event ∷ u)
  unfolding IsQueued senders resends
  IsInOrder-did a pending s u (same, queued) h =
      let split = senders-append pending s.again ∙ ap (λ ks. senders pending ++ ks) queued in
      let tail =
        h
        ∙ ap (λ ks. ks ++ resends u) split
        ∙ append_assoc (senders pending) (sent_again s.event) (resends u) in
      ap (λ k. k ∷ map sender u) same ∙ ap (λ ks. a.result ∷ ks) tail

  IsInOrder-run :
      (fuel : ℕ) (pending : List (Attempt M R)) (w : W) (t : List (Event X))
      → await_receipts c retry fuel [] pending w ≡ some t
      → IsInOrder pending t
  unfolding await_receipts iterate then_did arrived not_yet senders resends
  IsInOrder-run zero pending w t h = ground arith
  IsInOrder-run (suc fuel) [] w t h = subst (IsInOrder []) (ap (λ o. unwrap_or o []) h) refl
  IsInOrder-run (suc fuel) (a ∷ pending) w t h =
      let s = settle c retry a w in
      let queue : List (Attempt M R) = (pending ++ []) ++ s.again in
      elim (Option-cases (await_receipts c retry fuel [] queue s.world)) [
        | inl absent ↦ ground (arith, h, absent)
        | inr (u, found) ↦
            let did : some (s.event ∷ u) ≡ some t = ap (then_did c retry s.event) (sym found) ∙ h in
            subst (IsInOrder (a ∷ pending)) (ap (λ o. unwrap_or o []) did) (
              subst (λ (queued : List (Attempt M R)). IsInOrder (a ∷ queued) (s.event ∷ u))
                (append_none pending)
                (IsInOrder-did a (pending ++ []) s u (IsQueued-settle a w)
                  (IsInOrder-run fuel queue s.world u found)))
      ]

  -- If no further message arrives, the task comes to its end, and it awaits the receipts of the queued
  -- messages in the order of the queue and then those of the messages that it sends again, in the order
  -- in which it sends them: messages of one rejected run are sent again in their original order.
  pub await_receipts-IsInOrder :
      (pending : List (Attempt M R)) (w : W)
      → (t : List (Event X)) × (await_receipts c retry (await_fuel retry [] pending) [] pending w
          ≡ some t)
        × IsInOrder pending t
  await_receipts-IsInOrder pending w =
      let (t, found, one, few) = await_receipts_lem c retry 0 [] pending w in
      (t, found, IsInOrder-run (await_fuel retry [] pending) pending w t found)
