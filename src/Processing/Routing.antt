-- ===== src/Processing/Routing.antt =====
-- The events of failure routing in src/subscription/processing.rs.
use beave_rs.Base.{
  ◌≡◌, refl, sym, ap, ◌∙◌, arith, true, false, Option, none, some, List, [], ◌∷◌, ◌++◌, length,
  count_if-append, append_none,
}
use beave_rs.Base.Results.{Result, ok, err}
use beave_rs.ErrorPolicy.{FailureKind, FailureAction, stop, dead_letter, discard, action}
use beave_rs.Processing.Actions.{
  Types, Call, Event, dead_lettered, acked, pure, ◌>>◌, perform, Ensures,
}
use beave_rs.Processing.Rules.{
  Post, ensures-pure, ensures-raise, ensures-bind, ensures-weaken, after_nothing, Emits,
  perform_emits,
}
use beave_rs.Processing.Publishing.{submissions, is_ack, acks, ack_post}
use beave_rs.Processing.Completing.{CompletePost, complete_lem, acks-published}
use beave_rs.Processing.{
  Completion, done, pending, committing, encode_failed, refused, Failure, Pipeline, PendingAck,
  ack_delivery, complete,
}
use beave_rs.Processing.Deliveries.{acknowledged, acknowledge, send_dead_letter, route_by, route}

module _ (T : Types) where
  -- An acknowledgement at once, after the events `before`, and none if it failed.
  abbrev pub AcksAfter : List (Event T) → T.Message → Post T (Option (PendingAck T))
  AcksAfter before m t (ok none) = t ≡ before ++ acked m ∷ []
  AcksAfter before m t (ok (some _)) = true ≡ false
  AcksAfter before m t (err e) = acks T t ≡ 0

  -- What a failure routed by an action does.
  abbrev pub Routed : FailureAction → FailureKind → T.Message → Post T (Option (PendingAck T))
  Routed stop kind m t (ok a) = true ≡ false
  Routed stop kind m t (err e') = t ≡ []
  Routed discard kind m t r = AcksAfter [] m t r
  Routed dead_letter kind m t r = AcksAfter (dead_lettered kind ∷ []) m t r

module _ {T : Types} (p : Pipeline T) where
  no_outputs :
      (cs : List (Option T.Future)) (t u : List (Event T))
      → length cs ≡ 0
      → t ≡ submissions T cs ++ u
      → t ≡ u
  no_outputs [] t u l h = h
  no_outputs (c ∷ cs) t u l h = ground arith

  acknowledged_post :
      (m : T.Message) (t : List (Event T)) (c : Completion T)
      → CompletePost T m [] none t (ok c)
      → Ensures (acknowledged p c) (λ u r. AcksAfter T [] m (t ++ u) r)
  unfolding acknowledged
  acknowledged_post m t done (cs, l, flat, h) =
      ensures-pure T (λ u r. AcksAfter T [] m (t ++ u) r) none
        (append_none t ∙ no_outputs cs t (acked m ∷ []) l h)
  acknowledged_post m t (pending m' cs commit) (same, same', l, h) =
      after_nothing T (AcksAfter T [] m) (ack_delivery p m' >> pure none) t
        (no_outputs cs t [] l (h ∙ sym (append_none (submissions T cs))))
        (ensures-bind T (Emits T λ a. acked m' ∷ []) (AcksAfter T [] m) (ack_delivery p m')
          (λ a. pure none) (ack_post p m')
          (λ t a k.
            ensures-pure T (λ u r. AcksAfter T [] m (t ++ u) r) none
              (append_none t ∙ k ∙ ap (λ m. acked m ∷ []) same))
          (λ t e k. ap (acks T) k))
  acknowledged_post m t (committing f) absurd = cc
  acknowledged_post m t (encode_failed m' e) (same, some_output, h) =
      ensures-raise T (λ u r. AcksAfter T [] m (t ++ u) r) e (ap (acks T) (append_none t ∙ h))
  acknowledged_post m t (refused m' e) (same, (cs, fewer, h)) =
      ensures-raise T (λ u r. AcksAfter T [] m (t ++ u) r) e
        (ap (acks T) (append_none t ∙ h) ∙ acks-published T cs)

  acknowledge_post : (m : T.Message) → Ensures (acknowledge p m) (AcksAfter T [] m)
  unfolding acknowledge
  acknowledge_post m =
      ensures-bind T (CompletePost T m [] none) (AcksAfter T [] m) (complete p m [] none)
        (acknowledged p) (complete_lem p m [] none) (λ t c h. acknowledged_post m t c h)
        (λ t e h. h)

  then_acks :
      (before t u : List (Event T)) (m : T.Message) (r : Result T.BoxError (Option (PendingAck T)))
      → t ≡ before
      → acks T before ≡ 0
      → AcksAfter T [] m u r
      → AcksAfter T before m (t ++ u) r
  then_acks before t u m (ok none) h z k = cc
  then_acks before t u m (ok (some a)) h z absurd = absurd
  then_acks before t u m (err e) h z k =
      omega (arith, count_if-append (is_ack T) t u, ap (acks T) h, z, k)

  send_post :
      (dlq : Option (Failure T.BoxError T.Input → T.Message → Call T (Result T.BoxError Unit)))
      (m : T.Message) (f : Failure T.BoxError T.Input)
      → Ensures (send_dead_letter p dlq m f) (AcksAfter T (dead_lettered f.kind ∷ []) m)
  unfolding send_dead_letter
  send_post none m f =
      ensures-raise T (AcksAfter T (dead_lettered f.kind ∷ []) m) (p.no_dead_letter_sink f.error)
        refl
  send_post (some dlq) m f =
      ensures-bind T (Emits T λ a. dead_lettered f.kind ∷ [])
        (AcksAfter T (dead_lettered f.kind ∷ []) m) (perform (λ a. dead_lettered f.kind) (dlq f m))
        (λ a. acknowledge p m) (perform_emits T (λ a. dead_lettered f.kind) (dlq f m))
        (λ t a h.
          ensures-weaken T (AcksAfter T [] m)
            (λ u r. AcksAfter T (dead_lettered f.kind ∷ []) m (t ++ u) r) (acknowledge p m)
            (λ u r. then_acks (dead_lettered f.kind ∷ []) t u m r h refl) (acknowledge_post m))
        (λ t e h. ap (acks T) h)

  -- A routed failure stops the subscription without any event under `stop`, is acknowledged at once
  -- and without any other event under `discard`, and under `dead_letter` is acknowledged only after
  -- its dead letter was published. An error on the way acknowledges nothing.
  pub route_lem :
      (m : T.Message) (f : Failure T.BoxError T.Input)
      → Ensures (route p m f) (Routed T (action p.error_policy f.kind) f.kind m)
  unfolding route route_by
  route_lem m f = by_action (action p.error_policy f.kind)
    where
      by_action : (a : FailureAction) → Ensures (route_by p a m f) (Routed T a f.kind m)
      by_action stop = ensures-raise T (Routed T stop f.kind m) f.error refl
      by_action discard = acknowledge_post m
      by_action dead_letter = send_post p.dlq m f
