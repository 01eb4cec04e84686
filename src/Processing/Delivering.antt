-- ===== src/Processing/Delivering.antt =====
-- One delivery of src/subscription/processing.rs from its decoding to its acknowledgement.
use beave_rs.Base.{
  ℕ, ◌≡◌, refl, sym, ap, ◌∙◌, subst, arith, true, false, Option, none, some, List, [], ◌∷◌, ◌++◌,
  max, count_if-append, append_none, append_assoc, ◌⊎◌, inl, inr, length, ◌<◌,
}
use beave_rs.Base.Results.{Result, ok, err}
use beave_rs.ErrorPolicy.{
  FailureKind, FailureAction, stop, dead_letter, discard, action, encode, publish_rejected, decode,
}
use beave_rs.Processing.Actions.{Types, Event, dead_lettered, acked, ◌>>◌, Ensures, after, ◌>>=◌}
use beave_rs.Processing.Rules.{
  Post, ensures-pure, ensures-bind, ensures-weaken, after_nothing, ensures-after,
}
use beave_rs.Processing.{
  Completion, done, pending, committing, encode_failed, refused, Failure, Pipeline, PendingAck,
  await_completions, await_commit, wait_all, commit_state, ack_delivery, complete, finish_pending,
  Outputs,
}
use beave_rs.Processing.Deliveries.{
  Handled, failure, handle, route, after_completion, after_handled, process, finish_delivery,
  deliver,
}
use beave_rs.Processing.Publishing.{
  futures, submissions, waits, commits, is_ack, acks, acks-submissions, WaitPost, wait_all_post,
  AckPost, commit_and_ack_post,
}
use beave_rs.Processing.Completing.{CompletePost, complete_lem, acks-published}
use beave_rs.Processing.Routing.{Routed, route_lem}
use beave_rs.Processing.Handling.{HandlePost, handle_lem}

module _ (T : Types) where
  -- What a delivery submitted, and what it did between the publication and the acknowledgement.
  abbrev pub Reason : Type 1
  Reason = List (Option T.Future) → List (Event T) → Type 0

  -- The outputs `cs` were submitted, then every one of them that had not reached its destination was
  -- waited for, then comes what `because` explains, and the acknowledgement of `m` is the last event.
  pub record Settled (because : Reason) (m : T.Message) (t : List (Event T)) : Type 0 where
    pub cs : List (Option T.Future)
    pub ending : List (Event T)
    pub events : t ≡ submissions T cs ++ waits T (futures cs) ++ ending ++ acked m ∷ []
    pub reason : because cs ending

  abbrev pub Delivered : Reason → T.Message → Post T Unit
  Delivered because m t (ok a) = Settled because m t
  Delivered because m t (err e) = acks T t ≡ 0

  -- What `process` leaves.
  abbrev pub ProcessPost : Reason → T.Message → Post T (Option (PendingAck T))
  ProcessPost because m t (ok none) = Settled because m t
  ProcessPost because m t (ok (some (await_completions m' cs commit))) =
      (m' ≡ m) × (t ≡ submissions T cs) × because cs (commits T commit)
  ProcessPost because m t (ok (some (await_commit f))) = true ≡ false
  ProcessPost because m t (err e) = acks T t ≡ 0

  published : List (Option T.Future) → List (Event T)
  published cs = submissions T cs ++ waits T (futures cs)

  -- Outputs that all reached their destination, then `ending`, then the acknowledgement.
  settle :
      (because : Reason) (m : T.Message) (t u : List (Event T)) (cs : List (Option T.Future))
      (ending : List (Event T))
      → t ≡ published cs
      → u ≡ ending ++ acked m ∷ []
      → because cs ending
      → Settled because m (t ++ u)
  unfolding published
  settle because m t u cs ending h k reason = record {
    cs = cs;
    ending = ending;
    events =
        ap (λ t. t ++ u) h
        ∙ ap (λ u. submissions T cs ++ waits T (futures cs) ++ u) k
        ∙ sym (append_assoc (submissions T cs ++ waits T (futures cs)) ending (acked m ∷ []));
    reason = reason;
  }

  acks_after :
      (t u : List (Event T)) (cs : List (Option T.Future))
      → t ≡ published cs
      → acks T u ≡ 0
      → acks T (t ++ u) ≡ 0
  unfolding published
  acks_after t u cs h k =
      omega (arith, count_if-append (is_ack T) t u, ap (acks T) h, acks-published T cs, k)

  -- What a failure of a kind that was routed did before the acknowledgement.
  abbrev pub RoutedBy : FailureAction → FailureKind → List (Event T) → Type 0
  RoutedBy a kind ending =
      ((a ≡ discard) × (ending ≡ [])) ⊎ ((a ≡ dead_letter) × (ending ≡ dead_lettered kind ∷ []))

  routed_settles :
      (because : Reason) (a : FailureAction) (kind : FailureKind) (m : T.Message)
      (t u : List (Event T)) (r : Result T.BoxError (Option (PendingAck T)))
      (cs : List (Option T.Future))
      → t ≡ published cs
      → ((ending : List (Event T)) → RoutedBy a kind ending → because cs ending)
      → Routed T a kind m u r
      → ProcessPost because m (t ++ u) r
  routed_settles because stop kind m t u (ok x) cs h why absurd = cc
  routed_settles because stop kind m t u (err e) cs h why k = acks_after t u cs h (ap (acks T) k)
  routed_settles because discard kind m t u (ok none) cs h why k =
      settle because m t u cs [] h k (why [] (inl (refl, refl)))
  routed_settles because discard kind m t u (ok (some x)) cs h why absurd = cc
  routed_settles because discard kind m t u (err e) cs h why k = acks_after t u cs h k
  routed_settles because dead_letter kind m t u (ok none) cs h why k =
      settle because m t u cs (dead_lettered kind ∷ []) h k
        (why (dead_lettered kind ∷ []) (inr (refl, refl)))
  routed_settles because dead_letter kind m t u (ok (some x)) cs h why absurd = cc
  routed_settles because dead_letter kind m t u (err e) cs h why k = acks_after t u cs h k

module _ {T : Types} (p : Pipeline T) where
  -- Why a delivery is acknowledged, by what its handling came to: every output of the handler was
  -- submitted and its state change, if any, was committed, or a failure was routed: of the handling, of
  -- encoding before any output was submitted, or of the publication.
  abbrev pub Because : Result T.BoxError (Handled p) → Reason T
  Because (err e) cs ending = true ≡ false
  Because (ok (err f)) cs ending =
      (cs ≡ []) × RoutedBy T (action p.error_policy f.kind) f.kind ending
  Because (ok (ok out)) cs ending =
      ((length cs ≡ length out.values) × (ending ≡ commits T out.commit))
      ⊎ (((cs ≡ [])
            × (0 < length out.values)
            × RoutedBy T (action p.error_policy encode) encode ending)
          ⊎ ((length cs < length out.values)
              × RoutedBy T (action p.error_policy publish_rejected) publish_rejected ending))

  -- What handling a decoded or undecodable input comes to.
  abbrev pub handled : Result T.BoxError T.Input → T.World → Result T.BoxError (Handled p)
  handled (err e) w = ok (err (record { kind = decode; error = e; attempts = 0; input = none }))
  handled (ok input) w = (handle p input w).result

  route_settles :
      (because : Reason T) (m : T.Message) (f : Failure T.BoxError T.Input) (t : List (Event T))
      (cs : List (Option T.Future))
      → t ≡ published T cs
      → ((ending : List (Event T))
          → RoutedBy T (action p.error_policy f.kind) f.kind ending
          → because cs ending)
      → Ensures (route p m f) (λ u r. ProcessPost T because m (t ++ u) r)
  route_settles because m f t cs h why =
      ensures-weaken T (Routed T (action p.error_policy f.kind) f.kind m)
        (λ u r. ProcessPost T because m (t ++ u) r) (route p m f)
        (λ u r. routed_settles T because (action p.error_policy f.kind) f.kind m t u r cs h why)
        (route_lem p m f)

  after_completion_post :
      (m : T.Message) (out : Outputs T.Input T.Output T.Commit) (t : List (Event T))
      (c : Completion T)
      → CompletePost T m out.values out.commit t (ok c)
      → Ensures
          (after_completion p out.input out.attempts c)
          (λ u r. ProcessPost T (Because (ok (ok out))) m (t ++ u) r)
  unfolding after_completion published
  after_completion_post m out t done (cs, l, flat, h) =
      let because = Because (ok (ok out)) in
      ensures-pure T (λ u r. ProcessPost T because m (t ++ u) r) none
        (subst (Settled T because m) (sym (append_none t ∙ h)) (
          settle T because m (submissions T cs) (commits T out.commit ++ acked m ∷ []) cs
            (commits T out.commit)
            (sym (ap (λ fs. submissions T cs ++ waits T fs) flat ∙ append_none (submissions T cs)))
            refl (inl (l, refl))))
  after_completion_post m out t (pending m' cs commit) (same, q, l, h) =
      ensures-pure T (λ u r. ProcessPost T (Because (ok (ok out))) m (t ++ u) r)
        (some (await_completions m' cs commit)) (same, append_none t ∙ h, inl (l, ap (commits T) q))
  after_completion_post m out t (committing f) absurd = cc
  after_completion_post m out t (encode_failed m' e) (same, some_output, h) =
      let f = failure p encode e out.attempts out.input in
      let because = Because (ok (ok out)) in
      subst (λ n. Ensures (route p m' f) (λ u r. ProcessPost T because n (t ++ u) r)) same
        (route_settles because m' f t [] h (λ ending why. inr (inl (refl, some_output, why))))
  after_completion_post m out t (refused m' e) (same, (cs, fewer, h)) =
      let f = failure p publish_rejected e out.attempts out.input in
      let because = Because (ok (ok out)) in
      subst (λ n. Ensures (route p m' f) (λ u r. ProcessPost T because n (t ++ u) r)) same
        (route_settles because m' f t cs h (λ ending why. inr (inr (fewer, why))))

  after_handled_post :
      (m : T.Message) (r : Handled p)
      → Ensures (after_handled p m r) (ProcessPost T (Because (ok r)) m)
  unfolding after_handled published
  after_handled_post m (err f) =
      route_settles (Because (ok (err f))) m f [] [] refl (λ ending why. (refl, why))
  after_handled_post m (ok out) =
      ensures-bind T (CompletePost T m out.values out.commit)
        (ProcessPost T (Because (ok (ok out))) m) (complete p m out.values out.commit)
        (after_completion p out.input out.attempts) (complete_lem p m out.values out.commit)
        (λ t c h. after_completion_post m out t c h) (λ t e h. h)

  nothing_yet :
      (bound : ℕ) (input : T.Input) (t : List (Event T)) (r : Handled p)
      → HandlePost T p bound input t (ok r)
      → t ≡ []
  nothing_yet bound input t (ok out) h = h.0
  nothing_yet bound input t (err f) h = h.0

  after_handle_post :
      (m : T.Message) (bound : ℕ) (input : T.Input) (w : T.World) (t : List (Event T))
      (r : Result T.BoxError (Handled p))
      → HandlePost T p bound input t r
      → ProcessPost T
          (Because r)
          m
          (after w t r (after_handled p m)).trace
          (after w t r (after_handled p m)).result
  unfolding after
  after_handle_post m bound input w t (err e) h = ap (acks T) h
  after_handle_post m bound input w t (ok r) h =
      after_nothing T (ProcessPost T (Because (ok r)) m) (after_handled p m r) t
        (nothing_yet bound input t r h) (after_handled_post m r) w

  process_post :
      (m : T.Message) (decoded : Result T.BoxError T.Input) (w : T.World)
      → ProcessPost T
          (Because (handled decoded w))
          m
          (process p m decoded w).trace
          (process p m decoded w).result
  unfolding process published ◌>>=◌
  process_post m (err e) w =
      route_settles (Because (handled (err e) w)) m _ [] [] refl (λ ending why. (refl, why)) w
  process_post m (ok input) w =
      let r = handle p input w in
      after_handle_post m (max p.handler_attempts 1) input r.world r.trace r.result
        (handle_lem p input w)

  pending_post :
      (because : Reason T) (m : T.Message) (cs : List (Option T.Future)) (commit : Option T.Commit)
      (t : List (Event T))
      → t ≡ submissions T cs
      → because cs (commits T commit)
      → Ensures
          (finish_pending p (await_completions m cs commit))
          (λ u r. Delivered T because m (t ++ u) r)
  unfolding finish_pending published
  pending_post because m cs commit t h reason =
      ensures-bind T (WaitPost T cs) (λ u r. Delivered T because m (t ++ u) r) (wait_all p cs)
        (λ a. commit_state p commit >> ack_delivery p m) (wait_all_post p cs)
        (λ u a k.
          ensures-weaken T (AckPost p m commit) (λ v r. Delivered T because m (t ++ (u ++ v)) r)
            (commit_state p commit >> ack_delivery p m) (λ v r. ack_then u v r k)
            (commit_and_ack_post p m commit))
        (λ u e k.
          omega (arith, count_if-append (is_ack T) t u, ap (acks T) h, acks-submissions T cs, k))
    where
      ack_then :
          (u v : List (Event T)) (r : Result T.BoxError Unit)
          → u ≡ waits T (futures cs)
          → AckPost p m commit v r
          → Delivered T because m (t ++ (u ++ v)) r
      ack_then u v (ok a) k l =
          subst (Settled T because m) (append_assoc t u v)
            (settle T because m (t ++ u) v cs (commits T commit) (cc (h, k)) l reason)
      ack_then u v (err e) k l =
          subst (λ t. acks T t ≡ 0) (append_assoc t u v) (acks_after T (t ++ u) v cs (cc (h, k)) l)

  finish_post :
      (because : Reason T) (m : T.Message) (t : List (Event T)) (ack : Option (PendingAck T))
      → ProcessPost T because m t (ok ack)
      → Ensures (finish_delivery p ack) (λ u r. Delivered T because m (t ++ u) r)
  unfolding finish_delivery
  finish_post because m t none h =
      ensures-pure T (λ u r. Delivered T because m (t ++ u) r) tt
        (subst (Settled T because m) (sym (append_none t)) h)
  finish_post because m t (some (await_completions m' cs commit)) (same, h, reason) =
      subst
        (λ n.
          Ensures (finish_pending p (await_completions m' cs commit))
            (λ u r. Delivered T because n (t ++ u) r))
        same (pending_post because m' cs commit t h reason)
  finish_post because m t (some (await_commit f)) absurd = cc

  -- A delivery whose processing succeeds is acknowledged exactly once, as its last event, after every
  -- submitted output reached its destination. Before that, either as many outputs were submitted as
  -- the handling returned and then its state change, if there is one, was committed, or fewer were
  -- submitted, or the handling failed, and the failure was routed by the action of the policy: a dead
  -- letter of that kind of failure for `dead_letter`, nothing for `discard`. Failures of decoding, of
  -- the handling and of encoding come before any output. A
  -- delivery whose processing fails is never acknowledged. This holds whatever the handler, the hooks,
  -- the sink, the source and the state store answer, and in every world.
  pub deliver_lem :
      (m : T.Message) (decoded : Result T.BoxError T.Input) (w : T.World)
      → Delivered T
          (Because (handled decoded w))
          m
          (deliver p m decoded w).trace
          (deliver p m decoded w).result
  unfolding deliver ◌>>=◌
  deliver_lem m decoded w =
      let because = Because (handled decoded w) in
      let r = process p m decoded w in
      ensures-after T (ProcessPost T because m) (Delivered T because m) (finish_delivery p) r.world
        r.trace r.result (process_post m decoded w) (λ t ack h. finish_post because m t ack h)
        (λ t e h. h)
