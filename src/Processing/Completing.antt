-- ===== src/Processing/Completing.antt =====
-- The events of `Publish::complete` of src/subscription/completion.rs, on every branch.
use beave_rs.Base.{
  ◌<◌, ◌≡◌, refl, sym, ap, ◌∙◌, subst, arith, true, false, Option, none, some, List, [], ◌∷◌, ◌++◌,
  length, count_if-append, append_none, inl, inr,
}
use beave_rs.Base.Results.{Result, ok, err, Result-cases}
use beave_rs.Processing.Actions.{Types, Event, acked, pure, ◌>>◌, Ensures}
use beave_rs.Processing.Rules.{Post, ensures-pure, ensures-bind, ensures-if}
use beave_rs.Processing.Publishing.{
  futures, are_done, futures_done, submissions, waits, commits, is_ack, acks, acks-submissions,
  acks-waits, SubmitPost, submit_all_post, WaitPost, wait_all_post, AckPost, commit_and_ack_post,
}
use beave_rs.Processing.{
  Completion, done, pending, committing, encode_failed, refused, Pipeline, wait_all, commit_state,
  ack_delivery, prepare, submit_all, conclude, complete_prepared, complete,
}

module _ (T : Types) where
  -- What `Publish::complete` did by the time it returned.
  abbrev pub CompletePost : T.Message → List T.Output → Option T.Commit → Post T (Completion T)
  CompletePost m outputs commit t (ok done) =
      (cs : List (Option T.Future)) × (length cs ≡ length outputs)
      × (futures cs ≡ [])
      × (t ≡ submissions T cs ++ (commits T commit ++ acked m ∷ []))
  CompletePost m outputs commit t (ok (pending m' cs commit')) =
      (m' ≡ m) × (commit' ≡ commit) × (length cs ≡ length outputs) × (t ≡ submissions T cs)
  CompletePost m outputs commit t (ok (committing f)) = true ≡ false
  CompletePost m outputs commit t (ok (encode_failed m' e)) =
      (m' ≡ m) × (0 < length outputs) × (t ≡ [])
  CompletePost m outputs commit t (ok (refused m' e)) =
      (m' ≡ m)
      × ((cs : List (Option T.Future)) × (length cs < length outputs)
          × (t ≡ submissions T cs ++ waits T (futures cs)))
  CompletePost m outputs commit t (err e) = acks T t ≡ 0

  pub acks-published :
      (cs : List (Option T.Future)) → acks T (submissions T cs ++ waits T (futures cs)) ≡ 0
  acks-published cs = omega (
    arith,
    count_if-append (is_ack T) (submissions T cs) (waits T (futures cs)),
    acks-submissions T cs,
    acks-waits T (futures cs),
  )

module _ {T : Types} (p : Pipeline T) where
  prepare-length :
      (m : T.Message) (os : List T.Output) (xs : List T.Prepared)
      → prepare p m os ≡ ok xs
      → length xs ≡ length os
  unfolding prepare
  prepare-length m [] xs h = ground arith
  prepare-length m (o ∷ os) xs h = elim (Result-cases (p.prepare_from o m)) [
    | inr (e, failed) ↦ ground (arith, failed)
    | inl (x, made) ↦ elim (Result-cases (prepare p m os)) [
      | inr (e, failed) ↦ ground (arith, made, failed)
      | inl (ys, rest) ↦ ground (arith, made, rest, prepare-length m os ys rest)
    ]
  ]

  prepare-some :
      (m : T.Message) (os : List T.Output) (e : T.BoxError) → prepare p m os ≡ err e → 0 < length os
  unfolding prepare
  prepare-some m [] e h = ground (arith, h)
  prepare-some m (o ∷ os) e h = omega arith

  acks-append :
      (cs : List (Option T.Future)) (u : List (Event T))
      → acks T u ≡ 0
      → acks T (submissions T cs ++ u) ≡ 0
  acks-append cs u h =
      omega (arith, count_if-append (is_ack T) (submissions T cs) u, acks-submissions T cs)

  -- After the publish loop submitted `cs`.
  Concluded :
      T.Message → List T.Output → Option T.Commit → List (Option T.Future) → Post T (Completion T)
  Concluded m os commit cs u r = CompletePost T m os commit (submissions T cs ++ u) r

  conclude_refused :
      (m : T.Message) (os : List T.Output) (commit : Option T.Commit) (cs : List (Option T.Future))
      (e : T.BoxError)
      → length cs < length os
      → Ensures (conclude p m commit (cs, some e)) (Concluded m os commit cs)
  unfolding conclude Concluded
  conclude_refused m os commit cs e l =
      ensures-bind T (WaitPost T cs) (Concluded m os commit cs) (wait_all p cs)
        (λ a. pure (refused m e)) (wait_all_post p cs)
        (λ t a h.
          ensures-pure T (λ u r. Concluded m os commit cs (t ++ u) r) (refused m e)
            (refl, (cs, l, ap (λ u. submissions T cs ++ u) (append_none t ∙ h))))
        (λ t e h. acks-append cs t h)

  conclude_published :
      (m : T.Message) (os : List T.Output) (commit : Option T.Commit) (cs : List (Option T.Future))
      → length cs ≡ length os
      → Ensures (conclude p m commit (cs, none)) (Concluded m os commit cs)
  unfolding conclude Concluded
  conclude_published m os commit cs l =
      ensures-if T (Concluded m os commit cs) (are_done cs)
        (commit_state p commit >> ack_delivery p m >> pure done) (pure (pending m cs commit))
        (λ all_there.
          ensures-bind T (AckPost p m commit) (Concluded m os commit cs)
            (commit_state p commit >> ack_delivery p m) (λ a. pure done)
            (commit_and_ack_post p m commit)
            (λ t a h.
              ensures-pure T (λ u r. Concluded m os commit cs (t ++ u) r) done
                (
                  cs,
                  l,
                  futures_done cs all_there,
                  ap (λ u. submissions T cs ++ u) (append_none t ∙ h),
                ))
            (λ t e h. acks-append cs t h))
        (λ some_open.
          ensures-pure T (Concluded m os commit cs) (pending m cs commit)
            (refl, refl, l, append_none (submissions T cs)))

  conclude_post :
      (m : T.Message) (os : List T.Output) (commit : Option T.Commit) (xs : List T.Prepared)
      (t : List (Event T)) (cs : List (Option T.Future)) (e : Option T.BoxError)
      → length xs ≡ length os
      → SubmitPost T xs t (ok (cs, e))
      → Ensures (conclude p m commit (cs, e)) (λ u r. CompletePost T m os commit (t ++ u) r)
  unfolding Concluded
  conclude_post m os commit xs t cs none l (h, l') =
      subst
        (λ t.
          Ensures (conclude p m commit (cs, none)) (λ u r. CompletePost T m os commit (t ++ u) r))
        (sym h) (conclude_published m os commit cs (l' ∙ l))
  conclude_post m os commit xs t cs (some e) l (h, l') =
      subst
        (λ t.
          Ensures (conclude p m commit (cs, some e)) (λ u r. CompletePost T m os commit (t ++ u) r))
        (sym h) (conclude_refused m os commit cs e (omega (arith, l', l)))

  complete_prepared_post :
      (m : T.Message) (os : List T.Output) (commit : Option T.Commit)
      (r : Result T.BoxError (List T.Prepared))
      → prepare p m os ≡ r
      → Ensures (complete_prepared p m commit r) (CompletePost T m os commit)
  unfolding complete_prepared
  complete_prepared_post m os commit (err e) h =
      ensures-pure T (CompletePost T m os commit) (encode_failed m e)
        (refl, prepare-some m os e h, refl)
  complete_prepared_post m os commit (ok xs) h =
      ensures-bind T (SubmitPost T xs) (CompletePost T m os commit) (submit_all p xs)
        (conclude p m commit) (submit_all_post p xs)
        (λ t (cs, e) k. conclude_post m os commit xs t cs e (prepare-length m os xs h) k)
        (λ t e (cs, k). ap (acks T) k ∙ acks-submissions T cs)

  -- `Publish::complete` acknowledges only after every output was submitted, each reached its
  -- destination at once and the state commit succeeded, in this order, and then it is done. A pending
  -- completion submitted every output and did nothing else. An encode failure, which needs an
  -- output, did nothing. A rejection left outputs unsubmitted and waited for those before it. A failure acknowledged nothing. It never returns a
  -- transaction's commit.
  pub complete_lem :
      (m : T.Message) (os : List T.Output) (commit : Option T.Commit)
      → Ensures (complete p m os commit) (CompletePost T m os commit)
  unfolding complete
  complete_lem m os commit = complete_prepared_post m os commit (prepare p m os) refl
