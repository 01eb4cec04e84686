-- ===== src/Kafka/Transactions/Transacting.antt =====
-- A call of a transactional sink of src/adapters/kafka/transaction.rs commits all of its transaction or
-- nothing.
use beave_rs.Base.{
  ◌≡◌, ◌⊎◌, inl, inr, refl, subst, arith, true, Option, none, some, List, [], ◌∷◌, Eq,
  either_branch,
}
use beave_rs.Kafka.Transactions.Offsets.{SourceOffsets}
use beave_rs.Kafka.Transactions.{
  Library, Event, connected, Sink, ask, run, after_abort, recover, after_run, run_recovering,
  keep_producer, connect_if_needed, ensure_open, ensure_offsets, transact, aborted, replaced,
}
use beave_rs.Kafka.Transactions.Protocol.{
  Phase, idle, Contents, Plays, confirmed, possible, Leaves, Plays-closed, closes_aborted,
  closes_replaced,
}
use beave_rs.Kafka.Transactions.Stepping.{
  offsets_in, Comes, Steps, Steps-return, Comes-stop, Steps-seq, Steps-ask, Steps-ensure_assigned,
  Steps-waits, Steps-run,
}

module _ {ℓ} {P : Type ℓ} ⦃e : Eq P⦄ {W O X : Type 0} (l : Library P W O X) where
  IsIdle : Phase P O → Type ℓ
  IsIdle phase = phase ≡ idle

  IsAny : Phase P O → Type ℓ
  IsAny phase = Unit {ℓ}

  Comes-abort :
      (cs ds : List (Contents P O)) (phase : Phase P O) (t : List (Event P O)) (x : X)
      (s : Sink P W) (y : Option X)
      → Leaves cs ds
      → Plays idle t phase ds
      → Comes l IsIdle idle idle cs (after_abort l t x s y)
  unfolding Comes after_abort IsIdle
  Comes-abort cs ds phase t x s none left p =
      inr (x, refl, idle, refl, ds, left, Plays-closed aborted (closes_aborted phase) p)
  Comes-abort cs ds phase t x s (some y) left p =
      inr (x, refl, idle, refl, ds, left, Plays-closed replaced (closes_replaced phase) p)

  Comes-recover :
      (cs : List (Contents P O)) (s : Sink P W) (t : List (Event P O)) (f : Option X)
      → Comes l IsAny idle idle cs (record { sink = s; trace = t; failure = f })
      → Comes l IsIdle idle idle cs (after_run l s t f)
  unfolding Comes after_run recover
  Comes-recover cs s t none (inl (h, p)) = inl (refl, p)
  Comes-recover cs s t none (inr (x, h, stuck, allowed, ds, left, p)) = ground arith
  Comes-recover cs s t (some x) (inl (h, p)) = ground arith
  Comes-recover cs s t (some x) (inr (y, h, stuck, allowed, ds, left, p)) =
      either_branch (Comes l IsIdle idle idle cs) (l.is_fatal x) _ _
        (λ fatal. Comes-abort cs ds stuck t x s (some x) left p)
        (λ mild. Comes-abort cs ds stuck t x _ (l.abort_transaction s.world).0 left p)

  Steps-recovering :
      (os : List O) (offsets : Option (SourceOffsets P))
      → Steps l IsIdle idle
          (run_recovering l os offsets)
          idle
          (confirmed os (offsets_in l offsets) ∷ [])
  unfolding Steps run_recovering IsAny
  Steps-recovering os offsets s =
      let r = run l os offsets s in
      Comes-recover _ r.sink r.trace r.failure (Steps-run l IsAny os offsets (λ phase. tt) s)

  Steps-open : Steps l IsIdle idle (ensure_open l) idle []
  unfolding Steps ensure_open IsIdle
  Steps-open s =
      either_branch (Comes l IsIdle idle idle []) s.closed _ _
        (λ closed. Comes-stop l IsIdle idle idle [] l.closed_error s refl)
        (λ open_still. Steps-return l IsIdle idle s)

  Steps-keep : Steps l IsIdle idle (keep_producer l) idle []
  unfolding Steps keep_producer
  Steps-keep s = Steps-return l IsIdle idle (record s { has_producer = true })

  Steps-connect : Steps l IsIdle idle (connect_if_needed l) idle []
  unfolding Steps connect_if_needed IsIdle
  Steps-connect s =
      either_branch (Comes l IsIdle idle idle []) s.has_producer _ _
        (λ there. Steps-return l IsIdle idle s)
        (λ missing.
          Steps-seq l IsIdle idle idle idle [] (ask l connected l.connect) (keep_producer l)
            (Steps-ask l IsIdle idle idle [] connected l.connect refl refl) Steps-keep s)

  Steps-ensure :
      (offsets : Option (SourceOffsets P)) → Steps l IsIdle idle (ensure_offsets l offsets) idle []
  unfolding ensure_offsets IsIdle
  Steps-ensure none = Steps-return l IsIdle idle
  Steps-ensure (some offsets) = Steps-ensure_assigned l IsIdle idle offsets refl

  Steps-transact :
      (outputs : List O) (offsets : Option (SourceOffsets P))
      → Steps l IsIdle idle
          (transact l outputs offsets)
          idle
          (confirmed outputs (offsets_in l offsets) ∷ [])
  unfolding transact
  Steps-transact outputs offsets = Steps-seq l IsIdle idle idle idle _ _ _ Steps-open (
      Steps-seq l IsIdle idle idle idle _ _ _ Steps-connect (
        Steps-seq l IsIdle idle idle idle _ _ _ (Steps-waits l IsIdle idle) (
          Steps-seq l IsIdle idle idle idle _ _ _ (Steps-ensure offsets)
            (Steps-recovering outputs offsets))))

  -- A call of the sink uses its producer in order: it begins a transaction only when none is open, and
  -- leaves none open. If it succeeds it committed one transaction, with exactly its outputs in their
  -- order and, for a batch of deliveries, the offsets after them. If it fails, no transaction was
  -- confirmed, and at most that same one, whole, was asked to commit and may have taken effect. This
  -- holds whatever the client library answers and other tasks do.
  pub transact_lem :
      (outputs : List O) (offsets : Option (SourceOffsets P)) (s : Sink P W)
      → (((transact l outputs offsets s).failure ≡ none)
          × Plays idle
              (transact l outputs offsets s).trace
              idle
              (confirmed outputs (offsets_in l offsets) ∷ []))
        ⊎ ((x : X) × ((transact l outputs offsets s).failure ≡ some x)
            × (ds : List (Contents P O)) × ((ds ≡ [])
                ⊎ (ds ≡ possible outputs (offsets_in l offsets) ∷ []))
            × Plays idle (transact l outputs offsets s).trace idle ds)
  unfolding Steps Comes IsIdle
  transact_lem outputs offsets s = elim (Steps-transact outputs offsets s) [
    | inl (h, p) ↦ inl (h, p)
    | inr (x, h, stuck, same, ds, left, p) ↦ inr (
      x,
      h,
      ds,
      left,
      subst (λ (phase : Phase P O). Plays idle (transact l outputs offsets s).trace phase ds) same
          p,
    )
  ]
