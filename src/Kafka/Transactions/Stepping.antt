-- ===== src/Kafka/Transactions/Stepping.antt =====
-- The steps of a transaction of src/adapters/kafka/transaction.rs keep the order of a producer.
use beave_rs.Base.{
  ℕ, ◌≡◌, ◌⊎◌, inl, inr, refl, sym, subst, arith, Option, none, some, List, [], ◌∷◌, ◌++◌, Eq,
  append_none, append_assoc, either_branch,
}
use beave_rs.Kafka.Progress.{revoke_all}
use beave_rs.Kafka.Transactions.Offsets.{SourceOffsets, all_current}
use beave_rs.Kafka.Transactions.{
  Library, Event, began, committed_transaction, unconfirmed, published, offered, Sink, Done, Action,
  stop, return, continue, ◌>>◌, did, ask, check, send_all, commit_from, commit_event, commit,
  ensure_assigned, listed, note_committed, commit_offsets, commit_with, waits, run,
}
use beave_rs.Kafka.Transactions.Protocol.{
  Phase, idle, open_with, Contents, after_event, Plays, nothing, then_event, Plays-append,
  confirmed, possible, Leaves, Leaves-nothing,
}

module _ {ℓ} {P : Type ℓ} ⦃e : Eq P⦄ {W O X : Type 0} (l : Library P W O X) where
  -- The consumer offsets that belong to a transaction.
  abbrev pub offsets_in : Option (SourceOffsets P) → Option (List (P × ℕ))
  offsets_in none = none
  offsets_in (some offsets) = some (listed l offsets.next)

module _ {ℓ} {P : Type ℓ} ⦃e : Eq P⦄ {W O X : Type 0} (l : Library P W O X)
    (E : Phase P O → Type ℓ) where
  -- A step succeeds, comes to the phase `last` and has committed `cs`, or fails in a phase that `E`
  -- allows and has committed nothing, or all of `cs` without a confirmation.
  unfoldable pub Comes : Phase P O → Phase P O → List (Contents P O) → Done P W O X → Type ℓ
  Comes phase last cs d =
      ((d.failure ≡ none) × Plays phase d.trace last cs)
      ⊎ ((x : X) × (d.failure ≡ some x)
          × (stuck : Phase P O) × E stuck
          × (ds : List (Contents P O)) × Leaves cs ds
          × Plays phase d.trace stuck ds)

  unfoldable pub Steps : Phase P O → Action l → Phase P O → List (Contents P O) → Type ℓ
  unfolding Comes
  Steps phase f last cs = (s : Sink P W) → Comes phase last cs (f s)

  pub Steps-return : (phase : Phase P O) → Steps phase (return l) phase []
  unfolding Steps Comes return
  Steps-return phase s = inl (refl, nothing)

  pub Comes-stop :
      (phase last : Phase P O) (cs : List (Contents P O)) (x : X) (s : Sink P W)
      → E phase
      → Comes phase last cs (stop l x s)
  unfolding Comes stop
  Comes-stop phase last cs x s h = inr (x, refl, phase, h, [], inl refl, nothing)

  Comes-continue :
      (phase next last : Phase P O) (cs : List (Contents P O)) (s : Sink P W) (t : List (Event P O))
      (f : Option X) (g : Action l)
      → Comes phase next [] (record { sink = s; trace = t; failure = f })
      → Steps next g last cs
      → Comes phase last cs (continue l s t f g)
  unfolding Comes Steps continue
  Comes-continue phase next last cs s t none g (inl (h, p)) q = elim (q s) [
    | inl (done, r) ↦ inl (done, Plays-append p r)
    | inr (x, failed, stuck, allowed, ds, left, r) ↦
        inr (x, failed, stuck, allowed, ds, left, Plays-append p r)
  ]
  Comes-continue phase next last cs s t none g (inr (x, h, stuck, allowed, ds, left, p)) q =
      ground arith
  Comes-continue phase next last cs s t (some x) g (inl (h, p)) q = ground arith
  Comes-continue phase next last cs s t (some x) g (inr (y, h, stuck, allowed, ds, left, p)) q =
      inr (x, refl, stuck, allowed, ds, inl (Leaves-nothing ds left), p)

  pub Steps-seq :
      (phase next last : Phase P O) (cs : List (Contents P O)) (f g : Action l)
      → Steps phase f next []
      → Steps next g last cs
      → Steps phase (◌>>◌ l f g) last cs
  unfolding Steps ◌>>◌
  Steps-seq phase next last cs f g p q s =
      Comes-continue phase next last cs (f s).sink (f s).trace (f s).failure g (p s) q

  Comes-did :
      (phase last : Phase P O) (cs : List (Contents P O)) (event : Event P O) (x : Option X)
      (s : Sink P W)
      → after_event phase event ≡ some (last, cs)
      → E phase
      → Comes phase last cs (record { sink = s; trace = did l event x; failure = x })
  unfolding Comes did
  Comes-did phase last cs event none s h allowed = inl (
    refl,
    subst (λ (ds : List (Contents P O)). Plays phase (event ∷ []) last ds) (append_none cs)
        (then_event h nothing),
  )
  Comes-did phase last cs event (some x) s h allowed =
      inr (x, refl, phase, allowed, [], inl refl, nothing)

  pub Steps-ask :
      (phase last : Phase P O) (cs : List (Contents P O)) (event : Event P O)
      (call : W → Option X × W)
      → after_event phase event ≡ some (last, cs)
      → E phase
      → Steps phase (ask l event call) last cs
  unfolding Steps ask
  Steps-ask phase last cs event call h allowed s =
      Comes-did phase last cs event (call s.world).0 (record s { world = (call s.world).1 }) h
        allowed

  Comes-last :
      (phase last : Phase P O) (cs : List (Contents P O)) (s : Sink P W) (t : List (Event P O))
      (f : Option X) (offsets : SourceOffsets P)
      → Comes phase last cs (record { sink = s; trace = t; failure = f })
      → Comes phase last cs (continue l s t f (note_committed l offsets))
  unfolding Comes continue note_committed return
  Comes-last phase last cs s t none offsets (inl (h, p)) =
      inl (refl, subst (λ (u : List (Event P O)). Plays phase u last cs) (sym (append_none t)) p)
  Comes-last phase last cs s t none offsets (inr (x, h, stuck, allowed, ds, left, p)) = ground arith
  Comes-last phase last cs s t (some x) offsets (inl (h, p)) = ground arith
  Comes-last phase last cs s t (some x) offsets (inr (y, h, stuck, allowed, ds, left, p)) =
      inr (x, refl, stuck, allowed, ds, left, p)

  pub Steps-ensure_assigned :
      (phase : Phase P O) (offsets : SourceOffsets P)
      → E phase
      → Steps phase (ensure_assigned l offsets) phase []
  unfolding Steps ensure_assigned
  Steps-ensure_assigned phase offsets h s =
      either_branch (Comes phase phase []) (l.assignment_lost s.world) _ _
        (λ lost.
          Comes-stop phase phase [] l.lost_error (record s { progress = revoke_all s.progress }) h)
        (λ held.
          either_branch (Comes phase phase []) (all_current offsets.deliveries s.progress) _ _
            (λ current. Steps-return phase s)
            (λ revoked. Comes-stop phase phase [] l.revoked_error s h))

  Comes-check :
      (phase : Phase P O) (s : Sink P W) (x : Option X)
      → E phase
      → Comes phase phase [] (record { sink = s; trace = []; failure = x })
  unfolding Comes
  Comes-check phase s none h = inl (refl, nothing)
  Comes-check phase s (some x) h = inr (x, refl, phase, h, [], inl refl, nothing)

  Steps-check :
      (phase : Phase P O) (call : W → Option X) → E phase → Steps phase (check l call) phase []
  unfolding Steps check
  Steps-check phase call h s = Comes-check phase s (call s.world) h

  pub Steps-waits : (phase : Phase P O) → Steps phase (waits l) phase []
  unfolding Steps waits
  Steps-waits phase s =
      let (p, w) = l.others (s.progress, s.world) in
      Steps-return phase (record s { progress = p; world = w })

  Steps-send_all :
      (os xs : List O)
      → ((phase : Phase P O) → E phase)
      → Steps (open_with os none) (send_all l xs) (open_with (os ++ xs) none) []
  unfolding send_all
  Steps-send_all os [] h =
      subst (λ (ys : List O). Steps (open_with os none) (return l) (open_with ys none) [])
        (sym (append_none os)) (Steps-return (open_with os none))
  Steps-send_all os (x ∷ xs) h =
      subst
        (λ (ys : List O).
          Steps (open_with os none) (◌>>◌ l (ask l (published x) (l.send x)) (send_all l xs))
            (open_with ys none) [])
        (append_assoc os (x ∷ []) xs)
        (Steps-seq (open_with os none) (open_with (os ++ x ∷ []) none) _ [] _ _
          (Steps-ask (open_with os none) _ [] (published x) (l.send x) refl (h (open_with os none)))
          (Steps-send_all (os ++ x ∷ []) xs h))

  closes :
      (os : List O) (q : Option (List (P × ℕ)))
      → after_event (open_with os q) committed_transaction ≡ some (idle, confirmed os q ∷ [])
  closes os none = refl
  closes os (some q) = refl

  -- A commit that fails is possible.
  unconfirms :
      (os : List O) (q : Option (List (P × ℕ)))
      → after_event (open_with os q) unconfirmed ≡ some (open_with os q, possible os q ∷ [])
  unconfirms os none = refl
  unconfirms os (some q) = refl

  Comes-commit :
      (os : List O) (q : Option (List (P × ℕ))) (s : Sink P W) (x : Option X)
      → E (open_with os q)
      → Comes
          (open_with os q)
          idle
          (confirmed os q ∷ [])
          (record { sink = s; trace = commit_event l x ∷ []; failure = x })
  unfolding Comes commit_event
  Comes-commit os q s none h = inl (refl, then_event (closes os q) nothing)
  Comes-commit os q s (some x) h = inr (
    x,
    refl,
    open_with os q,
    h,
    possible os q ∷ [],
    inr refl,
    then_event (unconfirms os q) nothing,
  )

  Steps-commit :
      (os : List O) (q : Option (List (P × ℕ)))
      → E (open_with os q)
      → Steps (open_with os q) (commit l) idle (confirmed os q ∷ [])
  unfolding Steps commit
  Steps-commit os q h s =
      let (x, w) = commit_from l 2 s.world in Comes-commit os q (record s { world = w }) x h

  Steps-offer :
      (os : List O) (offsets : SourceOffsets P)
      → ((phase : Phase P O) → E phase)
      → Steps
          (open_with os none)
          (◌>>◌ l
            (ask l (offered (listed l offsets.next)) (l.send_offsets (listed l offsets.next)))
            (◌>>◌ l (commit l) (note_committed l offsets)))
          idle
          (confirmed os (some (listed l offsets.next)) ∷ [])
  unfolding Steps ◌>>◌
  Steps-offer os offsets h =
      let q = listed l offsets.next in
      Steps-seq (open_with os none) (open_with os (some q)) idle _ _ _
        (Steps-ask (open_with os none) (open_with os (some q)) [] (offered q) (l.send_offsets q)
          refl (h (open_with os none)))
        (λ s.
          Comes-last (open_with os (some q)) idle _ (commit l s).sink (commit l s).trace
            (commit l s).failure offsets (Steps-commit os (some q) (h (open_with os (some q))) s))

  Steps-commit_with :
      (os : List O) (offsets : Option (SourceOffsets P))
      → ((phase : Phase P O) → E phase)
      → Steps
          (open_with os none)
          (commit_with l offsets)
          idle
          (confirmed os (offsets_in l offsets) ∷ [])
  unfolding commit_with commit_offsets Steps ◌>>◌
  Steps-commit_with os none h = Steps-commit os none (h (open_with os none))
  Steps-commit_with os (some offsets) h =
      let q = listed l offsets.next in
      Steps-seq (open_with os none) (open_with os none) idle _ _ _
        (Steps-ensure_assigned (open_with os none) offsets (h (open_with os none)))
        (Steps-seq (open_with os none) (open_with os none) idle _ _ _
          (Steps-check (open_with os none) l.group_metadata (h (open_with os none)))
          (Steps-seq (open_with os none) (open_with os none) idle _ _ _
            (Steps-check (open_with os none) (λ w. l.add_offsets q) (h (open_with os none)))
            (Steps-offer os offsets h)))

  pub Steps-run :
      (os : List O) (offsets : Option (SourceOffsets P))
      → ((phase : Phase P O) → E phase)
      → Steps idle (run l os offsets) idle (confirmed os (offsets_in l offsets) ∷ [])
  unfolding run
  Steps-run os offsets h =
      Steps-seq idle (open_with [] none) idle _ _ _
        (Steps-ask idle (open_with [] none) [] began l.begin_transaction refl (h idle))
        (Steps-seq (open_with [] none) (open_with os none) idle _ _ _ (Steps-send_all [] os h) (
          Steps-seq (open_with os none) (open_with os none) idle _ _ _
            (Steps-waits (open_with os none)) (Steps-commit_with os offsets h)))
