-- ===== src/Kafka/Transactions/Protocol.antt =====
-- The order in which a producer of src/adapters/kafka/transaction.rs may be used.
use beave_rs.Base.{
  append_none, ◌⊎◌, inl, inr, ℕ, ◌≡◌, refl, sym, subst, Option, none, some, List, [], ◌∷◌, ◌++◌,
  append_assoc, map,
}
use beave_rs.Kafka.Transactions.{
  Event, connected, began, aborted, replaced, committed_transaction, unconfirmed, published,
  offered,
}

module _ {ℓ} (P : Type ℓ) (O : Type 0) where
  -- What is in the open transaction, if there is one: outputs and consumer offsets.
  pub data Phase : Type ℓ where
    idle : Phase
    open_with : List O → Option (List (P × ℕ)) → Phase

  -- What a commit was asked of: outputs and consumer offsets. A commit that was not confirmed may have
  -- taken effect.
  pub data Contents : Type ℓ where
    confirmed possible : List O → Option (List (P × ℕ)) → Contents

module _ {ℓ} {P : Type ℓ} {O : Type 0} where
  -- The phase after an event, and what it committed. A transaction begins only when none is open,
  -- outputs are added to an open one without offsets, offsets at most once, and only an open one is
  -- committed. One whose commit was not confirmed stays open until it is aborted or its producer is
  -- replaced.
  abbrev pub after_event : Phase P O → Event P O → Option (Phase P O × List (Contents P O))
  after_event idle connected = some (idle, [])
  after_event idle began = some (open_with [] none, [])
  after_event (open_with os none) (published o) = some (open_with (os ++ o ∷ []) none, [])
  after_event (open_with os none) (offered q) = some (open_with os (some q), [])
  after_event (open_with os q) committed_transaction = some (idle, confirmed os q ∷ [])
  after_event (open_with os q) unconfirmed = some (open_with os q, possible os q ∷ [])
  after_event phase aborted = some (idle, [])
  after_event phase replaced = some (idle, [])
  after_event phase event = none

  -- The events of a call in order, and everything that they committed.
  pub data Plays : Phase P O → List (Event P O) → Phase P O → List (Contents P O) → Type ℓ where
    nothing : {phase : Phase P O} → Plays phase [] phase []
    then_event :
        {phase next last : Phase P O} {event : Event P O} {t : List (Event P O)}
        {cs ds : List (Contents P O)}
        → after_event phase event ≡ some (next, cs)
        → Plays next t last ds
        → Plays phase (event ∷ t) last (cs ++ ds)

  pub Plays-append :
      {phase next last : Phase P O} {t u : List (Event P O)} {cs ds : List (Contents P O)}
      → Plays phase t next cs
      → Plays next u last ds
      → Plays phase (t ++ u) last (cs ++ ds)
  Plays-append nothing q = q
  Plays-append {last = last} {ds = ds}
        (then_event {phase = phase} {event = event} {t = t} {cs = cs} {ds = later} h p) q =
      subst (Plays phase (event ∷ (t ++ _)) last) (sym (append_assoc cs later ds))
        (then_event h (Plays-append p q))

  -- Aborting a transaction and replacing the producer close it.
  pub Plays-closed :
      {phase : Phase P O} {t : List (Event P O)} {cs : List (Contents P O)} (event : Event P O)
      → after_event phase event ≡ some (idle, [])
      → Plays idle t phase cs
      → Plays idle (t ++ event ∷ []) idle cs
  Plays-closed {t = t} {cs = cs} event h p =
      subst (λ (ds : List (Contents P O)). Plays idle (t ++ event ∷ []) idle ds) (append_none cs)
        (Plays-append p (then_event h nothing))

  pub closes_aborted : (phase : Phase P O) → after_event phase aborted ≡ some (idle, [])
  closes_aborted idle = refl
  closes_aborted (open_with os none) = refl
  closes_aborted (open_with os (some q)) = refl

  pub closes_replaced : (phase : Phase P O) → after_event phase replaced ≡ some (idle, [])
  closes_replaced idle = refl
  closes_replaced (open_with os none) = refl
  closes_replaced (open_with os (some q)) = refl

  -- What a failed call leaves of what it would have committed: nothing, or all of it unconfirmed.
  abbrev pub unsure : Contents P O → Contents P O
  unsure (confirmed os q) = possible os q
  unsure (possible os q) = possible os q

  abbrev pub Leaves : List (Contents P O) → List (Contents P O) → Type ℓ
  Leaves cs ds = (ds ≡ []) ⊎ (ds ≡ map unsure cs)

  pub Leaves-nothing : (ds : List (Contents P O)) → Leaves [] ds → ds ≡ []
  Leaves-nothing ds (inl h) = h
  Leaves-nothing ds (inr h) = h
