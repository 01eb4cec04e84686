-- ===== src/State/Beginning.antt =====
-- What a delivery finds and leaves in the store of src/state/memory.rs.
use beave_rs.Base.{
  ◌≡◌, ◌≢◌, inl, inr, refl, arith, Bool, true, false, not, ◌||◌, Option, none, some, List, [], ◌∷◌,
  ◌++◌, retain, any, Eq, ◌==◌, Option-cases, if◌then◌else◌, nat_beq_iff,
}
use beave_rs.Base.Map.{insert, unwrap_or, lookup-insert}
use beave_rs.Token.{Token, Tokens, is_cancelled, same}
use beave_rs.State.{
  State, StateContext, Final, unchanged, set, cleared, Entry, Txn, Entries, ready, new_state,
  is_stale, is_applied, own, entry_of, get, fresh, begin, commit_value, commit,
}

pub is_stale-fresh :
    {T : Type 0} (tokens : Tokens) (found : Entry T) → is_stale tokens (fresh tokens found) ≡ false
unfolding is_stale fresh
is_stale-fresh tokens found = ground arith

module _ {K T : Type 0} ⦃e : Eq K⦄ where
  pub entry_of-insert :
      (key other : K) (found : Entry T) (entries : Entries K T)
      → entry_of other (insert key found entries)
        ≡ (if key == other then found else entry_of other entries)
  unfolding entry_of
  entry_of-insert key other found entries = ground (arith, lookup-insert key other found entries)

  pub entry_of-begin :
      (default : T) (tokens : Tokens) (key other : K) (context : StateContext)
      (entries : Entries K T)
      → entry_of other (begin default tokens key context entries).0
        ≡ (if key == other then fresh tokens (entry_of key entries) else entry_of other entries)
  unfolding begin
  entry_of-begin default tokens key other context entries =
      ground (arith, entry_of-insert key other (fresh tokens (entry_of key entries)) entries)

  -- `begin` leaves every value as `get` returns it: what it discards is not returned before either.
  get-begin :
      (default : T) (tokens : Tokens) (key other : K) (context : StateContext)
      (entries : Entries K T)
      → get tokens other (begin default tokens key context entries).0 ≡ get tokens other entries
  unfolding get begin fresh is_stale
  get-begin default tokens key other context entries = ground (
    arith,
    entry_of-insert key other (fresh tokens (entry_of key entries)) entries,
    e.eq_iff key other,
  )

any-append :
    {A : Type 0} (p : A → Bool) (xs ys : List A) → any p (xs ++ ys) ≡ (any p xs || any p ys)
any-append p [] ys = refl
any-append p (x ∷ xs) ys = ground (arith, any-append p xs ys)

any-implies :
    (p : Token → Bool) (owner : Token) (ts : List Token)
    → any (λ t. same t owner) ts ≡ true
    → p owner ≡ true
    → any p ts ≡ true
unfolding same
any-implies p owner [] h g = ground arith
any-implies p owner (t ∷ ts) h g = ground (arith, nat_beq_iff t owner, any-implies p owner ts, h, g)

-- Whether a delivery's own token passes a test.
abbrev pub any_of : (Token → Bool) → Option Token → Bool
any_of p none = false
any_of p (some t) = p t

-- The owners after a commit are the delivery's own token and those of before that are not orphaned.
pub any-own :
    (p orphaned : Token → Bool) (owner : Option Token) (owners : List Token)
    → any p (own orphaned owner owners)
      ≡ (any p (retain (λ t. not (orphaned t)) owners) || any_of p owner)
unfolding own
any-own p orphaned none owners = ground arith
any-own p orphaned (some owner) owners =
    let kept = retain (λ t. not (orphaned t)) owners in
    ground (arith, any-implies p owner kept, any-append p kept (owner ∷ []))

pub any-retain-false :
    (p q : Token → Bool) (ts : List Token) → any p ts ≡ false → any p (retain q ts) ≡ false
any-retain-false p q [] h = refl
any-retain-false p q (t ∷ ts) h = ground (arith, any-retain-false p q ts, h)

-- What a commit makes of a stored value.
abbrev pub changed : {T : Type 0} → Final T → Option T → Option T
changed unchanged old = old
changed (set v) old = some v
changed cleared old = none

module _ {K T : Type 0} ⦃e : Eq K⦄ where
  is_stale-commit_value :
      (orphaned : Token → Bool) (txn : Txn K) (value : Option T) (tokens : Tokens)
      (entries : Entries K T)
      → is_stale tokens (entry_of txn.key (commit_value orphaned txn value entries)) ≡ (
          any
            (λ t. is_cancelled t tokens)
            (retain (λ t. not (orphaned t)) (entry_of txn.key entries).owners)
          || any_of (λ t. is_cancelled t tokens) txn.owner)
  unfolding is_stale commit_value
  is_stale-commit_value orphaned txn value tokens entries =
      let owners = (entry_of txn.key entries).owners in
      let kept = own orphaned txn.owner owners in
      let found : Entry T = record { value = value; position = txn.position; owners = kept } in
      ground (
        arith,
        entry_of-insert txn.key txn.key found entries,
        e.eq_iff txn.key txn.key,
        any-own (λ t. is_cancelled t tokens) orphaned txn.owner owners,
      )

  -- After a commit that sets or clears the value, the entry is stale exactly if the delivery's own
  -- token is cancelled or one of the tokens of before that still had another clone when the change was
  -- committed.
  pub is_stale-commit :
      (orphaned : Token → Bool) (txn : Txn K) (f : Final T) (tokens : Tokens)
      (entries : Entries K T)
      → f ≢ unchanged
      → is_stale tokens (entry_of txn.key (commit orphaned txn (some f) entries).0) ≡ (
          any
            (λ t. is_cancelled t tokens)
            (retain (λ t. not (orphaned t)) (entry_of txn.key entries).owners)
          || any_of (λ t. is_cancelled t tokens) txn.owner)
  unfolding commit
  is_stale-commit orphaned txn unchanged tokens entries changes = elim (changes refl) [ ]
  is_stale-commit orphaned txn (set v) tokens entries changes =
      is_stale-commit_value orphaned txn (some v) tokens entries
  is_stale-commit orphaned txn cleared tokens entries changes =
      is_stale-commit_value orphaned txn none tokens entries

  get-commit_value :
      (orphaned : Token → Bool) (txn : Txn K) (value : Option T) (tokens : Tokens) (other : K)
      (entries : Entries K T)
      → is_stale tokens (entry_of txn.key entries) ≡ false
      → any_of (λ t. is_cancelled t tokens) txn.owner ≡ false
      → get tokens other (commit_value orphaned txn value entries)
        ≡ (if txn.key == other then value else get tokens other entries)
  unfolding get is_stale commit_value
  get-commit_value orphaned txn value tokens other entries fine valid =
      let owners = (entry_of txn.key entries).owners in
      let kept = own orphaned txn.owner owners in
      let found : Entry T = record { value = value; position = txn.position; owners = kept } in
      let p = λ (t : Token). is_cancelled t tokens in
      ground (
        arith,
        entry_of-insert txn.key other found entries,
        fine,
        valid,
        any-own p orphaned txn.owner owners,
        any-retain-false p (λ t. not (orphaned t)) owners fine,
      )

  -- What a delivery starts from.
  pub starts :
      (default : T) (tokens : Tokens) (key : K) (context : StateContext) (entries : Entries K T)
      (s : State T) (txn : Txn K)
      → (begin default tokens key context entries).1 ≡ ready s txn
      → (s.value ≡ unwrap_or (get tokens key entries) default)
        × (txn.key ≡ key)
        × (txn.position ≡ context.position)
        × (txn.owner ≡ context.revocation)
  unfolding begin get fresh is_stale new_state
  starts default tokens key context entries s txn started = ground (arith, started)

  pub fine-begin :
      (default : T) (tokens : Tokens) (key : K) (context : StateContext) (entries : Entries K T)
      → is_stale tokens (entry_of key (begin default tokens key context entries).0) ≡ false
  unfolding begin
  fine-begin default tokens key context entries =
      let current = fresh tokens (entry_of key entries) in
      ground (
        arith,
        entry_of-insert key key current entries,
        e.eq_iff key key,
        is_stale-fresh tokens (entry_of key entries),
      )

  get-commit_any :
      (orphaned : Token → Bool) (txn : Txn K) (f : Final T) (tokens : Tokens) (other : K)
      (entries : Entries K T)
      → is_stale tokens (entry_of txn.key entries) ≡ false
      → any_of (λ t. is_cancelled t tokens) txn.owner ≡ false
      → get tokens other (commit orphaned txn (some f) entries).0 ≡ (
          if txn.key == other
          then changed f (get tokens txn.key entries)
          else get tokens other entries)
  unfolding commit
  get-commit_any orphaned txn unchanged tokens other entries fine valid =
      ground (arith, e.eq_iff txn.key other)
  get-commit_any orphaned txn (set v) tokens other entries fine valid =
      get-commit_value orphaned txn (some v) tokens other entries fine valid
  get-commit_any orphaned txn cleared tokens other entries fine valid =
      get-commit_value orphaned txn none tokens other entries fine valid

  -- A delivery that the store does not hold yet starts from the value that `get` returns, or from the
  -- default, and while its own token is not cancelled, its commit stores what the handler left under
  -- its key and changes no other value.
  pub get-commit :
      (default : T) (tokens : Tokens) (orphaned : Token → Bool) (key other : K)
      (context : StateContext) (entries : Entries K T) (s : State T) (txn : Txn K) (f : Final T)
      → (begin default tokens key context entries).1 ≡ ready s txn
      → any_of (λ t. is_cancelled t tokens) context.revocation ≡ false
      → (s.value ≡ unwrap_or (get tokens key entries) default)
        × (get tokens other
              (commit orphaned txn (some f) (begin default tokens key context entries).0).0
            ≡ (if key == other
                then changed f (get tokens key entries)
                else get tokens other entries))
  get-commit default tokens orphaned key other context entries s txn f started valid =
      let (at, k, p, o) = starts default tokens key context entries s txn started in
      let stored = (begin default tokens key context entries).0 in
      let fine = fine-begin default tokens key context entries in
      (
        at,
        ground (
          arith,
          k,
          o,
          valid,
          fine,
          get-commit_any orphaned txn f tokens other stored,
          get-begin default tokens txn.key other context entries,
          get-begin default tokens key other context entries,
          get-begin default tokens key key context entries,
        ),
      )

  stale_starts :
      (default : T) (tokens : Tokens) (key : K) (context : StateContext) (entries : Entries K T)
      → is_stale tokens (entry_of key entries) ≡ true
      → (get tokens key entries ≡ none)
        × ((begin default tokens key context entries).1
            ≡ ready
                (new_state default none)
                (record { key = key; position = context.position; owner = context.revocation }))
  unfolding begin get fresh is_stale is_applied
  stale_starts default tokens key context entries stale = elim (Option-cases context.position) [
    | inl h ↦ ground (arith, stale, h)
    | inr (at, h) ↦ ground (arith, stale, h)
  ]

  -- After a delivery with a token committed a change of its state, a store of tokens in which that
  -- token is cancelled discards what it committed: the value is not returned, and the next delivery
  -- under the key, whatever its position, starts from the default.
  pub revoked_is_discarded :
      (default : T) (tokens : Tokens) (orphaned : Token → Bool) (txn : Txn K) (owner : Token)
      (f : Final T) (context : StateContext) (entries : Entries K T)
      → f ≢ unchanged
      → txn.owner ≡ some owner
      → is_cancelled owner tokens ≡ true
      → (get tokens txn.key (commit orphaned txn (some f) entries).0 ≡ none)
        × ((begin default tokens txn.key context (commit orphaned txn (some f) entries).0).1
            ≡ ready
                (new_state default none)
                (record { key = txn.key; position = context.position; owner = context.revocation }))
  revoked_is_discarded default tokens orphaned txn owner f context entries changes own_token over =
      stale_starts default tokens txn.key context (commit orphaned txn (some f) entries).0
        (ground (arith, is_stale-commit orphaned txn f tokens entries changes, own_token, over))
