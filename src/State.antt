-- ===== src/State.antt =====
-- src/state/memory.rs and src/state/value.rs: one value per key in the memory of the process. A store is a value
-- that the calls pass on. Waiting for the lock of a key is not modelled: a call finds the entry that
-- the last commit left. Whether no other clone of a token is left is an argument, as `Token` counts
-- no references.
pub mod Beginning
pub mod Handling
pub mod Redelivery
mod Tests
use beave_rs.Base.{
  ℕ, Bool, true, false, not, String, Option, none, some, List, [], ◌∷◌, ◌++◌, map, retain, any, Eq,
  if◌then◌else◌,
}
use beave_rs.Base.Map.{Map, lookup, insert, unwrap_or}
use beave_rs.Base.Results.{Result, ok, err}
use beave_rs.Errors.{BoxError, foreign}
use beave_rs.Position.{Position, is_covered_by}
use beave_rs.Processing.{Answer, returns, retry, reject, fatal}
use beave_rs.Token.{Token, Tokens, is_cancelled, same}

-- `Change`, and what a dropped state leaves.
pub data Change : Type 0 where
  no_change change_set change_clear : Change

pub data Final (T : Type 0) : Type 0 where
  unchanged cleared : Final T
  set : T → Final T

-- A handle on the value under a key. Its value is present until it is dropped.
pub record State (T : Type 0) : Type 0 where
  pub value : T
  pub is_new : Bool
  pub change : Change

pub data Begin (S X : Type 0) : Type 0 where
  ready : S → X → Begin S X
  applied : Begin S X

pub record StateContext : Type 0 where
  pub subscription : String
  pub message_key : Option (List ℕ)
  pub position : Option Position
  pub revocation : Option Token

pub record Entry (T : Type 0) : Type 0 where
  pub value : Option T
  pub position : Option Position
  pub owners : List Token

abbrev pub Entries : Type 0 → Type 0 → Type 0
Entries K T = Map K (Entry T)

-- `InMemoryTxn`; what the handler leaves is passed to `commit`.
pub record Txn (K : Type 0) : Type 0 where
  pub key : K
  pub position : Option Position
  pub owner : Option Token

-- What a handler does with its state.
pub data Use (T : Type 0) : Type 0 where
  write : (T → T) → Use T
  clear : Use T

-- `MessageKey::key`.
unfoldable pub message_key_of : StateContext → Answer BoxError (List ℕ)
message_key_of context = elim context.message_key [
  | none ↦ reject (foreign "the delivery has no message key to keep its state under")
  | some key ↦ returns key
]

module _ {T : Type 0} (default : T) where
  unfoldable pub new_state : Option T → State T
  new_state stored = record {
    value = unwrap_or stored default;
    is_new = elim stored [ none ↦ true | some v ↦ false ];
    change = no_change;
  }

  -- `deref_mut` and `clear`.
  unfoldable pub apply_use : Use T → State T → State T
  apply_use (write f) s = record s { value = f s.value; change = change_set }
  apply_use clear s = record s { value = default; change = change_clear }

  unfoldable pub apply_uses : List (Use T) → State T → State T
  unfolding apply_use
  apply_uses [] s = s
  apply_uses (u ∷ us) s = apply_uses us (apply_use u s)

module _ {T : Type 0} where
  -- What `drop` leaves in the slot.
  unfoldable pub drop_state : State T → Final T
  drop_state s = elim s.change [
    | no_change ↦ unchanged
    | change_set ↦ set s.value
    | change_clear ↦ cleared
  ]

  abbrev pub no_entry : Entry T
  no_entry = record { value = none; position = none; owners = [] }

  unfoldable pub is_stale : Tokens → Entry T → Bool
  is_stale tokens e = any (λ t. is_cancelled t tokens) e.owners

  -- The entry that `begin` works on.
  unfoldable pub fresh : Tokens → Entry T → Entry T
  unfolding is_stale
  fresh tokens found = if is_stale tokens found then no_entry else found

unfoldable pub is_applied : Option Position → Option Position → Bool
is_applied none at = false
is_applied (some position) none = false
is_applied (some position) (some at) = is_covered_by position at

-- The owners after a commit.
unfoldable pub own : (Token → Bool) → Option Token → List Token → List Token
own orphaned none owners = retain (λ t. not (orphaned t)) owners
own orphaned (some owner) owners =
    let kept = retain (λ t. not (orphaned t)) owners in
    if any (λ t. same t owner) kept then kept else kept ++ owner ∷ []

module _ {K T : Type 0} ⦃e : Eq K⦄ where
  unfoldable pub entry_of : K → Entries K T → Entry T
  entry_of key entries = unwrap_or (lookup key entries) no_entry

  -- `InMemoryState::get`.
  unfoldable pub get : Tokens → K → Entries K T → Option T
  unfolding entry_of is_stale
  get tokens key entries =
      let found = entry_of key entries in if is_stale tokens found then none else found.value

  unfoldable pub begin :
      T → Tokens → K → StateContext → Entries K T → Entries K T × Begin (State T) (Txn K)
  unfolding fresh is_applied new_state entry_of
  begin default tokens key context entries =
      let current = fresh tokens (entry_of key entries) in
      let stored = insert key current entries in
      if is_applied context.position current.position then (stored, applied) else (
        stored,
        ready (new_state default current.value)
            (record { key = key; position = context.position; owner = context.revocation }),
      )

  unfoldable pub commit_value : (Token → Bool) → Txn K → Option T → Entries K T → Entries K T
  unfolding own entry_of
  commit_value orphaned txn value entries =
      insert txn.key
        (record {
          value = value;
          position = txn.position;
          owners = own orphaned txn.owner (entry_of txn.key entries).owners;
        })
        entries

  -- `commit`, with what `returned.take` gives.
  unfoldable pub commit :
      (Token → Bool)
      → Txn K
      → Option (Final T)
      → Entries K T
      → Entries K T × Result BoxError (Unit {0})
  unfolding commit_value
  commit orphaned txn none entries =
      (entries, err (foreign "the handler kept its state after returning"))
  commit orphaned txn (some unchanged) entries = (entries, ok tt)
  commit orphaned txn (some (set v)) entries = (commit_value orphaned txn (some v) entries, ok tt)
  commit orphaned txn (some cleared) entries = (commit_value orphaned txn none entries, ok tt)
