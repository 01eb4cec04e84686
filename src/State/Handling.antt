-- ===== src/State/Handling.antt =====
-- The attempts of a stateful handler, run_stateful of src/subscription/handler.rs, and Emit of
-- src/handler.rs.
use beave_rs.Base.{Bool, true, false, Option, none, some, List, [], ◌∷◌, map, Eq}
use beave_rs.Errors.{BoxError, foreign}
use beave_rs.Processing.{Answer, returns, retry, reject, fatal}
use beave_rs.Token.{Token, Tokens}
use beave_rs.State.{
  State, StateContext, Final, Use, Txn, Entries, Begin, ready, applied, apply_uses, drop_state,
  begin, commit,
}

pub data Emit {ℓ} (O : Type ℓ) : Type ℓ where
  nothing : Emit O
  one : O → Emit O
  many : List O → Emit O

unfoldable pub map_emit {ℓ κ} : {O : Type ℓ} {U : Type κ} → (O → U) → Emit O → Emit U
map_emit f nothing = nothing
map_emit f (one v) = one (f v)
map_emit f (many v) = many (map f v)

unfoldable pub values {ℓ} : {O : Type ℓ} → Emit O → List O
values nothing = []
values (one v) = v ∷ []
values (many v) = v

-- What a stateful handler did when it returned: its output, how it used its state, and whether it
-- keeps the state.
pub record Handled (T O : Type 0) : Type 0 where
  pub output : O
  pub uses : List (Use T)
  pub keeps : Bool

-- `Outcome`: the outputs, and what `commit` will be called with.
pub record Outcome (K T O : Type 0) : Type 0 where
  pub outputs : Emit O
  pub commit : Option (Txn K × Option (Final T))

-- `Stateful`: a store with its keys, and a handler.
pub record Stateful (I K T O : Type 0) : Type 0 where
  pub default : T
  pub key : I → StateContext → Answer BoxError K
  pub handler : I → State T → Answer BoxError (Handled T (Emit O))

-- A delivery to a handler: its input and context, the tokens as they are when it starts, and which
-- tokens have no other clone when its change is committed.
pub record Delivery (I : Type 0) : Type 0 where
  pub input : I
  pub context : StateContext
  pub tokens : Tokens
  pub orphaned : Token → Bool

module _ {I K T O : Type 0} ⦃e : Eq K⦄ (h : Stateful I K T O) where
  returned : Bool → State T → Option (Final T)
  unfolding drop_state
  returned true s = none
  returned false s = some (drop_state s)

  -- The attempt after the handler.
  unfoldable pub after_handle :
      Txn K → State T → Answer BoxError (Handled T (Emit O)) → Answer BoxError (Outcome K T O)
  unfolding returned apply_uses
  after_handle txn s (returns r) = returns (record {
    outputs = r.output;
    commit = some (txn, returned r.keeps (apply_uses h.default r.uses s));
  })
  after_handle txn s (retry e) = retry e
  after_handle txn s (reject e) = reject e
  after_handle txn s (fatal e) = fatal e

  unfoldable pub after_begin : I → Begin (State T) (Txn K) → Answer BoxError (Outcome K T O)
  unfolding after_handle
  after_begin input applied = returns (record { outputs = nothing; commit = none })
  after_begin input (ready s txn) = after_handle txn s (h.handler input s)

  unfoldable pub with_key :
      Tokens
      → I
      → StateContext
      → Entries K T
      → Answer BoxError K
      → Entries K T × Answer BoxError (Outcome K T O)
  unfolding after_begin
  with_key tokens input context entries (returns key) =
      let (stored, begun) = begin h.default tokens key context entries in
      (stored, after_begin input begun)
  with_key tokens input context entries (retry e) = (entries, retry e)
  with_key tokens input context entries (reject e) = (entries, reject e)
  with_key tokens input context entries (fatal e) = (entries, fatal e)

  unfoldable pub run_stateful :
      Tokens → I → Option StateContext → Entries K T → Entries K T × Answer BoxError (Outcome K T O)
  unfolding with_key
  run_stateful tokens input none entries =
      (entries, fatal (foreign "a stateful handler ran without its context"))
  run_stateful tokens input (some context) entries =
      with_key tokens input context entries (h.key input context)

  -- The commit of an attempt, when its outputs were published.
  unfoldable pub settle :
      (Token → Bool) → Entries K T × Answer BoxError (Outcome K T O) → Entries K T
  settle orphaned (stored, returns o) = elim o.commit [
    | none ↦ stored
    | some (txn, f) ↦ (commit orphaned txn f stored).0
  ]
  settle orphaned (stored, retry e) = stored
  settle orphaned (stored, reject e) = stored
  settle orphaned (stored, fatal e) = stored

  -- A delivery to the handler and the commit of what it changed.
  unfoldable pub deliver : Delivery I → Entries K T → Entries K T
  unfolding settle run_stateful
  deliver d entries = settle d.orphaned (run_stateful d.tokens d.input (some d.context) entries)

  unfoldable pub deliver_all : List (Delivery I) → Entries K T → Entries K T
  unfolding deliver
  deliver_all [] entries = entries
  deliver_all (d ∷ ds) entries = deliver_all ds (deliver d entries)
