-- ===== src/Processing/Actions.antt =====
-- Actions of the pipeline of src/subscription: calls of the handler, the sink, the state store and
-- the source, which are parameters on a world of their own, and what an action did to them in order.
use beave_rs.Base.{Option, List, [], ◌∷◌, ◌++◌}
use beave_rs.Base.Results.{Result, ok, err}
use beave_rs.ErrorPolicy.{FailureKind}

-- The types that the program leaves open: the world `W`, deliveries, inputs, outputs, prepared
-- outputs, the futures of submitted outputs, state commits and errors.
pub record Types : Type 1 where
  pub World : Type 0
  pub Message : Type 0
  pub Input : Type 0
  pub Output : Type 0
  pub Prepared : Type 0
  pub Future : Type 0
  pub Commit : Type 0
  pub BoxError : Type 0

module _ (T : Types) where
  -- `submitted none` is an output that reached its destination at once.
  pub data Event : Type 0 where
    submitted : Option T.Future → Event
    waited : T.Future → Event
    committed : T.Commit → Event
    dead_lettered : FailureKind → Event
    acked : T.Message → Event

  pub record Outcome (A : Type 0) : Type 0 where
    pub world : T.World
    pub trace : List Event
    pub result : Result T.BoxError A

  abbrev pub Action : Type 0 → Type 0
  Action A = T.World → Outcome A

  -- A call of code outside the pipeline.
  abbrev pub Call : Type 0 → Type 0
  Call A = T.World → T.World × A

module _ {T : Types} where
  infixl 30 ◌>>=◌
  infixl 30 ◌>>◌
  unfoldable pub pure : {A : Type 0} → A → Action T A
  pure a w = record { world = w; trace = []; result = ok a }

  unfoldable pub raise : {A : Type 0} → T.BoxError → Action T A
  raise e w = record { world = w; trace = []; result = err e }

  -- The rest of a block after an action that left the world `w` and the trace `t`.
  unfoldable pub after :
      {A B : Type 0}
      → T.World
      → List (Event T)
      → Result T.BoxError A
      → (A → Action T B)
      → Outcome T B
  after w t (err e) k = record { world = w; trace = t; result = err e }
  after w t (ok a) k = let rest = k a w in record rest { trace = t ++ rest.trace }

  unfoldable pub ◌>>=◌ : {A B : Type 0} → Action T A → (A → Action T B) → Action T B
  (f >>= k) w = after (f w).world (f w).trace (f w).result k

  abbrev pub ◌>>◌ : {A B : Type 0} → Action T A → Action T B → Action T B
  f >> g = f >>= λ a. g

  -- An outcome as a value, where the source matches on it.
  unfoldable pub try : {A : Type 0} → Action T A → Action T (Result T.BoxError A)
  try f w = let r = f w in record { world = r.world; trace = r.trace; result = ok r.result }

  -- A call whose answer the pipeline only reads.
  unfoldable pub call : {A : Type 0} → Call T A → Action T A
  call f w = let (w', a) = f w in record { world = w'; trace = []; result = ok a }

  -- A call that does the event it returns, if it succeeds.
  unfoldable pub noted : {A : Type 0} → (A → Event T) → T.World × Result T.BoxError A → Outcome T A
  noted event (w, ok a) = record { world = w; trace = event a ∷ []; result = ok a }
  noted event (w, err e) = record { world = w; trace = []; result = err e }

  unfoldable pub perform : {A : Type 0} → (A → Event T) → Call T (Result T.BoxError A) → Action T A
  perform event f w = noted event (f w)

  -- Whatever the world, the action's trace and result satisfy `Q`.
  abbrev pub Ensures :
      {A : Type 0} → Action T A → (List (Event T) → Result T.BoxError A → Type 0) → Type 0
  Ensures f Q = (w : T.World) → Q (f w).trace (f w).result
