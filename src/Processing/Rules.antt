-- ===== src/Processing/Rules.antt =====
-- What sequences of actions of src/subscription ensure, from what their parts ensure.
use beave_rs.Base.{List, [], ◌∷◌, ◌++◌, ◌≡◌, refl, sym, subst, Bool, true, false, if◌then◌else◌}
use beave_rs.Base.Results.{Result, ok, err}
use beave_rs.Processing.Actions.{
  Types, Event, Action, Call, pure, raise, after, ◌>>=◌, try, call, noted, perform, Ensures,
}

module _ (T : Types) where
  abbrev pub Post : Type 0 → Type 1
  Post A = List (Event T) → Result T.BoxError A → Type 0

  pub ensures-pure : {A : Type 0} (Q : Post A) (a : A) → Q [] (ok a) → Ensures (pure a) Q
  unfolding pure
  ensures-pure Q a h w = h

  pub ensures-raise :
      {A : Type 0} (Q : Post A) (e : T.BoxError) → Q [] (err e) → Ensures (raise e) Q
  unfolding raise
  ensures-raise Q e h w = h

  pub ensures-after :
      {A B : Type 0} (R : Post A) (Q : Post B) (k : A → Action T B) (w : T.World)
      (t : List (Event T)) (r : Result T.BoxError A)
      → R t r
      → ((t : List (Event T)) (a : A) → R t (ok a) → Ensures (k a) (λ u r. Q (t ++ u) r))
      → ((t : List (Event T)) (e : T.BoxError) → R t (err e) → Q t (err e))
      → Q (after w t r k).trace (after w t r k).result
  unfolding after
  ensures-after R Q k w t (ok a) h next stop = next t a h w
  ensures-after R Q k w t (err e) h next stop = stop t e h

  pub ensures-bind :
      {A B : Type 0} (R : Post A) (Q : Post B) (f : Action T A) (k : A → Action T B)
      → Ensures f R
      → ((t : List (Event T)) (a : A) → R t (ok a) → Ensures (k a) (λ u r. Q (t ++ u) r))
      → ((t : List (Event T)) (e : T.BoxError) → R t (err e) → Q t (err e))
      → Ensures (f >>= k) Q
  unfolding ◌>>=◌
  ensures-bind R Q f k h next stop w =
      ensures-after R Q k (f w).world (f w).trace (f w).result (h w) next stop

  -- An action that does the events `g a` and returns `a`, or does nothing and fails.
  abbrev pub Emits : {A : Type 0} → (A → List (Event T)) → Post A
  Emits g t (ok a) = t ≡ g a
  Emits g t (err e) = t ≡ []

  noted_emits :
      {A : Type 0} (event : A → Event T) (x : T.World × Result T.BoxError A)
      → Emits (λ a. event a ∷ []) (noted event x).trace (noted event x).result
  unfolding noted
  noted_emits event (w, ok a) = refl
  noted_emits event (w, err e) = refl

  pub perform_emits :
      {A : Type 0} (event : A → Event T) (f : Call T (Result T.BoxError A))
      → Ensures (perform event f) (Emits λ a. event a ∷ [])
  unfolding perform
  perform_emits event f w = noted_emits event (f w)

  abbrev pub Tried : {A : Type 0} → Post A → Post (Result T.BoxError A)
  Tried R t (ok r) = R t r
  Tried R t (err e) = true ≡ false

  pub ensures-try :
      {A : Type 0} (R : Post A) (f : Action T A) → Ensures f R → Ensures (try f) (Tried R)
  unfolding try
  ensures-try R f h w = h w

  -- An action that does no event.
  abbrev pub Silent : {A : Type 0} → Post A
  Silent t r = t ≡ []

  -- A call without an event, which never fails.
  abbrev pub Called : {A : Type 0} → Post A
  Called t (ok a) = t ≡ []
  Called t (err e) = true ≡ false

  pub call_called : {A : Type 0} (f : Call T A) → Ensures {T = T} (call f) Called
  unfolding call
  call_called f w = refl

  -- After a call, the rest alone decides.
  pub ensures-call :
      {A B : Type 0} (Q : Post B) (f : Call T A) (k : A → Action T B)
      → ((a : A) → Ensures (k a) Q)
      → Ensures (call f >>= k) Q
  ensures-call Q f k h =
      ensures-bind Called Q (call f) k (call_called f)
        (λ t a none_yet w.
          subst (λ t. Q (t ++ (k a w).trace) (k a w).result) (sym none_yet) (h a w))
        (λ t e absurd. cc)

  pub silent-bind :
      {A B : Type 0} (f : Action T A) (k : A → Action T B)
      → Ensures f Silent
      → ((a : A) → Ensures (k a) Silent)
      → Ensures (f >>= k) Silent
  silent-bind f k h next =
      ensures-bind Silent Silent f k h (λ t a none_yet w. cc (none_yet, next a w))
        (λ t e none_yet. none_yet)

  -- After a silent action, the rest alone decides.
  pub after_silent :
      {A B : Type 0} (Q : Post B) (f : Action T A) (k : A → Action T B)
      → Ensures f Silent
      → ((a : A) → Ensures (k a) Q)
      → ((e : T.BoxError) → Q [] (err e))
      → Ensures (f >>= k) Q
  after_silent Q f k h next stop =
      ensures-bind Silent Q f k h
        (λ t a none_yet w.
          subst (λ t. Q (t ++ (k a w).trace) (k a w).result) (sym none_yet) (next a w))
        (λ t e none_yet. subst (λ t. Q t (err e)) (sym none_yet) (stop e))

  -- Nothing done before changes nothing.
  pub after_nothing :
      {A : Type 0} (Q : Post A) (f : Action T A) (t : List (Event T))
      → t ≡ []
      → Ensures f Q
      → Ensures f (λ u r. Q (t ++ u) r)
  after_nothing Q f t none_yet h w =
      subst (λ t. Q (t ++ (f w).trace) (f w).result) (sym none_yet) (h w)

  pub ensures-if :
      {A : Type 0} (Q : Post A) (b : Bool) (f g : Action T A)
      → (b ≡ true → Ensures f Q)
      → (b ≡ false → Ensures g Q)
      → Ensures (if b then f else g) Q
  ensures-if Q true f g first second = first refl
  ensures-if Q false f g first second = second refl

  pub ensures-weaken :
      {A : Type 0} (R Q : Post A) (f : Action T A)
      → ((t : List (Event T)) (r : Result T.BoxError A) → R t r → Q t r)
      → Ensures f R
      → Ensures f Q
  ensures-weaken R Q f weaker h w = weaker (f w).trace (f w).result (h w)
