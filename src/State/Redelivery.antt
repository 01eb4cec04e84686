-- ===== src/State/Redelivery.antt =====
-- Redeliveries to a stateful handler of a delivery that the store of src/state/memory.rs holds.
use beave_rs.Base.{
  ◌≡◌, ◌≢◌, inl, inr, subst, sym, ap, refl, arith, Bool, true, false, not, Option, none, some, List,
  [], ◌∷◌, Bool-cases, All, Eq, ◌==◌, any,
}
use beave_rs.Errors.{BoxError}
use beave_rs.Position.{Position, is_covered_by, covered_by_itself}
use beave_rs.Processing.{Answer, returns, retry, reject, fatal}
use beave_rs.Token.{Token, Tokens, is_cancelled}
use beave_rs.State.{
  StateContext, State, Final, unchanged, set, cleared, Entry, Txn, Entries, Begin, ready, applied,
  is_stale, is_applied, own, entry_of, fresh, begin, commit_value, commit,
}
use beave_rs.State.Handling.{
  Emit, nothing, Handled, Stateful, after_handle, deliver, deliver_all, settle, after_begin,
  with_key, run_stateful, Delivery,
}
use beave_rs.State.Beginning.{
  entry_of-insert, entry_of-begin, any_of, starts, any-own, any-retain-false,
}

-- Of the tokens that `trusted` holds, none is cancelled in a store.
unfoldable pub Trusts : (Token → Bool) → Tokens → Type 0
Trusts trusted tokens = (t : Token) → trusted t ≡ true → is_cancelled t tokens ≡ false

-- Whether every token of a list is trusted.
abbrev pub are_trusted : (Token → Bool) → List Token → Bool
are_trusted trusted ts = not (any (λ t. not (trusted t)) ts)

-- A delivery of the same partition that does not come before, whose token is trusted, while no trusted
-- token is cancelled.
pub record IsLater {I : Type 0} (trusted : Token → Bool) (p : Position) (d : Delivery I)
    : Type 0 where
  pub at : Position
  pub position : d.context.position ≡ some at
  pub later : is_covered_by p at ≡ true
  pub valid : any_of (λ t. not (trusted t)) d.context.revocation ≡ false
  pub trusts : Trusts trusted d.tokens

trusted_fine :
    (trusted : Token → Bool) (tokens : Tokens) (owners : List Token)
    → Trusts trusted tokens
    → any (λ t. not (trusted t)) owners ≡ false
    → any (λ t. is_cancelled t tokens) owners ≡ false
unfolding Trusts
trusted_fine trusted tokens [] h k = refl
trusted_fine trusted tokens (t ∷ ts) h k = ground (arith, h t, k, trusted_fine trusted tokens ts h)

module _ {K T : Type 0} ⦃e : Eq K⦄ where
  -- The tokens behind the entry of a key are trusted, and it holds everything up to a position.
  pub record Covers (trusted : Token → Bool) (key : K) (p : Position) (entries : Entries K T)
      : Type 0 where
    pub owned : any (λ t. not (trusted t)) (entry_of key entries).owners ≡ false
    pub held : is_applied (some p) (entry_of key entries).position ≡ true

  Covers-fine :
      (trusted : Token → Bool) (key : K) (p : Position) (tokens : Tokens) (entries : Entries K T)
      → Trusts trusted tokens
      → Covers trusted key p entries
      → is_stale tokens (entry_of key entries) ≡ false
  unfolding is_stale
  Covers-fine trusted key p tokens entries h c =
      trusted_fine trusted tokens (entry_of key entries).owners h c.owned

  Covers-begin :
      (default : T) (trusted : Token → Bool) (tokens : Tokens) (key other : K) (p : Position)
      (context : StateContext) (entries : Entries K T)
      → Trusts trusted tokens
      → Covers trusted key p entries
      → Covers trusted key p (begin default tokens other context entries).0
  unfolding fresh
  Covers-begin default trusted tokens key other p context entries h c =
      let same = entry_of-begin default tokens other key context entries in
      let fine = Covers-fine trusted key p tokens entries h c in
      record {
        owned = ground (arith, fine, c.owned, same, e.eq_iff other key);
        held = ground (arith, fine, c.held, same, e.eq_iff other key);
      }

  -- A commit of a later delivery, also under the key itself if the owners so far are trusted.
  Covers-commit_value :
      (trusted orphaned : Token → Bool) (key : K) (p : Position) (txn : Txn K) (value : Option T)
      (at : Position) (entries : Entries K T)
      → txn.position ≡ some at
      → is_covered_by p at ≡ true
      → any_of (λ t. not (trusted t)) txn.owner ≡ false
      → (txn.key ≡ key → any (λ t. not (trusted t)) (entry_of key entries).owners ≡ false)
      → (txn.key ≢ key → Covers trusted key p entries)
      → Covers trusted key p (commit_value orphaned txn value entries)
  unfolding commit_value is_applied
  Covers-commit_value trusted orphaned key p txn value at entries position later valid owned c =
      let owners = (entry_of txn.key entries).owners in
      let kept = own orphaned txn.owner owners in
      let found : Entry T = record { value = value; position = txn.position; owners = kept } in
      let bad = λ (t : Token). not (trusted t) in
      let after = entry_of-insert txn.key key found entries in
      elim (Bool-cases (txn.key == key)) [
        | inl same ↦
            let equal = (e.eq_iff txn.key key).0 same in
            let fine : any bad owners ≡ false =
              subst (λ k. any bad (entry_of k entries).owners ≡ false) (sym equal) (owned equal) in
            let kept_fine = any-retain-false bad (λ t. not (orphaned t)) owners fine in
            record {
              owned =
                  ground
                    (arith, same, after, any-own bad orphaned txn.owner owners, kept_fine, valid);
              held = ground (arith, same, after, position, later);
            }
        | inr differ ↦
            let elsewhere = c (ground (arith, differ, e.eq_iff txn.key key)) in
            record {
              owned = ground (arith, differ, after, elsewhere.owned);
              held = ground (arith, differ, after, elsewhere.held);
            }
      ]

  Covers-change :
      (trusted orphaned : Token → Bool) (key : K) (p : Position) (txn : Txn K) (f : Final T)
      (at : Position) (entries : Entries K T)
      → f ≢ unchanged
      → txn.position ≡ some at
      → is_covered_by p at ≡ true
      → any_of (λ t. not (trusted t)) txn.owner ≡ false
      → (txn.key ≡ key → any (λ t. not (trusted t)) (entry_of key entries).owners ≡ false)
      → (txn.key ≢ key → Covers trusted key p entries)
      → Covers trusted key p (commit orphaned txn (some f) entries).0
  unfolding commit
  Covers-change trusted orphaned key p txn unchanged at entries changes position later valid owned
        c =
      elim (changes refl) [ ]
  Covers-change trusted orphaned key p txn (set v) at entries changes position later valid owned c =
      Covers-commit_value trusted orphaned key p txn (some v) at entries position later valid owned
        c
  Covers-change trusted orphaned key p txn cleared at entries changes position later valid owned c =
      Covers-commit_value trusted orphaned key p txn none at entries position later valid owned c

  Covers-commit :
      (trusted orphaned : Token → Bool) (key : K) (p : Position) (txn : Txn K)
      (f : Option (Final T)) (at : Position) (entries : Entries K T)
      → txn.position ≡ some at
      → is_covered_by p at ≡ true
      → any_of (λ t. not (trusted t)) txn.owner ≡ false
      → Covers trusted key p entries
      → Covers trusted key p (commit orphaned txn f entries).0
  unfolding commit
  Covers-commit trusted orphaned key p txn none at entries position later valid c = c
  Covers-commit trusted orphaned key p txn (some unchanged) at entries position later valid c = c
  Covers-commit trusted orphaned key p txn (some (set v)) at entries position later valid c =
      Covers-commit_value trusted orphaned key p txn (some v) at entries position later valid
        (λ same. c.owned) (λ elsewhere. c)
  Covers-commit trusted orphaned key p txn (some cleared) at entries position later valid c =
      Covers-commit_value trusted orphaned key p txn none at entries position later valid
        (λ same. c.owned) (λ elsewhere. c)

module _ {I K T O : Type 0} ⦃e : Eq K⦄ (h : Stateful I K T O) (trusted : Token → Bool) (key : K)
    (p : Position) where
  Covers-handled :
      (orphaned : Token → Bool) (stored : Entries K T) (txn : Txn K) (s : State T) (at : Position)
      (answer : Answer BoxError (Handled T (Emit O)))
      → txn.position ≡ some at
      → is_covered_by p at ≡ true
      → any_of (λ t. not (trusted t)) txn.owner ≡ false
      → Covers trusted key p stored
      → Covers trusted key p (settle h orphaned (stored, after_handle h txn s answer))
  unfolding settle after_handle
  Covers-handled orphaned stored txn s at (returns r) position later valid c =
      Covers-commit trusted orphaned key p txn _ at stored position later valid c
  Covers-handled orphaned stored txn s at (retry x) position later valid c = c
  Covers-handled orphaned stored txn s at (reject x) position later valid c = c
  Covers-handled orphaned stored txn s at (fatal x) position later valid c = c

  Covers-begun :
      (orphaned : Token → Bool) (stored : Entries K T) (input : I) (at : Position)
      (begun : Begin (State T) (Txn K))
      → ((s : State T) (txn : Txn K)
          → begun ≡ ready s txn
          → (txn.position ≡ some at) × (any_of (λ t. not (trusted t)) txn.owner ≡ false))
      → is_covered_by p at ≡ true
      → Covers trusted key p stored
      → Covers trusted key p (settle h orphaned (stored, after_begin h input begun))
  unfolding settle after_begin
  Covers-begun orphaned stored input at applied begins later c = c
  Covers-begun orphaned stored input at (ready s txn) begins later c =
      let (position, valid) = begins s txn refl in
      Covers-handled orphaned stored txn s at (h.handler input s) position later valid c

  Covers-keyed :
      (d : Delivery I) (entries : Entries K T) (found : Answer BoxError K)
      → IsLater trusted p d
      → Covers trusted key p entries
      → Covers trusted key p
          (settle h d.orphaned (with_key h d.tokens d.input d.context entries found))
  unfolding settle with_key
  Covers-keyed d entries (returns other) l c =
      let begun = begin h.default d.tokens other d.context entries in
      Covers-begun d.orphaned begun.0 d.input l.at begun.1
        (λ s txn ready_with.
          let (at, k, position, owner) =
            starts h.default d.tokens other d.context entries s txn ready_with in
          (ground (arith, position, l.position), ground (arith, owner, l.valid)))
        l.later (Covers-begin h.default trusted d.tokens key other p d.context entries l.trusts c)
  Covers-keyed d entries (retry x) l c = c
  Covers-keyed d entries (reject x) l c = c
  Covers-keyed d entries (fatal x) l c = c

  Covers-deliver_all :
      (ds : List (Delivery I)) (entries : Entries K T)
      → All (IsLater trusted p) ds
      → Covers trusted key p entries
      → Covers trusted key p (deliver_all h ds entries)
  unfolding deliver_all deliver run_stateful
  Covers-deliver_all [] entries l c = c
  Covers-deliver_all (d ∷ ds) entries (l, ls) c =
      Covers-deliver_all ds _ ls (Covers-keyed d entries (h.key d.input d.context) l c)

begin-Covers :
    {K T : Type 0} ⦃e : Eq K⦄ (default : T) (trusted : Token → Bool) (tokens : Tokens) (key : K)
    (p : Position) (context : StateContext) (entries : Entries K T)
    → context.position ≡ some p
    → Trusts trusted tokens
    → Covers trusted key p entries
    → (begin default tokens key context entries).1 ≡ applied
unfolding begin fresh
begin-Covers default trusted tokens key p context entries position h c =
    ground (arith, position, Covers-fine trusted key p tokens entries h c, c.held)

-- A delivery whose change of its state was committed, be it that the value was set or cleared, is
-- recognised when it comes again, after any later deliveries of its partition under any keys: the
-- handler does not run again and there is nothing to commit. The tokens may change meanwhile. What is
-- assumed is that none of a set of tokens is cancelled, which holds those of the entry it started from,
-- its own and those of the later deliveries.
pub redelivery_is_skipped :
    {I K T O : Type 0} ⦃e : Eq K⦄ (h : Stateful I K T O) (trusted : Token → Bool)
    (first again : Delivery I) (key : K) (at : Position) (entries : Entries K T) (s : State T)
    (txn : Txn K) (f : Final T) (ds : List (Delivery I))
    → f ≢ unchanged
    → h.key again.input again.context ≡ returns key
    → first.context.position ≡ some at
    → again.context.position ≡ some at
    → (begin h.default first.tokens key first.context entries).1 ≡ ready s txn
    → are_trusted trusted
        (entry_of key (begin h.default first.tokens key first.context entries).0).owners
      ≡ true
    → any_of (λ t. not (trusted t)) first.context.revocation ≡ false
    → All (IsLater trusted at) ds
    → Trusts trusted again.tokens
    → (run_stateful h again.tokens again.input (some again.context) (
        deliver_all h ds
          (commit first.orphaned txn
            (some f)
            (begin h.default first.tokens key first.context entries).0).0)).1
      ≡ returns (record { outputs = nothing; commit = none })
unfolding run_stateful with_key after_begin
redelivery_is_skipped h trusted first again key at entries s txn f ds changes keyed position
      position' begun owned valid later trusts =
    let (found, k, txn_position, owner) =
      starts h.default first.tokens key first.context entries s txn begun in
    let stored = (begin h.default first.tokens key first.context entries).0 in
    let committed =
      Covers-change trusted first.orphaned key at txn f at stored changes
        (ground (arith, txn_position, position)) (covered_by_itself at)
        (ground (arith, owner, valid)) (λ same. ground (arith, owned))
        (λ differ. ground (arith, differ, k)) in
    let before = deliver_all h ds (commit first.orphaned txn (some f) stored).0 in
    let c = Covers-deliver_all h trusted key at ds _ later committed in
    subst
      (λ r.
        (with_key h again.tokens again.input again.context before r).1
        ≡ returns (record { outputs = nothing; commit = none }))
      (sym keyed)
      (ap (after_begin h again.input) (
        begin-Covers h.default trusted again.tokens key at again.context before position' trusts c))
