-- ===== src/State/Tests.antt =====
-- Counting deliveries of two keys with the store of src/state/memory.rs, and the theorems on it.
use beave_rs.Base.{
  ℕ, ◌+◌, ◌≡◌, refl, true, false, none, some, [], ◌∷◌, if◌then◌else◌, nat_beq, nat_eq, any, retain,
  not, ◌||◌, ◌≢◌, arith, Bool,
}
use beave_rs.Base.Map.{insert, lookup, unwrap_or}
use beave_rs.Base.Integers.{pos, int_beq, int_leb}
use beave_rs.Position.{Position, is_covered_by}
use beave_rs.Processing.{returns}
use beave_rs.Token.{no_tokens, is_cancelled, cancel, same, Token}
use beave_rs.State.{
  State, StateContext, Entry, Txn, Entries, write, set, ready, new_state, begin, commit, get,
  is_stale, is_applied, fresh, entry_of, own, commit_value, unchanged,
}
use beave_rs.State.Handling.{one, nothing, Stateful, run_stateful, deliver_all, Delivery}
use beave_rs.State.Beginning.{any_of, get-commit, is_stale-commit, revoked_is_discarded}
use beave_rs.State.Redelivery.{IsLater, redelivery_is_skipped, Trusts, are_trusted}

-- The input is the key, and the state counts.
abbrev counter : Stateful ℕ ℕ ℕ ℕ
counter = record {
  default = 0;
  key = λ input context. returns input;
  handler = λ input s.
      returns
        (record { output = one (s.value + 1); uses = write (λ n. n + 1) ∷ []; keeps = false });
}

abbrev at : ℕ → Position
at n = record { scope = "orders"; index = pos 0; offset = pos n }

abbrev delivery : ℕ → StateContext
delivery n = record {
  subscription = "count";
  message_key = none;
  position = some (at n);
  revocation = some 4;
}

abbrev empty : Entries ℕ ℕ
empty = []

abbrev txn : Txn ℕ
txn = record { key = 5; position = some (at 7); owner = some 4 }

abbrev start : State ℕ
start = new_state 0 none

-- The entry that the delivery at 7 left.
abbrev seven : Entry ℕ
seven = record { value = some 1; position = some (at 7); owners = 4 ∷ [] }

abbrev held : Entries ℕ ℕ
held = (5, seven) ∷ []

begun : (begin 0 no_tokens 5 (delivery 7) empty).1 ≡ ready start txn
unfolding begin fresh is_stale is_applied new_state entry_of lookup insert
begun = refl

valid : any_of (λ t. is_cancelled t no_tokens) (some 4) ≡ false
unfolding is_cancelled lookup
valid = refl

covers : is_covered_by (at 7) (at 8) ≡ true
unfolding is_covered_by int_beq int_leb
covers = refl

-- Token 4 is trusted.
abbrev four : Token → Bool
four t = nat_beq t 4

Trusts-none : Trusts four no_tokens
unfolding Trusts is_cancelled lookup
Trusts-none t h = refl

-- Another token is cancelled.
Trusts-five : Trusts four (cancel 5 no_tokens)
unfolding Trusts is_cancelled lookup cancel insert
Trusts-five t h = ground (arith, h)

abbrev first : Delivery ℕ
first = record { input = 5; context = delivery 7; tokens = no_tokens; orphaned = λ t. false }

abbrev second : ℕ → Delivery ℕ
second input = record {
  input = input;
  context = delivery 8;
  tokens = no_tokens;
  orphaned = λ t. false;
}

second-IsLater : (input : ℕ) → IsLater four (at 7) (second input)
second-IsLater input = record {
  at = at 8;
  position = refl;
  later = covers;
  valid = refl;
  trusts = Trusts-none;
}

no_owners : are_trusted four (entry_of 5 (begin 0 no_tokens 5 (delivery 7) empty).0).owners ≡ true
unfolding begin fresh is_stale entry_of lookup insert
no_owners = refl

changes : {v : ℕ} → set v ≢ unchanged
changes h = ground (arith, h)

get-commit_example :
    (start.value ≡ unwrap_or (get no_tokens 5 empty) 0)
    × (get no_tokens 5
          (commit (λ t. false) txn (some (set 1)) (begin 0 no_tokens 5 (delivery 7) empty).0).0
        ≡ (if nat_beq 5 5 then some 1 else get no_tokens 5 empty))
get-commit_example =
    get-commit 0 no_tokens (λ t. false) 5 5 (delivery 7) empty start txn (set 1) begun valid

is_stale-commit_example :
    is_stale (cancel 4 no_tokens) (entry_of 5 (commit (λ t. true) txn (some (set 2)) held).0) ≡ (
      any
        (λ t. is_cancelled t (cancel 4 no_tokens))
        (retain (λ t. not true) (entry_of 5 held).owners)
      || any_of (λ t. is_cancelled t (cancel 4 no_tokens)) txn.owner)
is_stale-commit_example = is_stale-commit (λ t. true) txn (set 2) (cancel 4 no_tokens) held changes

-- A token that is cancelled and has no other clone any more when another delivery commits is dropped,
-- and the entry that it helped to build is not discarded.
cancelled_and_orphaned :
    is_stale
      (cancel 4 no_tokens)
      (entry_of 5 (commit (λ t. nat_beq t 4) (record txn { owner = some 6 }) (some (set 2)) held).0)
    ≡ false
unfolding is_stale entry_of lookup is_cancelled cancel insert commit commit_value own same
cancelled_and_orphaned = refl

four_cancelled : is_cancelled 4 (cancel 4 no_tokens) ≡ true
unfolding is_cancelled lookup cancel insert
four_cancelled = refl

revoked_is_discarded_example :
    (get (cancel 4 no_tokens) 5 (commit (λ t. true) txn (some (set 2)) held).0 ≡ none)
    × ((begin 0
          (cancel 4 no_tokens)
          5
          (delivery 7)
          (commit (λ t. true) txn (some (set 2)) held).0).1
        ≡ ready start txn)
unfolding new_state
revoked_is_discarded_example =
    revoked_is_discarded 0 (cancel 4 no_tokens) (λ t. true) txn 4 (set 2) (delivery 7) held changes
      refl four_cancelled

redelivery_is_skipped_example :
    (run_stateful counter (cancel 5 no_tokens) 5 (some (delivery 7)) (
      deliver_all counter
        (second 6 ∷ second 5 ∷ [])
        (commit (λ t. false) txn (some (set 1)) (begin 0 no_tokens 5 (delivery 7) empty).0).0)).1
    ≡ returns (record { outputs = nothing; commit = none })
redelivery_is_skipped_example =
    redelivery_is_skipped counter four first (record first { tokens = cancel 5 no_tokens }) 5 (at 7)
      empty start txn (set 1) (second 6 ∷ second 5 ∷ []) changes refl refl refl begun no_owners refl
      (second-IsLater 6, (second-IsLater 5, tt)) Trusts-five
