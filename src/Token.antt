-- ===== src/Token.antt =====
-- src/shutdown.rs: cancellation tokens. A token is the identity of its watch channel, which every
-- clone shares; the channels of a program and their values are the store `Tokens`. Waiting for a
-- cancellation and reference counts are not modelled.
use beave_rs.Base.{ℕ, suc, ◌≤◌, ◌≡◌, arith, Bool, true, false, [], nat_eq, nat_beq, if◌then◌else◌}
use beave_rs.Base.Map.{Set, insert, contains, lookup-insert}

abbrev pub Token : Type 0
Token = ℕ

pub record Tokens : Type 0 where
  pub next : Token
  pub cancelled : Set Token

abbrev pub no_tokens : Tokens
no_tokens = record { next = 0; cancelled = [] }

unfoldable pub new : Tokens → Tokens × Token
new t = (record t { next = suc t.next }, t.next)

unfoldable pub cancel : Token → Tokens → Tokens
cancel i t = record t { cancelled = insert i tt t.cancelled }

unfoldable pub is_cancelled : Token → Tokens → Bool
is_cancelled i t = contains i t.cancelled

-- Whether `other` is this token or a clone of it.
unfoldable pub same : Token → Token → Bool
same i j = nat_beq i j

-- No token is cancelled before it exists.
abbrev pub AreFresh : Tokens → Type 0
AreFresh t = (i : Token) → t.next ≤ i → is_cancelled i t ≡ false

pub is_cancelled-cancel :
    (i j : Token) (t : Tokens)
    → is_cancelled j (cancel i t) ≡ (if nat_beq i j then true else is_cancelled j t)
unfolding is_cancelled cancel
is_cancelled-cancel i j t = ground (arith, lookup-insert i j tt t.cancelled)
