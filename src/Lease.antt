-- ===== src/Lease.antt =====
-- src/adapters/sqs/lease.rs: the visibility leases of received messages. A time is nanoseconds, a
-- receipt handle a text, and a lease's revocation an identity in the store of tokens. The keeper's
-- loop and its requests to the service are not modelled.
pub mod Laws
pub mod Keeping
mod Tests
use beave_rs.Base.{
  ℕ, ◌+◌, ◌-◌, ◌*◌, ◌/◌, leb, min, max, if◌then◌else◌, Bool, String, Option, none, some, List, [],
  ◌∷◌, map, nat_eq,
}
use beave_rs.Base.Map.{Map, lookup, insert, remove}
use beave_rs.Token.{Token, Tokens, cancel}
use beave_rs.Token

-- Twelve hours.
abbrev pub max_visibility : ℕ
max_visibility = 43200 * 1000000000

abbrev pub one_second : ℕ
one_second = 1000000000

pub record Lease : Type 0 where
  pub receipt_handle : String
  pub expires : ℕ
  pub received : ℕ
  pub revoked : Token

pub record Leases : Type 0 where
  pub entries : Map ℕ Lease
  pub next : ℕ
  pub visibility : ℕ
  pub tokens : Tokens

unfoldable pub new : ℕ → Tokens → Leases
new visibility tokens = record { entries = []; next = 0; visibility = visibility; tokens = tokens }

unfoldable pub add : String → ℕ → Leases → Leases × ℕ × Token
add handle received ls =
    let id = ls.next + 1 in
    let (tokens, revoked) = Token.new ls.tokens in
    let lease : Lease = record {
      receipt_handle = handle;
      expires = received + ls.visibility;
      received = received;
      revoked = revoked;
    } in
    (record ls { next = id; tokens = tokens; entries = insert id lease ls.entries }, id, revoked)

handle_of : Option Lease → Option String
handle_of none = none
handle_of (some lease) = some lease.receipt_handle

-- `remove`, named for what it ends: the lease is not revoked.
unfoldable pub finish : ℕ → Leases → Leases × Option String
unfolding handle_of
finish id ls = (record ls { entries = remove id ls.entries }, handle_of (lookup id ls.entries))

unfoldable pub cancel_lease : Option Lease → Tokens → Tokens
cancel_lease none tokens = tokens
cancel_lease (some lease) tokens = cancel lease.revoked tokens

unfoldable pub revoke : ℕ → Leases → Leases
unfolding cancel_lease
revoke id ls = record ls {
  entries = remove id ls.entries;
  tokens = cancel_lease (lookup id ls.entries) ls.tokens;
}

unfoldable pub drain : Leases → Leases × List String
drain ls = (record ls { entries = [] }, map (λ entry. entry.1.receipt_handle) ls.entries)

-- The `retain` of `due`: expired leases go, and their tokens are cancelled.
unfoldable pub expire : ℕ → Map ℕ Lease → Tokens → Map ℕ Lease × Tokens
expire now [] tokens = ([], tokens)
expire now ((id, lease) ∷ rest) tokens =
    let (kept, after) =
      expire now rest (if leb lease.expires now then cancel lease.revoked tokens else tokens) in
    (if leb lease.expires now then kept else (id, lease) ∷ kept, after)

-- What one lease that did not expire asks for, if it is due.
unfoldable pub request : ℕ → ℕ → Lease → Option ℕ
request now visibility lease =
    let timeout = min visibility (max_visibility - (now - lease.received)) in
    if leb (lease.expires - now) (visibility * 2 / 3)
    then (if leb one_second timeout then some timeout else none)
    else none

-- One step of the `filter_map`.
unfoldable pub ask : Option ℕ → ℕ → String → List (ℕ × String × ℕ) → List (ℕ × String × ℕ)
ask none id handle later = later
ask (some timeout) id handle later = (id, handle, timeout) ∷ later

unfoldable pub requests : ℕ → ℕ → Map ℕ Lease → List (ℕ × String × ℕ)
unfolding ask
requests now visibility [] = []
requests now visibility ((id, lease) ∷ rest) =
    ask (request now visibility lease) id lease.receipt_handle (requests now visibility rest)

unfoldable pub due : ℕ → Leases → Leases × List (ℕ × String × ℕ)
due now ls =
    let (entries, tokens) = expire now ls.entries ls.tokens in
    (record ls { entries = entries; tokens = tokens }, requests now ls.visibility entries)

unfoldable pub extend_lease : Option Lease → ℕ → ℕ → Map ℕ Lease → Map ℕ Lease
extend_lease none id expires entries = entries
extend_lease (some lease) id expires entries =
    insert id (record lease { expires = max lease.expires expires }) entries

unfoldable pub extended : ℕ → ℕ → Leases → Leases
unfolding extend_lease
extended id expires ls = record ls {
  entries = extend_lease (lookup id ls.entries) id expires ls.entries;
}

-- `clamp` between half a second and a minute.
unfoldable pub interval : Leases → ℕ
interval ls = max 500000000 (min (ls.visibility / 3) 60000000000)
