-- ===== src/Lease/Laws.antt =====
-- Expiry, extension and revocation of the leases of src/adapters/sqs/lease.rs.
use beave_rs.Base.{
  ℕ, ◌+◌, ◌-◌, ◌*◌, ◌/◌, ◌≤◌, ◌<◌, ◌≡◌, ◌⊎◌, refl, arith, leb, leb→le, nat_beq, nat_beq_iff, nat_eq,
  if◌then◌else◌, true, ◌≢◌, String, Option, none, some, List, [], ◌∷◌, Bool-cases, inl, inr, All,
}
use beave_rs.Base.Map.{Map, IsMap, lookup}
use beave_rs.Token.{Token, Tokens, cancel, is_cancelled, is_cancelled-cancel}
use beave_rs.Lease.{max_visibility, one_second, Lease, Leases, expire, request, ask, requests, due}

-- The lease found under an id, unless it expired.
abbrev pub unexpired : ℕ → Option Lease → Option Lease
unexpired now none = none
unexpired now (some lease) = if leb lease.expires now then none else some lease

pub expire-lookup :
    (now id : ℕ) (m : Map ℕ Lease) (tokens : Tokens)
    → IsMap m
    → lookup id (expire now m tokens).0 ≡ unexpired now (lookup id m)
unfolding expire lookup
expire-lookup now id [] tokens h = refl
expire-lookup now id ((k, lease) ∷ m) tokens h =
    let after = if leb lease.expires now then cancel lease.revoked tokens else tokens in
    let later = expire-lookup now id m after h.1 in ground (arith, later, h, nat_beq_iff k id)

pub expire-IsMap :
    (now : ℕ) (m : Map ℕ Lease) (tokens : Tokens) → IsMap m → IsMap (expire now m tokens).0
unfolding expire
expire-IsMap now [] tokens h = tt
expire-IsMap now ((k, lease) ∷ m) tokens h =
    let after = if leb lease.expires now then cancel lease.revoked tokens else tokens in
    ground (arith, expire-lookup now k m after h.1, expire-IsMap now m after h.1, h)

keeps_cancelled :
    (now : ℕ) (j : Token) (m : Map ℕ Lease) (tokens : Tokens)
    → is_cancelled j tokens ≡ true
    → is_cancelled j (expire now m tokens).1 ≡ true
unfolding expire
keeps_cancelled now j [] tokens h = h
keeps_cancelled now j ((k, lease) ∷ m) tokens h =
    keeps_cancelled now j m (if leb lease.expires now then cancel lease.revoked tokens else tokens)
      (ground (arith, is_cancelled-cancel lease.revoked j tokens))

expired-cancelled :
    (now id : ℕ) (lease : Lease) (m : Map ℕ Lease) (tokens : Tokens)
    → lookup id m ≡ some lease
    → lease.expires ≤ now
    → is_cancelled lease.revoked (expire now m tokens).1 ≡ true
unfolding expire lookup
expired-cancelled now id lease [] tokens found over = ground arith
expired-cancelled now id lease ((k, other) ∷ m) tokens found over =
    let after = if leb other.expires now then cancel other.revoked tokens else tokens in
    elim (Bool-cases (nat_beq k id)) [
      | inl same ↦
          keeps_cancelled now lease.revoked m after
            (ground (arith, same, found, is_cancelled-cancel other.revoked lease.revoked tokens))
      | inr differ ↦ expired-cancelled now id lease m after (ground (arith, differ, found)) over
    ]

-- A token that no expired lease has is left as it is.
expire-is_cancelled :
    (now : ℕ) (j : Token) (m : Map ℕ Lease) (tokens : Tokens)
    → IsMap m
    → ((id : ℕ) (lease : Lease)
        → lookup id m ≡ some lease
        → lease.expires ≤ now
        → lease.revoked ≢ j)
    → is_cancelled j (expire now m tokens).1 ≡ is_cancelled j tokens
unfolding expire lookup
expire-is_cancelled now j [] tokens h differ = refl
expire-is_cancelled now j ((k, lease) ∷ m) tokens h differ =
    let after = if leb lease.expires now then cancel lease.revoked tokens else tokens in
    let first : lease.expires ≤ now → lease.revoked ≢ j =
      differ k lease (ground (arith, nat_beq_iff k k)) in
    let later =
      expire-is_cancelled now j m after h.1
        (λ id l found over. differ id l (ground (arith, h.0, found, nat_beq_iff k id)) over) in
    elim (Bool-cases (leb lease.expires now)) [
      | inl over ↦
          let other = first (leb→le lease.expires now over) in
          ground (arith, later, over, other, is_cancelled-cancel lease.revoked j tokens)
      | inr ahead ↦ ground (arith, later, ahead)
    ]

-- Ids and tokens are given out once: no id is above the last one, and no two leases share a token.
pub record IsWellFormed (ls : Leases) : Type 0 where
  pub ids : IsMap ls.entries
  pub issued :
      (id : ℕ) (lease : Lease)
      → lookup id ls.entries ≡ some lease
      → (id ≤ ls.next) × (lease.revoked < ls.tokens.next)
  pub apart :
      (id other : ℕ) (lease second : Lease)
      → lookup id ls.entries ≡ some lease
      → lookup other ls.entries ≡ some second
      → lease.revoked ≡ second.revoked
      → id ≡ other

-- Looking for due leases ends a lease that expired and revokes its delivery, and keeps a lease that
-- did not expire as it is and revokes its delivery no more than it was revoked before.
pub due_expires :
    (now id : ℕ) (ls : Leases) (lease : Lease)
    → IsWellFormed ls
    → lookup id ls.entries ≡ some lease
    → ((lease.expires ≤ now)
        × (lookup id (due now ls).0.entries ≡ none)
        × (is_cancelled lease.revoked (due now ls).0.tokens ≡ true))
      ⊎ ((now < lease.expires)
          × (lookup id (due now ls).0.entries ≡ some lease)
          × (is_cancelled lease.revoked (due now ls).0.tokens
              ≡ is_cancelled lease.revoked ls.tokens))
unfolding due
due_expires now id ls lease h found =
    let at = expire-lookup now id ls.entries ls.tokens h.ids in
    elim (Bool-cases (leb lease.expires now)) [
      | inl over ↦ inl (
        leb→le lease.expires now over,
        ground (arith, at, found, over),
        expired-cancelled now id lease ls.entries ls.tokens found (leb→le lease.expires now over),
      )
      | inr ahead ↦ inr (
        ground (arith, ahead),
        ground (arith, at, found, ahead),
        expire-is_cancelled now lease.revoked ls.entries ls.tokens h.ids
            (λ other second there over same.
              expired_differs now id other ls lease second h found there over same
                (ground (arith, ahead))),
      )
    ]
  where
    expired_differs :
        (now id other : ℕ) (ls : Leases) (lease second : Lease)
        → IsWellFormed ls
        → lookup id ls.entries ≡ some lease
        → lookup other ls.entries ≡ some second
        → second.expires ≤ now
        → second.revoked ≡ lease.revoked
        → now < lease.expires
        → ⊥
    expired_differs now id other ls lease second h found there over same ahead =
        ground (arith, h.apart other id second lease there found same, found, there, over, ahead)

request_bounds :
    (now visibility : ℕ) (lease : Lease) (timeout : ℕ)
    → request now visibility lease ≡ some timeout
    → (one_second ≤ timeout)
      × (timeout ≤ visibility)
      × (timeout + (now - lease.received) ≤ max_visibility)
      × (lease.expires ≤ now + visibility * 2 / 3)
unfolding request
request_bounds now visibility lease timeout h = ground (arith, h)

ask-All :
    (r : Option ℕ) (id : ℕ) (handle : String) (later : List (ℕ × String × ℕ))
    (P : ℕ × String × ℕ → Type 0)
    → ((timeout : ℕ) → r ≡ some timeout → P (id, handle, timeout))
    → All P later
    → All P (ask r id handle later)
unfolding ask
ask-All none id handle later P each h = h
ask-All (some timeout) id handle later P each h = (each timeout refl, h)

requests-All :
    (now visibility : ℕ) (m : Map ℕ Lease) (P : ℕ × String × ℕ → Type 0)
    → IsMap m
    → ((id : ℕ) (lease : Lease) (timeout : ℕ)
        → lookup id m ≡ some lease
        → request now visibility lease ≡ some timeout
        → P (id, lease.receipt_handle, timeout))
    → All P (requests now visibility m)
unfolding requests lookup
requests-All now visibility [] P h each = tt
requests-All now visibility ((k, lease) ∷ m) P h each =
    ask-All (request now visibility lease) k lease.receipt_handle (requests now visibility m) P
      (λ timeout asked. each k lease timeout (ground (arith, nat_beq_iff k k)) asked)
      (requests-All now visibility m P h.1
        (λ id l t found asked. each id l t (ground (arith, h, found, nat_beq_iff k id)) asked))

kept_ahead :
    (now id : ℕ) (lease : Lease) (r : Option Lease)
    → unexpired now r ≡ some lease
    → now < lease.expires
kept_ahead now id lease none h = ground arith
kept_ahead now id lease (some other) h = ground (arith, h)

-- What an extension requests for a lease of `ls` that did not expire: its own handle, and a timeout of at least a second
-- and at most the visibility, which together with the time since the message was received stays
-- within twelve hours. The lease has at most two thirds of its visibility left.
abbrev pub IsDue : ℕ → Leases → ℕ × String × ℕ → Type 0
IsDue now ls (id, handle, timeout) =
    (lease : Lease) × (lookup id ls.entries ≡ some lease)
    × (now < lease.expires)
    × (handle ≡ lease.receipt_handle)
    × (one_second ≤ timeout)
    × (timeout ≤ ls.visibility)
    × (timeout + (now - lease.received) ≤ max_visibility)
    × (lease.expires ≤ now + ls.visibility * 2 / 3)

-- Each requested extension is for a lease that did not expire, with its own handle and a timeout of
-- at least a second and at most the visibility, which together with the time since the message was
-- received stays within twelve hours, and the lease has at most two thirds of its visibility left.
pub due_requests :
    (now : ℕ) (ls : Leases) → IsMap ls.entries → All (IsDue now (due now ls).0) (due now ls).1
unfolding due
due_requests now ls h =
    requests-All now ls.visibility (expire now ls.entries ls.tokens).0 (IsDue now (due now ls).0)
      (expire-IsMap now ls.entries ls.tokens h)
      (λ id lease timeout found asked.
        let (second, within, limit, left) = request_bounds now ls.visibility lease timeout asked in
        (
          lease,
          found,
          kept_ahead now id lease (lookup id ls.entries)
              (ground (arith, expire-lookup now id ls.entries ls.tokens h, found)),
          refl,
          second,
          within,
          limit,
          left,
        ))
