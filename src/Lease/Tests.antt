-- ===== src/Lease/Tests.antt =====
-- The leases of src/adapters/sqs/lease.rs at concrete times.
use beave_rs.Base.{◌*◌, ◌≤◌, ◌<◌, ◌≡◌, ◌⊎◌, refl, nat_eq, true, arith, none, some, [], ◌∷◌, All}
use beave_rs.Base.Map.{lookup, insert, IsMap}
use beave_rs.Token.{no_tokens, is_cancelled}
use beave_rs.Token
use beave_rs.Lease.{Lease, Leases, new, add, due, expire, request, requests, ask, one_second}
use beave_rs.Lease.Laws.{IsDue, due_expires, due_requests, IsWellFormed}

-- One message, received at second 0 with a visibility of 30 seconds.
abbrev held : Leases
held = (add "handle" 0 (new (30 * one_second) no_tokens)).0

abbrev first : Lease
first = record { receipt_handle = "handle"; expires = 30 * one_second; received = 0; revoked = 0 }

held_first : lookup 1 held.entries ≡ some first
unfolding add new Token.new lookup insert
held_first = refl

held-IsMap : IsMap held.entries
unfolding add new Token.new lookup insert
held-IsMap = (refl, tt)

held-IsWellFormed : IsWellFormed held
unfolding add new Token.new lookup insert
held-IsWellFormed = record {
  ids = held-IsMap;
  issued = λ id lease found. (ground (arith, found), ground (arith, found));
  apart = λ id other lease second found there same. ground (arith, found, there);
}

-- After ten seconds a third of the visibility has passed.
due_after_a_third : (due (10 * one_second) held).1 ≡ (1, "handle", 30 * one_second) ∷ []
unfolding add new Token.new lookup insert due expire requests request ask
due_after_a_third = refl

not_due_before : (due (9 * one_second) held).1 ≡ []
unfolding add new Token.new lookup insert due expire requests request ask
not_due_before = refl

due_expires_example :
    ((30 * one_second ≤ 40 * one_second)
      × (lookup 1 (due (40 * one_second) held).0.entries ≡ none)
      × (is_cancelled 0 (due (40 * one_second) held).0.tokens ≡ true))
    ⊎ ((40 * one_second < 30 * one_second)
        × (lookup 1 (due (40 * one_second) held).0.entries ≡ some first)
        × (is_cancelled 0 (due (40 * one_second) held).0.tokens ≡ is_cancelled 0 held.tokens))
due_expires_example = due_expires (40 * one_second) 1 held first held-IsWellFormed held_first

due_requests_example :
    All (IsDue (10 * one_second) (due (10 * one_second) held).0) (due (10 * one_second) held).1
due_requests_example = due_requests (10 * one_second) held held-IsMap
