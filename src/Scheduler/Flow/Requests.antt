-- ===== src/Scheduler/Flow/Requests.antt =====
-- The pause and resume requests of src/subscription/scheduler.rs, as the source receives them.
use beave_rs.Base.{
  ℕ, ◌-◌, ◌≡◌, refl, true, false, arith, Bool, List, [], ◌∷◌, ◌++◌, Eq, ◌==◌, if◌then◌else◌,
  Option-cases, inl, inr,
}
use beave_rs.Base.Map.{lookup, contains, lookup-insert, lookup-remove}
use beave_rs.Scheduler.Flow.{FlowChange, pause, resume, FlowControl, add, settle, release}

module _ {ℓ} {K : Type ℓ} ⦃e : Eq K⦄ where
  -- The paused keys of a source that carries out one request.
  abbrev pub carry_out : FlowChange K → (K → Bool) → K → Bool
  carry_out (pause key) held k = if key == k then true else held k
  carry_out (resume key) held k = if key == k then false else held k

  abbrev pub carry_out_all : List (FlowChange K) → (K → Bool) → K → Bool
  carry_out_all [] held = held
  carry_out_all (c ∷ cs) held = carry_out_all cs (carry_out c held)

  -- A pause is asked of a key that is not paused, a resume of one that is.
  abbrev pub IsNeeded : FlowChange K → (K → Bool) → Type 0
  IsNeeded (pause key) held = held key ≡ false
  IsNeeded (resume key) held = held key ≡ true

  abbrev pub AllNeeded : List (FlowChange K) → (K → Bool) → Type 0
  AllNeeded [] held = Unit
  AllNeeded (c ∷ cs) held = IsNeeded c held × AllNeeded cs (carry_out c held)

  carry_out_all-append :
      (cs : List (FlowChange K)) (c : FlowChange K) (held : K → Bool)
      → carry_out_all (cs ++ c ∷ []) held ≡ carry_out c (carry_out_all cs held)
  carry_out_all-append [] c held = refl
  carry_out_all-append (d ∷ cs) c held = carry_out_all-append cs c (carry_out d held)

  AllNeeded-append :
      (cs : List (FlowChange K)) (c : FlowChange K) (held : K → Bool)
      → AllNeeded cs held
      → IsNeeded c (carry_out_all cs held)
      → AllNeeded (cs ++ c ∷ []) held
  AllNeeded-append [] c held h n = (n, tt)
  AllNeeded-append (d ∷ cs) c held h n = (h.0, AllNeeded-append cs c (carry_out d held) h.1 n)

  -- The requests that wait for the source take it from the keys that it holds to the paused keys.
  pub record Mirrors (held : K → Bool) (f : FlowControl K) : Type ℓ where
    pub reached : (k : K) → carry_out_all f.changes held k ≡ contains k f.paused
    pub needed : AllNeeded f.changes held

  pub add-Mirrors :
      (held : K → Bool) (f : FlowControl K) (key : K) → Mirrors held f → Mirrors held (add key f)
  unfolding add
  add-Mirrors held f key m = record {
    reached = λ k. ground (
      arith,
      e.eq_iff key k,
      m.reached k,
      lookup-insert key k tt f.paused,
      carry_out_all-append f.changes (pause key) held,
    );
    needed =
        ground
          (arith, m.needed, m.reached key, AllNeeded-append f.changes (pause key) held m.needed);
  }

  settle-Mirrors :
      (held : K → Bool) (f : FlowControl K) (key : K) (count : ℕ)
      → Mirrors held f
      → Mirrors held (settle key count f)
  unfolding settle
  settle-Mirrors held f key count m = record {
    reached = λ k. ground (
      arith,
      e.eq_iff key k,
      m.reached k,
      lookup-remove key k f.paused,
      carry_out_all-append f.changes (resume key) held,
    );
    needed =
        ground
          (arith, m.needed, m.reached key, AllNeeded-append f.changes (resume key) held m.needed);
  }

  pub release-Mirrors :
      (held : K → Bool) (f : FlowControl K) (key : K)
      → Mirrors held f
      → Mirrors held (release key f)
  unfolding release
  release-Mirrors held f key m = elim (Option-cases (lookup key f.unfinished)) [
    | inl missing ↦ rw (missing, release) m
    | inr (count, found) ↦ rw (found, release) (settle-Mirrors held f key (count - 1) m)
  ]
