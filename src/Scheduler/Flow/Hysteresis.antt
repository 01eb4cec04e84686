-- ===== src/Scheduler/Flow/Hysteresis.antt =====
-- Counting and pausing of src/subscription/scheduler.rs: a key pauses at the limit and resumes at
-- half of it.
use beave_rs.Base.{
  ℕ, ◌+◌, ◌-◌, ◌/◌, ◌≤◌, ◌<◌, ◌≡◌, ◌≢◌, true, arith, if◌then◌else◌, Bool, some, Eq, ◌==◌,
  Option-cases, inl, inr,
}
use beave_rs.Base.Map.{lookup, contains, unwrap_or, lookup-insert, lookup-remove}
use beave_rs.Scheduler.Flow.{FlowControl, add, settle, release}

module _ {ℓ} {K : Type ℓ} ⦃e : Eq K⦄ where
  -- Unfinished deliveries of a key.
  abbrev pub unfinished_of : FlowControl K → K → ℕ
  unfinished_of f k = unwrap_or (lookup k f.unfinished) 0

  abbrev pub is_paused : FlowControl K → K → Bool
  is_paused f k = contains k f.paused

  pub record FlowInv (f : FlowControl K) : Type ℓ where
    pub no_zero : (k : K) → lookup k f.unfinished ≢ some 0
    pub paused_high : (k : K) → is_paused f k ≡ true → f.limit / 2 < unfinished_of f k
    pub high_paused :
        (k : K) → f.limit ≤ unfinished_of f k → 0 < unfinished_of f k → is_paused f k ≡ true

  pub unfinished_of-add :
      (f : FlowControl K) (key k : K)
      → unfinished_of (add key f) k ≡ unfinished_of f k + (if key == k then 1 else 0)
  unfolding add
  unfinished_of-add f key k = ground (
    arith,
    e.eq_iff key k,
    lookup-insert key k (unwrap_or (lookup key f.unfinished) 0 + 1) f.unfinished,
  )

  pub unfinished_of-release :
      (f : FlowControl K) (key k : K)
      → unfinished_of (release key f) k ≡ unfinished_of f k - (if key == k then 1 else 0)
  unfolding release settle
  unfinished_of-release f key k = elim (Option-cases (lookup key f.unfinished)) [
    | inl missing ↦ ground (arith, e.eq_iff key k)
    | inr (count, found) ↦ ground (
      arith,
      found,
      e.eq_iff key k,
      lookup-insert key k (count - 1) f.unfinished,
      lookup-remove key k f.unfinished,
    )
  ]

  pub add-FlowInv : (f : FlowControl K) (key : K) → FlowInv f → FlowInv (add key f)
  unfolding add
  add-FlowInv f key v = record {
    no_zero = λ k. ground (
      arith,
      e.eq_iff key k,
      v.no_zero k,
      lookup-insert key k (unwrap_or (lookup key f.unfinished) 0 + 1) f.unfinished,
    );
    paused_high = λ k. ground (
      arith,
      e.eq_iff key k,
      v.paused_high k,
      lookup-insert key k (unwrap_or (lookup key f.unfinished) 0 + 1) f.unfinished,
      lookup-insert key k tt f.paused,
    );
    high_paused = λ k. ground (
      arith,
      e.eq_iff key k,
      v.high_paused k,
      lookup-insert key k (unwrap_or (lookup key f.unfinished) 0 + 1) f.unfinished,
      lookup-insert key k tt f.paused,
    );
  }

  settle-FlowInv :
      (f : FlowControl K) (key : K) (count : ℕ)
      → lookup key f.unfinished ≡ some count
      → FlowInv f
      → FlowInv (settle key (count - 1) f)
  unfolding settle
  settle-FlowInv f key count found v = record {
    no_zero = λ k. ground (
      arith,
      e.eq_iff key k,
      v.no_zero k,
      lookup-insert key k (count - 1) f.unfinished,
      lookup-remove key k f.unfinished,
    );
    paused_high = λ k. ground (
      arith,
      e.eq_iff key k,
      v.paused_high k,
      lookup-insert key k (count - 1) f.unfinished,
      lookup-remove key k f.unfinished,
      lookup-remove key k f.paused,
    );
    high_paused = λ k. ground (
      arith,
      e.eq_iff key k,
      v.high_paused k,
      lookup-insert key k (count - 1) f.unfinished,
      lookup-remove key k f.unfinished,
      lookup-remove key k f.paused,
    );
  }

  pub release-FlowInv : (f : FlowControl K) (key : K) → FlowInv f → FlowInv (release key f)
  unfolding release
  release-FlowInv f key v = elim (Option-cases (lookup key f.unfinished)) [
    | inl missing ↦ rw (missing, release) v
    | inr (count, found) ↦ rw (found, release) (settle-FlowInv f key count found v)
  ]
